-- ===== src/Session/Forgotten.antt =====
-- A read that src/Session.cpp forgets.
use yamemcached.Base.{
  append-nil, ℕ, zero, suc, ◌+◌, ◌^◌, ◌≤◌, ◌<◌, ◌≡◌, refl, ap, ◌∙◌, false, List, [], ◌∷◌, ◌++◌,
  length, take, drop, ok, ◌>>=◌, ◌==◌, arith, ==_of_ne, ==_refl,
}
use yamemcached.Request.Matcher.{Matcher}
use yamemcached.Request.Store.{Store}
use yamemcached.Request.Out.{sub_size}
use yamemcached.Session.State.{
  SessionState, reading_request, writing_reply, writing_with_pending_read, success, failure,
  postponed, Sending, accepted, send_would_block,
}
use yamemcached.Session.Output.{
  all_sent, send_blocked, send_all, send_replies, after_sending, write_out,
}
use yamemcached.Session.Sent.{length-drop, pending}
use yamemcached.Session.Process.{Conn, on_output, note_postponed, then_output, process}

take-all : (n : ℕ) (xs : List ℕ) → length xs ≤ n → take n xs ≡ xs
take-all zero [] h = refl
take-all zero (x ∷ xs) h = absurd (omega arith)
take-all (suc n) [] h = refl
take-all (suc n) (x ∷ xs) h = ap (λ (r : List ℕ). x ∷ r) (take-all n xs (omega arith))

some_left : (len offset : ℕ) → offset < len → len < 2 ^ 64 → (sub_size len offset == 0) ≡ false
some_left len offset h small = ==_of_ne _ _ (omega arith)

-- A call of `send` that takes all that is left.
send_whole :
    (n : ℕ) (rest : List Sending) (bytes : List ℕ) (offset : ℕ)
    → offset < length bytes
    → length bytes ≤ n
    → length bytes < 2 ^ 64
    → send_replies (accepted n ∷ rest) bytes offset
      ≡ (all_sent, length bytes, drop offset bytes, rest)
unfolding send_replies send_all
send_whole n rest bytes offset h whole small =
    let len : length (drop offset bytes) + offset ≡ length bytes =
      length-drop offset bytes (omega arith) in
    let once : take n (drop offset bytes) ≡ drop offset bytes =
      take-all n (drop offset bytes) (omega arith) in
    let last : offset + length (drop offset bytes) ≡ length bytes = omega arith in
    let not_none : (length (drop offset bytes) == 0) ≡ false = ==_of_ne _ _ (omega arith) in
    rw (some_left (length bytes) offset h small, once, not_none, last, ==_refl (length bytes)) refl

send_nothing :
    (rest : List Sending) (bytes : List ℕ) (offset : ℕ)
    → offset < length bytes
    → length bytes < 2 ^ 64
    → send_replies (send_would_block ∷ rest) bytes offset ≡ (send_blocked, offset, [], rest)
unfolding send_replies send_all
send_nothing rest bytes offset h small = rw (some_left (length bytes) offset h small) refl

module _ {S : Type 0} where
  abbrev pub with_sendings : Conn S → List Sending → Conn S
  with_sendings c script = record c { socket = record c.socket { sendings = script } }

  -- The session whose replies are all sent, with the flags that it then has.
  abbrev pub finished : Conn S → ℕ → List Sending → Conn S
  finished c flags left = record {
    session = record c.session {
      state = reading_request;
      out = record c.session.out { bytes = [] };
      out_buffer_offset = 0;
      postponed_epoll_flags = flags;
    };
    store = c.store;
    socket = record c.socket { sendings = left; sent = c.socket.sent ++ pending c.session };
  }

  -- The session whose `send` would block forgets that a read is pending.
  abbrev pub forgetful : Conn S → List Sending → Conn S
  forgetful c left = record {
    session = record c.session { state = writing_reply; postponed_epoll_flags = 0 };
    store = c.store;
    socket = record c.socket { sendings = left; sent = c.socket.sent ++ [] };
  }

module _ {S : Type 0} (store : Store S) (thread : ℕ) (junk : ℕ → ℕ) (matcher : Matcher) where
  -- `EPOLLOUT` alone.
  process_out :
      (c : Conn S) (st : SessionState)
      → c.session.state ≡ st
      → process store thread junk matcher 4 c
        ≡ ok (
            note_postponed (
              on_output failure
                (record c { session = record c.session { postponed_epoll_flags = 0 } })
                st))
  unfolding process then_output
  process_out c st e =
      ap
        (λ (x : SessionState). ok (
          note_postponed (
            on_output failure
              (record c { session = record c.session { postponed_epoll_flags = 0 } }) x)))
        e

  reply_whole :
      (c : Conn S) (n : ℕ) (rest : List Sending)
      → c.session.state ≡ writing_reply
      → c.session.out_buffer_offset < length c.session.out.bytes
      → length c.session.out.bytes ≤ n
      → length c.session.out.bytes < 2 ^ 64
      → process store thread junk matcher 4 (with_sendings c (accepted n ∷ rest))
        ≡ ok (success, finished c 0 rest)
  unfolding on_output note_postponed write_out after_sending
  reply_whole c n rest st h whole small =
      process_out (with_sendings c (accepted n ∷ rest)) writing_reply st
      ∙ rw (send_whole n rest c.session.out.bytes c.session.out_buffer_offset h whole small) refl

  hold_whole :
      (c : Conn S) (n : ℕ) (rest : List Sending)
      → c.session.state ≡ writing_with_pending_read
      → c.session.out_buffer_offset < length c.session.out.bytes
      → length c.session.out.bytes ≤ n
      → length c.session.out.bytes < 2 ^ 64
      → process store thread junk matcher 4 (with_sendings c (accepted n ∷ rest))
        ≡ ok (postponed, finished c 1 rest)
  unfolding on_output note_postponed write_out after_sending
  hold_whole c n rest st h whole small =
      process_out (with_sendings c (accepted n ∷ rest)) writing_with_pending_read st
      ∙ rw (send_whole n rest c.session.out.bytes c.session.out_buffer_offset h whole small) refl

  hold_blocked :
      (c : Conn S) (rest : List Sending)
      → c.session.state ≡ writing_with_pending_read
      → c.session.out_buffer_offset < length c.session.out.bytes
      → length c.session.out.bytes < 2 ^ 64
      → process store thread junk matcher 4 (with_sendings c (send_would_block ∷ rest))
        ≡ ok (success, forgetful c rest)
  unfolding on_output note_postponed write_out after_sending
  hold_blocked c rest st h small =
      process_out (with_sendings c (send_would_block ∷ rest)) writing_with_pending_read st
      ∙ rw (send_nothing rest c.session.out.bytes c.session.out_buffer_offset h small) refl

  -- A session that writes with a read pending, has less than 2^64 bytes of replies and some of
  -- them left, which the socket takes whole, is postponed with the read flagged; if the socket
  -- would block once before, the two events succeed and the session waits for a request with no
  -- read flagged.
  pub pending_read-forgotten :
      (c : Conn S) (n : ℕ) (rest : List Sending)
      → c.session.state ≡ writing_with_pending_read
      → c.session.out_buffer_offset < length c.session.out.bytes
      → length c.session.out.bytes ≤ n
      → length c.session.out.bytes < 2 ^ 64
      → (process store thread junk matcher 4 (with_sendings c (accepted n ∷ rest))
          ≡ ok (postponed, finished c 1 rest))
        × (process store thread junk matcher 4
              (with_sendings c (send_would_block ∷ accepted n ∷ rest))
            >>= λ r. process store thread junk matcher 4 r.1)
          ≡ ok (success, finished c 0 rest)
  pending_read-forgotten c n rest st h whole small = (
    hold_whole c n rest st h whole small,
    rw (hold_blocked c (accepted n ∷ rest) st h small) (
        reply_whole (forgetful c []) n rest refl h whole small
        ∙ ap
            (λ (xs : List ℕ). ok (
              success,
              record (finished c 0 rest) {
                socket = record c.socket { sendings = rest; sent = xs ++ pending c.session };
              },
            ))
            (append-nil c.socket.sent)),
  )

-- ===== src/Session/Sent.antt =====
-- What src/Session.cpp sends: the replies in their order, each byte once.
use yamemcached.Base.{
  ℕ, zero, suc, ◌+◌, ◌≤◌, ◌<◌, ◌≡◌, refl, sym, ap, ◌∙◌, Bool, true, false, List, [], ◌∷◌, ◌++◌,
  append_assoc, length, take, drop, ◌==◌, arith, Bool-cases, inl, inr, ==_iff,
}
use yamemcached.Request.Out.{sub_size}
use yamemcached.Session.State.{
  Session, SessionState, SessionResult, success, failure, postponed, reading_request, writing_reply,
  writing_with_pending_read, Sending, accepted, send_would_block, connection_reset, send_failed,
  Socket,
}
use yamemcached.Session.Output.{
  SendEnd, all_sent, sent_none, send_blocked, send_error, send_all, send_replies, after_sending,
  write_out,
}
use yamemcached.Session.Process.{Conn, on_output}

-- What is in the output buffer and was not yet sent.
abbrev pub pending : Session → List ℕ
pending s = drop s.out_buffer_offset s.out.bytes

take-drop : (n : ℕ) (xs : List ℕ) → take n xs ++ drop (length (take n xs)) xs ≡ xs
take-drop zero xs = refl
take-drop (suc n) [] = refl
take-drop (suc n) (x ∷ xs) = rw (take-drop n xs) refl

drop-nil : (n : ℕ) → drop {A = ℕ} n [] ≡ []
drop-nil zero = refl
drop-nil (suc n) = refl

drop-drop : (m n : ℕ) (xs : List ℕ) → drop (m + n) xs ≡ drop n (drop m xs)
drop-drop zero n xs = ap (λ (k : ℕ). drop k xs) (omega arith)
drop-drop (suc m) n [] = drop-nil (suc m + n) ∙ sym (drop-nil n)
drop-drop (suc m) n (x ∷ xs) =
    let e : suc m + n ≡ suc (m + n) = omega arith in
    ap (λ (k : ℕ). drop k (x ∷ xs)) e ∙ drop-drop m n xs

pub length-drop : (m : ℕ) (xs : List ℕ) → m ≤ length xs → length (drop m xs) + m ≡ length xs
length-drop zero xs h = omega arith
length-drop (suc m) [] h = omega arith
length-drop (suc m) (x ∷ xs) h = omega (arith, length-drop m xs (omega arith))

length-take : (n : ℕ) (xs : List ℕ) → length (take n xs) ≤ length xs
length-take zero xs = omega arith
length-take (suc n) [] = omega arith
length-take (suc n) (x ∷ xs) = omega (arith, length-take n xs)

drop-all : (xs : List ℕ) → drop (length xs) xs ≡ []
drop-all [] = refl
drop-all (x ∷ xs) = drop-all xs

-- A run of the loop of `send`: from `offset` to `last` the bytes were sent, and all were where it
-- says so.
pub record IsSent (bytes : List ℕ) (offset : ℕ) (end : SendEnd) (last : ℕ) (sent : List ℕ)
    : Type 0 where
  pub forward : offset ≤ last
  pub inside : last ≤ length bytes
  pub split : sent ++ drop last bytes ≡ drop offset bytes
  pub whole : end ≡ all_sent → last ≡ length bytes
  pub unfinished : (end ≡ all_sent → ⊥) → last < length bytes

stays :
    (bytes : List ℕ) (offset : ℕ) (end : SendEnd)
    → offset < length bytes
    → (end ≡ all_sent → ⊥)
    → IsSent bytes offset end offset []
stays bytes offset end h ne = record {
  forward = omega arith;
  inside = omega arith;
  split = refl;
  whole = λ e. absurd (ne e);
  unfinished = λ e. h;
}

-- What is left of the bytes after the next of them.
after_next :
    (n offset : ℕ) (bytes : List ℕ)
    → let once = take n (drop offset bytes) in
      once ++ drop (offset + length once) bytes ≡ drop offset bytes
after_next n offset bytes =
    ap (λ (r : List ℕ). take n (drop offset bytes) ++ r)
      (drop-drop offset (length (take n (drop offset bytes))) bytes)
    ∙ take-drop n (drop offset bytes)

within :
    (n offset : ℕ) (bytes : List ℕ)
    → offset < length bytes
    → offset + length (take n (drop offset bytes)) ≤ length bytes
within n offset bytes h =
    omega (arith, length-take n (drop offset bytes), length-drop offset bytes (omega arith))

-- The ends of the loop are told apart.
abbrev is_all_sent : SendEnd → Bool
is_all_sent all_sent = true
is_all_sent sent_none = false
is_all_sent send_blocked = false
is_all_sent send_error = false

not_all : {end : SendEnd} → is_all_sent end ≡ false → end ≡ all_sent → ⊥
not_all {end} p e = cc (p, ap is_all_sent e)

all_of :
    (n offset : ℕ) (bytes : List ℕ)
    → offset < length bytes
    → offset + length (take n (drop offset bytes)) ≡ length bytes
    → IsSent bytes offset all_sent
        (offset + length (take n (drop offset bytes)))
        (take n (drop offset bytes))
all_of n offset bytes h e = record {
  forward = omega arith;
  inside = omega (arith, e);
  split = after_next n offset bytes;
  whole = λ _. e;
  unfinished = λ ne. absurd (ne refl);
}

-- One more piece before the rest of a run.
longer :
    (n offset : ℕ) (bytes : List ℕ) (end : SendEnd) (last : ℕ) (sent : List ℕ)
    → IsSent bytes (offset + length (take n (drop offset bytes))) end last sent
    → IsSent bytes offset end last (take n (drop offset bytes) ++ sent)
longer n offset bytes end last sent r = record {
  forward = omega (arith, r.forward);
  inside = r.inside;
  split =
      append_assoc (take n (drop offset bytes)) sent (drop last bytes)
      ∙ ap (λ (xs : List ℕ). take n (drop offset bytes) ++ xs) r.split
      ∙ after_next n offset bytes;
  whole = r.whole;
  unfinished = r.unfinished;
}

-- From before the end of the bytes, the loop of `send` takes them in order.
send_all-IsSent :
    (script : List Sending) (bytes : List ℕ) (offset : ℕ)
    → offset < length bytes
    → let (end, last, sent, left) = send_all script bytes offset in
      IsSent bytes offset end last sent
unfolding send_all
send_all-IsSent [] bytes offset h = stays bytes offset send_blocked h (not_all refl)
send_all-IsSent (send_would_block ∷ rest) bytes offset h =
    stays bytes offset send_blocked h (not_all refl)
send_all-IsSent (connection_reset ∷ rest) bytes offset h =
    stays bytes offset send_error h (not_all refl)
send_all-IsSent (send_failed ∷ rest) bytes offset h = stays bytes offset send_error h (not_all refl)
send_all-IsSent (accepted n ∷ rest) bytes offset h =
    let once = take n (drop offset bytes) in
    elim (Bool-cases (length once == 0)) [
      | inl none ↦ rw none (stays bytes offset sent_none h (not_all refl))
      | inr some_bytes ↦ elim (Bool-cases (offset + length once == length bytes)) [
        | inl all ↦ rw (some_bytes, all) (all_of n offset bytes h ((==_iff _ _).0 all))
        | inr more ↦
            let ih =
              send_all-IsSent rest bytes (offset + length once)
                (ground (arith, within n offset bytes h)) in
            rw (some_bytes, more) (longer n offset bytes _ _ _ ih)
      ]
    ]

-- Where there is nothing to send, nothing is sent.
pub data Replies (bytes : List ℕ) (offset : ℕ) : SendEnd → ℕ → List ℕ → Type 0 where
  nothing : Replies bytes offset sent_none offset []
  something :
      {end : SendEnd} {last : ℕ} {sent : List ℕ}
      → offset < length bytes
      → IsSent bytes offset end last sent
      → Replies bytes offset end last sent

pub send_replies-Replies :
    (script : List Sending) (bytes : List ℕ) (offset : ℕ)
    → offset ≤ length bytes
    → let (end, last, sent, left) = send_replies script bytes offset in
      Replies bytes offset end last sent
unfolding send_replies
send_replies-Replies script bytes offset h =
    elim (Bool-cases (sub_size (length bytes) offset == 0)) [
      | inl none ↦ rw none nothing
      | inr some_bytes ↦
          let less : offset < length bytes = ground arith in
          rw some_bytes (something less (send_all-IsSent script bytes offset less))
    ]

conserved :
    (bytes : List ℕ) (offset : ℕ) (done : SessionResult) (s : Session) (end : SendEnd) (last : ℕ)
    (sent : List ℕ)
    → s.out.bytes ≡ bytes
    → Replies bytes offset end last sent
    → let (res, s') = after_sending end done (record s { out_buffer_offset = last }) in
      sent ++ pending s' ≡ drop offset bytes
unfolding after_sending
conserved bytes offset done s _ _ _ e nothing = ap (drop offset) e
conserved bytes offset done s all_sent last sent e (something h r) =
    ap (λ (xs : List ℕ). sent ++ xs)
      (sym (drop-all bytes) ∙ ap (λ (k : ℕ). drop k bytes) (sym (r.whole refl)))
    ∙ r.split
conserved bytes offset done s sent_none last sent e (something h r) =
    ap (λ (xs : List ℕ). sent ++ drop last xs) e ∙ r.split
conserved bytes offset done s send_blocked last sent e (something h r) =
    ap (λ (xs : List ℕ). sent ++ drop last xs) e ∙ r.split
conserved bytes offset done s send_error last sent e (something h r) =
    ap (λ (xs : List ℕ). sent ++ drop last xs) e ∙ r.split

pub write_out-pending :
    (done : SessionResult) (s : Session) (socket : Socket)
    → s.out_buffer_offset ≤ length s.out.bytes
    → let (res, s', socket') = write_out done s socket in
      socket'.sent ++ pending s' ≡ socket.sent ++ pending s
unfolding write_out
write_out-pending done s socket h =
    append_assoc socket.sent _ _
    ∙ ap (λ (xs : List ℕ). socket.sent ++ xs)
        (conserved s.out.bytes s.out_buffer_offset done s _ _ _ refl
          (send_replies-Replies socket.sendings s.out.bytes s.out_buffer_offset h))

-- In any state, if the offset is within the output buffer, an event that the socket can be
-- written loses no reply and repeats none: what the socket has taken and what is still to be sent
-- are, together, what they were.
pub on_output-pending :
    {S : Type 0} (res : SessionResult) (c : Conn S) (state : SessionState)
    → c.session.out_buffer_offset ≤ length c.session.out.bytes
    → let (res', c') = on_output res c state in
      c'.socket.sent ++ pending c'.session ≡ c.socket.sent ++ pending c.session
unfolding on_output
on_output-pending res c writing_reply h = write_out-pending success c.session c.socket h
on_output-pending res c writing_with_pending_read h =
    write_out-pending postponed (record c.session { state = writing_reply }) c.socket h
on_output-pending success c SessionState.ready_state h = refl
on_output-pending success c reading_request h = refl
on_output-pending failure c SessionState.ready_state h = refl
on_output-pending failure c reading_request h = refl
on_output-pending postponed c SessionState.ready_state h = refl
on_output-pending postponed c reading_request h = refl

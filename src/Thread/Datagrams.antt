-- ===== src/Thread/Datagrams.antt =====
-- The datagrams of `threadProc` of src/ServerThread.cpp, and a whole cycle of its loop.
use yamemcached.Base.{
  ℕ, zero, suc, ◌+◌, ◌≡◌, refl, sym, ap, ◌∙◌, Option, List, [], ◌∷◌, ◌++◌, length, take, Outcome,
  ok, ◌>>=◌, ◌==◌, if◌then◌else◌, update, ==_refl,
}
use yamemcached.Request.Matcher.{Matcher}
use yamemcached.Request.Store.{Store}
use yamemcached.Binary.Header.{BinaryHeader}
use yamemcached.Binary.Commands.{Exchange, in_place, process_binary_request}
use yamemcached.Session.Input.{place}
use yamemcached.Thread.State.{ServerThread}
use yamemcached.Thread.Loop.{handle_backlog, handle_events}

-- `UDP_BUF_SIZE` and `UDP_MAX_MSGS`
abbrev pub udp_buf_size : ℕ
udp_buf_size = 65536

abbrev pub udp_max_msgs : ℕ
udp_max_msgs = 512

-- `udpBuffers`, the `iov_len` of each message, and the replies that were sent.
pub record Datagrams : Type 0 where
  pub buffers : ℕ → ℕ → ℕ
  pub iov_len : ℕ → ℕ
  pub replies : List (List ℕ)

unfoldable pub first_datagrams : (ℕ → ℕ → ℕ) → Datagrams
first_datagrams junk = record { buffers = junk; iov_len = λ _. udp_buf_size; replies = [] }

module _ {S : Type 0} (store : Store S) (header_junk : BinaryHeader) (exp_time : ℕ)
    (locks : ℕ → ℕ) where
  -- What `recvmmsg` wrote into buffer `i`, which is as long as `iov_len` says.
  abbrev pub received_in : Datagrams → ℕ → List ℕ → ℕ → ℕ
  received_in d i bytes = place (d.buffers i) 0 (take (d.iov_len i) bytes)

  -- A message that was received is answered in its own buffer, and its `iov_len` becomes the length
  -- of the reply.
  unfoldable pub answer_datagram :
      ServerThread S → Datagrams → ℕ → List ℕ → Outcome (ServerThread S × Datagrams)
  answer_datagram t d i bytes =
      process_binary_request store t.my_thread_id header_junk
        (in_place (place (d.buffers i) 0 (take (d.iov_len i) bytes))) exp_time locks
        (record { in_buffer_offset = 0; out = []; store = t.store })
      >>= λ x. ok (
        record t { store = x.store },
        record {
          buffers =
              update d.buffers i
                (in_place (place (d.buffers i) 0 (take (d.iov_len i) bytes)) x.out);
          iov_len = update d.iov_len i (length x.out);
          replies = d.replies ++ (x.out ∷ []);
        },
      )

  unfoldable pub answer_datagrams :
      ServerThread S → Datagrams → ℕ → List (List ℕ) → Outcome (ServerThread S × Datagrams)
  answer_datagrams t d i [] = ok (t, d)
  answer_datagrams t d i (bytes ∷ rest) =
      answer_datagram t d i bytes >>= λ r. answer_datagrams r.0 r.1 (i + 1) rest

  -- `if (udpIncompleteRead)`, with the messages that `recvmmsg` gives, if any.
  unfoldable pub handle_datagrams :
      ServerThread S → Datagrams → List (List ℕ) → Outcome (ServerThread S × Datagrams)
  handle_datagrams t d [] = ok (t, d)
  handle_datagrams t d (bytes ∷ rest) =
      if t.udp_incomplete_read
      then answer_datagrams
          (record t { udp_incomplete_read = length (bytes ∷ rest) == udp_max_msgs }) d 0
          (bytes ∷ rest)
      else ok (t, d)

  -- The body of `while(!shouldStop)`, with what `epoll_wait` and `recvmmsg` give.
  unfoldable pub cycle :
      (ℕ → ℕ)
      → Matcher
      → ServerThread S
      → Datagrams
      → List (Option ℕ × ℕ)
      → List (List ℕ)
      → Outcome (ServerThread S × Datagrams)
  cycle junk matcher t d events messages = handle_backlog store junk matcher t >>= λ t1.
      handle_events store junk matcher t1 events >>= λ t2. handle_datagrams t2 d messages

take-take : (n : ℕ) (xs : List ℕ) → take n (take n xs) ≡ take n xs
take-take zero xs = refl
take-take (suc n) [] = refl
take-take (suc n) (x ∷ xs) = ap (λ (r : List ℕ). x ∷ r) (take-take n xs)

module _ {S : Type 0} (store : Store S) (header_junk : BinaryHeader) (exp_time : ℕ)
    (locks : ℕ → ℕ) where
  answer_datagram-take :
      (t : ServerThread S) (d : Datagrams) (i n : ℕ) (bytes : List ℕ)
      → d.iov_len i ≡ n
      → answer_datagram store header_junk exp_time locks t d i bytes
        ≡ answer_datagram store header_junk exp_time locks t d i (take n bytes)
  unfolding answer_datagram
  answer_datagram-take t d i n bytes e =
      let same : take (d.iov_len i) (take n bytes) ≡ take (d.iov_len i) bytes =
        ap (λ (m : ℕ). take (d.iov_len i) (take m bytes)) (sym e) ∙ take-take (d.iov_len i) bytes in
      rw same refl

  -- If processBinaryRequest answers a datagram, the datagram is answered, and the next one in its
  -- buffer is answered as if it ended after as many bytes as that reply had.
  pub answer_datagram-cut :
      (t : ServerThread S) (d : Datagrams) (i : ℕ) (bytes : List ℕ) (x : Exchange S)
      → process_binary_request store t.my_thread_id header_junk
          (in_place (place (d.buffers i) 0 (take (d.iov_len i) bytes)))
          exp_time
          locks
          (record { in_buffer_offset = 0; out = []; store = t.store })
        ≡ ok x
      → (t' : ServerThread S) × (d' : Datagrams) × (answer_datagram store header_junk exp_time locks
            t d i bytes
          ≡ ok (t', d'))
        × ((more : List ℕ)
            → answer_datagram store header_junk exp_time locks t' d' i more
              ≡ answer_datagram store header_junk exp_time locks t' d' i (take (length x.out) more))
  unfolding answer_datagram
  answer_datagram-cut t d i bytes x ran =
      let t' = record t { store = x.store } in
      let d' : Datagrams = record {
        buffers =
            update d.buffers i (in_place (place (d.buffers i) 0 (take (d.iov_len i) bytes)) x.out);
        iov_len = update d.iov_len i (length x.out);
        replies = d.replies ++ (x.out ∷ []);
      } in
      let len : d'.iov_len i ≡ length x.out = rw (==_refl i) refl in
      (t', d', rw ran refl, λ more. answer_datagram-take t' d' i (length x.out) more len)

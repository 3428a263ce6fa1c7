-- ===== src/Session/Reading.antt =====
-- The reading of src/Session.cpp keeps within the input buffer, and keeps what it had read.
use yamemcached.Base.{
  ℕ, zero, suc, ◌+◌, ◌*◌, ◌^◌, ◌≤◌, ◌<◌, ◌≡◌, refl, ap, ◌∙◌, false, List, [], ◌∷◌, length, take,
  Outcome, leb, ◌==◌, ◌&&◌, arith, Each, each_ok, each_abort, each_fault, each_spin, Each-bind,
  Each-if,
}
use yamemcached.Request.Out.{sub_size}
use yamemcached.Session.State.{
  Session, Receipt, received, recv_would_block, recv_failed, resize, epoll_read_threshold,
}
use yamemcached.Session.Input.{
  double_in_buffer, grow_in_buffer, make_room, place, receive, room_for_more, between_requests,
  ReadEnd, read_all,
}

-- The input buffer is not longer than a vector can be, and the bytes that were read fit it.
pub record Fits (s : Session) : Type 0 where
  pub inside : s.in_buffer_bytes ≤ s.in_buffer_size
  pub small : s.in_buffer_size < 2 ^ 63

-- `s'` is `s` with more read: only the input buffer differs, and what was there is there.
pub record IsRead (s s' : Session) : Type 0 where
  pub same : s' ≡ record s {
    in_buffer = s'.in_buffer;
    in_buffer_bytes = s'.in_buffer_bytes;
    in_buffer_size = s'.in_buffer_size;
  }
  pub fits : Fits s'
  pub grown : s.in_buffer_bytes ≤ s'.in_buffer_bytes
  pub kept : (i : ℕ) → i < s.in_buffer_bytes → s'.in_buffer i ≡ s.in_buffer i

IsRead-refl : (s : Session) → Fits s → IsRead s s
IsRead-refl s f = record { same = refl; fits = f; grown = omega arith; kept = λ i h. refl }

pub IsRead-trans : (s t u : Session) → IsRead s t → IsRead t u → IsRead s u
IsRead-trans s t u r q = record {
  same =
      q.same
      ∙ ap
          (λ (z : Session). record z {
            in_buffer = u.in_buffer;
            in_buffer_bytes = u.in_buffer_bytes;
            in_buffer_size = u.in_buffer_size;
          })
          r.same;
  fits = q.fits;
  grown = omega (arith, r.grown, q.grown);
  kept = λ i h. q.kept i (omega (arith, r.grown)) ∙ r.kept i h;
}

doubled :
    (s : Session)
    → Fits s
    → leb (2 ^ 63) (2 * s.in_buffer_size) ≡ false
    → IsRead s (record s {
      in_buffer = resize s.in_buffer s.in_buffer_size;
      in_buffer_size = 2 * s.in_buffer_size;
    })
unfolding resize
doubled s f fits = record {
  same = refl;
  fits = record { inside = omega (arith, f.inside); small = ground arith };
  grown = omega arith;
  kept = λ i h. ground (arith, f.inside);
}

double_in_buffer-IsRead : (s : Session) → Fits s → Each (IsRead s) (double_in_buffer s)
unfolding double_in_buffer resize
double_in_buffer-IsRead s f =
    Each-if (leb (2 ^ 63) (2 * s.in_buffer_size)) (λ big. each_abort)
      (λ fits. each_ok _ (doubled s f fits))

Each-grow :
    (s t : Session) {m : Outcome Session} → IsRead s t → Each (IsRead t) m → Each (IsRead s) m
Each-grow s t r (each_ok u q) = each_ok u (IsRead-trans s t u r q)
Each-grow s t r each_abort = each_abort
Each-grow s t r each_fault = each_fault
Each-grow s t r each_spin = each_spin

grow_in_buffer-IsRead :
    (rounds : ℕ) (s : Session) → Fits s → Each (IsRead s) (grow_in_buffer rounds s)
unfolding grow_in_buffer
grow_in_buffer-IsRead zero s f = each_abort
grow_in_buffer-IsRead (suc rounds) s f =
    Each-if _
      (λ more.
        Each-bind (double_in_buffer-IsRead s f) (grow_in_buffer rounds)
          (λ t r. Each-grow s t r (grow_in_buffer-IsRead rounds t r.fits)))
      (λ enough. each_ok s (IsRead-refl s f))

pub make_room-IsRead : (s : Session) → Fits s → Each (IsRead s) (make_room s)
unfolding make_room
make_room-IsRead s f =
    Each-if _ (λ more. grow_in_buffer-IsRead 64 s f) (λ enough. each_ok s (IsRead-refl s f))

place-before :
    (buffer : ℕ → ℕ) (at : ℕ) (bytes : List ℕ) (i : ℕ) → i < at → place buffer at bytes i ≡ buffer i
unfolding place
place-before buffer at [] i h = refl
place-before buffer at (c ∷ cs) i h =
    ground (arith, place-before buffer (at + 1) cs i (omega arith))

length-take : (n : ℕ) (xs : List ℕ) → length (take n xs) ≤ n
length-take zero xs = omega arith
length-take (suc n) [] = omega arith
length-take (suc n) (x ∷ xs) = omega (arith, length-take n xs)

receive-IsRead :
    (s : Session) (bytes : List ℕ)
    → Fits s
    → IsRead s (receive s (take (sub_size s.in_buffer_size s.in_buffer_bytes) bytes))
unfolding receive
receive-IsRead s bytes f = record {
  same = refl;
  fits = record {
    inside =
        omega (
          arith,
          f.inside,
          f.small,
          length-take (sub_size s.in_buffer_size s.in_buffer_bytes) bytes,
        );
    small = f.small;
  };
  grown = omega arith;
  kept = λ i h. place-before s.in_buffer s.in_buffer_bytes _ i h;
}

room_for_more-IsRead : (s : Session) → Fits s → Each (IsRead s) (room_for_more s)
unfolding room_for_more
room_for_more-IsRead s f =
    Each-if _ (λ full. double_in_buffer-IsRead s f) (λ enough. each_ok s (IsRead-refl s f))

Each-IsRead :
    (s t : Session) {m : Outcome (ReadEnd × Session × List Receipt)}
    → IsRead s t
    → Each (λ r. IsRead t r.1) m
    → Each (λ r. IsRead s r.1) m
Each-IsRead s t r (each_ok a q) = each_ok a (IsRead-trans s t a.1 r q)
Each-IsRead s t r each_abort = each_abort
Each-IsRead s t r each_fault = each_fault
Each-IsRead s t r each_spin = each_spin

-- If the bytes that were read fit an input buffer below 2^63 bytes, they do after the loop of
-- recv, whatever recv gave, what was read before is there unchanged, and nothing but the input
-- buffer differs.
pub read_all-IsRead :
    (script : List Receipt) (s : Session) (bytes_read : ℕ)
    → Fits s
    → Each (λ r. IsRead s r.1) (read_all script s bytes_read)
unfolding read_all
read_all-IsRead [] s bytes_read f = each_ok _ (IsRead-refl s f)
read_all-IsRead (recv_would_block ∷ rest) s bytes_read f = each_ok _ (IsRead-refl s f)
read_all-IsRead (recv_failed ∷ rest) s bytes_read f = each_ok _ (IsRead-refl s f)
read_all-IsRead (received bytes ∷ rest) s bytes_read f =
    let once = take (sub_size s.in_buffer_size s.in_buffer_bytes) bytes in
    let r = receive-IsRead s bytes f in
    Each-if (length once == 0) (λ none. each_ok _ (IsRead-refl s f))
      (λ some_bytes.
        Each-if
          (leb epoll_read_threshold (bytes_read + length once)
            && between_requests s.request_info.state)
          (λ long. each_ok _ r)
          (λ go_on. Each-IsRead s (receive s once) r (
            Each-bind (room_for_more-IsRead (receive s once) r.fits) _ (λ t q.
              Each-IsRead (receive s once) t q
                (read_all-IsRead rest t (bytes_read + length once) q.fits)))))

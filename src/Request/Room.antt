-- ===== src/Request/Room.antt =====
-- The output buffer of src/RequestProcessor.cpp is grown enough for every reply.
use yamemcached.Base.{
  ℕ, zero, suc, ◌+◌, ◌*◌, ◌^◌, ◌≤◌, ◌<◌, ◌≡◌, refl, sym, ap, ◌∙◌, List, [], ◌∷◌, ◌++◌, length,
  length-append, ok, arith, le→leb, ltb, false, inl, inr, Bool-cases,
}
use native.Mathlib.Nat.{mul_assoc, mul_comm, pow-suc}
use yamemcached.Number.{atoull}
use yamemcached.Number.Digits.{itoa-atoull}
use yamemcached.Request.Out.{
  Out, grow, reserve, write, reply, write_number, strncpy, zeros, text, sub_size,
}

-- The output fits, and the size is one that a vector can have.
pub record IsRoomy (out : Out) : Type 0 where
  pub fits : length out.bytes ≤ out.size
  pub some : 0 < out.size
  pub small : out.size < 2 ^ 63

narrow_enough :
    (size used need : ℕ)
    → used ≤ size
    → size < 2 ^ 63
    → need + used ≤ size
    → ltb (sub_size size used) need ≡ false
narrow_enough size used need h small e = ground arith

double : (size p : ℕ) → 2 * size * p ≡ size * (p * 2)
double size p =
    ap (λ (x : ℕ). x * p) (mul_comm 2 size)
    ∙ mul_assoc size 2 p
    ∙ ap (λ (x : ℕ). size * x) (mul_comm 2 p)

-- Doubling comes to an end while what is needed is at most half of what a `size_t` counts.
grow-room :
    (rounds need used size : ℕ)
    → used ≤ size
    → size < 2 ^ 63
    → need + used ≤ 2 ^ 62
    → need + used ≤ size * 2 ^ rounds
    → (size' : ℕ) × (grow (suc rounds) need used size ≡ ok size')
      × (need + used ≤ size')
      × (size ≤ size')
      × (size' < 2 ^ 63)
unfolding grow
grow-room zero need used size h small few enough = (
  size,
  rw (narrow_enough size used need h small (omega arith)) refl,
  omega arith,
  omega arith,
  small,
)
grow-room (suc r) need used size h small few enough =
    elim (Bool-cases (ltb (sub_size size used) need)) [
      | inr wide ↦ (size, rw wide refl, ground arith, omega arith, small)
      | inl narrow ↦
          let half : size < 2 ^ 62 = ground arith in
          let (size', ran, room, more, small') =
            grow-room r need used (2 * size) (omega arith) (omega arith) few
              (rw (double size (2 ^ r), sym (pow-suc 2 r)) enough) in
          (size', rw (narrow, ran) refl, room, omega arith, small')
    ]

pub write-lem :
    (bytes : List ℕ) (out : Out)
    → length out.bytes + length bytes ≤ out.size
    → write bytes out ≡ ok (record out { bytes = out.bytes ++ bytes })
unfolding write
write-lem bytes out h = rw (le→leb _ _ h) refl

length-zeros : (cs : List ℕ) → length (zeros cs) ≡ length cs
unfolding zeros
length-zeros [] = refl
length-zeros (c ∷ cs) = ap suc (length-zeros cs)

pub length-strncpy : (cs : List ℕ) → length (strncpy cs) ≡ length cs
unfolding strncpy
length-strncpy [] = refl
length-strncpy (c ∷ cs) = ground (arith, length-strncpy cs, length-zeros cs)

length-text : (buf : ℕ → ℕ) (p len : ℕ) → length (text buf p len) ≡ len
unfolding text
length-text buf p zero = refl
length-text buf p (suc len) = ap suc (length-text buf (p + 1) len)

-- There is room for what is asked, and nothing is lost.
pub reserve-room :
    (need : ℕ) (out : Out)
    → IsRoomy out
    → need + length out.bytes ≤ 2 ^ 62
    → (size : ℕ) × (reserve need out ≡ ok (record out { size = size }))
      × (need + length out.bytes ≤ size)
      × IsRoomy (record out { size = size })
unfolding reserve
reserve-room need out roomy few =
    let (size, ran, room, more, small) =
      grow-room 63 need (length out.bytes) out.size roomy.fits roomy.small few
        (omega (arith, roomy.some)) in
    (
      size,
      rw ran refl,
      room,
      record { fits = omega arith; some = omega (arith, roomy.some); small = small },
    )

-- If the output buffer is in order and what is needed is at most 2^62 bytes, a fixed reply is
-- appended whole, with a byte left behind it.
pub reply-lem :
    (bytes : List ℕ) (out : Out)
    → IsRoomy out
    → length bytes + 1 + length out.bytes ≤ 2 ^ 62
    → (size : ℕ) × (reply bytes out ≡ ok (record { bytes = out.bytes ++ bytes; size = size }))
      × (length (out.bytes ++ bytes) < size)
      × (size < 2 ^ 63)
unfolding reply
reply-lem bytes out roomy few =
    let (size, ran, room, roomy') = reserve-room (length bytes + 1) out roomy few in
    let written = write-lem bytes (record out { size = size }) (omega arith) in
    (size, rw (ran, written) refl, omega (arith, length-append out.bytes bytes), roomy'.small)

-- `bytes` is a number in decimal, as the server reads one.
pub record IsDecimal (bytes : List ℕ) (n : ℕ) : Type 0 where
  pub s : ℕ → ℕ
  pub k : ℕ
  pub at : bytes ≡ text s 0 k
  pub some : 0 < k
  pub few : k ≤ 20
  pub value : atoull s 0 k ≡ n

pub decimal-length : {bytes : List ℕ} {n : ℕ} → IsDecimal bytes n → length bytes ≤ 20
decimal-length d = rw (d.at, length-text d.s 0 d.k) d.few

pub write_number-lem :
    (n : ℕ) (out : Out)
    → n < 2 ^ 64
    → length out.bytes + 20 ≤ out.size
    → (bytes : List ℕ) × IsDecimal bytes n
      × (write_number n out ≡ ok (record out { bytes = out.bytes ++ bytes }))
unfolding write_number
write_number-lem n out h room =
    let (s, k, ran, some, few, space, value) = itoa-atoull n (λ _. 0) h in
    (
      text s 0 k,
      record { s = s; k = k; at = refl; some = some; few = few; value = value },
      rw ran (write-lem (text s 0 k) out (omega (arith, length-text s 0 k, few))),
    )

-- The texts one behind the other.
abbrev pub append_all : List ℕ → List (List ℕ) → List ℕ
append_all bytes [] = bytes
append_all bytes (t ∷ ts) = append_all (bytes ++ t) ts

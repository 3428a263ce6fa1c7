-- ===== src/Number.antt =====
-- src/Common.cpp: the numbers in the text of the protocol. A buffer is a function from the offset
-- to the byte there; a pointer is an offset. `Digits` proves that the printed numbers are read back.
pub mod Digits
pub mod Search
mod Tests
use yamemcached.Base.{
  ℕ, zero, suc, ◌+◌, ◌-◌, ◌*◌, ◌/◌, ◌%◌, ◌^◌, leb, ◌==◌, if◌then◌else◌, update, Outcome, ok, spin,
  ◌>>=◌,
}

-- `c - '0'` of the signed `char` in byte `c`, in words of `w` bits. Overflow of `int` wraps.
unfoldable pub digit : ℕ → ℕ → ℕ
digit w c = if leb 128 c then (c + 2 ^ w - 304) % 2 ^ w else (c + 2 ^ w - 48) % 2 ^ w

-- The cases of the `switch` from `len` down, each of which falls through to the next.
unfoldable pub fall_through : ℕ → (ℕ → ℕ) → ℕ → ℕ → ℕ
fall_through w buf end zero = 0
fall_through w buf end (suc i) =
    (digit w (buf (end - suc i)) * 10 ^ i + fall_through w buf end i) % 2 ^ w

-- More digits than there are cases give 0.
unfoldable pub atous : (ℕ → ℕ) → ℕ → ℕ → ℕ
atous buf beg end = if leb (end - beg) 5 then fall_through 16 buf end (end - beg) else 0

unfoldable pub atoui : (ℕ → ℕ) → ℕ → ℕ → ℕ
atoui buf beg end = if leb (end - beg) 10 then fall_through 32 buf end (end - beg) else 0

unfoldable pub atoull : (ℕ → ℕ) → ℕ → ℕ → ℕ
atoull buf beg end = if leb (end - beg) 20 then fall_through 64 buf end (end - beg) else 0

-- The `do` loop of `itoa`: the digits from the last to the first.
unfoldable pub write_digits : ℕ → ℕ → (ℕ → ℕ) → ℕ → Outcome ((ℕ → ℕ) × ℕ)
write_digits zero v str n = spin
write_digits (suc rounds) v str n =
    let str' = update str n (48 + v % 10) in
    let rest = write_digits rounds (v / 10) str' (n + 1) in
    if v / 10 == 0 then ok (str', n + 1) else rest

-- The `for` loop of `itoa` from `i` on, `count` rounds of it.
unfoldable pub swap_ends : ℕ → ℕ → ℕ → (ℕ → ℕ) → ℕ → ℕ
swap_ends zero i n str = str
swap_ends (suc count) i n str =
    swap_ends count (i + 1) n (update (update str i (str (n - 1 - i))) (n - 1 - i) (str i))

-- `itoa`: the buffer and the number of digits. A `size_t` has at most 20.
unfoldable pub itoa : ℕ → (ℕ → ℕ) → Outcome ((ℕ → ℕ) × ℕ)
itoa value str =
    write_digits 20 value str 0 >>= λ r. ok (swap_ends (r.1 / 2) 0 r.1 (update r.0 r.1 32), r.1)

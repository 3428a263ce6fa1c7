-- ===== src/Number/Digits.antt =====
-- The numbers of src/Common.cpp: what `itoa` prints, `atoull` reads.
use yamemcached.Base.{
  ℕ, zero, suc, ◌+◌, ◌-◌, ◌*◌, ◌/◌, ◌%◌, ◌^◌, ◌≤◌, ◌<◌, ◌≡◌, refl, sym, ap, ◌∙◌, leb, ◌==◌, ltb,
  ◌&&◌, ◌||◌, if◌then◌else◌, update, Outcome, ok, ◌>>=◌, arith, Bool-cases, le→leb, inl, inr, true,
  false,
}
use native.Mathlib.Nat.{mul_assoc, mul_comm, pow-suc}
use yamemcached.Number.{digit, fall_through, atoull, write_digits, swap_ends, itoa}

-- The number whose decimal digits, from the last on, stand at `n` and behind it.
unfoldable pub value_at : (ℕ → ℕ) → ℕ → ℕ → ℕ
value_at str n zero = 0
value_at str n (suc k) = (str n - 48) + 10 * value_at str (n + 1) k

-- Digits `n` to `n + k` of `str`.
abbrev pub AreDigits : (ℕ → ℕ) → ℕ → ℕ → Type 0
AreDigits str n k = (i : ℕ) → n ≤ i → i < n + k → (48 ≤ str i) × (str i < 58)

-- What `write_digits` comes to for `v` at `n` of `str`, in at most `rounds` rounds.
record IsWritten (rounds v : ℕ) (str : ℕ → ℕ) (n : ℕ) (r : Outcome ((ℕ → ℕ) × ℕ)) : Type 0 where
  s : ℕ → ℕ
  k : ℕ
  ran : r ≡ ok (s, n + k)
  some : 0 < k
  few : k ≤ rounds
  value : value_at s n k ≡ v
  digits : AreDigits s n k
  before : (i : ℕ) → i < n → s i ≡ str i

small_after : (rounds v : ℕ) → v < 10 ^ suc rounds → v / 10 < 10 ^ rounds
small_after rounds v h = omega arith

last_digit :
    (rounds v : ℕ) (str : ℕ → ℕ) (n : ℕ)
    → (v / 10 == 0) ≡ true
    → IsWritten (suc rounds) v str n (write_digits (suc rounds) v str n)
unfolding write_digits value_at
last_digit rounds v str n done = record {
  s = update str n (48 + v % 10);
  k = 1;
  ran = rw done refl;
  some = omega arith;
  few = omega arith;
  value = ground arith;
  digits = λ i h k. ground arith;
  before = λ i h. ground arith;
}

more_digits :
    (rounds v : ℕ) (str : ℕ → ℕ) (n : ℕ)
    → (v / 10 == 0) ≡ false
    → IsWritten rounds
        (v / 10)
        (update str n (48 + v % 10))
        (n + 1)
        (write_digits rounds (v / 10) (update str n (48 + v % 10)) (n + 1))
    → IsWritten (suc rounds) v str n (write_digits (suc rounds) v str n)
unfolding write_digits value_at
more_digits rounds v str n more w = record {
  s = w.s;
  k = suc w.k;
  ran = rw (more, w.ran) (ap (λ (e : ℕ). ok (w.s, e)) (omega arith));
  some = omega arith;
  few = omega (arith, w.few);
  value = ground (arith, w.value, w.before n);
  digits = λ i h k. ground (arith, w.digits i, w.before n);
  before = λ i h. ground (arith, w.before i);
}

write_digits-value :
    (rounds v : ℕ) (str : ℕ → ℕ) (n : ℕ)
    → v < 10 ^ suc rounds
    → IsWritten (suc rounds) v str n (write_digits (suc rounds) v str n)
write_digits-value zero v str n h = last_digit zero v str n (ground arith)
write_digits-value (suc r) v str n h = elim (Bool-cases (v / 10 == 0)) [
  | inl done ↦ last_digit (suc r) v str n done
  | inr more ↦
      more_digits (suc r) v str n more (
        write_digits-value r (v / 10) (update str n (48 + v % 10)) (n + 1)
          (small_after (suc r) v h))
]

-- `swap_ends` reverses what is within the range.
pub swap_ends-eq :
    (count i n : ℕ) (str : ℕ → ℕ) (j : ℕ)
    → 2 * (i + count) ≤ n
    → j < n
    → swap_ends count i n str j ≡ (
        if leb i j && ltb j (n - i) && (ltb j (i + count) || leb (n - (i + count)) j)
        then str (n - 1 - j)
        else str j)
unfolding swap_ends
swap_ends-eq zero i n str j h k = ground arith
swap_ends-eq (suc count) i n str j h k = ground (
  arith,
  swap_ends-eq count (i + 1) n (update (update str i (str (n - 1 - i))) (n - 1 - i) (str i)) j,
)

-- What stands behind the range stays.
swap_ends-above :
    (count i n : ℕ) (str : ℕ → ℕ) → 2 * (i + count) ≤ n → swap_ends count i n str n ≡ str n
unfolding swap_ends
swap_ends-above zero i n str h = refl
swap_ends-above (suc count) i n str h =
    swap_ends-above count (i + 1) n (update (update str i (str (n - 1 - i))) (n - 1 - i) (str i))
      (omega arith)
    ∙ ground arith

times_ten : (b p : ℕ) → b * (p * 10) ≡ 10 * (b * p)
times_ten b p = sym (mul_assoc b p 10) ∙ mul_comm (b * p) 10

value_last_step : (a b k x y : ℕ) → x ≡ b * 10 ^ k + y → a + 10 * x ≡ b * 10 ^ suc k + (a + 10 * y)
value_last_step a b k x y h = rw (h, pow-suc 10 k) (omega (arith, times_ten b (10 ^ k)))

sub_zero : (a : ℕ) → a - 0 ≡ a
sub_zero a = omega arith

mod_add : (a b : ℕ) → (a + b % 2 ^ 64) % 2 ^ 64 ≡ (a + b) % 2 ^ 64
mod_add a b = omega arith

-- The highest digit apart.
value_at-last :
    (s : ℕ → ℕ) (n k : ℕ) → value_at s n (suc k) ≡ (s (n + k) - 48) * 10 ^ k + value_at s n k
unfolding value_at
value_at-last s n zero = ground arith
value_at-last s n (suc k) =
    let ih = value_at-last s (n + 1) k in
    let at : s (n + suc k) ≡ s (n + 1 + k) = ap s (omega arith) in
    value_last_step (s n - 48) (s (n + suc k) - 48) k _ (value_at s (n + 1) k) (ih ∙ rw at refl)

digit-lem : (c : ℕ) → 48 ≤ c → c < 58 → digit 64 c ≡ c - 48
unfolding digit
digit-lem c h k = ground arith

-- Digits that stand in reverse before `end` are read as the number.
fall_through-value :
    (buf s : ℕ → ℕ) (end n k : ℕ)
    → ((i : ℕ) → i < k → buf (end - suc i) ≡ s (n + i))
    → AreDigits s n k
    → fall_through 64 buf end k ≡ value_at s n k % 2 ^ 64
unfolding fall_through value_at
fall_through-value buf s end n zero same ds = refl
fall_through-value buf s end n (suc k) same ds =
    let ih =
      fall_through-value buf s end n k (λ i h. same i (omega arith))
        (λ i h h'. ds i h (omega arith)) in
    let (lo, hi) = ds (n + k) (omega arith) (omega arith) in
    let at = same k (omega arith) in
    rw (at, digit-lem _ lo hi, ih) (mod_add _ _)
    ∙ ap (λ (x : ℕ). x % 2 ^ 64) (sym (value_at-last s n k))

-- The digits written from 0 on and reversed are the number.
read_back :
    (value : ℕ) (str : ℕ → ℕ)
    → value < 2 ^ 64
    → IsWritten 20 value str 0 (write_digits 20 value str 0)
    → (s : ℕ → ℕ) × (n : ℕ) × (itoa value str ≡ ok (s, n))
      × (0 < n)
      × (n ≤ 20)
      × (s n ≡ 32)
      × (atoull s 0 n ≡ value)
unfolding itoa atoull
read_back value str h w =
    let final = swap_ends (w.k / 2) 0 w.k (update w.s w.k 32) in
    let reversed : (i : ℕ) → i < w.k → final (w.k - suc i) ≡ w.s (0 + i) =
      λ i hi. ground (arith, swap_ends-eq (w.k / 2) 0 w.k (update w.s w.k 32) (w.k - suc i)) in
    let read = fall_through-value final w.s w.k 0 w.k reversed w.digits in
    (
      final,
      w.k,
      ap
          (λ (m : Outcome ((ℕ → ℕ) × ℕ)).
            m >>= λ r. ok (swap_ends (r.1 / 2) 0 r.1 (update r.0 r.1 32), r.1))
          (w.ran ∙ ap (λ (e : ℕ). ok (w.s, e)) (omega arith)),
      w.some,
      w.few,
      swap_ends-above (w.k / 2) 0 w.k (update w.s w.k 32) (omega arith) ∙ ground arith,
      rw (sub_zero w.k, le→leb _ _ w.few) (read ∙ rw w.value (omega arith)),
    )

-- itoa of a number below 2^64 ends with 1 to 20 digits and a space behind them, and atoull reads
-- the digits as that number.
pub itoa-atoull :
    (value : ℕ) (str : ℕ → ℕ)
    → value < 2 ^ 64
    → (s : ℕ → ℕ) × (n : ℕ) × (itoa value str ≡ ok (s, n))
      × (0 < n)
      × (n ≤ 20)
      × (s n ≡ 32)
      × (atoull s 0 n ≡ value)
itoa-atoull value str h = read_back value str h (write_digits-value 19 value str 0 (omega arith))

-- ===== src/Table/Range.antt =====
-- Positions of src/LFLRUHashTable.h counted from where a search starts, round the end of the table.
use yamemcached.Base.{
  ℕ, ◌+◌, ◌-◌, ◌%◌, ◌<◌, ◌≡◌, arith, mod-next, ltb, leb, ◌==◌, ◌≢◌, if◌then◌else◌,
}

-- the slot `i` after `start`, and how far slot `j` is after `start`, in a table of `n` slots
abbrev pub slot_at : ℕ → ℕ → ℕ → ℕ
slot_at n start i = if ltb (start + i) n then start + i else start + i - n

abbrev pub distance : ℕ → ℕ → ℕ → ℕ
distance n start j = if leb start j then j - start else j + n - start

module _ (n start : ℕ) (inside : start < n) where
  pub slot_at-lt : (i : ℕ) → i < n → slot_at n start i < n
  slot_at-lt i h = ground arith

  pub distance-lt : (j : ℕ) → j < n → distance n start j < n
  distance-lt j h = ground arith

  pub distance-slot_at : (i : ℕ) → i < n → distance n start (slot_at n start i) ≡ i
  distance-slot_at i h = ground arith

  pub slot_at-distance : (j : ℕ) → j < n → slot_at n start (distance n start j) ≡ j
  slot_at-distance j h = ground arith

  pub slot_at-next : (i : ℕ) → i + 1 < n → (slot_at n start i + 1) % n ≡ slot_at n start (i + 1)
  slot_at-next i h = ground (arith, mod-next n (slot_at n start i))

  pub slot_at-step :
      (i : ℕ)
      → i + 1 < n
      → (if slot_at n start i + 1 == n then 0 else slot_at n start i + 1) ≡ slot_at n start (i + 1)
  slot_at-step i h = ground arith

  pub slot_at-ne : (i k : ℕ) → i < k → k < n → slot_at n start k ≢ slot_at n start i
  slot_at-ne i k less h = ground arith

  pub slot_at-eq-distance :
      (i j : ℕ) → i < n → j < n → (slot_at n start i == j) ≡ (i == distance n start j)
  slot_at-eq-distance i j h k = ground arith

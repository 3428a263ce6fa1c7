-- ===== src/Number/Search.antt =====
-- `strnstr` of src/Common.cpp, which nothing calls. A needle is the list of the bytes before its
-- NUL, none of which is 0; a haystack is a function from the offset to the byte.
use yamemcached.Base.{
  ◌∷◌, ℕ, zero, suc, ◌+◌, ◌-◌, ◌^◌, ◌%◌, ◌≤◌, ◌<◌, ◌≡◌, Bool, true, false, Option, none, some, List,
  [], Outcome, ok, fault, leb, ◌==◌, ◌&&◌, if◌then◌else◌, length,
}

-- `haystack[0] == needle[0] && 0 == strncmp(haystack, needle, needle_len)`: a NUL of the haystack
-- is a difference.
unfoldable pub starts_with : List ℕ → (ℕ → ℕ) → ℕ → Bool
starts_with [] s at = true
starts_with (c ∷ cs) s at = (s at == c) && starts_with cs s (at + 1)

-- `count` rounds of the loop.
unfoldable pub search_rounds : ℕ → List ℕ → (ℕ → ℕ) → ℕ → Option ℕ
search_rounds zero needle s at = none
search_rounds (suc count) needle s at =
    let rest = search_rounds count needle s (at + 1) in
    if starts_with needle s at then some at else rest

-- `(int)(len-needle_len)`, of which the negative numbers are those from 2^31 on.
unfoldable pub last_round : ℕ → ℕ → ℕ
last_round len needle_len = (len + 2 ^ 64 - needle_len) % 2 ^ 64 % 2 ^ 32

-- `i` overflows behind the last round where that is the largest `int`.
unfoldable pub missing : ℕ → Option ℕ → Outcome (Option ℕ)
missing last (some p) = ok (some p)
missing last none = if last == 2 ^ 31 - 1 then fault else ok none

-- The offset that the pointer returned has in the haystack; `none` is `NULL`.
unfoldable pub strnstr : (ℕ → ℕ) → List ℕ → ℕ → Outcome (Option ℕ)
strnstr s [] len = ok (some 0)
strnstr s (c ∷ cs) len =
    let last = last_round len (length (c ∷ cs)) in
    missing last (search_rounds (if leb (2 ^ 31) last then 0 else last + 1) (c ∷ cs) s 0)

-- The first offset in a range at which the needle stands, if there is one.
pub IsFirst : List ℕ → (ℕ → ℕ) → ℕ → ℕ → Option ℕ → Type 0
IsFirst needle s from end none = (j : ℕ) → from ≤ j → j < end → starts_with needle s j ≡ false
IsFirst needle s from end (some p) =
    (from ≤ p)
    × (p < end)
    × (starts_with needle s p ≡ true)
    × ((j : ℕ) → from ≤ j → j < p → starts_with needle s j ≡ false)

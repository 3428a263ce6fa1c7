-- ===== src/Number/Tests.antt =====
-- Runs of the numbers of src/Common.cpp.
use yamemcached.Base.{◌∷◌, [], some, ℕ, ◌≡◌, refl, ◌≤◌, ◌<◌, ok, arith, if◌then◌else◌, ◌==◌}
use yamemcached.Number.{digit, fall_through, atoull, atous, itoa}
use yamemcached.Number.Search.{strnstr, missing, search_rounds, starts_with, last_round}
use yamemcached.Number.Digits.{itoa-atoull}

-- "70000", which does not fit in 16 bits
atous_wraps : atous (λ i. if i == 0 then 55 else 48) 0 5 ≡ 4464
unfolding atous fall_through digit
atous_wraps = refl

itoa-atoull_example :
    (s : ℕ → ℕ) × (n : ℕ) × (itoa 2017 (λ _. 0) ≡ ok (s, n))
    × (0 < n)
    × (n ≤ 20)
    × (s n ≡ 32)
    × (atoull s 0 n ≡ 2017)
itoa-atoull_example = itoa-atoull 2017 (λ _. 0) (omega arith)

-- "ab" in "xab"
strnstr_run :
    strnstr (λ i. if i == 0 then 120 else if i == 1 then 97 else 98) (97 ∷ 98 ∷ []) 3 ≡ ok (some 1)
unfolding strnstr missing search_rounds starts_with last_round
strnstr_run = refl

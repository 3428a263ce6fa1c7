-- ===== src/Request/Solver.antt =====
-- src/FastSubstringMatcher.cpp: the spots that are solved for a list of keywords.
use yamemcached.Base.{
  ℕ, zero, suc, ◌+◌, ◌-◌, ◌%◌, ◌^◌, Bool, false, ◌||◌, Option, none, some, List, [], ◌∷◌, ◌++◌,
  length, Outcome, ok, fault, ◌>>=◌, ◌==◌, ltb, leb, if◌then◌else◌,
}
use yamemcached.Request.Matcher.{MatcherSpot, Matcher}

-- `pair<size_t, string>`: the index of a keyword, and its characters
pub record Candidate : Type 0 where
  pub index : ℕ
  pub chars : List ℕ

-- `at(pos)`; the strings have the size that is solved for, so no position is out of range.
unfoldable pub char_at : List ℕ → ℕ → ℕ
char_at [] pos = 0
char_at (c ∷ cs) zero = c
char_at (c ∷ cs) (suc pos) = char_at cs pos

-- `at(pos) = '0'`
unfoldable pub zero_at : List ℕ → ℕ → List ℕ
zero_at [] pos = []
zero_at (c ∷ cs) zero = 48 ∷ cs
zero_at (c ∷ cs) (suc pos) = c ∷ zero_at cs pos

unfoldable pub contains : ℕ → List ℕ → Bool
contains c [] = false
contains c (x ∷ xs) = (x == c) || contains c xs

-- `uniqCharsAtPos`: the characters at a position, each where it comes first.
unfoldable pub unique_chars : List ℕ → ℕ → List Candidate → List ℕ
unique_chars seen pos [] = seen
unique_chars seen pos (m ∷ ms) =
    let c = char_at m.chars pos in
    unique_chars (if contains c seen then seen else seen ++ (c ∷ [])) pos ms

-- `pair<size_t, vector<char>>`
pub record Variance : Type 0 where
  pub pos : ℕ
  pub unique : List ℕ

-- `diffCharsAtPos`, from a position on
unfoldable pub diff_chars : ℕ → ℕ → List Candidate → List Variance
diff_chars zero pos ms = []
diff_chars (suc left) pos ms =
    record { pos = pos; unique = unique_chars [] pos ms } ∷ diff_chars left (pos + 1) ms

-- `varianceGreaterThan`
unfoldable pub variance_greater : Variance → Variance → Bool
variance_greater a b =
    if length a.unique == length b.unique
    then ltb a.pos b.pos
    else ltb (length b.unique) (length a.unique)

-- `sort`, whose order is strict on different positions
unfoldable pub insert_sorted : Variance → List Variance → List Variance
insert_sorted v [] = v ∷ []
insert_sorted v (w ∷ ws) = if variance_greater v w then v ∷ w ∷ ws else w ∷ insert_sorted v ws

unfoldable pub sort_variance : List Variance → List Variance
sort_variance [] = []
sort_variance (v ∷ vs) = insert_sorted v (sort_variance vs)

-- The candidates with a character at a position.
unfoldable pub matching : ℕ → ℕ → List Candidate → List Candidate
matching pos c [] = []
matching pos c (m ∷ ms) =
    let rest = matching pos c ms in if char_at m.chars pos == c then m ∷ rest else rest

unfoldable pub zero_all : ℕ → List Candidate → List Candidate
zero_all pos [] = []
zero_all pos (m ∷ ms) = record m { chars = zero_at m.chars pos } ∷ zero_all pos ms

-- `MatcherSpot(pos, daChar, index)`, with an `unsigned char` and a 16-bit word
unfoldable pub spot : ℕ → ℕ → ℕ → MatcherSpot
spot pos c word = record { pos = pos % 2 ^ 8; da_char = c; matching_string_idx = word % 2 ^ 16 }

-- The loop over the characters of the chosen position, given the recursive call.
unfoldable pub solve_chars :
    (List Candidate → Outcome (List MatcherSpot))
    → ℕ
    → List Candidate
    → List ℕ
    → Outcome (List MatcherSpot)
solve_chars solve pos ms [] = ok []
solve_chars solve pos ms (c ∷ cs) =
    (elim (matching pos c ms) [
      | m ∷ [] ↦ ok (spot pos c m.index ∷ [])
      | found ↦
          solve (zero_all pos found) >>= λ spots. ok (spot pos c (2 ^ 64 - length found) ∷ spots)
    ])
    >>= λ first. solve_chars solve pos ms cs >>= λ rest. ok (first ++ rest)

-- `solveMatchers`. A keyword that stands twice is never told apart, and the stack overflows. With
-- no position there is no `diffCharsAtPos[0]`.
unfoldable pub solve_matchers : ℕ → ℕ → List Candidate → Outcome (List MatcherSpot)
solve_matchers zero size ms = fault
solve_matchers (suc depth) size ms = elim (sort_variance (diff_chars size 0 ms)) [
  | [] ↦ fault
  | best ∷ rest ↦ solve_chars (solve_matchers depth size) best.pos ms best.unique
]

-- `reverseMatchKeywords` has the last index of a keyword; those of one size, from index `i` on.
unfoldable pub of_size : ℕ → ℕ → List (List ℕ) → List Candidate
of_size size i [] = []
of_size size i (w ∷ ws) =
    let rest = of_size size (i + 1) ws in
    if length w == size then record { index = i; chars = w } ∷ rest else rest

-- The sizes of the keywords, each once.
unfoldable pub sizes : List ℕ → List (List ℕ) → List ℕ
sizes seen [] = seen
sizes seen (w ∷ ws) = sizes (if contains (length w) seen then seen else seen ++ (length w ∷ [])) ws

-- The spots for each size; `spotSelectorMatch` has 256 entries.
unfoldable pub solve_sizes : List (List ℕ) → List ℕ → Outcome (List (ℕ × List MatcherSpot))
solve_sizes keywords [] = ok []
solve_sizes keywords (size ∷ rest) =
    let ms = of_size size 0 keywords in
    if leb 256 size
    then fault
    else (solve_matchers (length ms) size ms >>= λ spots.
        solve_sizes keywords rest >>= λ others. ok ((size, spots) ∷ others))

unfoldable pub selector : List (ℕ × List MatcherSpot) → ℕ → Option (List MatcherSpot)
selector [] size = none
selector ((n, spots) ∷ rest) size =
    let other = selector rest size in if n == size then some spots else other

-- `SetKeywords`, for keywords that are all different
unfoldable pub set_keywords : List (List ℕ) → Outcome Matcher
set_keywords keywords = solve_sizes keywords (sizes [] keywords) >>= λ solved.
    ok (record { spot_selector_match = selector solved })

-- `maxKeywordSize`, from the 1 that it begins with
unfoldable pub max_keyword_size : ℕ → List (List ℕ) → ℕ
max_keyword_size so_far [] = so_far + 1
max_keyword_size so_far (w ∷ ws) =
    max_keyword_size (if ltb so_far (length w) then length w else so_far) ws

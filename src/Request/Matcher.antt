-- ===== src/Request/Matcher.antt =====
-- src/FastSubstringMatcher.h: the match of a command by the spots that were solved for its length.
use yamemcached.Base.{
  ℕ, zero, suc, ◌+◌, ◌-◌, ◌^◌, Option, none, some, List, [], ◌∷◌, Outcome, ok, fault, ◌==◌, ltb,
  leb, ◌>>=◌, get_elem?, if◌then◌else◌,
}

-- `matchingStringIdx` is the 16-bit word of the signed index.
pub record MatcherSpot : Type 0 where
  pub pos : ℕ
  pub da_char : ℕ
  pub matching_string_idx : ℕ

-- `spotSelectorMatch`, by the length; `none` is the null pointer.
pub record Matcher : Type 0 where
  pub spot_selector_match : ℕ → Option (List MatcherSpot)

-- The loop after `skip` of the spots were jumped over. A jump over the end leaves the vector.
unfoldable pub match_from : ℕ → List MatcherSpot → (ℕ → ℕ) → ℕ → Outcome (Option ℕ)
match_from zero [] buf beg = ok none
match_from (suc skip) [] buf beg = fault
match_from (suc skip) (spot ∷ spots) buf beg = match_from skip spots buf beg
match_from zero (spot ∷ spots) buf beg =
    let next = match_from zero spots buf beg in
    let jump = match_from (2 ^ 16 - spot.matching_string_idx) spots buf beg in
    let hit = ltb spot.matching_string_idx (2 ^ 15) in
    if spot.da_char == buf (beg + spot.pos)
    then (if hit then ok (some spot.matching_string_idx) else next)
    else (if hit then next else jump)

-- The loop is a `do` loop: it looks at the first spot in any case.
unfoldable pub match_spots : List MatcherSpot → (ℕ → ℕ) → ℕ → Outcome (Option ℕ)
match_spots [] buf beg = fault
match_spots (spot ∷ spots) buf beg = match_from 0 (spot ∷ spots) buf beg

-- `MatchSubstring` that gives an index, which reads an array of 256 pointers without a check.
unfoldable pub match_substring : Matcher → (ℕ → ℕ) → ℕ → ℕ → Outcome (Option ℕ)
match_substring matcher buf beg end =
    if ltb (end - beg) 256
    then elim (matcher.spot_selector_match (end - beg)) [
      | none ↦ ok none
      | some spots ↦ match_spots spots buf beg
    ]
    else fault

-- `MatchSubstring` that gives the keyword, which first compares the size with `maxKeywordSize`.
unfoldable pub match_keyword :
    Matcher → ℕ → List (List ℕ) → (ℕ → ℕ) → ℕ → ℕ → Outcome (Option (List ℕ))
match_keyword matcher max_keyword_size keywords buf beg end =
    if leb (end - beg) max_keyword_size
    then (match_substring matcher buf beg end >>= λ found. elim found [
      | none ↦ ok none
      | some index ↦ elim (get_elem? keywords index) [
        | none ↦ fault
        | some keyword ↦ ok (some keyword)
      ]
    ])
    else ok none

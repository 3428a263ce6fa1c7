-- ===== src/Request/Solved.antt =====
-- The commands of src/Server.cpp, each found by the spots that src/FastSubstringMatcher.cpp solves.
use yamemcached.Base.{
  ℕ, zero, suc, ◌+◌, ◌-◌, ◌^◌, ◌<◌, ◌≡◌, refl, sym, ap, ◌∙◌, subst, Option, none, some, List, [],
  ◌∷◌, length, get_elem?, ok, ◌==◌, if◌then◌else◌, arith, lt→ltb, Bool-cases, inl, inr,
}
use yamemcached.Request.Out.{text}
use yamemcached.Request.Matcher.{MatcherSpot, Matcher, match_from, match_spots, match_substring}
use yamemcached.Request.Solver.{
  char_at, contains, unique_chars, diff_chars, variance_greater, insert_sorted, sort_variance,
  matching, spot, solve_chars, solve_matchers, of_size, sizes, solve_sizes, selector, set_keywords,
}

-- `memcachedCommands`
abbrev pub memcached_commands : List (List ℕ)
memcached_commands =
    (103 ∷ 101 ∷ 116 ∷ [])
    ∷ (115 ∷ 101 ∷ 116 ∷ [])
    ∷ (97 ∷ 100 ∷ 100 ∷ [])
    ∷ (100 ∷ 101 ∷ 108 ∷ 101 ∷ 116 ∷ 101 ∷ [])
    ∷ (114 ∷ 101 ∷ 112 ∷ 108 ∷ 97 ∷ 99 ∷ 101 ∷ [])
    ∷ (99 ∷ 97 ∷ 115 ∷ [])
    ∷ (103 ∷ 101 ∷ 116 ∷ 115 ∷ [])
    ∷ (97 ∷ 112 ∷ 112 ∷ 101 ∷ 110 ∷ 100 ∷ [])
    ∷ (112 ∷ 114 ∷ 101 ∷ 112 ∷ 101 ∷ 110 ∷ 100 ∷ [])
    ∷ (105 ∷ 110 ∷ 99 ∷ 114 ∷ [])
    ∷ (100 ∷ 101 ∷ 99 ∷ 99 ∷ 114 ∷ [])
    ∷ (116 ∷ 111 ∷ 117 ∷ 99 ∷ 104 ∷ [])
    ∷ (119 ∷ 97 ∷ 116 ∷ 99 ∷ 104 ∷ [])
    ∷ (108 ∷ 114 ∷ 117 ∷ 95 ∷ 99 ∷ 114 ∷ 97 ∷ 119 ∷ 108 ∷ 101 ∷ 114 ∷ [])
    ∷ (115 ∷ 116 ∷ 97 ∷ 116 ∷ 115 ∷ [])
    ∷ (115 ∷ 108 ∷ 97 ∷ 98 ∷ 115 ∷ [])
    ∷ []

abbrev at_spot : ℕ → ℕ → ℕ → MatcherSpot
at_spot p c i = record { pos = p; da_char = c; matching_string_idx = i }

-- What is solved for them.
abbrev command_spots : List (ℕ × List MatcherSpot)
command_spots =
    (3, at_spot 0 103 0 ∷ at_spot 0 115 1 ∷ at_spot 0 97 2 ∷ at_spot 0 99 5 ∷ [])
    ∷ (6, at_spot 0 100 3 ∷ at_spot 0 97 7 ∷ [])
    ∷ (7, at_spot 0 114 4 ∷ at_spot 0 112 8 ∷ [])
    ∷ (4, at_spot 0 103 6 ∷ at_spot 0 105 9 ∷ [])
    ∷ (
      5,
      at_spot 1 101 10
          ∷ at_spot 1 111 11
          ∷ at_spot 1 97 12
          ∷ at_spot 1 116 14
          ∷ at_spot 1 108 15
          ∷ [],
    )
    ∷ (11, at_spot 0 108 13 ∷ [])
    ∷ []

abbrev pub command_matcher : Matcher
command_matcher = record { spot_selector_match = selector command_spots }

pub set_keywords-commands : set_keywords memcached_commands ≡ ok command_matcher
unfolding set_keywords solve_sizes sizes contains of_size solve_matchers diff_chars unique_chars
    char_at sort_variance insert_sorted variance_greater solve_chars matching spot
set_keywords-commands = refl

-- Spots that all look at one position and lead to a keyword each.
abbrev Flat : ℕ → List MatcherSpot → Type 0
Flat pos [] = Unit
Flat pos (s ∷ ss) = (s.pos ≡ pos) × (s.matching_string_idx < 2 ^ 15) × Flat pos ss

abbrev find : ℕ → List MatcherSpot → Option ℕ
find c [] = none
find c (s ∷ ss) =
    let rest = find c ss in if s.da_char == c then some s.matching_string_idx else rest

match_from-Flat :
    (pos : ℕ) (spots : List MatcherSpot) (buf : ℕ → ℕ) (beg : ℕ)
    → Flat pos spots
    → match_from 0 spots buf beg ≡ ok (find (buf (beg + pos)) spots)
unfolding match_from
match_from-Flat pos [] buf beg flat = refl
match_from-Flat pos (s ∷ ss) buf beg (same, small, flat) =
    let read : buf (beg + s.pos) ≡ buf (beg + pos) = ap (λ (p : ℕ). buf (beg + p)) same in
    let hit = lt→ltb s.matching_string_idx (2 ^ 15) small in
    elim (Bool-cases (s.da_char == buf (beg + pos))) [
      | inl found ↦ rw (read, found, hit) refl
      | inr other ↦ rw (read, other, hit) (match_from-Flat pos ss buf beg flat)
    ]

char_at-text :
    (buf : ℕ → ℕ) (beg n pos : ℕ) → pos < n → char_at (text buf beg n) pos ≡ buf (beg + pos)
unfolding char_at text
char_at-text buf beg zero pos h = absurd (omega arith)
char_at-text buf beg (suc n) zero h = ap buf (omega arith)
char_at-text buf beg (suc n) (suc pos) h =
    char_at-text buf (beg + 1) n pos (omega arith) ∙ ap buf (omega arith)

-- A word is found by its character at the position that the spots of its size look at.
found_by :
    (size pos : ℕ) (s : MatcherSpot) (spots : List MatcherSpot) (buf : ℕ → ℕ) (beg : ℕ)
    (word : List ℕ)
    → size < 256
    → selector command_spots size ≡ some (s ∷ spots)
    → Flat pos (s ∷ spots)
    → pos < size
    → text buf beg size ≡ word
    → match_substring command_matcher buf beg (beg + size)
      ≡ ok (find (char_at word pos) (s ∷ spots))
unfolding match_substring match_spots
found_by size pos s spots buf beg word small solved flat inside same =
    let len : beg + size - beg ≡ size = omega arith in
    rw (len, lt→ltb size 256 small, solved)
      (match_from-Flat pos (s ∷ spots) buf beg flat
        ∙ ap (λ (c : ℕ). ok (find c (s ∷ spots)))
            (sym (char_at-text buf beg size pos inside) ∙ ap (λ (l : List ℕ). char_at l pos) same))

some_or {ℓ} : {A : Type ℓ} → A → Option A → A
some_or d none = d
some_or d (some a) = a

module _ (buf : ℕ → ℕ) (beg : ℕ) where
  -- The word with number `i`, where it stands, is matched to its number.
  abbrev Found : ℕ → List ℕ → Type 0
  Found i word =
      text buf beg (length word) ≡ word
      → match_substring command_matcher buf beg (beg + length word) ≡ ok (some i)

  abbrev AllFound : ℕ → List (List ℕ) → Type 0
  AllFound i [] = Unit
  AllFound i (w ∷ ws) = Found i w × AllFound (i + 1) ws

  at_index :
      (words : List (List ℕ)) (i k : ℕ) (word : List ℕ)
      → AllFound i words
      → get_elem? words k ≡ some word
      → Found (i + k) word
  unfolding some_or
  at_index [] i k word found e = cc
  at_index (w ∷ ws) i zero word (found, rest) e =
      let same : w ≡ word = ap (some_or []) e in
      let here : i ≡ i + 0 = omega arith in
      subst (λ (n : ℕ). Found n word) here (subst (Found i) same found)
  at_index (w ∷ ws) i (suc k) word (found, rest) e =
      let there : i + 1 + k ≡ i + suc k = omega arith in
      subst (λ (n : ℕ). Found n word) there (at_index ws (i + 1) k word rest e)

  commands_found : AllFound 0 memcached_commands
  unfolding selector char_at
  commands_found = (
    found_by 3 0 _ _ buf beg _ (omega arith) refl (omega arith) (omega arith),
    (
      found_by 3 0 _ _ buf beg _ (omega arith) refl (omega arith) (omega arith),
      (
        found_by 3 0 _ _ buf beg _ (omega arith) refl (omega arith) (omega arith),
        (
          found_by 6 0 _ _ buf beg _ (omega arith) refl (omega arith) (omega arith),
          (
            found_by 7 0 _ _ buf beg _ (omega arith) refl (omega arith) (omega arith),
            (
              found_by 3 0 _ _ buf beg _ (omega arith) refl (omega arith) (omega arith),
              (
                found_by 4 0 _ _ buf beg _ (omega arith) refl (omega arith) (omega arith),
                (
                  found_by 6 0 _ _ buf beg _ (omega arith) refl (omega arith) (omega arith),
                  (
                    found_by 7 0 _ _ buf beg _ (omega arith) refl (omega arith) (omega arith),
                    (
                      found_by 4 0 _ _ buf beg _ (omega arith) refl (omega arith) (omega arith),
                      (
                        found_by 5 1 _ _ buf beg _ (omega arith) refl (omega arith) (omega arith),
                        (
                          found_by 5 1 _ _ buf beg _ (omega arith) refl (omega arith) (omega arith),
                          (
                            found_by 5 1 _ _ buf beg _ (omega arith) refl (omega arith)
                                (omega arith),
                            (
                              found_by 11 0 _ _ buf beg _ (omega arith) refl (omega arith)
                                  (omega arith),
                              (
                                found_by 5 1 _ _ buf beg _ (omega arith) refl (omega arith)
                                    (omega arith),
                                (
                                  found_by 5 1 _ _ buf beg _ (omega arith) refl (omega arith)
                                      (omega arith),
                                  tt,
                                ),
                              ),
                            ),
                          ),
                        ),
                      ),
                    ),
                  ),
                ),
              ),
            ),
          ),
        ),
      ),
    ),
  )

  -- SetKeywords solves the sixteen commands of the server, and with what it solved each command
  -- that stands in a buffer is matched to its number.
  pub set_keywords-found :
      (m : Matcher) × (set_keywords memcached_commands ≡ ok m)
      × ((i : ℕ) (word : List ℕ)
          → get_elem? memcached_commands i ≡ some word
          → text buf beg (length word) ≡ word
          → match_substring m buf beg (beg + length word) ≡ ok (some i))
  set_keywords-found = (
    command_matcher,
    set_keywords-commands,
    λ i word e.
        subst (λ (n : ℕ). Found n word) (omega arith)
          (at_index memcached_commands 0 i word commands_found e),
  )

  -- With the spots of the commands of the server, three bytes that begin with g are matched to
  -- the number of get, whatever the others are.
  pub match_substring-inexact :
      buf beg ≡ 103 → match_substring command_matcher buf beg (beg + 3) ≡ ok (some 0)
  unfolding selector
  match_substring-inexact first =
      let begins : char_at (text buf beg 3) 0 ≡ 103 =
        char_at-text buf beg 3 0 (omega arith) ∙ ap buf (omega arith) ∙ first in
      found_by 3 0 _ _ buf beg (text buf beg 3) (omega arith) refl (omega arith) (omega arith) refl
      ∙ ap
          (λ (c : ℕ).
            ok (find c (at_spot 0 103 0 ∷ at_spot 0 115 1 ∷ at_spot 0 97 2 ∷ at_spot 0 99 5 ∷ [])))
          begins

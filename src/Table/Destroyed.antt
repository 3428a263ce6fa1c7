-- ===== src/Table/Destroyed.antt =====
-- The destructor of src/LFLRUHashTable.h.
use yamemcached.Base.{
  ℕ, zero, suc, ◌+◌, ◌≤◌, ◌<◌, ◌≡◌, ◌≢◌, refl, inl, inr, List, [], ◌∷◌, length, ok, ==_of_ne,
  lt→ltb, arith, Bool-cases, ==_of_false, ◌==◌,
}
use yamemcached.Table.State.{Table, element, hash_lock_mark, hash_free_mark}
use yamemcached.Table.Walk.{destroy_from, destroy}

module _ {K V : Type 0} where
  destroy_from-ends :
      (slots pos : ℕ) (t : Table K V)
      → ((j : ℕ) → j < pos + slots → t.element_links j ≢ hash_lock_mark)
      → ((j : ℕ)
          → j < pos + slots
          → t.element_links j ≢ hash_free_mark
          → t.element_links j < t.num_elements)
      → (r : List ℕ) × (destroy_from slots pos t ≡ ok r) × (length r ≤ slots)
  unfolding destroy_from element
  destroy_from-ends zero pos t unlocked in_range = ([], refl, omega arith)
  destroy_from-ends (suc slots) pos t unlocked in_range =
      let (r, ends, short) =
        destroy_from-ends slots (pos + 1) t (λ j h. unlocked j (omega arith))
          (λ j h. in_range j (omega arith)) in
      let open_slot = ==_of_ne _ _ (unlocked pos (omega arith)) in
      elim (Bool-cases (t.element_links pos == hash_free_mark)) [
        | inl free ↦ (r, rw (open_slot, free) ends, omega arith)
        | inr taken ↦ (
          t.element_links pos ∷ r,
          rw
              (
                open_slot,
                taken,
                lt→ltb _ _ (in_range pos (omega arith) (==_of_false _ _ taken)),
                ends,
              )
              refl,
          omega arith,
        )
      ]

  -- If no slot is locked and each one that is taken names an element of the table, the destructor
  -- ends, with at most one element destroyed for each slot.
  pub destroy-ends :
      (t : Table K V)
      → ((j : ℕ) → j < t.hash_size → t.element_links j ≢ hash_lock_mark)
      → ((j : ℕ)
          → j < t.hash_size
          → t.element_links j ≢ hash_free_mark
          → t.element_links j < t.num_elements)
      → (r : List ℕ) × (destroy t ≡ ok r) × (length r ≤ t.hash_size)
  unfolding destroy
  destroy-ends t unlocked in_range =
      destroy_from-ends t.hash_size 0 t (λ j h. unlocked j (omega arith))
        (λ j h. in_range j (omega arith))

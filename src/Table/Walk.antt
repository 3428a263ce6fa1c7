-- ===== src/Table/Walk.antt =====
-- `processHash` of src/LFLRUHashTable.h, by which the server counts its items, and the destructor.
use yamemcached.Base.{
  abort, List, [], ◌∷◌, ◌>>=◌, ℕ, zero, suc, ◌+◌, Outcome, ok, spin, ◌==◌, if◌then◌else◌,
}
use yamemcached.Table.State.{Table, element, hash_lock_mark, hash_free_mark}

module _ {K V : Type 0} where
  -- `processHash` from slot `pos` on, `slots` of them: the processor runs on the element of every
  -- slot, free ones too, while the slot is locked.
  unfoldable pub process_from : {S : Type 0} → (ℕ → S → S) → ℕ → ℕ → Table K V → S → Outcome S
  process_from processor zero pos t s = ok s
  process_from processor (suc slots) pos t s =
      let rest = process_from processor slots (pos + 1) t (processor (t.element_links pos) s) in
      if t.element_links pos == hash_lock_mark then spin else rest

  unfoldable pub process_hash : {S : Type 0} → (ℕ → S → S) → Table K V → S → Outcome S
  process_hash processor t s = process_from processor t.hash_size 0 t s

  -- The loop of the destructor over `slots` slots from `pos` on: the elements whose key and value are
  -- destroyed.
  unfoldable pub destroy_from : ℕ → ℕ → Table K V → Outcome (List ℕ)
  destroy_from zero pos t = ok []
  destroy_from (suc slots) pos t =
      let rest = destroy_from slots (pos + 1) t in
      let idx = t.element_links pos in
      if idx == hash_lock_mark
      then abort
      else if idx == hash_free_mark
      then rest
      else (element t idx >>= λ _. rest >>= λ destroyed. ok (idx ∷ destroyed))

  unfoldable pub destroy : Table K V → Outcome (List ℕ)
  destroy t = destroy_from t.hash_size 0 t

-- ===== src/LaneQueue/Spec.antt =====
-- The abstract queue that LFSPSCQueue.h implements: two bounded sequences, one that the producer
-- fills and one that the consumer drains, which change places when the producer's is full or the
-- consumer's is empty.
use yamemcached.Base.{
  ℕ, ◌+◌, Bool, true, false, Option, none, some, List, [], ◌∷◌, ◌++◌, ◌==◌, if◌then◌else◌, length,
}

-- what the producer fills and what the consumer drains, oldest first
pub record Pair {ℓ} (T : Type ℓ) : Type ℓ where
  pub filled : List T
  pub drained : List T

module _ {ℓ} {T : Type ℓ} where
  -- A lane of `size` slots holds `size - 1` values.
  unfoldable pub spec_push : ℕ → Pair T → T → Bool × Pair T
  spec_push size p v =
      if length p.filled + 1 == size
      then (if length p.drained + 1 == size
          then (false, record { filled = p.drained; drained = p.filled })
          else (true, record { filled = p.drained ++ v ∷ []; drained = p.filled }))
      else (true, record p { filled = p.filled ++ v ∷ [] })

  unfoldable pub spec_pop : Pair T → Option T × Pair T
  spec_pop p = elim p.drained [
    | x ∷ rest ↦ (some x, record p { drained = rest })
    | [] ↦ elim p.filled [
      | x ∷ rest ↦ (some x, record { filled = []; drained = rest })
      | [] ↦ (none, record { filled = []; drained = [] })
    ]
  ]

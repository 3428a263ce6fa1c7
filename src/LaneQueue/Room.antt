-- ===== src/LaneQueue/Room.antt =====
-- A push into a queue of src/LFSPSCQueue.h that has room stores its value.
use mathlib.Core.List.{Perm}
use yamemcached.Base.{
  ℕ, ◌+◌, ◌*◌, ◌^◌, ◌<◌, ◌≡◌, refl, sym, ap, ◌∙◌, Bool, true, false, List, [], ◌∷◌, ◌++◌, length,
  length-append, arith, ◌==◌, Bool-cases, inl, inr, ok, subst,
}
use yamemcached.LaneQueue.{LaneQueue, push}
use yamemcached.LaneQueue.Spec.{Pair, spec_push}
use yamemcached.LaneQueue.Views.{IsValid, view}
use yamemcached.LaneQueue.Refine.{push_refines}
use yamemcached.LaneQueue.Items.{items, Room, Kept, push-items}

module _ {ℓ} {T : Type ℓ} where
  spec_push-length :
      (size : ℕ) (p : Pair T) (v : T)
      → (spec_push size p v).0 ≡ true
      → length (items (spec_push size p v).1) ≡ length (items p) + 1
  unfolding spec_push
  spec_push-length size p v h = elim (Bool-cases (length p.filled + 1 == size)) [
    | inr room ↦ rw room (
        omega (
          arith,
          length-append (p.filled ++ v ∷ []) p.drained,
          length-append p.filled (v ∷ []),
          length-append p.filled p.drained,
        ))
    | inl full ↦ elim (Bool-cases (length p.drained + 1 == size)) [
      | inr room ↦
          rw (full, room)
            (omega (
              arith,
              length-append (p.drained ++ v ∷ []) p.filled,
              length-append p.drained (v ∷ []),
              length-append p.filled p.drained,
            ))
      | inl full' ↦ let bad : false ≡ true = rw (full, full') at h in cc
    ]
  ]

  answers-true :
      (size : ℕ) (b : Bool) (before : List T)
      → length before + 2 < 2 * size
      → Room size b before
      → b ≡ true
  answers-true size true before h r = refl
  answers-true size false before h r = absurd (omega arith)

  -- What such a push leaves.
  pub record Pushed (k : ℕ) (q q' : LaneQueue T) (v : T) : Type ℓ where
    pub valid : IsValid k q'
    pub added : Perm (items (view k q')) (v ∷ items (view k q))
    pub longer : length (items (view k q')) ≡ length (items (view k q)) + 1

  pub push-Pushed :
      (k : ℕ) (q : LaneQueue T) (v : T)
      → IsValid k q
      → length (items (view k q)) + 2 < 2 * 2 ^ k
      → (q' : LaneQueue T) × (push q v ≡ ok (true, q')) × Pushed k q q' v
  push-Pushed k q v valid room =
      let (r, e, valid', same) = push_refines k q v valid in
      let (kept, had) = push-items k q valid v r.0 r.1 e in
      let yes_stored : r.0 ≡ true = answers-true (2 ^ k) r.0 (items (view k q)) room had in
      let spec_stored : (spec_push (2 ^ k) (view k q) v).0 ≡ true =
        ap (λ (z : Bool × Pair T). z.0) (sym same) ∙ yes_stored in
      (
        r.1,
        e ∙ ap (λ (b : Bool). ok (b, r.1)) yes_stored,
        record {
          valid = valid';
          added =
              subst (λ (b : Bool). Kept (2 ^ k) b v (items (view k q)) (items (view k r.1)))
                yes_stored kept;
          longer =
              ap (λ (z : Bool × Pair T). length (items z.1)) same
              ∙ spec_push-length (2 ^ k) (view k q) v spec_stored;
        },
      )

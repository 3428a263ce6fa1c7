-- ===== src/LaneQueue/Items.antt =====
-- What goes through LFSPSCQueue.h comes out once: the values as a collection without order.
use mathlib.Core.List.{Perm, perm_middle, perm_append_comm}
use mathlib.Core.List.Perm
use native.Mathlib.Nat.{one-le-pow, pow-suc}
use yamemcached.Base.{
  ℕ, zero, suc, ◌+◌, ◌-◌, ◌*◌, ◌%◌, ◌^◌, ◌≤◌, ◌<◌, ◌≡◌, refl, inl, inr, Bool, true, false, subst,
  Option, none, some, List, [], ◌∷◌, ◌++◌, arith, ◌==◌, length, Bool-cases, ok, ok-injective, sym,
  ◌∙◌, ==_iff, ==_of_false, append_assoc, le→leb, length-append, append-nil,
}
use yamemcached.Base.Bits.{bit_and-low_mask}
use yamemcached.LaneQueue.{LaneQueue, init, push, pop}
use yamemcached.LaneQueue.Spec.{Pair, spec_push, spec_pop}
use yamemcached.LaneQueue.Lanes.{contents, length-contents}
use yamemcached.LaneQueue.Views.{IsValid, view}
use yamemcached.LaneQueue.Refine.{push_refines, pop_refines}

module _ {ℓ} {T : Type ℓ} where
  abbrev pub items : Pair T → List T
  items p = p.filled ++ p.drained

  -- What a push leaves, by its answer; `size` is the number of slots of a lane.
  abbrev pub Kept : ℕ → Bool → T → List T → List T → Type ℓ
  Kept size true v before after = Perm after (v ∷ before)
  Kept size false v before after = Perm after before

  abbrev pub Room : ℕ → Bool → List T → Type 0
  Room size true before = length before + 2 < 2 * size
  Room size false before = length before + 2 ≡ 2 * size

  spec_push-Kept :
      (size : ℕ) (p : Pair T) (v : T)
      → let (b, p') = spec_push size p v in Kept size b v (items p) (items p')
  unfolding spec_push
  spec_push-Kept size p v = elim (Bool-cases (length p.filled + 1 == size)) [
    | inr room ↦ rw room (rw append_assoc (perm_middle p.filled p.drained))
    | inl full ↦ elim (Bool-cases (length p.drained + 1 == size)) [
      | inr room ↦
          rw (full, room)
            (rw append_assoc (
              Perm.trans (perm_middle p.drained p.filled)
                (Perm.cons v (perm_append_comm p.drained p.filled))))
      | inl full' ↦ rw (full, full') (perm_append_comm p.drained p.filled)
    ]
  ]

  spec_push-Room :
      (size : ℕ) (p : Pair T) (v : T)
      → length p.filled < size
      → length p.drained < size
      → Room size (spec_push size p v).0 (items p)
  unfolding spec_push
  spec_push-Room size p v hf hd = elim (Bool-cases (length p.filled + 1 == size)) [
    | inr room ↦ rw room (omega (arith, length-append p.filled p.drained, ==_of_false _ _ room))
    | inl full ↦ elim (Bool-cases (length p.drained + 1 == size)) [
      | inr room ↦
          rw (full, room) (omega (arith, length-append p.filled p.drained, ==_of_false _ _ room))
      | inl full' ↦
          rw (full, full')
            (omega
              (arith, length-append p.filled p.drained, (==_iff _ _).0 full, (==_iff _ _).0 full'))
    ]
  ]

  abbrev pub Taken : Option T → List T → List T → Type ℓ
  Taken none before after = (before ≡ []) × (after ≡ [])
  Taken (some v) before after = Perm before (v ∷ after)

  spec_pop-Taken :
      (filled drained : List T)
      → let (o, p') = spec_pop (record { filled = filled; drained = drained }) in
        Taken o (filled ++ drained) (items p')
  unfolding spec_pop
  spec_pop-Taken [] [] = (refl, refl)
  spec_pop-Taken (x ∷ filled) [] = rw append-nil (Perm.refl (x ∷ filled))
  spec_pop-Taken filled (x ∷ drained) = perm_middle filled drained

module _ {ℓ} {T : Type ℓ} (k : ℕ) (q : LaneQueue T) (valid : IsValid k q) where
  held-lt : (i : ℕ) → length (contents (2 ^ k) (q.lanes i)) < 2 ^ k
  held-lt i = ground (arith, length-contents (2 ^ k) (q.lanes i), valid.lane i)

  -- A push that ran on a valid queue of 2^k slots a lane keeps the items up to order and adds the
  -- value if it says so; it refuses only where there are 2 * 2^k - 2 items, and stores only where
  -- there are fewer.
  pub push-items :
      (v : T) (b : Bool) (q' : LaneQueue T)
      → push q v ≡ ok (b, q')
      → Kept (2 ^ k) b v (items (view k q)) (items (view k q')) × Room (2 ^ k) b (items (view k q))
  push-items v b q' h =
      let (r, e, _, same) = push_refines k q v valid in
      let now : (b, view k q') ≡ spec_push (2 ^ k) (view k q) v =
        subst (λ (r : Bool × LaneQueue T). (r.0, view k r.1) ≡ spec_push (2 ^ k) (view k q) v)
          (ok-injective (sym e ∙ h)) same in
      (
        subst (λ (z : Bool × Pair T). Kept (2 ^ k) z.0 v (items (view k q)) (items z.1)) (sym now)
            (spec_push-Kept (2 ^ k) (view k q) v),
        subst (λ (z : Bool × Pair T). Room (2 ^ k) z.0 (items (view k q))) (sym now)
            (spec_push-Room (2 ^ k) (view k q) v (held-lt _) (held-lt _)),
      )

  -- A pop that ran on a valid queue takes one item of the queue and keeps the others, up to
  -- order, or finds the queue empty.
  pub pop-items :
      (o : Option T) (q' : LaneQueue T)
      → pop q ≡ ok (o, q')
      → Taken o (items (view k q)) (items (view k q'))
  pop-items o q' h =
      let (r, e, _, same) = pop_refines k q valid in
      let now : (o, view k q') ≡ spec_pop (view k q) =
        subst (λ (r : Option T × LaneQueue T). (r.0, view k r.1) ≡ spec_pop (view k q))
          (ok-injective (sym e ∙ h)) same in
      subst (λ (z : Option T × Pair T). Taken z.0 (items (view k q)) (items z.1)) (sym now)
        (spec_pop-Taken (view k q).filled (view k q).drained)

two-le-pow : (k : ℕ) → 1 ≤ k → 2 ≤ 2 ^ k
two-le-pow zero h = absurd (omega arith)
two-le-pow (suc k) h = omega (arith, pow-suc 2 k, one-le-pow k 2)

-- The constructor with 2^k slots a lane, for k from 1 to 63, gives a valid queue with no items.
pub init_lem {ℓ} :
    {T : Type ℓ} (k : ℕ) (junk : ℕ → T)
    → 1 ≤ k
    → 2 ^ k ≤ 2 ^ 63
    → (q : LaneQueue T) × (init (2 ^ k) junk ≡ ok q) × IsValid k q × (items (view k q) ≡ [])
unfolding init
init_lem {T = T} k junk low fits = (
  fresh,
  rw (le→leb 2 (2 ^ k) (two-le-pow k low), bit_and-low_mask k (2 ^ k), no_rest),
  record {
    fits = fits;
    mask = refl;
    lane = λ i. record {
      head_in = one-le-pow k 2 (omega arith);
      tail_in = one-le-pow k 2 (omega arith);
    };
  },
  refl,
)
  where
    fresh : LaneQueue T
    fresh = record {
      lanes = λ _. record { ring = junk; head = 0; tail = 0 };
      buffer_mask = 2 ^ k - 1;
      lane_switch = 0;
    }

    no_rest : 2 ^ k % 2 ^ k ≡ 0
    no_rest = grind arith

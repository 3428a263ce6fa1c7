-- ===== src/LaneQueue/Refine.antt =====
-- LFSPSCQueue.h implements the abstract queue of `Spec`.
use yamemcached.Base.{
  ℕ, ◌+◌, ◌%◌, ◌^◌, ◌≡◌, refl, inl, inr, Bool, true, false, Option, none, some, List, [], ◌∷◌,
  update, Outcome, ok, ◌>>=◌,
}
use yamemcached.LaneQueue.{LaneQueue, push, pop}
use yamemcached.LaneQueue.Spec.{Pair, spec_push, spec_pop}
use yamemcached.LaneQueue.Views.{
  IsValid, view, put_cases, get_cases, with_lane-IsValid, switched-IsValid, switched, view-fill,
  view-drain, view-switched, view-second, view-second_drain, push_first, push_second, push_full,
  pop_first, pop_second, pop_empty,
}

module _ {ℓ} {T : Type ℓ} (k : ℕ) where
  -- push on a valid queue ends, leaves a valid queue, and does to the view of the queue what the
  -- specification's push does.
  pub push_refines :
      (q : LaneQueue T) (v : T)
      → IsValid k q
      → (r : Bool × LaneQueue T) × (push q v ≡ ok r)
        × IsValid k r.1
        × ((r.0, view k r.1) ≡ spec_push (2 ^ k) (view k q) v)
  unfolding spec_push
  push_refines q v valid =
      elim (put_cases k (q.lanes (q.lane_switch % 2)) v valid.fits (valid.lane _)) [
        | inr (lane, done, is_lane, now, room) ↦ (
          (true, record q { lanes = update q.lanes (q.lane_switch % 2) lane }),
          push_first k q v lane (rw valid.mask done),
          with_lane-IsValid k q (q.lane_switch % 2) lane valid is_lane,
          rw (view-fill k q lane, room, now),
        )
        | inl (failed, full) ↦
            elim (put_cases k (q.lanes ((q.lane_switch + 1) % 2)) v valid.fits (valid.lane _)) [
              | inr (lane, done, is_lane, now, room) ↦ (
                (
                  true,
                  record (switched k q) { lanes = update q.lanes ((q.lane_switch + 1) % 2) lane },
                ),
                push_second k q v lane (rw valid.mask failed) (rw valid.mask done),
                with_lane-IsValid k (switched k q) ((q.lane_switch + 1) % 2) lane
                    (switched-IsValid k q valid) is_lane,
                rw (view-second k q lane, full, room, now),
              )
              | inl (failed', full') ↦ (
                (false, switched k q),
                push_full k q v (rw valid.mask failed) (rw valid.mask failed'),
                switched-IsValid k q valid,
                rw (view-switched k q, full, full'),
              )
            ]
      ]

  -- `pop` returns what `spec_pop` does, always, and leaves a valid queue that holds its pair.
  pub pop_refines :
      (q : LaneQueue T)
      → IsValid k q
      → (r : Option T × LaneQueue T) × (pop q ≡ ok r)
        × IsValid k r.1
        × ((r.0, view k r.1) ≡ spec_pop (view k q))
  unfolding spec_pop
  pop_refines q valid =
      elim (get_cases k (q.lanes ((q.lane_switch + 1) % 2)) valid.fits (valid.lane _)) [
        | inr (v, lane, done, is_lane, was) ↦ (
          (some v, record q { lanes = update q.lanes ((q.lane_switch + 1) % 2) lane }),
          pop_first k q v lane (rw valid.mask done),
          with_lane-IsValid k q ((q.lane_switch + 1) % 2) lane valid is_lane,
          rw (view-drain k q lane, was),
        )
        | inl (failed, none_held) ↦
            elim (get_cases k (q.lanes (q.lane_switch % 2)) valid.fits (valid.lane _)) [
              | inr (v, lane, done, is_lane, was) ↦ (
                (some v, record (switched k q) { lanes = update q.lanes (q.lane_switch % 2) lane }),
                pop_second k q v lane (rw valid.mask failed) (rw valid.mask done),
                with_lane-IsValid k (switched k q) (q.lane_switch % 2) lane
                    (switched-IsValid k q valid) is_lane,
                rw (view-second_drain k q lane, none_held, was),
              )
              | inl (failed', none_held') ↦ (
                (none, switched k q),
                pop_empty k q (rw valid.mask failed) (rw valid.mask failed'),
                switched-IsValid k q valid,
                rw (view-switched k q, none_held, none_held'),
              )
            ]
      ]

-- The calls of the two sides in some order, each running to its end, with what they return.
pub data Op {ℓ} (T : Type ℓ) : Type ℓ where
  push_op : T → Op T
  pop_op : Op T

pub data Reply {ℓ} (T : Type ℓ) : Type ℓ where
  pushed : Bool → Reply T
  popped : Option T → Reply T

module _ {ℓ} {T : Type ℓ} where
  unfoldable pub run : LaneQueue T → List (Op T) → Outcome (List (Reply T))
  run q [] = ok []
  run q (push_op v ∷ ops) = push q v >>= λ r. run r.1 ops >>= λ replies. ok (pushed r.0 ∷ replies)
  run q (pop_op ∷ ops) = pop q >>= λ r. run r.1 ops >>= λ replies. ok (popped r.0 ∷ replies)

  pub spec_run : ℕ → Pair T → List (Op T) → List (Reply T)
  spec_run size p [] = []
  spec_run size p (push_op v ∷ ops) =
      let (b, p') = spec_push size p v in pushed b ∷ spec_run size p' ops
  spec_run size p (pop_op ∷ ops) = let (o, p') = spec_pop p in popped o ∷ spec_run size p' ops

-- Any sequence of pushes and pops run on a valid queue of 2^k slots a lane replies what the two
-- lists of the specification reply, and never aborts or spins.
pub run_refines {ℓ} :
    {T : Type ℓ} (k : ℕ) (ops : List (Op T)) (q : LaneQueue T)
    → IsValid k q
    → run q ops ≡ ok (spec_run (2 ^ k) (view k q) ops)
unfolding run spec_run
run_refines k [] q v = refl
run_refines k (push_op x ∷ ops) q v =
    let (r, e, valid, same) = push_refines k q x v in rw (e, run_refines k ops r.1 valid, ← same)
run_refines k (pop_op ∷ ops) q v =
    let (r, e, valid, same) = pop_refines k q v in rw (e, run_refines k ops r.1 valid, ← same)

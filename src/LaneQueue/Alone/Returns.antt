-- ===== src/LaneQueue/Alone/Returns.antt =====
-- The producer of an LFSPSCQueue that is left alone leaves its call, wherever in it it stands.
use yamemcached.Base.{
  ℕ, zero, suc, ◌≡◌, refl, inl, inr, Bool, true, false, Option, some, ◌==◌, Bool-cases, ==_iff,
}
use yamemcached.LaneQueue.{LaneQueue, next, add_size}
use yamemcached.LaneQueue.Accesses.{
  Producer, resting, loads_switch, loads_head, loads_tail, writes_slot, stores_head, turns_switch,
  push_step, filling,
}
use yamemcached.LaneQueue.Alone.{produces_alone}

abbrev pub more : ℕ → ℕ → ℕ
more zero n = n
more (suc d) n = suc (more d n)

module _ {ℓ} {T : Type ℓ} where
  -- The producer is outside of push after some number of its accesses up to `n`.
  abbrev Returns : ℕ → LaneQueue T → Producer T → Type ℓ
  Returns n q p = (r : Option Bool) × ((produces_alone n q p).1 ≡ resting r)

  Returns-suc : (n : ℕ) (q : LaneQueue T) (p : Producer T) → Returns n q p → Returns (suc n) q p
  unfolding produces_alone push_step
  Returns-suc zero q p (r, e) = rw e (r, refl)
  Returns-suc (suc n) q p h = Returns-suc n (push_step q p).0 (push_step q p).1 h

  Returns-more :
      (d n : ℕ) (q : LaneQueue T) (p : Producer T) → Returns n q p → Returns (more d n) q p
  Returns-more zero n q p h = h
  Returns-more (suc d) n q p h = Returns-suc (more d n) q p (Returns-more d n q p h)

  second-Returns :
      (q : LaneQueue T) (v : T) (cur head : ℕ) → Returns 3 q (loads_tail v true cur head)
  unfolding produces_alone push_step
  second-Returns q v cur head =
      elim (Bool-cases (next q.buffer_mask head == (q.lanes (filling cur)).tail)) [
        | inl full ↦ rw full (some false, refl)
        | inr room ↦ rw room (some true, refl)
      ]

  -- With the switch that the queue has, the compare-exchange succeeds.
  turn-Returns :
      (q : LaneQueue T) (v : T) (cur : ℕ) → q.lane_switch ≡ cur → Returns 5 q (turns_switch v cur)
  unfolding produces_alone push_step
  turn-Returns q v cur same =
      rw ((==_iff _ _).1 same)
        (second-Returns (record q { lane_switch = add_size cur 1 }) v (add_size cur 1) _)

  call-Returns : (q : LaneQueue T) (v : T) → Returns 8 q (loads_switch v)
  unfolding produces_alone push_step
  call-Returns q v =
      elim (Bool-cases (
        next q.buffer_mask (q.lanes (filling q.lane_switch)).head
        == (q.lanes (filling q.lane_switch)).tail)) [
          | inl full ↦ rw full (turn-Returns q v q.lane_switch refl)
          | inr room ↦ rw room (some true, refl)
        ]

  any_turn-Returns : (q : LaneQueue T) (v : T) (cur : ℕ) → Returns 9 q (turns_switch v cur)
  unfolding produces_alone push_step
  any_turn-Returns q v cur = elim (Bool-cases (q.lane_switch == cur)) [
    | inl same ↦
        Returns-more 4 5 q (turns_switch v cur) (turn-Returns q v cur ((==_iff _ _).0 same))
    | inr other ↦ rw other (call-Returns q v)
  ]

  any_tail-Returns :
      (q : LaneQueue T) (v : T) (second : Bool) (cur head : ℕ)
      → Returns 10 q (loads_tail v second cur head)
  unfolding produces_alone push_step
  any_tail-Returns q v true cur head =
      Returns-more 7 3 q (loads_tail v true cur head) (second-Returns q v cur head)
  any_tail-Returns q v false cur head =
      elim (Bool-cases (next q.buffer_mask head == (q.lanes (filling cur)).tail)) [
        | inl full ↦ rw full (any_turn-Returns q v cur)
        | inr room ↦ rw room (some true, refl)
      ]

  pub producer_returns :
      (q : LaneQueue T) (p : Producer T)
      → (r : Option Bool) × ((produces_alone 11 q p).1 ≡ resting r)
  unfolding produces_alone push_step
  producer_returns q (resting r) = (r, refl)
  producer_returns q (loads_switch v) = Returns-more 3 8 q (loads_switch v) (call-Returns q v)
  producer_returns q (loads_head v second cur) = any_tail-Returns q v second cur _
  producer_returns q (loads_tail v second cur head) =
      Returns-suc 10 q (loads_tail v second cur head) (any_tail-Returns q v second cur head)
  producer_returns q (writes_slot v cur head) = (some true, refl)
  producer_returns q (stores_head v cur head) = (some true, refl)
  producer_returns q (turns_switch v cur) =
      Returns-more 2 9 q (turns_switch v cur) (any_turn-Returns q v cur)

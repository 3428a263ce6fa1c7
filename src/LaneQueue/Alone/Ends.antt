-- ===== src/LaneQueue/Alone/Ends.antt =====
-- The consumer of an LFSPSCQueue that is left alone leaves its call, wherever in it it stands.
use yamemcached.Base.{
  ℕ, zero, suc, ◌≡◌, refl, inl, inr, Bool, true, false, Option, none, some, ◌==◌, Bool-cases,
  ==_iff,
}
use yamemcached.LaneQueue.{LaneQueue, add_size}
use yamemcached.LaneQueue.Accesses.{
  Producer, resting, Consumer, idle, reads_switch, reads_tail, reads_head, copies_slot, stores_tail,
  turns_lanes, pop_step, draining,
}
use yamemcached.LaneQueue.Alone.{produces_alone, consumes_alone}
use yamemcached.LaneQueue.Alone.Returns.{more, producer_returns}

module _ {ℓ} {T : Type ℓ} where
  -- The consumer is outside of pop after some number of its accesses up to `n`.
  abbrev Returns : ℕ → LaneQueue T → Consumer T → Type ℓ
  Returns n q c = (r : Option T) × ((consumes_alone n q c).1 ≡ idle r)

  Returns-suc : (n : ℕ) (q : LaneQueue T) (c : Consumer T) → Returns n q c → Returns (suc n) q c
  unfolding consumes_alone pop_step
  Returns-suc zero q c (r, e) = rw e (r, refl)
  Returns-suc (suc n) q c h = Returns-suc n (pop_step q c).0 (pop_step q c).1 h

  Returns-more :
      (d n : ℕ) (q : LaneQueue T) (c : Consumer T) → Returns n q c → Returns (more d n) q c
  Returns-more zero n q c h = h
  Returns-more (suc d) n q c h = Returns-suc (more d n) q c (Returns-more d n q c h)

  second-Returns : (q : LaneQueue T) (cur tail : ℕ) → Returns 3 q (reads_head true cur tail)
  unfolding consumes_alone pop_step
  second-Returns q cur tail = elim (Bool-cases (tail == (q.lanes (draining cur)).head)) [
    | inl empty ↦ rw empty (none, refl)
    | inr holds ↦ rw holds (some _, refl)
  ]

  -- With the switch that the queue has, the compare-exchange succeeds.
  turn-Returns : (q : LaneQueue T) (cur : ℕ) → q.lane_switch ≡ cur → Returns 5 q (turns_lanes cur)
  unfolding consumes_alone pop_step
  turn-Returns q cur same =
      rw ((==_iff _ _).1 same)
        (second-Returns (record q { lane_switch = add_size cur 1 }) (add_size cur 1) _)

  call-Returns : (q : LaneQueue T) → Returns 8 q reads_switch
  unfolding consumes_alone pop_step
  call-Returns q =
      elim (Bool-cases
        ((q.lanes (draining q.lane_switch)).tail == (q.lanes (draining q.lane_switch)).head)) [
          | inl empty ↦ rw empty (turn-Returns q q.lane_switch refl)
          | inr holds ↦ rw holds (some _, refl)
        ]

  any_turn-Returns : (q : LaneQueue T) (cur : ℕ) → Returns 9 q (turns_lanes cur)
  unfolding consumes_alone pop_step
  any_turn-Returns q cur = elim (Bool-cases (q.lane_switch == cur)) [
    | inl same ↦ Returns-more 4 5 q (turns_lanes cur) (turn-Returns q cur ((==_iff _ _).0 same))
    | inr other ↦ rw other (call-Returns q)
  ]

  any_head-Returns :
      (q : LaneQueue T) (second : Bool) (cur tail : ℕ) → Returns 10 q (reads_head second cur tail)
  unfolding consumes_alone pop_step
  any_head-Returns q true cur tail =
      Returns-more 7 3 q (reads_head true cur tail) (second-Returns q cur tail)
  any_head-Returns q false cur tail = elim (Bool-cases (tail == (q.lanes (draining cur)).head)) [
    | inl empty ↦ rw empty (any_turn-Returns q cur)
    | inr holds ↦ rw holds (some _, refl)
  ]

  pub consumer_returns :
      (q : LaneQueue T) (c : Consumer T) → (r : Option T) × ((consumes_alone 11 q c).1 ≡ idle r)
  unfolding consumes_alone pop_step
  consumer_returns q (idle r) = (r, refl)
  consumer_returns q reads_switch = Returns-more 3 8 q reads_switch (call-Returns q)
  consumer_returns q (reads_tail second cur) = any_head-Returns q second cur _
  consumer_returns q (reads_head second cur tail) =
      Returns-suc 10 q (reads_head second cur tail) (any_head-Returns q second cur tail)
  consumer_returns q (copies_slot cur tail) = (some _, refl)
  consumer_returns q (stores_tail v cur tail) = (some _, refl)
  consumer_returns q (turns_lanes cur) =
      Returns-more 2 9 q (turns_lanes cur) (any_turn-Returns q cur)

  -- From any state of the queue and any point of a call, eleven accesses of a side with none of
  -- the other side between them take it out of the call, for the producer and for the consumer.
  pub sides_return :
      (q : LaneQueue T) (p : Producer T) (c : Consumer T)
      → ((r : Option Bool) × ((produces_alone 11 q p).1 ≡ resting r))
        × ((r : Option T) × ((consumes_alone 11 q c).1 ≡ idle r))
  sides_return q p c = (producer_returns q p, consumer_returns q c)

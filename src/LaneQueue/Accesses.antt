-- ===== src/LaneQueue/Accesses.antt =====
-- `push` and `pop` of src/LFSPSCQueue.h one access to shared memory at a time, for the runs in which
-- the producer and the consumer interleave. A side is where it stands in its call, with the local
-- variables that are live there.
use yamemcached.Base.{ℕ, ◌%◌, Bool, true, false, Option, none, some, ◌==◌, if◌then◌else◌, update}
use yamemcached.LaneQueue.{RingBuffer, LaneQueue, next, add_size}

pub data Producer {ℓ} (T : Type ℓ) : Type ℓ where
  -- outside of `push`, with what the last call returned
  resting : Option Bool → Producer T
  loads_switch : T → Producer T
  -- `second` tells the accesses behind the compare-exchange, `cur` is `curLaneSwitch`.
  loads_head : T → (second : Bool) → (cur : ℕ) → Producer T
  loads_tail : T → (second : Bool) → (cur head : ℕ) → Producer T
  writes_slot : T → (cur head : ℕ) → Producer T
  stores_head : T → (cur head : ℕ) → Producer T
  turns_switch : T → (cur : ℕ) → Producer T

pub data Consumer {ℓ} (T : Type ℓ) : Type ℓ where
  -- outside of `pop`, with what the last call gave
  idle : Option T → Consumer T
  reads_switch : Consumer T
  reads_tail : (second : Bool) → (cur : ℕ) → Consumer T
  reads_head : (second : Bool) → (cur tail : ℕ) → Consumer T
  copies_slot : (cur tail : ℕ) → Consumer T
  stores_tail : T → (cur tail : ℕ) → Consumer T
  turns_lanes : (cur : ℕ) → Consumer T

-- The lane of the producer, and that of the consumer, at a value of the switch.
abbrev pub filling : ℕ → ℕ
filling cur = cur % 2

abbrev pub draining : ℕ → ℕ
draining cur = add_size cur 1 % 2

module _ {ℓ} {T : Type ℓ} where
  abbrev pub with_lane : LaneQueue T → ℕ → RingBuffer T → LaneQueue T
  with_lane q i lane = record q { lanes = update q.lanes i lane }

  unfoldable pub push_step : LaneQueue T → Producer T → LaneQueue T × Producer T
  push_step q (resting r) = (q, resting r)
  push_step q (loads_switch v) = (q, loads_head v false q.lane_switch)
  push_step q (loads_head v second cur) = (q, loads_tail v second cur (q.lanes (filling cur)).head)
  push_step q (loads_tail v second cur head) =
      if next q.buffer_mask head == (q.lanes (filling cur)).tail
      then (q, if second then resting (some false) else turns_switch v cur)
      else (q, writes_slot v cur head)
  push_step q (writes_slot v cur head) =
      let lane = q.lanes (filling cur) in
      (
        with_lane q (filling cur) (record lane { ring = update lane.ring head v }),
        stores_head v cur head,
      )
  push_step q (stores_head v cur head) =
      let lane = q.lanes (filling cur) in
      (
        with_lane q (filling cur) (record lane { head = next q.buffer_mask head }),
        resting (some true),
      )
  push_step q (turns_switch v cur) =
      if q.lane_switch == cur
      then (record q { lane_switch = add_size cur 1 }, loads_head v true (add_size cur 1))
      else (q, loads_switch v)

  unfoldable pub pop_step : LaneQueue T → Consumer T → LaneQueue T × Consumer T
  pop_step q (idle r) = (q, idle r)
  pop_step q reads_switch = (q, reads_tail false q.lane_switch)
  pop_step q (reads_tail second cur) = (q, reads_head second cur (q.lanes (draining cur)).tail)
  pop_step q (reads_head second cur tail) =
      if tail == (q.lanes (draining cur)).head
      then (q, if second then idle none else turns_lanes cur)
      else (q, copies_slot cur tail)
  pop_step q (copies_slot cur tail) = (q, stores_tail ((q.lanes (draining cur)).ring tail) cur tail)
  pop_step q (stores_tail value cur tail) =
      let lane = q.lanes (draining cur) in
      (
        with_lane q (draining cur) (record lane { tail = next q.buffer_mask tail }),
        idle (some value),
      )
  pop_step q (turns_lanes cur) =
      if q.lane_switch == cur
      then (record q { lane_switch = add_size cur 1 }, reads_tail true (add_size cur 1))
      else (q, reads_switch)

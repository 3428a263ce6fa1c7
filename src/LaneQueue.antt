-- ===== src/LaneQueue.antt =====
-- src/LFSPSCQueue.h: a queue of two ring buffers between one producer and one consumer. The
-- functions are those of the class, run with no interleaving of the other side; `Lanes` proves
-- what one ring buffer does, `Refine` what the queue does.
pub mod Lanes
pub mod Spec
pub mod Views
pub mod Refine
pub mod Items
pub mod Room
pub mod Accesses
pub mod Interleaved
pub mod Sees
pub mod Kept
pub mod Between
pub mod Alone
mod Tests
mod Schedules
use yamemcached.Base.{
  ℕ, zero, suc, ◌+◌, ◌-◌, ◌%◌, ◌^◌, Bool, true, false, ◌&&◌, Option, none, some, leb, ◌==◌,
  if◌then◌else◌, update, bit_and, Outcome, ok, abort, spin,
}

-- The machine's `size_t` addition.
abbrev pub add_size : ℕ → ℕ → ℕ
add_size a b = (a + b) % 2 ^ 64

-- `RingBuffer`: the slots, the index of the next write and that of the next read
pub record RingBuffer {ℓ} (T : Type ℓ) : Type ℓ where
  pub ring : ℕ → T
  pub head : ℕ
  pub tail : ℕ

-- `lanes[2]`, `buffer_mask_` and `laneSwitch`
pub record LaneQueue {ℓ} (T : Type ℓ) : Type ℓ where
  pub lanes : ℕ → RingBuffer T
  pub buffer_mask : ℕ
  pub lane_switch : ℕ

pub next : ℕ → ℕ → ℕ
next mask current = bit_and (add_size current 1) mask

-- How one round of the `while (!done)` loop ends: the function returns, or the compare-exchange
-- lost and the loop goes on with the switch that it loaded.
pub data Round {ℓ} (A : Type ℓ) : Type ℓ where
  returned : A → Round A
  again : ℕ → Round A

module _ {ℓ} {T : Type ℓ} where
  -- The constructor; `junk` is what `new T[buffer_size]` leaves in the slots.
  pub init : ℕ → (ℕ → T) → Outcome (LaneQueue T)
  init buffer_size junk =
      if leb 2 buffer_size && (bit_and buffer_size (buffer_size - 1) == 0)
      then ok (record {
        lanes = λ _. record { ring = junk; head = 0; tail = 0 };
        buffer_mask = buffer_size - 1;
        lane_switch = 0;
      })
      else abort

  -- The write into a lane that is not full.
  pub put : ℕ → RingBuffer T → T → Option (RingBuffer T)
  put mask lane value =
      let next_head = next mask lane.head in
      if next_head == lane.tail
      then none
      else some (record lane { ring = update lane.ring lane.head value; head = next_head })

  -- The read from a lane that is not empty.
  pub get : ℕ → RingBuffer T → Option (T × RingBuffer T)
  get mask lane =
      if lane.tail == lane.head
      then none
      else some (lane.ring lane.tail, record lane { tail = next mask lane.tail })

  -- `put` into lane `i` of the queue, or `none`
  put_in : LaneQueue T → ℕ → T → Option (LaneQueue T)
  put_in q i value = elim (put q.buffer_mask (q.lanes i) value) [
    | none ↦ none
    | some lane ↦ some (record q { lanes = update q.lanes i lane })
  ]

  get_from : LaneQueue T → ℕ → Option (T × LaneQueue T)
  get_from q i = elim (get q.buffer_mask (q.lanes i)) [
    | none ↦ none
    | some (value, lane) ↦ some (value, record q { lanes = update q.lanes i lane })
  ]

  pub push_round : LaneQueue T → ℕ → T → Round (Bool × LaneQueue T)
  unfolding put_in
  push_round q cur value = elim (put_in q (cur % 2) value) [
    | some q' ↦ returned (true, q')
    | none ↦
        if q.lane_switch == cur
        then (let cur' = add_size cur 1 in
            let switched = record q { lane_switch = cur' } in
            elim (put_in switched (cur' % 2) value) [
              | some q' ↦ returned (true, q')
              | none ↦ returned (false, switched)
            ])
        else again q.lane_switch
  ]

  pub pop_round : LaneQueue T → ℕ → Round (Option T × LaneQueue T)
  unfolding get_from
  pop_round q cur = elim (get_from q (add_size cur 1 % 2)) [
    | some (value, q') ↦ returned (some value, q')
    | none ↦
        if q.lane_switch == cur
        then (let cur' = add_size cur 1 in
            let switched = record q { lane_switch = cur' } in
            elim (get_from switched (add_size cur' 1 % 2)) [
              | some (value, q') ↦ returned (some value, q')
              | none ↦ returned (none, switched)
            ])
        else again q.lane_switch
  ]

  push_loop : ℕ → LaneQueue T → ℕ → T → Outcome (Bool × LaneQueue T)
  push_loop zero q cur value = spin
  push_loop (suc rounds) q cur value = elim (push_round q cur value) [
    | returned r ↦ ok r
    | again cur' ↦ push_loop rounds q cur' value
  ]

  pop_loop : ℕ → LaneQueue T → ℕ → Outcome (Option T × LaneQueue T)
  pop_loop zero q cur = spin
  pop_loop (suc rounds) q cur = elim (pop_round q cur) [
    | returned r ↦ ok r
    | again cur' ↦ pop_loop rounds q cur'
  ]

  -- With no other thread between its accesses, one round is enough.
  pub push : LaneQueue T → T → Outcome (Bool × LaneQueue T)
  unfolding push_loop
  push q value = push_loop 1 q q.lane_switch value

  -- The option is what goes through `value`, and the result whether it is there.
  pub pop : LaneQueue T → Outcome (Option T × LaneQueue T)
  unfolding pop_loop
  pop q = pop_loop 1 q q.lane_switch

-- ===== src/LaneQueue/Alone.antt =====
-- The runs of one side of an LFSPSCQueue (src/LFSPSCQueue.h) with no access of the other side between
-- its own.
pub mod Push
pub mod Pop
pub mod Returns
pub mod Ends
use yamemcached.Base.{
  ℕ, zero, suc, ◌≡◌, refl, inl, inr, Bool, true, false, Option, none, some, arith, ◌==◌,
  if◌then◌else◌, Bool-cases, Option-cases, ==_iff, ==_refl, ap, ◌∙◌, update, update_self, Outcome,
  ok,
}
use mathlib.Core.Path.{fun_ext}
use yamemcached.LaneQueue.{
  RingBuffer, LaneQueue, next, add_size, put, get, put_in, get_from, push_round, pop_round, push,
  pop,
}
use yamemcached.LaneQueue.Accesses.{
  Producer, resting, loads_switch, loads_head, loads_tail, writes_slot, stores_head, turns_switch,
  Consumer, idle, reads_switch, reads_tail, reads_head, copies_slot, stores_tail, turns_lanes,
  push_step, pop_step, filling, draining, with_lane,
}

module _ {ℓ} {T : Type ℓ} where
  unfoldable pub produces_alone : ℕ → LaneQueue T → Producer T → LaneQueue T × Producer T
  produces_alone zero q p = (q, p)
  produces_alone (suc n) q p = produces_alone n (push_step q p).0 (push_step q p).1

  unfoldable pub consumes_alone : ℕ → LaneQueue T → Consumer T → LaneQueue T × Consumer T
  consumes_alone zero q c = (q, c)
  consumes_alone (suc n) q c = consumes_alone n (pop_step q c).0 (pop_step q c).1

  abbrev pub turned : LaneQueue T → LaneQueue T
  turned q = record q { lane_switch = add_size q.lane_switch 1 }

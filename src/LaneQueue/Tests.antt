-- ===== src/LaneQueue/Tests.antt =====
-- Runs of the queue of LFSPSCQueue.h, and its theorems at concrete queues.
use yamemcached.Base.{
  ℕ, ◌≡◌, refl, true, none, some, List, [], ◌∷◌, arith, ok, abort, ◌==◌, if◌then◌else◌, update,
}
use yamemcached.LaneQueue.{LaneQueue, init, put, get, next, push_round, pop_round, push, pop}
use yamemcached.LaneQueue.Views.{IsValid, view}
use yamemcached.LaneQueue.Refine.{Op, push_op, pop_op, pushed, popped, run, spec_run, run_refines}

-- Four slots a lane, 7 in the lane to fill and 8 in the lane to drain.
abbrev started : LaneQueue ℕ
started = record {
  lanes = λ i. record { ring = λ s. if i == 0 then 7 else 8; head = 1; tail = 0 };
  buffer_mask = 3;
  lane_switch = 0;
}

started-IsValid : IsValid 2 started
started-IsValid = record {
  fits = omega arith;
  mask = refl;
  lane = λ i. record { head_in = omega arith; tail_in = omega arith };
}

abbrev script : List (Op ℕ)
script = push_op 1 ∷ pop_op ∷ pop_op ∷ pop_op ∷ pop_op ∷ []

-- The order is not first in, first out: 8 stood in the lane to drain.
run-started :
    run started script
    ≡ ok (pushed true ∷ popped (some 8) ∷ popped (some 7) ∷ popped (some 1) ∷ popped none ∷ [])
unfolding run push pop push_round pop_round put get next
run-started = refl

init_refuses : init 6 (λ (i : ℕ). i) ≡ abort
unfolding init
init_refuses = refl

run_refines_example : run started script ≡ ok (spec_run 4 (view 2 started) script)
run_refines_example = run_refines 2 script started started-IsValid

abbrev one_more : LaneQueue ℕ
one_more = record started {
  lanes =
      update started.lanes 0
        (record (started.lanes 0) { ring = update (started.lanes 0).ring 1 1; head = 2 });
}

abbrev one_less : LaneQueue ℕ
one_less = record started { lanes = update started.lanes 1 (record (started.lanes 1) { tail = 1 }) }

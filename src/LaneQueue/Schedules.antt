-- ===== src/LaneQueue/Schedules.antt =====
-- Runs of a producer and a consumer on one queue of LFSPSCQueue.h in a given order, and the theorems
-- about the interleaved runs at states that such runs reach.
use mathlib.Core.List.{foldl}
use yamemcached.Base.{
  ℕ, ◌≡◌, ◌≢◌, refl, Bool, true, Option, some, List, [], ◌∷◌, ◌++◌, arith, ok, ◌==◌, if◌then◌else◌,
}
use yamemcached.LaneQueue.{LaneQueue, next, push, pop}
use yamemcached.LaneQueue.Lanes.{contents}
use yamemcached.LaneQueue.Views.{IsValid}
use yamemcached.LaneQueue.Accesses.{
  Producer, resting, loads_switch, writes_slot, turns_switch, Consumer, idle, reads_switch,
  copies_slot, turns_lanes, push_step, pop_step,
}
use yamemcached.LaneQueue.Interleaved.{
  System, produce, consume, calls_push, calls_pop, produces, consumes, Reach, begins, later,
}
use yamemcached.LaneQueue.Between.{Reach-flows, Reach-apart}
use yamemcached.LaneQueue.Alone.{produces_alone, consumes_alone}
use yamemcached.LaneQueue.Alone.Pop.{calls-alone}
use yamemcached.LaneQueue.Alone.Ends.{sides_return}

data Turn : Type 0 where
  call_push : ℕ → Turn
  call_pop : Turn
  produce_turn : Turn
  consume_turn : Turn

record Run (q : LaneQueue ℕ) : Type 0 where
  last : System ℕ
  reach : Reach q last

-- A call of a side that is within one is left out.
abbrev push_called :
    {q : LaneQueue ℕ} (s : System ℕ) → Reach q s → ℕ → (p : Producer ℕ) → s.producer ≡ p → Run q
push_called s r v (resting _) e = record { last = _; reach = later r (calls_push v e) }
push_called s r v _ e = record { last = s; reach = r }

abbrev pop_called :
    {q : LaneQueue ℕ} (s : System ℕ) → Reach q s → (c : Consumer ℕ) → s.consumer ≡ c → Run q
pop_called s r (idle _) e = record { last = _; reach = later r (calls_pop e) }
pop_called s r _ e = record { last = s; reach = r }

abbrev turn : {q : LaneQueue ℕ} → Run q → Turn → Run q
turn r (call_push v) = push_called r.last r.reach v r.last.producer refl
turn r call_pop = pop_called r.last r.reach r.last.consumer refl
turn r produce_turn = record { last = _; reach = later r.reach produces }
turn r consume_turn = record { last = _; reach = later r.reach consumes }

abbrev run : (q : LaneQueue ℕ) → List Turn → Run q
run q = foldl turn (record { last = _; reach = begins })

-- Four slots a lane, 7 in the lane to fill and 8 in the lane to drain.
abbrev started : LaneQueue ℕ
started = record {
  lanes = λ i. record { ring = λ s. if i == 0 then 7 else 8; head = 1; tail = 0 };
  buffer_mask = 3;
  lane_switch = 0;
}

started-IsValid : IsValid 2 started
started-IsValid = record {
  fits = omega arith;
  mask = refl;
  lane = λ i. record { head_in = omega arith; tail_in = omega arith };
}

abbrev five : List Turn
five = consume_turn ∷ consume_turn ∷ consume_turn ∷ consume_turn ∷ consume_turn ∷ []

-- The producer has found room in lane 0 before the consumer takes 8 and turns the lanes; the consumer
-- then takes 7 from lane 0, while the producer still writes 9 there.
abbrev crossing : List Turn
crossing =
    call_push 9 ∷ produce_turn ∷ produce_turn ∷ produce_turn ∷ call_pop ∷ five
    ++ call_pop ∷ five
    ++ consume_turn ∷ []

abbrev crossed : Run started
crossed = run started crossing

crossed-meet :
    (crossed.last.producer ≡ writes_slot 9 0 1) × (crossed.last.consumer ≡ copies_slot 1 0)
unfolding produce consume push_step pop_step next
crossed-meet = (refl, refl)

abbrev finished : Run started
finished = run started (crossing ++ produce_turn ∷ consume_turn ∷ consume_turn ∷ produce_turn ∷ [])

finished-returns :
    (finished.last.producer ≡ resting (some true))
    × (finished.last.consumer ≡ idle (some 7))
    × (finished.last.accepted 0 ≡ 9 ∷ [])
    × (finished.last.delivered 0 ≡ 7 ∷ [])
unfolding produce consume push_step pop_step next
finished-returns = (refl, refl, refl, refl)

Reach-flows_example :
    contents 4 (started.lanes 0) ++ finished.last.accepted 0
    ≡ finished.last.delivered 0 ++ contents 4 (finished.last.queue.lanes 0)
Reach-flows_example = Reach-flows 2 started started-IsValid finished.reach 0

Reach-apart_example : ◌≢◌ {A = ℕ} 1 0
unfolding produce consume push_step pop_step next
Reach-apart_example = Reach-apart 2 started started-IsValid crossed.reach refl refl refl

sides_return_example :
    ((r : Option Bool) × ((produces_alone 11 started (turns_switch 9 7)).1 ≡ resting r))
    × ((r : Option ℕ) × ((consumes_alone 11 started (turns_lanes 7)).1 ≡ idle r))
sides_return_example = sides_return started (turns_switch 9 7) (turns_lanes 7)

calls-alone_example :
    ((r : Bool × LaneQueue ℕ) × (push started 9 ≡ ok r)
      × (produces_alone 8 started (loads_switch 9) ≡ (r.1, resting (some r.0))))
    × ((r : Option ℕ × LaneQueue ℕ) × (pop started ≡ ok r)
        × (consumes_alone 8 started reads_switch ≡ (r.1, idle r.0)))
calls-alone_example = calls-alone started 9

-- ===== src/LaneQueue/Interleaved.antt =====
-- The runs of a producer and a consumer on one LFSPSCQueue, an access of either at a time. Every
-- access takes effect at once: the orders of the atomics of src/LFSPSCQueue.h are not weaker here.
use yamemcached.Base.{ℕ, ◌≡◌, Bool, Option, none, List, [], ◌∷◌, ◌++◌, update}
use yamemcached.LaneQueue.{LaneQueue}
use yamemcached.LaneQueue.Accesses.{
  Producer, resting, loads_switch, stores_head, Consumer, idle, reads_switch, stores_tail,
  push_step, pop_step, filling, draining,
}

-- The two sides on one queue. `accepted` and `delivered` have, for each lane, the values of the
-- calls that have returned with success, oldest first; they are no part of the code.
pub record System {ℓ} (T : Type ℓ) : Type ℓ where
  pub queue : LaneQueue T
  pub producer : Producer T
  pub consumer : Consumer T
  pub accepted : ℕ → List T
  pub delivered : ℕ → List T

module _ {ℓ} {T : Type ℓ} where
  abbrev append_to : (ℕ → List T) → ℕ → T → ℕ → List T
  append_to logs i v = update logs i (logs i ++ v ∷ [])

  -- A call of `push` returns true behind its store of the head.
  abbrev pub log_push : Producer T → (ℕ → List T) → ℕ → List T
  log_push (stores_head v cur head) logs = append_to logs (filling cur) v
  log_push _ logs = logs

  abbrev pub log_pop : Consumer T → (ℕ → List T) → ℕ → List T
  log_pop (stores_tail v cur tail) logs = append_to logs (draining cur) v
  log_pop _ logs = logs

  unfoldable pub produce : System T → System T
  produce s = record s {
    queue = (push_step s.queue s.producer).0;
    producer = (push_step s.queue s.producer).1;
    accepted = log_push s.producer s.accepted;
  }

  unfoldable pub consume : System T → System T
  consume s = record s {
    queue = (pop_step s.queue s.consumer).0;
    consumer = (pop_step s.queue s.consumer).1;
    delivered = log_pop s.consumer s.delivered;
  }

  abbrev pub start : LaneQueue T → System T
  start q = record {
    queue = q;
    producer = resting none;
    consumer = idle none;
    accepted = λ _. [];
    delivered = λ _. [];
  }

  -- A side outside of its call may call again; a side within makes its next access.
  pub data Step (s : System T) : System T → Type ℓ where
    calls_push :
        (v : T) {r : Option Bool}
        → s.producer ≡ resting r
        → Step s (record s { producer = loads_switch v })
    calls_pop : {r : Option T} → s.consumer ≡ idle r → Step s (record s { consumer = reads_switch })
    produces : Step s (produce s)
    consumes : Step s (consume s)

  pub data Reach (q : LaneQueue T) : System T → Type ℓ where
    begins : Reach q (start q)
    later : {s t : System T} → Reach q s → Step s t → Reach q t

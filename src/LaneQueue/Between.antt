-- ===== src/LaneQueue/Between.antt =====
-- What holds between any two accesses of a producer and a consumer of one LFSPSCQueue.
use yamemcached.Base.{
  ℕ, ◌^◌, ◌≡◌, ◌≢◌, refl, sym, subst, inl, inr, true, false, none, some, List, ◌++◌, append-nil,
  arith, ◌==◌, Bool-cases,
}
use yamemcached.LaneQueue.{LaneQueue, next, add_size}
use yamemcached.LaneQueue.Lanes.{contents}
use yamemcached.LaneQueue.Views.{IsValid}
use yamemcached.LaneQueue.Accesses.{
  Producer, resting, loads_switch, loads_head, loads_tail, writes_slot, stores_head, turns_switch,
  Consumer, idle, reads_switch, reads_tail, reads_head, copies_slot, stores_tail, turns_lanes,
  push_step, pop_step, filling, draining,
}
use yamemcached.LaneQueue.Interleaved.{
  System, produce, consume, Step, calls_push, calls_pop, produces, consumes, Reach, begins, later,
}
use yamemcached.LaneQueue.Sees.{ProducerSees, ConsumerSees}
use yamemcached.LaneQueue.Kept.{
  IsBetween, at, next_loaded, producer_moves, consumer_moves, slot_keeps, head_keeps, tail_keeps,
}

module _ {ℓ} {T : Type ℓ} (k : ℕ) (q0 q : LaneQueue T) where
  module _ (c : Consumer T) (accepted delivered : ℕ → List T) where
    produce_keeps :
        (p : Producer T)
        → IsBetween k q0 (at k q0 q p c accepted delivered)
        → IsBetween k q0 (produce (at k q0 q p c accepted delivered))
    unfolding produce push_step
    produce_keeps (resting r) b = b
    produce_keeps (loads_switch v) b = producer_moves b q.lane_switch _ tt tt
    produce_keeps (loads_head v second cur) b = producer_moves b q.lane_switch _ refl tt
    produce_keeps (loads_tail v second cur head) b =
        elim (Bool-cases (next q.buffer_mask head == (q.lanes (filling cur)).tail)) [
          | inl full ↦ rw full (elim (Bool-cases second) [
            | inl last ↦ rw last (producer_moves b q.lane_switch (resting (some false)) tt tt)
            | inr first ↦ rw first (producer_moves b q.lane_switch (turns_switch v cur) tt tt)
          ])
          | inr room ↦ rw room (
              producer_moves b q.lane_switch (writes_slot v cur head)
                (
                  b.producer_sees,
                  ground (
                    arith,
                    next_loaded k q0 q head (filling cur) b.valid (inl (sym b.producer_sees)),
                  ),
                )
                tt)
        ]
    produce_keeps (writes_slot v cur head) b =
        subst (λ h. IsBetween k q0 (produce (at k q0 q (writes_slot v cur h) c accepted delivered)))
          b.producer_sees.0 (slot_keeps k q0 q b (filling cur) v cur refl (ground arith))
    produce_keeps (stores_head v cur head) b =
        subst (λ h. IsBetween k q0 (produce (at k q0 q (stores_head v cur h) c accepted delivered)))
          b.producer_sees.0
          (rw (next_loaded k q0 q (q.lanes (filling cur)).head (filling cur) b.valid (inl refl))
            (head_keeps k q0 q b (filling cur) v (ground arith) (ground arith)))
    produce_keeps (turns_switch v cur) b = elim (Bool-cases (q.lane_switch == cur)) [
      | inl same ↦
          rw same (producer_moves b (add_size cur 1) (loads_head v true (add_size cur 1)) tt tt)
      | inr other ↦ rw other (producer_moves b q.lane_switch (loads_switch v) tt tt)
    ]

  module _ (p : Producer T) (accepted delivered : ℕ → List T) where
    consume_keeps :
        (c : Consumer T)
        → IsBetween k q0 (at k q0 q p c accepted delivered)
        → IsBetween k q0 (consume (at k q0 q p c accepted delivered))
    unfolding consume pop_step
    consume_keeps (idle r) b = b
    consume_keeps reads_switch b = consumer_moves b q.lane_switch _ tt tt
    consume_keeps (reads_tail second cur) b = consumer_moves b q.lane_switch _ refl tt
    consume_keeps (reads_head second cur tail) b =
        elim (Bool-cases (tail == (q.lanes (draining cur)).head)) [
          | inl empty ↦ rw empty (elim (Bool-cases second) [
            | inl last ↦ rw last (consumer_moves b q.lane_switch (idle none) tt tt)
            | inr first ↦ rw first (consumer_moves b q.lane_switch (turns_lanes cur) tt tt)
          ])
          | inr holds ↦ rw holds (
              consumer_moves b q.lane_switch (copies_slot cur tail) (b.consumer_sees, ground arith)
                tt)
        ]
    consume_keeps (copies_slot cur tail) b = consumer_moves b q.lane_switch _ b.consumer_sees refl
    consume_keeps (stores_tail v cur tail) b =
        subst (λ t. IsBetween k q0 (consume (at k q0 q p (stores_tail v cur t) accepted delivered)))
          b.consumer_sees.0
          (rw (next_loaded k q0 q (q.lanes (draining cur)).tail (draining cur) b.valid (inr refl))
            (tail_keeps k q0 q b (draining cur) v (ground arith) (ground arith)))
    consume_keeps (turns_lanes cur) b = elim (Bool-cases (q.lane_switch == cur)) [
      | inl same ↦
          rw same (consumer_moves b (add_size cur 1) (reads_tail true (add_size cur 1)) tt tt)
      | inr other ↦ rw other (consumer_moves b q.lane_switch reads_switch tt tt)
    ]

module _ {ℓ} {T : Type ℓ} (k : ℕ) (q0 : LaneQueue T) where
  Step-IsBetween : {s t : System T} → Step s t → IsBetween k q0 s → IsBetween k q0 t
  Step-IsBetween {s} (calls_push v _) b =
      producer_moves b s.queue.lane_switch (loads_switch v) tt tt
  Step-IsBetween {s} (calls_pop _) b = consumer_moves b s.queue.lane_switch reads_switch tt tt
  Step-IsBetween {s} produces b =
      produce_keeps k q0 s.queue s.consumer s.accepted s.delivered s.producer b
  Step-IsBetween {s} consumes b =
      consume_keeps k q0 s.queue s.producer s.accepted s.delivered s.consumer b

  pub Reach-IsBetween : {s : System T} → IsValid k q0 → Reach q0 s → IsBetween k q0 s
  Reach-IsBetween valid begins = record {
    valid = valid;
    flows = λ i. append-nil _;
    producer_sees = tt;
    consumer_sees = tt;
    producer_wrote = tt;
    consumer_copied = tt;
  }
  Reach-IsBetween valid (later r step) = Step-IsBetween step (Reach-IsBetween valid r)

  -- Between any two accesses of a producer and a consumer that began on a valid queue of 2^k
  -- slots a lane, in whatever order they interleave, the values that stood in a lane at the start
  -- followed by those that push has accepted into it are those that pop has delivered from it
  -- followed by those that stand in it, in order.
  pub Reach-flows :
      {s : System T}
      → IsValid k q0
      → Reach q0 s
      → (i : ℕ)
      → contents (2 ^ k) (q0.lanes i) ++ s.accepted i
        ≡ s.delivered i ++ contents (2 ^ k) (s.queue.lanes i)
  Reach-flows valid r = (Reach-IsBetween valid r).flows

  -- Between any two accesses of a producer and a consumer that began on a valid queue, if the
  -- producer is about to write a slot and the consumer about to copy one of the same lane, they
  -- are different slots.
  pub Reach-apart :
      {s : System T} {v : T} {cur head cur' tail : ℕ}
      → IsValid k q0
      → Reach q0 s
      → s.producer ≡ writes_slot v cur head
      → s.consumer ≡ copies_slot cur' tail
      → filling cur ≡ draining cur'
      → head ≢ tail
  Reach-apart {s} {v} {cur} {head} {cur'} {tail} valid r p c same =
      let b = Reach-IsBetween valid r in
      let sees = subst (ProducerSees (2 ^ k) s.queue.lanes) p b.producer_sees in
      let holds = subst (ConsumerSees (2 ^ k) s.queue.lanes) c b.consumer_sees in ground arith

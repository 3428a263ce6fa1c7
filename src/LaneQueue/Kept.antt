-- ===== src/LaneQueue/Kept.antt =====
-- The invariant of a producer and a consumer on one LFSPSCQueue, and the writes of either side.
use yamemcached.Base.{
  ℕ, ◌^◌, ◌<◌, ◌≡◌, ◌≢◌, ◌⊎◌, sym, ap, ◌∙◌, inl, inr, true, some, List, [], ◌∷◌, ◌++◌, append_assoc,
  arith, ◌==◌, Bool-cases, ==_iff, update,
}
use yamemcached.LaneQueue.{RingBuffer, LaneQueue, next}
use yamemcached.LaneQueue.Lanes.{
  after, next-eq-after, contents, IsLane, contents_of_ne, contents-slot, contents-head,
}
use yamemcached.LaneQueue.Views.{IsValid, with_lane-IsValid}
use yamemcached.LaneQueue.Accesses.{
  Producer, resting, stores_head, Consumer, idle, filling, with_lane,
}
use yamemcached.LaneQueue.Interleaved.{System}
use yamemcached.LaneQueue.Sees.{
  ProducerSees, ConsumerSees, ProducerWrote, ConsumerCopied, tail_stored, head_stored, slot_written,
  ProducerSees-tail, ProducerWrote-tail, ConsumerSees-head, ConsumerCopied-head, ConsumerSees-slot,
  ConsumerCopied-slot,
}

module _ {ℓ} {T : Type ℓ} (k : ℕ) where
  abbrev pub in_lane : LaneQueue T → ℕ → List T
  in_lane q i = contents (2 ^ k) (q.lanes i)

  -- The values that have come into a lane are those that have left it and those that are in it.
  abbrev pub Flows : (q0 q : LaneQueue T) (accepted delivered : ℕ → List T) → Type ℓ
  Flows q0 q accepted delivered = (i : ℕ) → in_lane q0 i ++ accepted i ≡ delivered i ++ in_lane q i

  pub record IsBetween (q0 : LaneQueue T) (s : System T) : Type ℓ where
    pub valid : IsValid k s.queue
    pub flows : Flows q0 s.queue s.accepted s.delivered
    pub producer_sees : ProducerSees (2 ^ k) s.queue.lanes s.producer
    pub consumer_sees : ConsumerSees (2 ^ k) s.queue.lanes s.consumer
    pub producer_wrote : ProducerWrote (2 ^ k) s.queue.lanes s.producer
    pub consumer_copied : ConsumerCopied (2 ^ k) s.queue.lanes s.consumer

  append_behind : (a b c d e : List T) → a ++ b ≡ c ++ d → a ++ (b ++ e) ≡ c ++ (d ++ e)
  append_behind a b c d e h =
      sym (append_assoc a b e) ∙ ap (λ (l : List T). l ++ e) h ∙ append_assoc c d e

  -- A value that comes into lane `i`, and one that leaves it.
  Flows-accept :
      (q0 q : LaneQueue T) (accepted delivered : ℕ → List T) (i : ℕ) (v : T) (lane : RingBuffer T)
      → Flows q0 q accepted delivered
      → contents (2 ^ k) lane ≡ in_lane q i ++ v ∷ []
      → Flows q0 (with_lane q i lane) (update accepted i (accepted i ++ v ∷ [])) delivered
  Flows-accept q0 q accepted delivered i v lane flows grown j = elim (Bool-cases (i == j)) [
    | inl same ↦
        let e : i ≡ j = (==_iff i j).0 same in
        rw (same, grown, ← e)
          (append_behind (in_lane q0 i) (accepted i) (delivered i) (in_lane q i) (v ∷ []) (flows i))
    | inr other ↦ rw other (flows j)
  ]

  Flows-write :
      (q0 q : LaneQueue T) (accepted delivered : ℕ → List T) (i : ℕ) (lane : RingBuffer T)
      → Flows q0 q accepted delivered
      → contents (2 ^ k) lane ≡ in_lane q i
      → Flows q0 (with_lane q i lane) accepted delivered
  Flows-write q0 q accepted delivered i lane flows same_values j = elim (Bool-cases (i == j)) [
    | inl same ↦ let e : i ≡ j = (==_iff i j).0 same in rw (same, same_values, ← e) (flows i)
    | inr other ↦ rw other (flows j)
  ]

  Flows-deliver :
      (q0 q : LaneQueue T) (accepted delivered : ℕ → List T) (i : ℕ) (v : T) (lane : RingBuffer T)
      → Flows q0 q accepted delivered
      → in_lane q i ≡ v ∷ contents (2 ^ k) lane
      → Flows q0 (with_lane q i lane) accepted (update delivered i (delivered i ++ v ∷ []))
  Flows-deliver q0 q accepted delivered i v lane flows taken j = elim (Bool-cases (i == j)) [
    | inl same ↦
        let e : i ≡ j = (==_iff i j).0 same in
        rw (same, ← e) (flows i ∙ rw taken (sym (append_assoc (delivered i) (v ∷ []) _)))
    | inr other ↦ rw other (flows j)
  ]

-- A step of a side that writes to no lane; `s` is the switch after it.
module _ {ℓ} {T : Type ℓ} {k : ℕ} {q0 : LaneQueue T} {t : System T} (b : IsBetween k q0 t)
    (s : ℕ) where
  switched-IsValid : IsValid k (record t.queue { lane_switch = s })
  switched-IsValid = record { fits = b.valid.fits; mask = b.valid.mask; lane = b.valid.lane }

  pub producer_moves :
      (p : Producer T)
      → ProducerSees (2 ^ k) t.queue.lanes p
      → ProducerWrote (2 ^ k) t.queue.lanes p
      → IsBetween k q0 (record t { queue = record t.queue { lane_switch = s }; producer = p })
  producer_moves p sees wrote = record {
    valid = switched-IsValid;
    flows = b.flows;
    producer_sees = sees;
    consumer_sees = b.consumer_sees;
    producer_wrote = wrote;
    consumer_copied = b.consumer_copied;
  }

  pub consumer_moves :
      (c : Consumer T)
      → ConsumerSees (2 ^ k) t.queue.lanes c
      → ConsumerCopied (2 ^ k) t.queue.lanes c
      → IsBetween k q0 (record t { queue = record t.queue { lane_switch = s }; consumer = c })
  consumer_moves c sees copied = record {
    valid = switched-IsValid;
    flows = b.flows;
    producer_sees = b.producer_sees;
    consumer_sees = sees;
    producer_wrote = b.producer_wrote;
    consumer_copied = copied;
  }

module _ {ℓ} {T : Type ℓ} (k : ℕ) (q0 q : LaneQueue T) where
  abbrev pub at : Producer T → Consumer T → (ℕ → List T) → (ℕ → List T) → System T
  at p c accepted delivered = record {
    queue = q;
    producer = p;
    consumer = c;
    accepted = accepted;
    delivered = delivered;
  }

  pub next-eq : (i : ℕ) → IsValid k q → i < 2 ^ k → next q.buffer_mask i ≡ after (2 ^ k) i
  next-eq i valid fits = rw valid.mask (next-eq-after k i valid.fits fits)

  module _ {p : Producer T} {c : Consumer T} {accepted delivered : ℕ → List T}
      (b : IsBetween k q0 (at p c accepted delivered)) (i : ℕ) where
    abbrev pub RoomIn : Type 0
    RoomIn = after (2 ^ k) (q.lanes i).head ≢ (q.lanes i).tail

    abbrev pub lane_in : (ℕ → RingBuffer T) → LaneQueue T
    lane_in lanes = record q { lanes = lanes }

    same_bounds : {f : ℕ → T} → IsLane (2 ^ k) (record (q.lanes i) { ring = f })
    same_bounds = record { head_in = (b.valid.lane i).head_in; tail_in = (b.valid.lane i).tail_in }

    head_bounds : IsLane (2 ^ k) (record (q.lanes i) { head = after (2 ^ k) (q.lanes i).head })
    head_bounds = ground (arith, (b.valid.lane i).head_in, (b.valid.lane i).tail_in)

    tail_bounds : IsLane (2 ^ k) (record (q.lanes i) { tail = after (2 ^ k) (q.lanes i).tail })
    tail_bounds = ground (arith, (b.valid.lane i).head_in, (b.valid.lane i).tail_in)

    pub slot_keeps :
        (v : T) (cur : ℕ)
        → filling cur ≡ i
        → RoomIn
        → IsBetween k q0 (record (at p c accepted delivered) {
          queue = lane_in (slot_written (2 ^ k) q.lanes b.valid.lane i v);
          producer = stores_head v cur (q.lanes i).head;
        })
    slot_keeps v cur e room = record {
      valid = with_lane-IsValid k q i _ b.valid same_bounds;
      flows =
          Flows-write k q0 q accepted delivered i _ b.flows
            (contents-slot (2 ^ k) (q.lanes i) v (b.valid.lane i));
      producer_sees = rw e (ground arith, ground arith);
      consumer_sees = ConsumerSees-slot (2 ^ k) q.lanes b.valid.lane i v c b.consumer_sees;
      producer_wrote = rw e (ground arith);
      consumer_copied =
          ConsumerCopied-slot (2 ^ k) q.lanes b.valid.lane i v c b.consumer_sees b.consumer_copied;
    }

    pub head_keeps :
        (v : T)
        → RoomIn
        → (q.lanes i).ring (q.lanes i).head ≡ v
        → IsBetween k q0 (record (at p c accepted delivered) {
          queue = lane_in (head_stored (2 ^ k) q.lanes b.valid.lane i);
          producer = resting (some true);
          accepted = update accepted i (accepted i ++ v ∷ []);
        })
    head_keeps v room wrote = record {
      valid = with_lane-IsValid k q i _ b.valid head_bounds;
      flows =
          Flows-accept k q0 q accepted delivered i v _ b.flows
            (contents-head (2 ^ k) (q.lanes i) (b.valid.lane i) room ∙ rw wrote);
      producer_sees = tt;
      consumer_sees = ConsumerSees-head (2 ^ k) q.lanes b.valid.lane i c b.consumer_sees room;
      producer_wrote = tt;
      consumer_copied = ConsumerCopied-head (2 ^ k) q.lanes b.valid.lane i c b.consumer_copied;
    }

    pub tail_keeps :
        (v : T)
        → (q.lanes i).tail ≢ (q.lanes i).head
        → (q.lanes i).ring (q.lanes i).tail ≡ v
        → IsBetween k q0 (record (at p c accepted delivered) {
          queue = lane_in (tail_stored (2 ^ k) q.lanes b.valid.lane i);
          consumer = idle (some v);
          delivered = update delivered i (delivered i ++ v ∷ []);
        })
    tail_keeps v holds copied = record {
      valid = with_lane-IsValid k q i _ b.valid tail_bounds;
      flows =
          Flows-deliver k q0 q accepted delivered i v _ b.flows
            (contents_of_ne (2 ^ k) (q.lanes i) (b.valid.lane i) holds ∙ rw copied);
      producer_sees = ProducerSees-tail (2 ^ k) q.lanes b.valid.lane i p b.producer_sees holds;
      consumer_sees = tt;
      producer_wrote = ProducerWrote-tail (2 ^ k) q.lanes b.valid.lane i p b.producer_wrote;
      consumer_copied = tt;
    }

  pub next_loaded :
      (i j : ℕ)
      → IsValid k q
      → (i ≡ (q.lanes j).head) ⊎ (i ≡ (q.lanes j).tail)
      → next q.buffer_mask i ≡ after (2 ^ k) i
  next_loaded i j valid e =
      next-eq i valid (ground (arith, (valid.lane j).head_in, (valid.lane j).tail_in))

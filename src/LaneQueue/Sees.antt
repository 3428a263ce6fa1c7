-- ===== src/LaneQueue/Sees.antt =====
-- What a side of an LFSPSCQueue knows of the lanes from what it has loaded, and that the accesses of
-- the other side leave it true.
use yamemcached.Base.{ℕ, ◌≡◌, ◌≢◌, arith, update}
use yamemcached.LaneQueue.{RingBuffer}
use yamemcached.LaneQueue.Lanes.{after, IsLane}
use yamemcached.LaneQueue.Accesses.{
  Producer, resting, loads_switch, loads_head, loads_tail, writes_slot, stores_head, turns_switch,
  Consumer, idle, reads_switch, reads_tail, reads_head, copies_slot, stores_tail, turns_lanes,
  filling, draining,
}

module _ {ℓ} {T : Type ℓ} (m : ℕ) where
  -- What the indices that a side has loaded say of the lanes.
  abbrev pub ProducerSees : (ℕ → RingBuffer T) → Producer T → Type 0
  ProducerSees lanes (loads_tail v second cur head) = (lanes (filling cur)).head ≡ head
  ProducerSees lanes (writes_slot v cur head) =
      ((lanes (filling cur)).head ≡ head) × (after m head ≢ (lanes (filling cur)).tail)
  ProducerSees lanes (stores_head v cur head) =
      ((lanes (filling cur)).head ≡ head) × (after m head ≢ (lanes (filling cur)).tail)
  ProducerSees lanes _ = Unit

  abbrev pub ConsumerSees : (ℕ → RingBuffer T) → Consumer T → Type 0
  ConsumerSees lanes (reads_head second cur tail) = (lanes (draining cur)).tail ≡ tail
  ConsumerSees lanes (copies_slot cur tail) =
      ((lanes (draining cur)).tail ≡ tail) × (tail ≢ (lanes (draining cur)).head)
  ConsumerSees lanes (stores_tail v cur tail) =
      ((lanes (draining cur)).tail ≡ tail) × (tail ≢ (lanes (draining cur)).head)
  ConsumerSees lanes _ = Unit

  -- What stands in the slot that a side has written or copied.
  abbrev pub ProducerWrote : (ℕ → RingBuffer T) → Producer T → Type ℓ
  ProducerWrote lanes (stores_head v cur head) = (lanes (filling cur)).ring head ≡ v
  ProducerWrote lanes _ = Unit

  abbrev pub ConsumerCopied : (ℕ → RingBuffer T) → Consumer T → Type ℓ
  ConsumerCopied lanes (stores_tail v cur tail) = (lanes (draining cur)).ring tail ≡ v
  ConsumerCopied lanes _ = Unit

  module _ (lanes : ℕ → RingBuffer T) (valid : (i : ℕ) → IsLane m (lanes i)) (i : ℕ) where
    abbrev pub tail_stored : ℕ → RingBuffer T
    tail_stored = update lanes i (record (lanes i) { tail = after m (lanes i).tail })

    abbrev pub head_stored : ℕ → RingBuffer T
    head_stored = update lanes i (record (lanes i) { head = after m (lanes i).head })

    abbrev pub slot_written : T → ℕ → RingBuffer T
    slot_written v =
        update lanes i (record (lanes i) { ring = update (lanes i).ring (lanes i).head v })

    pub ProducerSees-tail :
        (p : Producer T)
        → ProducerSees lanes p
        → (lanes i).tail ≢ (lanes i).head
        → ProducerSees tail_stored p
    ProducerSees-tail (loads_tail v second cur head) sees holds = ground arith
    ProducerSees-tail (writes_slot v cur head) sees holds =
        ground (arith, (valid i).head_in, (valid i).tail_in)
    ProducerSees-tail (stores_head v cur head) sees holds =
        ground (arith, (valid i).head_in, (valid i).tail_in)
    ProducerSees-tail (loads_switch v) sees holds = tt
    ProducerSees-tail (resting r) sees holds = tt
    ProducerSees-tail (turns_switch v cur) sees holds = tt
    ProducerSees-tail (loads_head v second cur) sees holds = tt

    pub ProducerWrote-tail : (p : Producer T) → ProducerWrote lanes p → ProducerWrote tail_stored p
    ProducerWrote-tail (stores_head v cur head) wrote = ground arith
    ProducerWrote-tail (loads_tail v second cur head) wrote = tt
    ProducerWrote-tail (writes_slot v cur head) wrote = tt
    ProducerWrote-tail (loads_switch v) wrote = tt
    ProducerWrote-tail (resting r) wrote = tt
    ProducerWrote-tail (turns_switch v cur) wrote = tt
    ProducerWrote-tail (loads_head v second cur) wrote = tt

    pub ConsumerSees-head :
        (c : Consumer T)
        → ConsumerSees lanes c
        → after m (lanes i).head ≢ (lanes i).tail
        → ConsumerSees head_stored c
    ConsumerSees-head (reads_head second cur tail) sees room = ground arith
    ConsumerSees-head (copies_slot cur tail) sees room = ground arith
    ConsumerSees-head (stores_tail v cur tail) sees room = ground arith
    ConsumerSees-head reads_switch sees room = tt
    ConsumerSees-head (idle r) sees room = tt
    ConsumerSees-head (turns_lanes cur) sees room = tt
    ConsumerSees-head (reads_tail second cur) sees room = tt

    pub ConsumerCopied-head :
        (c : Consumer T) → ConsumerCopied lanes c → ConsumerCopied head_stored c
    ConsumerCopied-head (stores_tail v cur tail) copied = ground arith
    ConsumerCopied-head (reads_head second cur tail) copied = tt
    ConsumerCopied-head (copies_slot cur tail) copied = tt
    ConsumerCopied-head reads_switch copied = tt
    ConsumerCopied-head (idle r) copied = tt
    ConsumerCopied-head (turns_lanes cur) copied = tt
    ConsumerCopied-head (reads_tail second cur) copied = tt

    pub ConsumerSees-slot :
        (w : T) (c : Consumer T) → ConsumerSees lanes c → ConsumerSees (slot_written w) c
    ConsumerSees-slot w (reads_head second cur tail) sees = ground arith
    ConsumerSees-slot w (copies_slot cur tail) sees = ground arith
    ConsumerSees-slot w (stores_tail v cur tail) sees = ground arith
    ConsumerSees-slot w reads_switch sees = tt
    ConsumerSees-slot w (idle r) sees = tt
    ConsumerSees-slot w (turns_lanes cur) sees = tt
    ConsumerSees-slot w (reads_tail second cur) sees = tt

    -- The slot that is copied is not the one that is written.
    pub ConsumerCopied-slot :
        (w : T) (c : Consumer T)
        → ConsumerSees lanes c
        → ConsumerCopied lanes c
        → ConsumerCopied (slot_written w) c
    ConsumerCopied-slot w (stores_tail v cur tail) sees copied = ground arith
    ConsumerCopied-slot w (reads_head second cur tail) sees copied = tt
    ConsumerCopied-slot w (copies_slot cur tail) sees copied = tt
    ConsumerCopied-slot w reads_switch sees copied = tt
    ConsumerCopied-slot w (idle r) sees copied = tt
    ConsumerCopied-slot w (turns_lanes cur) sees copied = tt
    ConsumerCopied-slot w (reads_tail second cur) sees copied = tt

-- ===== src/LaneQueue/Alone/Pop.antt =====
-- `pop` of src/LFSPSCQueue.h is the run of its accesses.
use yamemcached.Base.{
  ℕ, zero, suc, ◌≡◌, refl, inl, inr, Bool, true, false, Option, none, some, arith, ◌==◌,
  if◌then◌else◌, Bool-cases, Option-cases, ==_refl, ◌∙◌, ok,
}
use yamemcached.LaneQueue.{RingBuffer, LaneQueue, next, get, get_from, pop_round, push, pop}
use yamemcached.LaneQueue.Accesses.{
  resting, loads_switch, idle, reads_switch, reads_tail, turns_lanes, pop_step, draining, with_lane,
}
use yamemcached.LaneQueue.Alone.{produces_alone, consumes_alone, turned}
use yamemcached.LaneQueue.Alone.Push.{push-alone}

module _ {ℓ} {T : Type ℓ} where
  get-some :
      (mask : ℕ) (r r' : RingBuffer T) (v : T)
      → get mask r ≡ some (v, r')
      → ((r.tail == r.head) ≡ false)
        × (r.ring r.tail ≡ v)
        × (record r { tail = next mask r.tail } ≡ r')
  unfolding get
  get-some mask r r' v got = elim (Bool-cases (r.tail == r.head)) [
    | inl empty ↦ ground arith
    | inr holds ↦ ground arith
  ]

  get-none : (mask : ℕ) (r : RingBuffer T) → get mask r ≡ none → (r.tail == r.head) ≡ true
  unfolding get
  get-none mask r refused = ground arith

  idle-stays : (n : ℕ) (q : LaneQueue T) (r : Option T) → consumes_alone n q (idle r) ≡ (q, idle r)
  unfolding consumes_alone pop_step
  idle-stays zero q r = refl
  idle-stays (suc n) q r = idle-stays n q r

  module _ (m : ℕ) (q : LaneQueue T) (second : Bool) (cur : ℕ) where
    takes-alone :
        (v : T) (lane : RingBuffer T)
        → get q.buffer_mask (q.lanes (draining cur)) ≡ some (v, lane)
        → consumes_alone (suc (suc (suc (suc m)))) q (reads_tail second cur)
          ≡ (with_lane q (draining cur) lane, idle (some v))
    unfolding consumes_alone pop_step
    takes-alone v lane got =
        let (holds, copied, new) = get-some _ _ lane v got in
        rw (holds, copied, ← new) (idle-stays m _ (some v))

    finds_none-alone :
        get q.buffer_mask (q.lanes (draining cur)) ≡ none
        → consumes_alone (suc (suc m)) q (reads_tail second cur)
          ≡ consumes_alone m q (if second then idle none else turns_lanes cur)
    unfolding consumes_alone pop_step
    finds_none-alone refused = rw (get-none _ _ refused)

  back_to_second :
      (q : LaneQueue T)
      → get q.buffer_mask (q.lanes (draining q.lane_switch)) ≡ none
      → consumes_alone 8 q reads_switch
        ≡ consumes_alone 4 (turned q) (reads_tail true (turned q).lane_switch)
  unfolding consumes_alone pop_step
  back_to_second q refused =
      finds_none-alone 5 q false q.lane_switch refused ∙ rw (==_refl q.lane_switch)

  module _ (q : LaneQueue T) where
    pop-first :
        (v : T) (lane : RingBuffer T)
        → get q.buffer_mask (q.lanes (draining q.lane_switch)) ≡ some (v, lane)
        → pop q ≡ ok (some v, with_lane q (draining q.lane_switch) lane)
    unfolding pop pop_round get_from
    pop-first v lane got = ground arith

    pop-second :
        get q.buffer_mask (q.lanes (draining q.lane_switch)) ≡ none
        → (o : Option (T × RingBuffer T))
        → get q.buffer_mask (q.lanes (draining (turned q).lane_switch)) ≡ o
        → pop q ≡ elim o [
          | none ↦ ok (none, turned q)
          | some (v, lane) ↦
              ok (some v, with_lane (turned q) (draining (turned q).lane_switch) lane)
        ]
    unfolding pop pop_round get_from
    pop-second refused none refused' = ground arith
    pop-second refused (some (v, lane)) got = ground arith

  pub pop-alone :
      (q : LaneQueue T)
      → (r : Option T × LaneQueue T) × (pop q ≡ ok r)
        × (consumes_alone 8 q reads_switch ≡ (r.1, idle r.0))
  unfolding consumes_alone pop_step
  pop-alone q = elim (Option-cases (get q.buffer_mask (q.lanes (draining q.lane_switch)))) [
    | inl refused ↦
        elim (Option-cases (get q.buffer_mask (q.lanes (draining (turned q).lane_switch)))) [
          | inl refused' ↦ (
            (none, turned q),
            pop-second q refused none refused',
            back_to_second q refused
                ∙ finds_none-alone 2 (turned q) true (turned q).lane_switch refused',
          )
          | inr ((v, lane), got) ↦ (
            (some v, with_lane (turned q) (draining (turned q).lane_switch) lane),
            pop-second q refused (some (v, lane)) got,
            back_to_second q refused
                ∙ takes-alone 0 (turned q) true (turned q).lane_switch v lane got,
          )
        ]
    | inr ((v, lane), got) ↦ (
      (some v, with_lane q (draining q.lane_switch) lane),
      pop-first q v lane got,
      takes-alone 3 q false q.lane_switch v lane got,
    )
  ]

  -- The accesses of a call, eight at most, with none of the other side between them, are what
  -- push and pop do: the same queue and the same reply.
  pub calls-alone :
      (q : LaneQueue T) (v : T)
      → ((r : Bool × LaneQueue T) × (push q v ≡ ok r)
          × (produces_alone 8 q (loads_switch v) ≡ (r.1, resting (some r.0))))
        × ((r : Option T × LaneQueue T) × (pop q ≡ ok r)
            × (consumes_alone 8 q reads_switch ≡ (r.1, idle r.0)))
  calls-alone q v = (push-alone q v, pop-alone q)

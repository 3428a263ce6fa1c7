-- ===== src/LaneQueue/Alone/Push.antt =====
-- `push` of src/LFSPSCQueue.h is the run of its accesses.
use yamemcached.Base.{
  ℕ, zero, suc, ◌≡◌, refl, inl, inr, Bool, true, false, Option, none, some, arith, ◌==◌,
  if◌then◌else◌, Bool-cases, Option-cases, ==_iff, ==_refl, ap, ◌∙◌, update, ok,
}
use mathlib.Core.Path.{fun_ext}
use yamemcached.LaneQueue.{RingBuffer, LaneQueue, next, add_size, put, put_in, push_round, push}
use yamemcached.LaneQueue.Accesses.{
  resting, loads_switch, loads_head, turns_switch, push_step, filling, with_lane,
}
use yamemcached.LaneQueue.Alone.{produces_alone, turned}

module _ {ℓ} {T : Type ℓ} where
  resting-stays :
      (n : ℕ) (q : LaneQueue T) (r : Option Bool) → produces_alone n q (resting r) ≡ (q, resting r)
  unfolding produces_alone push_step
  resting-stays zero q r = refl
  resting-stays (suc n) q r = resting-stays n q r

  -- Two writes to a lane, the second of which depends on the first.
  update_twice :
      (f : ℕ → RingBuffer T) (i : ℕ) (a : RingBuffer T) (g : RingBuffer T → RingBuffer T)
      → update (update f i a) i (g (update f i a i)) ≡ update f i (g a)
  update_twice f i a g =
      fun_ext
        (λ j. elim (Bool-cases (i == j)) [ inl same ↦ rw (same, ==_refl i) | inr other ↦ rw other ])

  put-some :
      (mask : ℕ) (r r' : RingBuffer T) (v : T)
      → put mask r v ≡ some r'
      → ((next mask r.head == r.tail) ≡ false)
        × (record r { ring = update r.ring r.head v; head = next mask r.head } ≡ r')
  unfolding put
  put-some mask r r' v stored = elim (Bool-cases (next mask r.head == r.tail)) [
    | inl full ↦ ground arith
    | inr room ↦ ground arith
  ]

  put-none :
      (mask : ℕ) (r : RingBuffer T) (v : T)
      → put mask r v ≡ none
      → (next mask r.head == r.tail) ≡ true
  unfolding put
  put-none mask r v refused = ground arith

  module _ (m : ℕ) (q : LaneQueue T) (v : T) (second : Bool) (cur : ℕ) where
    stores-alone :
        (lane : RingBuffer T)
        → put q.buffer_mask (q.lanes (filling cur)) v ≡ some lane
        → produces_alone (suc (suc (suc (suc m)))) q (loads_head v second cur)
          ≡ (with_lane q (filling cur) lane, resting (some true))
    unfolding produces_alone push_step
    stores-alone lane stored =
        let (room, new) = put-some _ _ lane v stored in
        rw (room, ← new)
          (resting-stays m _ (some true)
            ∙ ap (λ (f : ℕ → RingBuffer T). (record q { lanes = f }, resting (some true)))
                (update_twice q.lanes (filling cur) _
                  (λ r. record r { head = next q.buffer_mask (q.lanes (filling cur)).head })))

    refuses-alone :
        put q.buffer_mask (q.lanes (filling cur)) v ≡ none
        → produces_alone (suc (suc m)) q (loads_head v second cur)
          ≡ produces_alone m q (if second then resting (some false) else turns_switch v cur)
    unfolding produces_alone push_step
    refuses-alone refused = rw (put-none _ _ v refused)

    turns-alone :
        q.lane_switch ≡ cur
        → produces_alone (suc m) q (turns_switch v cur)
          ≡ produces_alone m
              (record q { lane_switch = add_size cur 1 })
              (loads_head v true (add_size cur 1))
    unfolding produces_alone push_step
    turns-alone same = rw ((==_iff _ _).1 same)

  to_second :
      (q : LaneQueue T) (v : T)
      → put q.buffer_mask (q.lanes (filling q.lane_switch)) v ≡ none
      → produces_alone 8 q (loads_switch v)
        ≡ produces_alone 4
            (record q { lane_switch = add_size q.lane_switch 1 })
            (loads_head v true (add_size q.lane_switch 1))
  unfolding produces_alone push_step
  to_second q v refused =
      refuses-alone 5 q v false q.lane_switch refused ∙ turns-alone 4 q v false q.lane_switch refl

  module _ (q : LaneQueue T) (v : T) where
    push-first :
        (lane : RingBuffer T)
        → put q.buffer_mask (q.lanes (filling q.lane_switch)) v ≡ some lane
        → push q v ≡ ok (true, with_lane q (filling q.lane_switch) lane)
    unfolding push push_round put_in
    push-first lane stored = ground arith

    push-second :
        put q.buffer_mask (q.lanes (filling q.lane_switch)) v ≡ none
        → (o : Option (RingBuffer T))
        → put q.buffer_mask (q.lanes (filling (turned q).lane_switch)) v ≡ o
        → push q v ≡ elim o [
          | none ↦ ok (false, turned q)
          | some lane ↦ ok (true, with_lane (turned q) (filling (turned q).lane_switch) lane)
        ]
    unfolding push push_round put_in
    push-second refused none refused' = ground arith
    push-second refused (some lane) stored = ground arith

  pub push-alone :
      (q : LaneQueue T) (v : T)
      → (r : Bool × LaneQueue T) × (push q v ≡ ok r)
        × (produces_alone 8 q (loads_switch v) ≡ (r.1, resting (some r.0)))
  unfolding produces_alone push_step
  push-alone q v = elim (Option-cases (put q.buffer_mask (q.lanes (filling q.lane_switch)) v)) [
    | inl refused ↦
        elim (Option-cases (put q.buffer_mask (q.lanes (filling (turned q).lane_switch)) v)) [
          | inl refused' ↦ (
            (false, turned q),
            push-second q v refused none refused',
            to_second q v refused
                ∙ refuses-alone 2 (turned q) v true (turned q).lane_switch refused',
          )
          | inr (lane, stored) ↦ (
            (true, with_lane (turned q) (filling (turned q).lane_switch) lane),
            push-second q v refused (some lane) stored,
            to_second q v refused
                ∙ stores-alone 0 (turned q) v true (turned q).lane_switch lane stored,
          )
        ]
    | inr (lane, stored) ↦ (
      (true, with_lane q (filling q.lane_switch) lane),
      push-first q v lane stored,
      stores-alone 3 q v false q.lane_switch lane stored,
    )
  ]

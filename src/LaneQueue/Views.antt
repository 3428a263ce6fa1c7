-- ===== src/LaneQueue/Views.antt =====
-- What the accesses of `push` and `pop` in LFSPSCQueue.h do to the two lanes.
use yamemcached.Base.{
  ℕ, ◌+◌, ◌-◌, ◌%◌, ◌^◌, ◌≤◌, ◌≡◌, ◌⊎◌, inl, inr, true, false, none, some, [], ◌∷◌, ◌++◌, arith,
  ◌==◌, update, length, Bool-cases, ok, ==_iff, update_self, update-ne,
}
use yamemcached.LaneQueue.{
  RingBuffer, LaneQueue, next, put, get, put_in, get_from, push_round, pop_round, push, pop,
  add_size,
}
use yamemcached.LaneQueue.Lanes.{
  after, next-eq-after, contents, IsLane, IsLane-empty, contents_of_ne, contents_put,
  length-contents, held_full, held_room,
}
use yamemcached.LaneQueue.Spec.{Pair}

module _ {ℓ} {T : Type ℓ} (k : ℕ) where
  pub record IsValid (q : LaneQueue T) : Type 0 where
    pub fits : 2 ^ k ≤ 2 ^ 63
    pub mask : q.buffer_mask ≡ 2 ^ k - 1
    pub lane : (i : ℕ) → IsLane (2 ^ k) (q.lanes i)

  abbrev pub view : LaneQueue T → Pair T
  view q = record {
    filled = contents (2 ^ k) (q.lanes (q.lane_switch % 2));
    drained = contents (2 ^ k) (q.lanes ((q.lane_switch + 1) % 2));
  }

  -- What a write into one lane comes to.
  pub put_cases :
      (r : RingBuffer T) (v : T)
      → 2 ^ k ≤ 2 ^ 63
      → IsLane (2 ^ k) r
      → ((put (2 ^ k - 1) r v ≡ none) × ((length (contents (2 ^ k) r) + 1 == 2 ^ k) ≡ true))
        ⊎ ((r' : RingBuffer T) × (put (2 ^ k - 1) r v ≡ some r')
            × IsLane (2 ^ k) r'
            × (contents (2 ^ k) r' ≡ contents (2 ^ k) r ++ v ∷ [])
            × ((length (contents (2 ^ k) r) + 1 == 2 ^ k) ≡ false))
  unfolding put
  put_cases r v fits lane = elim (Bool-cases (after (2 ^ k) r.head == r.tail)) [
    | inl full ↦
        inl (
          ground (arith, step),
          ground (arith, length-contents (2 ^ k) r, held_full (2 ^ k) r lane),
        )
    | inr room ↦ inr (
      record r { ring = update r.ring r.head v; head = after (2 ^ k) r.head },
      ground (arith, step),
      ground arith,
      contents_put (2 ^ k) r v lane (ground arith),
      ground (arith, length-contents (2 ^ k) r, held_room (2 ^ k) r lane),
    )
  ]
    where
      step : next (2 ^ k - 1) r.head ≡ after (2 ^ k) r.head
      step = next-eq-after k r.head fits lane.head_in

  pub get_cases :
      (r : RingBuffer T)
      → 2 ^ k ≤ 2 ^ 63
      → IsLane (2 ^ k) r
      → ((get (2 ^ k - 1) r ≡ none) × (contents (2 ^ k) r ≡ []))
        ⊎ ((v : T) × (r' : RingBuffer T) × (get (2 ^ k - 1) r ≡ some (v, r'))
            × IsLane (2 ^ k) r'
            × (contents (2 ^ k) r ≡ v ∷ contents (2 ^ k) r'))
  unfolding get
  get_cases r fits lane = elim (Bool-cases (r.tail == r.head)) [
    | inl none_held ↦ inl (rw none_held, IsLane-empty (2 ^ k) r ((==_iff _ _).0 none_held))
    | inr holds ↦ inr (
      r.ring r.tail,
      record r { tail = after (2 ^ k) r.tail },
      ground (arith, step),
      ground arith,
      contents_of_ne (2 ^ k) r lane (ground arith),
    )
  ]
    where
      step : next (2 ^ k - 1) r.tail ≡ after (2 ^ k) r.tail
      step = next-eq-after k r.tail fits lane.tail_in

  -- A lane that is written back keeps the queue valid.
  pub with_lane-IsValid :
      (q : LaneQueue T) (i : ℕ) (r : RingBuffer T)
      → IsValid q
      → IsLane (2 ^ k) r
      → IsValid (record q { lanes = update q.lanes i r })
  with_lane-IsValid q i r v lane = record {
    fits = v.fits;
    mask = v.mask;
    lane = λ j. elim (Bool-cases (i == j)) [
      | inl same ↦ rw same lane
      | inr other ↦ rw other (v.lane j)
    ];
  }

  -- The compare-exchange turns the switch; the two lanes change places.
  abbrev pub switched : LaneQueue T → LaneQueue T
  switched q = record q { lane_switch = add_size q.lane_switch 1 }

  lane_of_filled : (q : LaneQueue T) → add_size q.lane_switch 1 % 2 ≡ (q.lane_switch + 1) % 2
  lane_of_filled q = omega arith

  lane_of_drained :
      (q : LaneQueue T) → add_size (add_size q.lane_switch 1) 1 % 2 ≡ q.lane_switch % 2
  lane_of_drained q = omega arith

  pub view-switched :
      (q : LaneQueue T)
      → view (switched q) ≡ record { filled = (view q).drained; drained = (view q).filled }
  view-switched q = λ i. record {
    filled = contents (2 ^ k) (q.lanes (lane_of_filled q i));
    drained = contents (2 ^ k) (q.lanes (other i));
  }
    where
      other : (add_size q.lane_switch 1 + 1) % 2 ≡ q.lane_switch % 2
      other = omega arith

  -- Writing lane `s % 2` changes what is filled, writing the other what is drained.
  pub view-fill :
      (q : LaneQueue T) (r : RingBuffer T)
      → view (record q { lanes = update q.lanes (q.lane_switch % 2) r })
        ≡ record (view q) { filled = contents (2 ^ k) r }
  view-fill q r = λ i. record {
    filled = contents (2 ^ k) (update_self q.lanes (q.lane_switch % 2) r i);
    drained =
        contents (2 ^ k)
          (update-ne q.lanes (q.lane_switch % 2) ((q.lane_switch + 1) % 2) r (omega arith) i);
  }

  pub view-drain :
      (q : LaneQueue T) (r : RingBuffer T)
      → view (record q { lanes = update q.lanes ((q.lane_switch + 1) % 2) r })
        ≡ record (view q) { drained = contents (2 ^ k) r }
  view-drain q r = λ i. record {
    filled =
        contents (2 ^ k)
          (update-ne q.lanes ((q.lane_switch + 1) % 2) (q.lane_switch % 2) r (omega arith) i);
    drained = contents (2 ^ k) (update_self q.lanes ((q.lane_switch + 1) % 2) r i);
  }

  -- A write that fits the lane to fill.
  pub push_first :
      (q : LaneQueue T) (v : T) (r : RingBuffer T)
      → put q.buffer_mask (q.lanes (q.lane_switch % 2)) v ≡ some r
      → push q v ≡ ok (true, record q { lanes = update q.lanes (q.lane_switch % 2) r })
  unfolding push push_round put_in
  push_first q v r e = ground arith

  -- A full lane: the switch turns, and the other lane is tried once.
  pub push_second :
      (q : LaneQueue T) (v : T) (r : RingBuffer T)
      → put q.buffer_mask (q.lanes (q.lane_switch % 2)) v ≡ none
      → put q.buffer_mask (q.lanes ((q.lane_switch + 1) % 2)) v ≡ some r
      → push q v
        ≡ ok (true, record (switched q) { lanes = update q.lanes ((q.lane_switch + 1) % 2) r })
  unfolding push push_round put_in
  push_second q v r e f = ground (arith, lane_of_filled q)

  pub push_full :
      (q : LaneQueue T) (v : T)
      → put q.buffer_mask (q.lanes (q.lane_switch % 2)) v ≡ none
      → put q.buffer_mask (q.lanes ((q.lane_switch + 1) % 2)) v ≡ none
      → push q v ≡ ok (false, switched q)
  unfolding push push_round put_in
  push_full q v e f = ground (arith, lane_of_filled q)

  pub pop_first :
      (q : LaneQueue T) (v : T) (r : RingBuffer T)
      → get q.buffer_mask (q.lanes ((q.lane_switch + 1) % 2)) ≡ some (v, r)
      → pop q ≡ ok (some v, record q { lanes = update q.lanes ((q.lane_switch + 1) % 2) r })
  unfolding pop pop_round get_from
  pop_first q v r e = ground (arith, lane_of_filled q)

  pub pop_second :
      (q : LaneQueue T) (v : T) (r : RingBuffer T)
      → get q.buffer_mask (q.lanes ((q.lane_switch + 1) % 2)) ≡ none
      → get q.buffer_mask (q.lanes (q.lane_switch % 2)) ≡ some (v, r)
      → pop q ≡ ok (some v, record (switched q) { lanes = update q.lanes (q.lane_switch % 2) r })
  unfolding pop pop_round get_from
  pop_second q v r e f = ground (arith, lane_of_filled q, lane_of_drained q)

  pub pop_empty :
      (q : LaneQueue T)
      → get q.buffer_mask (q.lanes ((q.lane_switch + 1) % 2)) ≡ none
      → get q.buffer_mask (q.lanes (q.lane_switch % 2)) ≡ none
      → pop q ≡ ok (none, switched q)
  unfolding pop pop_round get_from
  pop_empty q e f = ground (arith, lane_of_filled q, lane_of_drained q)

  pub switched-IsValid : (q : LaneQueue T) → IsValid q → IsValid (switched q)
  switched-IsValid q v = record { fits = v.fits; mask = v.mask; lane = v.lane }

  -- The same two writes after the switch has turned.
  pub view-second :
      (q : LaneQueue T) (r : RingBuffer T)
      → view (record (switched q) { lanes = update q.lanes ((q.lane_switch + 1) % 2) r })
        ≡ record { filled = contents (2 ^ k) r; drained = (view q).filled }
  view-second q r =
      λ i. record { filled = contents (2 ^ k) (mine i); drained = contents (2 ^ k) (other i) }
    where
      mine : update q.lanes ((q.lane_switch + 1) % 2) r (add_size q.lane_switch 1 % 2) ≡ r
      mine = rw lane_of_filled (update_self q.lanes ((q.lane_switch + 1) % 2) r)

      turned : (add_size q.lane_switch 1 + 1) % 2 ≡ q.lane_switch % 2
      turned = omega arith

      other :
          update q.lanes ((q.lane_switch + 1) % 2) r ((add_size q.lane_switch 1 + 1) % 2)
          ≡ q.lanes (q.lane_switch % 2)
      other =
          rw turned
            (update-ne q.lanes ((q.lane_switch + 1) % 2) (q.lane_switch % 2) r (omega arith))

  pub view-second_drain :
      (q : LaneQueue T) (r : RingBuffer T)
      → view (record (switched q) { lanes = update q.lanes (q.lane_switch % 2) r })
        ≡ record { filled = (view q).drained; drained = contents (2 ^ k) r }
  view-second_drain q r =
      λ i. record { filled = contents (2 ^ k) (other i); drained = contents (2 ^ k) (mine i) }
    where
      turned : (add_size q.lane_switch 1 + 1) % 2 ≡ q.lane_switch % 2
      turned = omega arith

      mine : update q.lanes (q.lane_switch % 2) r ((add_size q.lane_switch 1 + 1) % 2) ≡ r
      mine = rw turned (update_self q.lanes (q.lane_switch % 2) r)

      other :
          update q.lanes (q.lane_switch % 2) r (add_size q.lane_switch 1 % 2)
          ≡ q.lanes ((q.lane_switch + 1) % 2)
      other =
          rw lane_of_filled
            (update-ne q.lanes (q.lane_switch % 2) ((q.lane_switch + 1) % 2) r (omega arith))

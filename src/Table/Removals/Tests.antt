-- ===== src/Table/Removals/Tests.antt =====
-- Runs of `remove` of src/LFLRUHashTable.h.
use yamemcached.Base.{
  fault, spin, ℕ, ◌≡◌, ◌≢◌, refl, true, ◌==◌, if◌then◌else◌, [], none, ok, arith,
}
use yamemcached.Table.State.{Table, element, list_end_mark}
use yamemcached.Table.Methods.{get, remove, evict}
use yamemcached.Table.Removals.Evicted.{IsTail, get-evict}
use yamemcached.Table.Touch.{SameItems}
use yamemcached.Table.Lookup.{Chain, element_of}
use yamemcached.Table.Tests.{two_items, number_keys, Chain-of_12, Chain-of_17, CanTouch-two_items}
use yamemcached.Table.Probe.{has_key, remove_key_within}
use yamemcached.Table.Removals.Lost.{get-remove}
use yamemcached.Table.Removals.Faults.{remove-missing, remove-hangs}

get-remove_example :
    (u : Table ℕ ℕ) × (remove two_items 0 12 ≡ ok (true, u))
    × ((w : Table ℕ ℕ) × (get u 0 12 ≡ ok (none, w)) × SameItems u w)
    × ((k2 : ℕ) (d2 : ℕ)
        → Chain two_items k2 true d2
        → element_of two_items k2 d2 ≢ element_of two_items 12 1
        → Chain u k2 true d2
          × ((u.elements (element_of u k2 d2)).value
              ≡ (two_items.elements (element_of two_items k2 d2)).value))
get-remove_example =
    get-remove two_items 0 12 1 (omega arith) Chain-of_12 (omega arith) (omega arith) refl
      CanTouch-two_items.unlink

remove-missing_example : remove two_items 0 17 ≡ fault
remove-missing_example = remove-missing two_items 0 17 2 (omega arith) (omega arith) Chain-of_17

Chain-of_7 : Chain two_items 7 true 0
unfolding has_key element
Chain-of_7 = record {
  inside = omega arith;
  in_locks = omega arith;
  taken = λ i h. elim h [ ];
  unlocked = λ i h. ground arith;
  missed = λ i h. elim h [ ];
  at_end = (ground arith, refl);
}

-- The key 12 has the same home and stands behind 7.
remove-hangs_example :
    ((rounds : ℕ) → remove_key_within rounds two_items 0 7 ≡ spin) × (remove two_items 0 7 ≡ spin)
remove-hangs_example =
    remove-hangs two_items 0 7 0 (omega arith) (omega arith) Chain-of_7 (omega arith) (omega arith)
      (omega arith) (omega arith) (omega arith)

-- With no free element, and key 12 used before key 7.
abbrev full : Table ℕ ℕ
full = record two_items {
  lists = λ _. record {
    head = 0;
    tail = 1;
    free_list_head = list_end_mark;
    moves = 0;
    exp_time_map = [];
    locks = λ _. 0;
  };
  elements = λ i.
      if i == 0
      then record { links = record { left = list_end_mark; right = 1 }; key = 7; value = 70 }
      else record { links = record { left = 0; right = list_end_mark }; key = 12; value = 120 };
}

Chain-full : Chain full 12 true 1
unfolding has_key element
Chain-full = record {
  inside = omega arith;
  in_locks = omega arith;
  taken = λ i h. ground arith;
  unlocked = λ i h. ground arith;
  missed = λ i h. ground arith;
  at_end = (ground arith, refl);
}

IsTail-full : IsTail full 0 1
IsTail-full = record {
  is_tail = refl;
  in_range = omega arith;
  last = refl;
  not_alone = λ e. absurd (omega arith);
  unlocked = λ e. absurd (omega arith);
  left_in = omega arith;
  left_unlocked = λ e. absurd (omega arith);
  left_back = refl;
}

get-evict_example :
    (u : Table ℕ ℕ) × (evict true full 0 2 ≡ ok (1, u))
    × ((u.lists 0).free_list_head ≡ 1)
    × ((w : Table ℕ ℕ) × (get u 0 12 ≡ ok (none, w)) × SameItems u w)
    × ((k2 : ℕ) (d2 : ℕ)
        → Chain full k2 true d2
        → element_of full k2 d2 ≢ 1
        → Chain u k2 true d2
          × ((u.elements (element_of u k2 d2)).value
              ≡ (full.elements (element_of full k2 d2)).value))
get-evict_example =
    get-evict true full 0 2 1 1 refl IsTail-full (omega arith) Chain-full refl (omega arith)
      (omega arith) refl

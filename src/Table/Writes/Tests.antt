-- ===== src/Table/Writes/Tests.antt =====
-- Runs of `set` and `insert` of src/LFLRUHashTable.h.
use yamemcached.Base.{ℕ, if◌then◌else◌, ◌≡◌, refl, true, false, some, ok, ◌==◌, arith}
use yamemcached.Table.State.{Table, element, list_end_mark}
use yamemcached.Table.Probe.{has_key}
use yamemcached.Table.Methods.{get, set, insert}
use yamemcached.Table.Lookup.{Chain, element_of}
use yamemcached.Table.Touch.{SameItems}
use yamemcached.Table.Move.{CanMove}
use yamemcached.Table.Tests.{two_items, number_keys, Chain-of_12}
use yamemcached.Table.Writes.Set.{Overwritten, get-set}
use yamemcached.Table.Writes.Take.{CanTake}
use yamemcached.Table.Writes.Found.{get-insert}

get-set_example :
    (u w : Table ℕ ℕ) × (set two_items 0 12 121 0 ≡ ok (true, u))
    × (get u 0 12 ≡ ok (some 121, w))
    × SameItems u w
    × Overwritten two_items u 1 121
get-set_example =
    get-set two_items 0 12 121 0 1 (omega arith) Chain-of_12 (CanMove.at_head (omega arith) refl)

-- Two elements more, both free.
abbrev two_free : Table ℕ ℕ
two_free = record two_items {
  num_elements = 4;
  elements = λ i.
      if i == 2
      then record { links = record { left = list_end_mark; right = 3 }; key = 0; value = 0 }
      else if i == 3
      then record {
        links = record { left = list_end_mark; right = list_end_mark };
        key = 0;
        value = 0;
      }
      else two_items.elements i;
}

Chain-two_free : Chain two_free 17 false 2
unfolding has_key element
Chain-two_free = record {
  inside = omega arith;
  in_locks = omega arith;
  taken = λ i h. ground arith;
  unlocked = λ i h. ground arith;
  missed = λ i h. ground arith;
  at_end = refl;
}

CanTake-two_free : CanTake two_free 0 2
CanTake-two_free = record {
  is_free = refl;
  in_range = omega arith;
  marks_free = omega arith;
  more = omega arith;
  unused = λ j h. ground arith;
  head_in = λ ne. omega arith;
  apart = omega arith;
}

get-insert_example :
    (u : Table ℕ ℕ) × (insert two_free 0 17 170 0 ≡ ok (true, u))
    × ((w : Table ℕ ℕ) × (get u 0 17 ≡ ok (some 170, w)) × SameItems u w)
    × ((k2 : ℕ) (d2 : ℕ)
        → Chain two_free k2 true d2
        → Chain u k2 true d2
          × ((u.elements (element_of u k2 d2)).value
              ≡ (two_free.elements (element_of two_free k2 d2)).value))
get-insert_example =
    get-insert two_free 0 2 17 170 0 2 refl (omega arith) Chain-two_free CanTake-two_free

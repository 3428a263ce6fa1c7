-- ===== src/Table/Tests.antt =====
-- Runs of the table of src/LFLRUHashTable.h.
use yamemcached.Base.{
  ℕ, arith, [], if◌then◌else◌, ◌≡◌, refl, true, false, none, some, ok, ◌>>=◌, ◌==◌,
}
use yamemcached.Table.State.{Keys, Table, element, list_end_mark, hash_free_mark}
use yamemcached.Table.Touch.{SameItems}
use yamemcached.Table.Lookup.{Chain, CanTouch, get-found, get-missing}
use yamemcached.Table.Slots.{lock_element_hash, unlock_elements_hash, unlock_from}
use yamemcached.Table.Probe.{
  begin_at, advance, search_slots, find_key, has_key, release, write_lock,
}
use yamemcached.Table.Recent.{pop_free, link_head, touch, unlink_element, store_links}
use yamemcached.Table.Expiry.{add_item_exp_time, emplace}
use yamemcached.Table.Methods.{init, first_links, get, insert, occupy, evict, store_item}

-- Numbers as keys, each its own hash.
instance abbrev pub number_keys : Keys ℕ
number_keys = record { same = λ a b. a == b; hasher = λ a. a }

get-insert_run :
    (init {K = ℕ} {V = ℕ} 3 5 1 0 0 (λ _. 0) >>= λ t.
    insert t 0 7 70 0 >>= λ r. insert r.1 0 12 120 0 >>= λ q. get q.1 0 12 >>= λ g. ok g.0)
    ≡ ok (some 120)
unfolding init first_links insert pop_free element find_key begin_at lock_element_hash search_slots
    has_key advance write_lock occupy store_item release unlock_elements_hash unlock_from link_head
    store_links evict add_item_exp_time emplace get touch unlink_element
get-insert_run = refl

-- Key 7 in slot 2, key 12 with the same home in slot 3; key 12 was used last.
abbrev pub two_items : Table ℕ ℕ
two_items = record {
  lists = λ _. record {
    head = 1;
    tail = 0;
    free_list_head = 2;
    moves = 0;
    exp_time_map = [];
    locks = λ _. 0;
  };
  elements = λ i.
      if i == 0
      then record { links = record { left = 1; right = list_end_mark }; key = 7; value = 70 }
      else record { links = record { left = list_end_mark; right = 0 }; key = 12; value = 120 };
  element_links = λ j. if j == 2 then 0 else if j == 3 then 1 else hash_free_mark;
  num_elements = 3;
  hash_size = 5;
  num_threads = 1;
  next_thread_id = 0;
}

pub Chain-of_12 : Chain two_items 12 true 1
unfolding has_key element
Chain-of_12 = record {
  inside = omega arith;
  in_locks = omega arith;
  taken = λ i h. ground arith;
  unlocked = λ i h. ground arith;
  missed = λ i h. ground arith;
  at_end = (ground arith, refl);
}

pub Chain-of_17 : Chain two_items 17 false 2
unfolding has_key element
Chain-of_17 = record {
  inside = omega arith;
  in_locks = omega arith;
  taken = λ i h. ground arith;
  unlocked = λ i h. ground arith;
  missed = λ i h. ground arith;
  at_end = refl;
}

pub CanTouch-two_items : CanTouch two_items 0 1
CanTouch-two_items = record {
  unlink = record {
    in_range = omega arith;
    marks_free = omega arith;
    left_in = λ ne. ground arith;
    right_in = λ ne. omega arith;
    apart = λ ne. ground arith;
    left_back = λ ne. ground arith;
    right_back = λ ne. ground arith;
  };
  head_in = λ ne. omega arith;
}

get-found_example :
    (u : Table ℕ ℕ) × (get two_items 0 12 ≡ ok (some 120, u)) × SameItems two_items u
get-found_example = get-found two_items 0 12 1 (omega arith) Chain-of_12 CanTouch-two_items

get-missing_example : (u : Table ℕ ℕ) × (get two_items 0 17 ≡ ok (none, u)) × SameItems two_items u
get-missing_example = get-missing two_items 0 17 2 (omega arith) Chain-of_17

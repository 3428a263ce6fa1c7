-- ===== src/Request/Runs.antt =====
-- Runs of several commands of src/RequestProcessor.cpp on one table.
use yamemcached.Base.{
  true, fault, ◌==◌, if◌then◌else◌, ℕ, ◌≡◌, refl, false, List, [], ◌∷◌, ok, arith,
}
use yamemcached.Table.State.{Table, element, list_end_mark, hash_free_mark}
use yamemcached.Table.Probe.{has_key}
use yamemcached.Request.Tickets.{run_cas-faults}
use yamemcached.Table.Lookup.{Chain, CanTouch}
use yamemcached.Table.Writes.Take.{CanTake}
use yamemcached.Request.Info.{StorageValue}
use yamemcached.Request.Out.{Out}
use yamemcached.Request.Store.{table_store}
use yamemcached.Request.Commands.{run_set, run_get, run_cas, stored_text}
use yamemcached.Request.Stored.{IsItem, set-get}
use yamemcached.Request.Tests.{
  same_text, text_keys, small_table, small_out, small_out-IsRoomy, hello,
}

pub Chain-small_table : Chain small_table (107 ∷ []) false 0
Chain-small_table = record {
  inside = omega arith;
  in_locks = omega arith;
  taken = λ i h. elim h [ ];
  unlocked = λ i h. ground arith;
  missed = λ i h. elim h [ ];
  at_end = refl;
}

pub CanTake-small_table : CanTake small_table 0 0
CanTake-small_table = record {
  is_free = refl;
  in_range = omega arith;
  marks_free = omega arith;
  more = omega arith;
  unused = λ j h. ground arith;
  head_in = λ ne. absurd (ne refl);
  apart = omega arith;
}

set-get_example :
    (out1 : Out) × (out2 : Out) × (u : Table (List ℕ) StorageValue) × (w : Table
      (List ℕ)
      StorageValue)
    × (run_set table_store 0 small_table false (107 ∷ []) hello 0 small_out ≡ ok (out1, u))
    × (out1.bytes ≡ 65 ∷ stored_text)
    × (run_get table_store 0 u ((107 ∷ []) ∷ []) out1 ≡ ok (out2, w))
    × IsItem (107 ∷ []) hello out1.bytes out2.bytes
unfolding same_text
set-get_example =
    set-get small_table 0 0 (107 ∷ []) hello 0 0 small_out refl (omega arith) Chain-small_table
      CanTake-small_table small_out-IsRoomy (omega arith) (omega arith)

-- A thousand slots, and key "k" in element 0.
abbrev pub stocked : Table (List ℕ) StorageValue
stocked = record small_table {
  lists = λ _. record {
    head = 0;
    tail = 0;
    free_list_head = 1;
    moves = 0;
    exp_time_map = [];
    locks = λ _. 0;
  };
  elements = λ i. record {
    links = record { left = list_end_mark; right = list_end_mark };
    key = 107 ∷ [];
    value = hello;
  };
  element_links = λ j. if j == 1 then 0 else hash_free_mark;
  hash_size = 1000;
}

pub Chain-stocked : Chain stocked (107 ∷ []) true 0
unfolding has_key element same_text
Chain-stocked = record {
  inside = omega arith;
  in_locks = omega arith;
  taken = λ i h. elim h [ ];
  unlocked = λ i h. ground arith;
  missed = λ i h. elim h [ ];
  at_end = (ground arith, refl);
}

pub CanTouch-stocked : CanTouch stocked 0 0
CanTouch-stocked = record {
  unlink = record {
    in_range = omega arith;
    marks_free = omega arith;
    left_in = λ ne. absurd (ne refl);
    right_in = λ ne. absurd (ne refl);
    apart = λ ne. absurd (ne refl);
    left_back = λ ne. absurd (ne refl);
    right_back = λ ne. absurd (ne refl);
  };
  head_in = λ ne. omega arith;
}

run_cas-faults_example :
    run_cas table_store 0 (λ _. 0) stocked false (107 ∷ []) hello 0 small_out ≡ fault
run_cas-faults_example =
    run_cas-faults stocked 0 (λ _. 0) false (107 ∷ []) hello 0 0 small_out (omega arith)
      (omega arith) Chain-stocked CanTouch-stocked refl

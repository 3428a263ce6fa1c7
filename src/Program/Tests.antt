-- ===== src/Program/Tests.antt =====
-- Runs of the options of src/YAMemcached.cpp.
use mathlib.Core.List.{foldl}
use yamemcached.Base.{
  ℕ, ◌+◌, ◌-◌, ◌*◌, ◌%◌, ◌^◌, ◌<◌, ◌≤◌, ◌≡◌, refl, true, false, List, [], ◌∷◌, ok, abort, fault,
  arith,
}
use yamemcached.Table.State.{Table, hash_lock_mark}
use yamemcached.Request.Info.{StorageValue}
use yamemcached.Program.{
  Settings, defaults, udp, size, version, sigint, runs, exits, set_option, parse_options,
  make_table, sig_handler,
}
use yamemcached.Program.Size.{parse_options-make_table}

abbrev decimal : List ℕ → ℕ
decimal arg = foldl (λ (n c : ℕ). n * 10 + (c - 48)) 0 arg % 2 ^ 32

decimal-lt : (arg : List ℕ) → decimal arg < 2 ^ 32
decimal-lt arg = omega arith

-- "-u -s 64"
abbrev of_64 : Settings
of_64 = record defaults { udp_enabled = true; max_hash_size = 64 }

parse-64 : parse_options decimal defaults (udp ∷ size (54 ∷ 52 ∷ []) ∷ []) ≡ ok (runs of_64)
unfolding parse_options set_option
parse-64 = refl

-- "-s 4000000000"
parse-large :
    parse_options decimal defaults
      (size (52 ∷ 48 ∷ 48 ∷ 48 ∷ 48 ∷ 48 ∷ 48 ∷ 48 ∷ 48 ∷ 48 ∷ []) ∷ [])
    ≡ abort
unfolding parse_options set_option
parse-large = refl

parse-version : parse_options decimal defaults (version ∷ size (48 ∷ []) ∷ []) ≡ ok (exits 0)
unfolding parse_options set_option
parse-version = refl

sigint-ndebug : sig_handler true sigint ≡ false
unfolding sig_handler
sigint-ndebug = refl

parse_options-make_table_example :
    (of_64.max_hash_size ≡ 0 → make_table of_64 8 (λ _. 0) ≡ abort)
    × (0 < of_64.max_hash_size → of_64.max_hash_size < 8 → make_table of_64 8 (λ _. 0) ≡ fault)
    × (0 < 8
        → 8 ≤ of_64.max_hash_size
        → (t : Table (List ℕ) StorageValue) × (make_table of_64 8 (λ _. 0) ≡ ok t)
          × (t.num_elements ≡ of_64.max_hash_size)
          × (t.hash_size ≡ 2 * of_64.max_hash_size)
          × (t.hash_size < hash_lock_mark)
          × (t.num_threads ≡ 8))
parse_options-make_table_example =
    parse_options-make_table decimal decimal-lt (udp ∷ size (54 ∷ 52 ∷ []) ∷ []) of_64 8 (λ _. 0)
      parse-64

-- ===== src/Program/Size.antt =====
-- The size that the options of src/YAMemcached.cpp let through, and the table of that size.
use yamemcached.Base.{
  ℕ, ◌*◌, ◌/◌, ◌%◌, ◌^◌, ◌≤◌, ◌<◌, ◌≡◌, ◌≢◌, false, refl, inl, inr, List, [], ◌∷◌, ok, abort, fault,
  >>=-eq-ok, ok-injective, subst, le→leb, ==_of_ne, leb, arith, Bool-cases,
}
use native.Mathlib.Nat.{div-eq_of_lt, div-eq-sub-div}
use yamemcached.Table.State.{Table, hash_lock_mark}
use yamemcached.Table.Methods.{init, new_table}
use yamemcached.Request.Info.{StorageValue}
use yamemcached.Program.{
  max_hash_limit, Settings, defaults, Flag, udp, threads, port_number, size, load_file, version,
  unknown, Ending, runs, exits, size_of_int, set_option, parse_options, make_table,
}

-- What the program goes on with.
abbrev IsSized : Ending → Type 0
IsSized (runs s) = 2 * s.max_hash_size < max_hash_limit
IsSized (exits code) = Unit

leb_of_lt : (a b : ℕ) → b < a → leb a b ≡ false
leb_of_lt a b h = ground arith

small_size :
    (n : ℕ)
    → n < 2 ^ 32
    → leb max_hash_limit (size_of_int n * 2 % 2 ^ 64) ≡ false
    → 2 * size_of_int n < max_hash_limit
small_size n h small = ground arith

share : (n k : ℕ) → 0 < k → k ≤ n → n / k ≢ 0
share n k some enough e = omega (arith, div-eq-sub-div some enough)

module _ (atoi : List ℕ → ℕ) (int : (arg : List ℕ) → atoi arg < 2 ^ 32) where
  set_option-IsSized :
      (s : Settings) (flag : Flag) (e : Ending)
      → IsSized (runs s)
      → set_option atoi s flag ≡ ok e
      → IsSized e
  unfolding set_option
  set_option-IsSized s udp e h ran = subst IsSized (ok-injective ran) h
  set_option-IsSized s (threads arg) e h ran = subst IsSized (ok-injective ran) h
  set_option-IsSized s (port_number arg) e h ran = subst IsSized (ok-injective ran) h
  set_option-IsSized s (size arg) e h ran =
      elim (Bool-cases (leb max_hash_limit (size_of_int (atoi arg) * 2 % 2 ^ 64))) [
        | inl large ↦ absurd (ground arith)
        | inr small ↦
            subst IsSized (ok-injective (rw small at ran)) (small_size (atoi arg) (int arg) small)
      ]
  set_option-IsSized s (load_file arg) e h ran = subst IsSized (ok-injective ran) h
  set_option-IsSized s version e h ran = subst IsSized (ok-injective ran) tt
  set_option-IsSized s unknown e h ran = subst IsSized (ok-injective ran) tt

  -- After an option the program ends, or the next ones are read.
  resume :
      (flags : List Flag) (s' : Settings) (e : Ending)
      → IsSized e
      → (elim e [ runs s ↦ parse_options atoi s flags | exits code ↦ ok (exits code) ])
        ≡ ok (runs s')
      → ((s : Settings)
          → IsSized (runs s)
          → parse_options atoi s flags ≡ ok (runs s')
          → IsSized (runs s'))
      → IsSized (runs s')
  resume flags s' (runs s) h ran next = next s h ran
  resume flags s' (exits code) h ran next = subst IsSized (ok-injective ran) tt

  parse_options-IsSized :
      (flags : List Flag) (s s' : Settings)
      → IsSized (runs s)
      → parse_options atoi s flags ≡ ok (runs s')
      → IsSized (runs s')
  unfolding parse_options
  parse_options-IsSized [] s s' h ran = subst IsSized (ok-injective ran) h
  parse_options-IsSized (flag ∷ flags) s s' h ran =
      let (e, first, rest) = >>=-eq-ok (set_option atoi s flag) _ ran in
      resume flags s' e (set_option-IsSized s flag e h first) rest
        (λ s1 h1 ran1. parse_options-IsSized flags s1 s' h1 ran1)

  -- If atoi gives 32 bits and the program goes on after its options, a size of 0 aborts it, a
  -- size below the number of processors makes the table read in front of its elements, and a size
  -- from that number on, which is not 0, makes a table of that many elements and twice as many
  -- slots, all below the marks, for as many threads as processors.
  pub parse_options-make_table :
      (flags : List Flag) (s : Settings) (cpus : ℕ) (junk : ℕ → ℕ)
      → parse_options atoi defaults flags ≡ ok (runs s)
      → (s.max_hash_size ≡ 0 → make_table s cpus junk ≡ abort)
        × (0 < s.max_hash_size → s.max_hash_size < cpus → make_table s cpus junk ≡ fault)
        × (0 < cpus
            → cpus ≤ s.max_hash_size
            → (t : Table (List ℕ) StorageValue) × (make_table s cpus junk ≡ ok t)
              × (t.num_elements ≡ s.max_hash_size)
              × (t.hash_size ≡ 2 * s.max_hash_size)
              × (t.hash_size < hash_lock_mark)
              × (t.num_threads ≡ cpus))
  unfolding make_table init
  parse_options-make_table flags s cpus junk ran =
      let fits = parse_options-IsSized flags defaults s (omega arith) ran in
      let twice : 2 * s.max_hash_size % 2 ^ 64 ≡ 2 * s.max_hash_size = omega arith in
      (
        λ none. rw (twice, le→leb (2 * s.max_hash_size) s.max_hash_size (omega arith)) refl,
        λ some few.
            rw
              (
                twice,
                leb_of_lt (2 * s.max_hash_size) s.max_hash_size (omega arith),
                ==_of_ne cpus 0 (omega arith),
                div-eq_of_lt few,
              )
              refl,
        λ some enough. (
          new_table s.max_hash_size (2 * s.max_hash_size) cpus []
              (record { value = []; cas_ticket = 0; flags = 0 }) junk,
          rw
              (
                twice,
                leb_of_lt (2 * s.max_hash_size) s.max_hash_size (omega arith),
                ==_of_ne cpus 0 (omega arith),
                ==_of_ne (s.max_hash_size / cpus) 0 (share s.max_hash_size cpus some enough),
              )
              refl,
          refl,
          refl,
          omega arith,
          refl,
        ),
      )

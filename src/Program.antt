-- ===== src/Program.antt =====
-- src/YAMemcached.cpp: the options of the program, and the hash table that `main` makes of them.
-- `getopt` is given by the options that it finds, in order, with their arguments.
mod Size
mod Tests
use yamemcached.Base.{
  ℕ, zero, suc, ◌+◌, ◌-◌, ◌*◌, ◌%◌, ◌^◌, Bool, true, false, Option, none, some, List, [], ◌∷◌,
  Outcome, ok, abort, ◌>>=◌, ltb, leb, ◌==◌, if◌then◌else◌,
}
use yamemcached.Table.State.{Table}
use yamemcached.Table.Methods.{init}
use yamemcached.Request.Info.{StorageValue}

-- `MAX_HASH_SIZE`
abbrev pub max_hash_limit : ℕ
max_hash_limit = 4 * 1024 * 1024 * 1024 - 3

-- The fields of `Server` that the options set, and `loadFileName`.
pub record Settings : Type 0 where
  pub udp_enabled : Bool
  pub num_threads : ℕ
  pub port : ℕ
  pub max_hash_size : ℕ
  pub load_file_name : Option (List ℕ)

-- `Server::Server`, and the size that `main` sets before the options
abbrev pub defaults : Settings
defaults = record {
  udp_enabled = false;
  num_threads = 32;
  port = 11212;
  max_hash_size = 1024 * 1024;
  load_file_name = none;
}

-- What `getopt` gives for "ut:s:p:l:v".
pub data Flag : Type 0 where
  udp : Flag
  threads : List ℕ → Flag
  port_number : List ℕ → Flag
  size : List ℕ → Flag
  load_file : List ℕ → Flag
  version : Flag
  unknown : Flag

-- The program goes on, or ends with a code.
pub data Ending : Type 0 where
  runs : Settings → Ending
  exits : ℕ → Ending

-- An `int`, given by its 32 bits, as a `size_t`.
abbrev pub size_of_int : ℕ → ℕ
size_of_int n = if ltb n (2 ^ 31) then n else n + 2 ^ 64 - 2 ^ 32

-- `atoi` gives the 32 bits of an `int`.
module _ (atoi : List ℕ → ℕ) where
  unfoldable pub set_option : Settings → Flag → Outcome Ending
  set_option s udp = ok (runs (record s { udp_enabled = true }))
  set_option s (threads arg) = ok (runs (record s { num_threads = size_of_int (atoi arg) }))
  set_option s (port_number arg) = ok (runs (record s { port = size_of_int (atoi arg) }))
  set_option s (size arg) =
      let n = size_of_int (atoi arg) in
      if leb max_hash_limit (n * 2 % 2 ^ 64)
      then abort
      else ok (runs (record s { max_hash_size = n }))
  set_option s (load_file arg) = ok (runs (record s { load_file_name = some arg }))
  set_option s version = ok (exits 0)
  set_option s unknown = ok (exits 1)

  -- The loop of `getopt`.
  unfoldable pub parse_options : Settings → List Flag → Outcome Ending
  parse_options s [] = ok (runs s)
  parse_options s (flag ∷ flags) = set_option s flag >>= λ e. elim e [
    | runs s' ↦ parse_options s' flags
    | exits code ↦ ok (exits code)
  ]

-- `new LFStringMap(...)`, with the result of `hardware_concurrency`
unfoldable pub make_table : Settings → ℕ → (ℕ → ℕ) → Outcome (Table (List ℕ) StorageValue)
make_table s cpus junk =
    init s.max_hash_size (2 * s.max_hash_size % 2 ^ 64) cpus []
      (record { value = []; cas_ticket = 0; flags = 0 }) junk

-- `sig_handler`: whether the server is stopped and the main loop left. With NDEBUG, SIGINT is not.
pub data Signal : Type 0 where
  sigusr1 : Signal
  sigusr2 : Signal
  sighup : Signal
  sigint : Signal
  sigterm : Signal

unfoldable pub sig_handler : (ndebug : Bool) → Signal → Bool
sig_handler ndebug sigint = if ndebug then false else true
sig_handler ndebug sigterm = true
sig_handler ndebug _ = false

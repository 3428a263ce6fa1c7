-- ===== src/Request/Tests.antt =====
-- Runs of the text protocol of src/RequestProcessor.cpp, and its theorems at concrete inputs.
use yamemcached.Base.{
  ℕ, ◌+◌, ◌-◌, ◌%◌, update, ◌^◌, ◌<◌, ◌≡◌, refl, Bool, true, false, ◌&&◌, none, some, List, [], ◌∷◌,
  length, get_elem?, ok, ◌>>=◌, ◌==◌, if◌then◌else◌, arith,
}
use yamemcached.Table.State.{Keys, Table, list_end_mark, hash_free_mark}
use yamemcached.Number.{itoa, write_digits, swap_ends, atous, atoui}
use yamemcached.Request.Info.{RequestInfo, StorageValue, new_info, ready_state}
use yamemcached.Request.Store.{table_store}
use yamemcached.Request.Matcher.{Matcher, match_substring, match_spots, match_from}
use yamemcached.Request.Solver.{
  set_keywords, solve_sizes, sizes, contains, of_size, solve_matchers, diff_chars, unique_chars,
  char_at, sort_variance, insert_sorted, variance_greater, solve_chars, matching, spot, zero_all,
  zero_at, selector,
}
use yamemcached.Request.Solved.{
  memcached_commands, command_matcher, set_keywords-found, match_substring-inexact,
}
use yamemcached.Request.Out.{text, Out, strncpy}
use yamemcached.Request.Header.{parse_storage, parse_memcached_header}
use yamemcached.Request.Commands.{value_reply, value_text, line_end}
use yamemcached.Request.Process.{Request, process_request, step, step_ready}
use yamemcached.Request.Rounds.{rank, step-rank}
use yamemcached.Request.Room.{IsRoomy, IsDecimal, append_all}
use yamemcached.Request.Replies.{value_reply-lem}
use yamemcached.Request.Ahead.{Ahead, parse_memcached_header-Ahead}
use yamemcached.Request.Waits.{Finished, process_request-Finished}
use yamemcached.Request.Parse.{IsLine, parse_storage-IsLine, HasEnd, HasFields, parse_storage-cut}

-- Strings as keys, hashed by their length.
unfoldable pub same_text : List ℕ → List ℕ → Bool
same_text [] [] = true
same_text [] (y ∷ ys) = false
same_text (x ∷ xs) [] = false
same_text (x ∷ xs) (y ∷ ys) = (x == y) && same_text xs ys

instance abbrev pub text_keys : Keys (List ℕ)
text_keys = record { same = same_text; hasher = length }

-- Three free elements and five slots.
abbrev pub small_table : Table (List ℕ) StorageValue
small_table = record {
  lists = λ _. record {
    head = list_end_mark;
    tail = list_end_mark;
    free_list_head = 0;
    moves = 0;
    exp_time_map = [];
    locks = λ _. 0;
  };
  elements = λ i. record {
    links = record { left = list_end_mark; right = i + 1 };
    key = [];
    value = record { value = []; cas_ticket = 0; flags = 0 };
  };
  element_links = λ _. hash_free_mark;
  num_elements = 3;
  hash_size = 5;
  num_threads = 1;
  next_thread_id = 0;
}

abbrev pub small_out : Out
small_out = record { bytes = 65 ∷ []; size = 16 }

pub small_out-IsRoomy : IsRoomy small_out
small_out-IsRoomy = record { fits = omega arith; some = omega arith; small = omega arith }

abbrev pub hello : StorageValue
hello = record { value = 104 ∷ 105 ∷ []; cas_ticket = 0; flags = 12 }

value_reply-lem_example :
    (size : ℕ) × (flags_text : List ℕ) × (length_text : List ℕ) × IsDecimal flags_text 12
    × IsDecimal length_text 2
    × (value_reply (107 ∷ []) hello small_out
        ≡ ok (record {
          bytes = append_all (65 ∷ []) (
              value_text
              ∷ strncpy (107 ∷ [])
              ∷ (32 ∷ [])
              ∷ flags_text
              ∷ (32 ∷ [])
              ∷ length_text
              ∷ line_end
              ∷ strncpy (104 ∷ 105 ∷ [])
              ∷ line_end
              ∷ []);
          size = size;
        }))
value_reply-lem_example =
    value_reply-lem (107 ∷ []) hello small_out small_out-IsRoomy (omega arith) (omega arith)

-- " k 0 0 5\r", as it stands behind the command
abbrev line : ℕ → ℕ
line i =
    if i == 1
    then 107
    else if i == 3
    then 48
    else if i == 5
    then 48
    else if i == 7
    then 53
    else if i == 8
    then 13
    else 32

five_printed : itoa 5 (λ _. 0) ≡ ok (update (update (λ _. 0) 0 53) 1 32, 1)
unfolding itoa write_digits swap_ends
five_printed = refl

line-IsLine : IsLine line 0 2 4 6 8 5
line-IsLine = record {
  key = record { order = omega arith; inside = λ i h h'. ground arith; stops = refl };
  flags = record { order = omega arith; inside = λ i h h'. ground arith; stops = refl };
  time = record { order = omega arith; inside = λ i h h'. ground arith; stops = refl };
  length = record { order = omega arith; inside = λ i h h'. ground arith; stops = refl };
  printed = record {
    printed = _;
    digits = 1;
    ran = five_printed;
    ends = refl;
    same = λ j h. ground arith;
  };
  small = omega arith;
}

parse_storage-IsLine_example :
    parse_storage line 12 new_info false 0
    ≡ ok (
      some 10,
      record new_info {
        p_key_buffer = some 1;
        key_buffer_len = (2 - 1) % 2 ^ 16;
        flags = atous line 3 4;
        exp_time = atoui line 5 6;
        data_len = 5;
        p_data_buffer = some 10;
      },
    )
parse_storage-IsLine_example =
    parse_storage-IsLine line 12 new_info 0 2 4 6 8 5 line-IsLine refl (omega arith)

-- Key "k", flags 0, expiry time 0, length 5 and ticket 7, cut in the ticket.
abbrev cas_line : ℕ → ℕ
cas_line i =
    if i == 1
    then 107
    else if i == 3
    then 48
    else if i == 5
    then 48
    else if i == 7
    then 53
    else if i == 9
    then 55
    else if i == 10
    then 13
    else 32

cas_line-HasFields : HasFields true cas_line 0 2 4 6 10
unfolding HasEnd
cas_line-HasFields = record {
  key = record { order = omega arith; inside = λ i h h'. ground arith; stops = refl };
  flags = record { order = omega arith; inside = λ i h h'. ground arith; stops = refl };
  time = record { order = omega arith; inside = λ i h h'. ground arith; stops = refl };
  end = (
    8,
    record { order = omega arith; inside = λ i h h'. ground arith; stops = refl },
    record { order = omega arith; inside = λ i h h'. ground arith; stops = refl },
  );
}

parse_storage-cut_example :
    (info' : RequestInfo) × (parse_storage cas_line 9 new_info true 0 ≡ ok (none, info'))
parse_storage-cut_example =
    parse_storage-cut true cas_line 9 new_info 0 2 4 6 10 cas_line-HasFields (omega arith)
      (omega arith)

abbrev no_matcher : Matcher
no_matcher = record { spot_selector_match = λ _. none }

abbrev first_request : Request (Table (List ℕ) StorageValue)
first_request = record {
  info = new_info;
  cursor = record {
    header_offset = 0;
    header_len = 0;
    header_bytes_required = 0;
    data_offset = 0;
    data_len = 0;
    data_bytes_required = 0;
    in_buffer_offset = 0;
  };
  out = small_out;
  store = small_table;
}

step-rank_example : rank (step_ready first_request).info.state < 2
unfolding step
step-rank_example =
    step-rank table_store 0 (λ _. 0) no_matcher line 12 first_request (step_ready first_request)
      refl

parse_memcached_header-Ahead_example :
    Ahead 0 12 ready_state (parse_memcached_header no_matcher line 0 12 new_info)
parse_memcached_header-Ahead_example =
    parse_memcached_header-Ahead no_matcher line 0 12 new_info (omega arith)

process_request-Finished_example :
    Finished 12 first_request
      (process_request table_store 0 (λ _. 0) no_matcher line 12 first_request)
process_request-Finished_example =
    process_request-Finished table_store 0 (λ _. 0) no_matcher line 12 first_request (omega arith)
      (omega arith) tt

-- "gone", whose first three bytes are taken for get.
abbrev gone : ℕ → ℕ
gone i = if i == 0 then 103 else if i == 1 then 111 else if i == 2 then 110 else 101

set_keywords-found_example :
    (m : Matcher) × (set_keywords memcached_commands ≡ ok m)
    × ((i : ℕ) (word : List ℕ)
        → get_elem? memcached_commands i ≡ some word
        → text gone 0 (length word) ≡ word
        → match_substring m gone 0 (0 + length word) ≡ ok (some i))
set_keywords-found_example = set_keywords-found gone 0

match_substring-inexact_example : match_substring command_matcher gone 0 3 ≡ ok (some 0)
match_substring-inexact_example = match_substring-inexact gone 0 refl

-- "qba"
abbrev qba : ℕ → ℕ
qba i = if i == 0 then 113 else if i == 1 then 98 else 97

-- Among "paa", "pab", "pba", "qba" and "rda" the word "qba" is taken for "pba": three spots are
-- skipped for the three words with p, which have four.
qba_run :
    (set_keywords (
        (112 ∷ 97 ∷ 97 ∷ [])
        ∷ (112 ∷ 97 ∷ 98 ∷ [])
        ∷ (112 ∷ 98 ∷ 97 ∷ [])
        ∷ (113 ∷ 98 ∷ 97 ∷ [])
        ∷ (114 ∷ 100 ∷ 97 ∷ [])
        ∷ [])
      >>= λ m. match_substring m qba 0 3)
    ≡ ok (some 2)
unfolding set_keywords solve_sizes sizes contains of_size solve_matchers diff_chars unique_chars
    char_at sort_variance insert_sorted variance_greater solve_chars matching spot zero_all zero_at
    selector match_substring match_spots match_from
qba_run = refl

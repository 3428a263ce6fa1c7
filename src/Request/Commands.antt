-- ===== src/Request/Commands.antt =====
-- The commands of `processRequest` in src/RequestProcessor.cpp, on the strings and the values that
-- were parsed. `quiet` is the flag `NOREPLY`.
use yamemcached.Base.{
  ℕ, ◌+◌, ◌%◌, ◌^◌, Bool, none, some, List, [], ◌∷◌, length, Outcome, ok, ◌>>=◌, ◌==◌,
  if◌then◌else◌,
}
use yamemcached.Request.Info.{StorageValue}
use yamemcached.Request.Out.{Out, reserve, write, reply, strncpy, write_number}
use yamemcached.Request.Store.{Store}

-- "\r\n"
abbrev pub line_end : List ℕ
line_end = 13 ∷ 10 ∷ []

-- "STORED\r\n"
abbrev pub stored_text : List ℕ
stored_text = 83 ∷ 84 ∷ 79 ∷ 82 ∷ 69 ∷ 68 ∷ line_end

-- "EXISTS\r\n"
abbrev pub exists_text : List ℕ
exists_text = 69 ∷ 88 ∷ 73 ∷ 83 ∷ 84 ∷ 83 ∷ line_end

-- "NOT_STORED\r\n"
abbrev pub not_stored_text : List ℕ
not_stored_text = 78 ∷ 79 ∷ 84 ∷ 95 ∷ stored_text

-- "DELETED\r\n"
abbrev pub deleted_text : List ℕ
deleted_text = 68 ∷ 69 ∷ 76 ∷ 69 ∷ 84 ∷ 69 ∷ 68 ∷ line_end

-- "NOT_FOUND\r\n"
abbrev pub not_found_text : List ℕ
not_found_text = 78 ∷ 79 ∷ 84 ∷ 95 ∷ 70 ∷ 79 ∷ 85 ∷ 78 ∷ 68 ∷ line_end

-- "END\r\n"
abbrev pub end_text : List ℕ
end_text = 69 ∷ 78 ∷ 68 ∷ line_end

-- "VALUE "
abbrev pub value_text : List ℕ
value_text = 86 ∷ 65 ∷ 76 ∷ 85 ∷ 69 ∷ 32 ∷ []

-- `SOME_TEXT_LEN`
abbrev pub some_text_len : ℕ
some_text_len = 128

unfoldable pub answer : Bool → List ℕ → Out → Outcome Out
answer quiet bytes out = if quiet then ok out else reply bytes out

-- One found item: a line with the flags and the length, and one with the value.
unfoldable pub value_reply : List ℕ → StorageValue → Out → Outcome Out
value_reply key v out = reserve (length key + length v.value + some_text_len) out >>= λ out1.
    write value_text out1 >>= λ out2. write (strncpy key) out2 >>= λ out3.
    write (32 ∷ []) out3 >>= λ out4. write_number v.flags out4 >>= λ out5.
    write (32 ∷ []) out5 >>= λ out6. write_number (length v.value) out6 >>= λ out7.
    write line_end out7 >>= λ out8. write (strncpy v.value) out8 >>= λ out9. write line_end out9

module _ {S : Type 0} (store : Store S) (thread : ℕ) where
  unfoldable pub run_set : S → Bool → List ℕ → StorageValue → ℕ → Out → Outcome (Out × S)
  run_set s quiet key v exp_time out = store.insert_or_set s thread key v exp_time >>= λ r.
      answer quiet stored_text out >>= λ out'. ok (out', r.1)

  unfoldable pub run_add : S → Bool → List ℕ → StorageValue → ℕ → Out → Outcome (Out × S)
  run_add s quiet key v exp_time out = store.insert s thread key v exp_time >>= λ r.
      answer quiet (if r.0 then stored_text else exists_text) out >>= λ out'. ok (out', r.1)

  unfoldable pub run_replace : S → Bool → List ℕ → StorageValue → ℕ → Out → Outcome (Out × S)
  run_replace s quiet key v exp_time out = store.set s thread key v exp_time >>= λ r.
      answer quiet (if r.0 then stored_text else not_stored_text) out >>= λ out'. ok (out', r.1)

  -- The range of the locks stays 0 to 0. The table unlocks nothing where the key is not there.
  unfoldable pub run_cas : (ℕ → ℕ) → S → Bool → List ℕ → StorageValue → ℕ → Out → Outcome (Out × S)
  run_cas junk s quiet key v exp_time out = store.get_locked s thread key junk >>= λ r. elim r.0 [
    | none ↦ answer quiet not_stored_text out >>= λ out'. ok (out', r.1)
    | some old ↦
        if v.cas_ticket == old.cas_ticket
        then (store.set_locked r.1 thread (record v { cas_ticket = (v.cas_ticket + 1) % 2 ^ 64 })
              exp_time r.2 0 0
            >>= λ w. answer quiet stored_text out >>= λ out'. ok (out', w.1))
        else (store.unlock_element r.1 r.2 0 0 >>= λ w.
            answer quiet not_stored_text out >>= λ out'. ok (out', w.1))
  ]

  -- One key of `get`: the reply if it is found.
  unfoldable pub get_one : S → List ℕ → Out → Outcome (Out × S)
  get_one s key out = store.get s thread key >>= λ r. elim r.0 [
    | none ↦ ok (out, r.1)
    | some v ↦ value_reply key v out >>= λ out'. ok (out', r.1)
  ]

  unfoldable pub get_all : S → List (List ℕ) → Out → Outcome (Out × S)
  get_all s [] out = ok (out, s)
  get_all s (key ∷ keys) out = get_one s key out >>= λ r. get_all r.1 keys r.0

  -- `get` and `gets`: the first key, the further ones, and the end.
  unfoldable pub run_get : S → List (List ℕ) → Out → Outcome (Out × S)
  run_get s keys out = get_all s keys out >>= λ r. reply end_text r.0 >>= λ out'. ok (out', r.1)

  unfoldable pub run_delete : S → Bool → List ℕ → Out → Outcome (Out × S)
  run_delete s quiet key out = store.remove s thread key >>= λ r.
      answer quiet (if r.0 then deleted_text else not_found_text) out >>= λ out'. ok (out', r.1)

  unfoldable pub run_stats : S → Out → Outcome (Out × S)
  run_stats s out = store.count s >>= λ n. reserve some_text_len out >>= λ out1.
      write_number n out1 >>= λ out2. write line_end out2 >>= λ out3. ok (out3, s)

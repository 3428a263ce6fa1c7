-- ===== src/Table/Expiry.antt =====
-- The expiry times of src/LFLRUHashTable.h: each thread's `multimap` from a time to elements, kept
-- as a list in the order of the times.
use yamemcached.Base.{ℕ, List, [], ◌∷◌, Outcome, ok, ◌>>=◌, ltb, leb, ◌==◌, if◌then◌else◌}
use yamemcached.Table.State.{Keys, Expiry, Table, set_list}
use yamemcached.Table.Probe.{remove_from_hash_idx}
use yamemcached.Table.Recent.{unlink_element, push_free}

-- `emplace`: behind what has the same time
unfoldable pub emplace : Expiry → List Expiry → List Expiry
emplace x [] = x ∷ []
emplace x (y ∷ ys) = if ltb x.time y.time then x ∷ y ∷ ys else y ∷ emplace x ys

-- `erase(expTime)`
unfoldable pub erase_time : ℕ → List Expiry → List Expiry
erase_time time [] = []
erase_time time (x ∷ xs) =
    let rest = erase_time time xs in if x.time == time then rest else x ∷ rest

-- What stands before `upper_bound(time)`, and what stands from it on.
unfoldable pub split_upper : ℕ → List Expiry → List Expiry × List Expiry
split_upper time [] = ([], [])
split_upper time (x ∷ xs) =
    let (before, from) = split_upper time xs in
    if leb x.time time then (x ∷ before, from) else ([], x ∷ xs)

module _ {K V : Type 0} where
  -- `addItemExpTime`
  unfoldable pub add_item_exp_time : Table K V → ℕ → ℕ → ℕ → ℕ → Table K V
  add_item_exp_time t thread pos idx time =
      let list = t.lists thread in
      set_list t thread (record list {
        exp_time_map = emplace (record { time = time; pos = pos; element = idx }) list.exp_time_map;
      })

  -- `removeItemsExpTime`
  unfoldable pub remove_items_exp_time : Table K V → ℕ → ℕ → Table K V
  remove_items_exp_time t thread time =
      let list = t.lists thread in
      set_list t thread (record list { exp_time_map = erase_time time list.exp_time_map })

  -- One round of the loop of `removeExpiredItems`, which nothing calls. Where the source takes
  -- `itExpiredElement.second` of an iterator, which does not compile, this reads `->second`.
  unfoldable pub expire_item : ⦃keys : Keys K⦄ → Table K V → ℕ → Expiry → Outcome (Table K V)
  expire_item t thread x = remove_from_hash_idx t thread x.pos x.element >>= λ r.
      if r.0
      then (unlink_element r.1 x.element >>= λ u.
          if u.0 then push_free u.1 thread x.element else ok u.1)
      else ok r.1

  unfoldable pub expire_items : ⦃keys : Keys K⦄ → Table K V → ℕ → List Expiry → Outcome (Table K V)
  expire_items t thread [] = ok t
  expire_items t thread (x ∷ xs) = expire_item t thread x >>= λ t'. expire_items t' thread xs

  -- `removeExpiredItems`: nothing is done where no item of the thread expires later.
  unfoldable pub remove_expired_items : ⦃keys : Keys K⦄ → Table K V → ℕ → ℕ → Outcome (Table K V)
  remove_expired_items t thread now =
      let (expired, kept) = split_upper now (t.lists thread).exp_time_map in
      elim kept [
        | [] ↦ ok t
        | later ∷ rest ↦ expire_items t thread expired >>= λ t'.
            ok (set_list t' thread (record (t'.lists thread) { exp_time_map = later ∷ rest }))
      ]

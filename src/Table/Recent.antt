-- ===== src/Table/Recent.antt =====
-- The lists of recent use of src/LFLRUHashTable.h.
use yamemcached.Base.{
  ℕ, ◌+◌, Bool, true, false, Outcome, ok, spin, ◌>>=◌, ◌==◌, not, ◌||◌, if◌then◌else◌,
}
use yamemcached.Table.State.{
  Links, Table, element, set_list, with_links, access_lock_mark, list_end_mark,
}

-- `links.left = links.right = mark`
abbrev pub both : ℕ → Links
both mark = record { left = mark; right = mark }

module _ {K V : Type 0} where
  -- `elementStorage[idx].links.store(l)`
  unfoldable pub store_links : Table K V → ℕ → Links → Outcome (Table K V)
  store_links t idx l = element t idx >>= λ e. ok (with_links t idx e l)

  -- The siblings are locked and joined. The compare-exchanges succeed but for the second lock
  -- where both siblings are one element.
  unfoldable pub join_siblings : Table K V → ℕ → Links → Links → Links → Outcome (Bool × Table K V)
  join_siblings t idx target l r =
      store_links t target.left (record l { right = target.right }) >>= λ t1.
      store_links t1 target.right (record r { left = target.left }) >>= λ t2.
      store_links t2 idx (both list_end_mark) >>= λ t3. ok (true, t3)

  -- `unlinkElement`. Where it gives up it has put back what it locked.
  unfoldable pub unlink_element : Table K V → ℕ → Outcome (Bool × Table K V)
  unlink_element t idx = element t idx >>= λ e.
      let target = e.links in
      if target.left == list_end_mark || target.right == list_end_mark
      then ok (false, t)
      else if target.left == access_lock_mark || target.right == access_lock_mark
      then spin
      else (let locked = with_links t idx e (both access_lock_mark) in
          element locked target.left >>= λ l. element locked target.right >>= λ r.
          if l.links.left == list_end_mark
          then ok (false, t)
          else if l.links.left == access_lock_mark || not (l.links.right == idx)
          then spin
          else if r.links.right == list_end_mark
          then ok (false, t)
          else if r.links.right == access_lock_mark || not (r.links.left == idx)
          then spin
          else if target.left == target.right
          then spin
          else join_siblings locked idx target l.links r.links)

  -- `unlinkTail`
  unfoldable pub unlink_tail : Table K V → ℕ → Outcome (ℕ × Table K V)
  unlink_tail t thread =
      let list = t.lists thread in
      let old = list.tail in
      element t old >>= λ e.
      if e.links.left == access_lock_mark || not (e.links.right == list_end_mark)
      then spin
      else if e.links.left == list_end_mark
      then (store_links
            (set_list t thread (record list { tail = list_end_mark; head = list_end_mark })) old
            (both list_end_mark)
          >>= λ t'. ok (old, t'))
      else (element t e.links.left >>= λ l.
          if l.links.left == access_lock_mark || not (l.links.right == old)
          then spin
          else (store_links (set_list t thread (record list { tail = e.links.left })) e.links.left
                (record l.links { right = list_end_mark })
              >>= λ t1. store_links t1 old (both list_end_mark) >>= λ t2. ok (old, t2)))

  -- `linkHead`
  unfoldable pub link_head : Table K V → ℕ → ℕ → Outcome (Table K V)
  link_head t thread idx =
      let list = t.lists thread in
      let old = list.head in
      store_links t idx (record { left = list_end_mark; right = old }) >>= λ t1.
      if old == list_end_mark
      then ok (set_list t1 thread (record list { tail = idx; head = idx }))
      else (element t1 old >>= λ e. store_links t1 old (record (e.links) { left = idx }) >>= λ t2.
          ok (set_list t2 thread (record list { head = idx })))

  -- `linkTail`
  unfoldable pub link_tail : Table K V → ℕ → ℕ → Outcome (Table K V)
  link_tail t thread idx =
      let list = t.lists thread in
      let old = list.tail in
      store_links t idx (record { left = old; right = list_end_mark }) >>= λ t1.
      if old == list_end_mark
      then ok (set_list t1 thread (record list { head = idx; tail = idx }))
      else (element t1 old >>= λ e. store_links t1 old (record (e.links) { right = idx }) >>= λ t2.
          ok (set_list t2 thread (record list { tail = idx })))

  -- A used element is moved to the head of the thread's list, if it can be unlinked.
  unfoldable pub touch : Table K V → ℕ → ℕ → Outcome (Table K V)
  touch t thread idx = unlink_element t idx >>= λ r.
      let t' = r.1 in
      let list = t'.lists thread in
      if r.0
      then link_head (set_list t' thread (record list { moves = list.moves + 1 })) thread idx
      else ok t'

  -- An element is put at the head of the thread's free list.
  unfoldable pub push_free : Table K V → ℕ → ℕ → Outcome (Table K V)
  push_free t thread idx =
      let list = t.lists thread in
      store_links t idx (record { left = list_end_mark; right = list.free_list_head }) >>= λ t'.
      ok (set_list t' thread (record list { free_list_head = idx }))

  -- The head of the thread's free list is taken out of it.
  unfoldable pub pop_free : Table K V → ℕ → Outcome (ℕ × Table K V)
  pop_free t thread =
      let list = t.lists thread in
      let idx = list.free_list_head in
      element t idx >>= λ e.
      ok (idx, set_list t thread (record list { free_list_head = e.links.right }))

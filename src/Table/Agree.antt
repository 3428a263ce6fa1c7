-- ===== src/Table/Agree.antt =====
-- A chain of src/LFLRUHashTable.h in two tables that agree along it.
use yamemcached.Base.{
  ℕ, ◌<◌, ◌≤◌, ◌%◌, ◌≡◌, ◌≢◌, refl, ap, ◌∙◌, Bool, true, false, Outcome, ok, fault, arith, ltb,
  if◌then◌else◌, ◌>>=◌,
}
use yamemcached.Table.State.{Keys, Table, Element, element, hash_free_mark}
use yamemcached.Table.Probe.{has_key, home}
use yamemcached.Table.Range.{slot_at, slot_at-lt}
use yamemcached.Table.Chain.{slot}
use yamemcached.Table.Lookup.{Chain}

-- What a chain ends in, by the tests of its last slot.
at_end-agree :
    (found : Bool) {i j : ℕ} {m n : Outcome Bool}
    → i ≡ j
    → m ≡ n
    → (if found then (j ≢ hash_free_mark) × (n ≡ ok true) else j ≡ hash_free_mark)
    → (if found then (i ≢ hash_free_mark) × (m ≡ ok true) else i ≡ hash_free_mark)
at_end-agree true e e' (taken, hit) = (rw e taken, e' ∙ hit)
at_end-agree false e e' free = e ∙ free

module _ {K V : Type 0} ⦃keys : Keys K⦄ where
  key_test : K → Bool → Element K V → Outcome Bool
  key_test k b x = (if b then ok x else fault) >>= λ e. ok (keys.same e.key k)

  key_test-same :
      (k : K) (b : Bool) (x y : Element K V) → x.key ≡ y.key → key_test k b x ≡ key_test k b y
  unfolding key_test
  key_test-same k true x y e = ap (λ (c : K). ok (keys.same c k)) e
  key_test-same k false x y e = refl

  pub has_key-same :
      (t u : Table K V) (k : K) (i : ℕ)
      → u.num_elements ≡ t.num_elements
      → (u.elements i).key ≡ (t.elements i).key
      → has_key u k i ≡ has_key t k i
  unfolding has_key element key_test
  has_key-same t u k i num same =
      ap (λ (n : ℕ). key_test k (ltb i n) (u.elements i)) num
      ∙ key_test-same k (ltb i t.num_elements) (u.elements i) (t.elements i) same

  -- The tables agree on the slots of the chain and on the tests of their elements.
  pub Chain-agree :
      (t u : Table K V) (k : K) (found : Bool) (d : ℕ)
      → u.hash_size ≡ t.hash_size
      → ((i : ℕ) → i ≤ d → slot u (home u k) i ≡ slot t (home t k) i)
      → ((i : ℕ) → i ≤ d → has_key u k (slot t (home t k) i) ≡ has_key t k (slot t (home t k) i))
      → Chain t k found d
      → Chain u k found d
  Chain-agree t u k found d size slots hits c = record {
    inside = rw size c.inside;
    in_locks = c.in_locks;
    taken = λ i h. rw (slots i (omega arith)) (c.taken i h);
    unlocked = λ i h. rw (slots i h) (c.unlocked i h);
    missed = λ i h. rw (slots i (omega arith), hits i (omega arith)) (c.missed i h);
    at_end =
        at_end-agree found (slots d (omega arith))
          (ap (has_key u k) (slots d (omega arith)) ∙ hits d (omega arith)) c.at_end;
  }

  -- Where all slots, keys and counts are the same, so are the chains.
  pub Chain-same :
      (t u : Table K V) (k : K) (found : Bool) (d : ℕ)
      → 0 < t.hash_size
      → u.num_elements ≡ t.num_elements
      → u.hash_size ≡ t.hash_size
      → ((j : ℕ) → j < t.hash_size → u.element_links j ≡ t.element_links j)
      → ((i : ℕ) → (u.elements i).key ≡ (t.elements i).key)
      → Chain t k found d
      → Chain u k found d
  Chain-same t u k found d some num size slots keys_same c =
      Chain-agree t u k found d size
        (λ i h.
          ap (λ (n : ℕ). u.element_links (slot_at n (keys.hasher k % n) i)) size
          ∙ slots (slot_at t.hash_size (home t k) i)
              (slot_at-lt t.hash_size (home t k) (omega arith) i (omega (arith, c.inside))))
        (λ i h. has_key-same t u k _ num (keys_same _)) c

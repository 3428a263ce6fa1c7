-- ===== src/Table/Writes/Like.antt =====
-- A table of src/LFLRUHashTable.h after its slots were unlocked.
use yamemcached.Base.{ℕ, ◌<◌, ◌≡◌, ap, ◌∙◌, leb, if◌then◌else◌, arith}
use yamemcached.Table.State.{Keys, Table, Element}
use yamemcached.Table.Probe.{Probe, keep_locks}
use yamemcached.Table.Range.{distance, slot_at-distance}
use yamemcached.Table.Chain.{IsScan}
use yamemcached.Table.Move.{CanMove, CanMove-links}

module _ {K V : Type 0} where
  -- `w` has the elements and the counts of `u`, and the lists of the thread have the same heads.
  pub record Like (u w : Table K V) (thread : ℕ) : Type 0 where
    pub num_elements : w.num_elements ≡ u.num_elements
    pub hash_size : w.hash_size ≡ u.hash_size
    pub elements : w.elements ≡ u.elements
    pub head : (w.lists thread).head ≡ (u.lists thread).head
    pub free : (w.lists thread).free_list_head ≡ (u.lists thread).free_list_head

  pub CanMove-Like :
      (u w : Table K V) (thread idx : ℕ)
      → Like u w thread
      → CanMove u thread idx
      → CanMove w thread idx
  CanMove-Like u w thread idx l c =
      CanMove-links u w thread idx l.num_elements
        (λ i. ap (λ (es : ℕ → Element K V). (es i).links) l.elements) l.head c

  -- The indexes that a search kept are those of the slots.
  pub scan_slots :
      (t : Table K V) (start : ℕ) (q : Probe K V)
      → start < t.hash_size
      → IsScan t start q
      → (j : ℕ) → j < t.hash_size
      → (if leb (distance t.hash_size start j) q.depth
          then q.locks (distance t.hash_size start j)
          else t.element_links j)
        ≡ t.element_links j
  scan_slots t start q at_start s j h =
      ground (
        arith,
        s.kept (distance t.hash_size start j),
        slot_at-distance t.hash_size start at_start j,
      )

module _ {K V : Type 0} ⦃keys : Keys K⦄ where
  kept_head :
      (u : Table K V) (thread : ℕ) (locks : ℕ → ℕ)
      → ((keep_locks u thread locks).lists thread).head ≡ (u.lists thread).head
  kept_head u thread locks = ground arith

  kept_free :
      (u : Table K V) (thread : ℕ) (locks : ℕ → ℕ)
      → ((keep_locks u thread locks).lists thread).free_list_head ≡ (u.lists thread).free_list_head
  kept_free u thread locks = ground arith

  pub Like-released :
      (u w : Table K V) (thread : ℕ) (locks : ℕ → ℕ)
      → w ≡ keep_locks (record u { element_links = w.element_links }) thread locks
      → Like u w thread
  Like-released u w thread locks e = record {
    num_elements = ap (λ (z : Table K V). z.num_elements) e;
    hash_size = ap (λ (z : Table K V). z.hash_size) e;
    elements = ap (λ (z : Table K V). z.elements) e;
    head = ap (λ (z : Table K V). (z.lists thread).head) e ∙ kept_head u thread locks;
    free = ap (λ (z : Table K V). (z.lists thread).free_list_head) e ∙ kept_free u thread locks;
  }

-- ===== src/LaneQueue/Lanes.antt =====
-- One ring buffer of LFSPSCQueue.h holds a bounded first-in first-out sequence.
use yamemcached.Base.{
  ℕ, zero, suc, ◌+◌, ◌-◌, ◌^◌, ◌≤◌, ◌<◌, ◌≡◌, refl, ap, ap₂, ◌≢◌, ◌∙◌, List, [], ◌∷◌, ◌++◌, arith,
  leb, ltb, ◌==◌, if◌then◌else◌, update, update_self, mod-next, update-ne, length,
}
use yamemcached.Base.Bits.{bit_and-low_mask}
use yamemcached.LaneQueue.{RingBuffer, add_size, next}

-- the slot after `c` in a ring of `m` slots
abbrev pub after : ℕ → ℕ → ℕ
after m c = if c + 1 == m then 0 else c + 1

-- `next` with the mask of `2 ^ k` slots goes to the slot after, round the end.
pub next-eq-after : (k c : ℕ) → 2 ^ k ≤ 2 ^ 63 → c < 2 ^ k → next (2 ^ k - 1) c ≡ after (2 ^ k) c
unfolding next
next-eq-after k c fits h = rw (bit_and-low_mask k (add_size c 1), sum) (mod-next (2 ^ k) c h)
  where
    sum : add_size c 1 ≡ c + 1
    sum = omega arith

module _ {ℓ} {T : Type ℓ} (m : ℕ) where
  -- the `n` values from slot `h` on
  abbrev pub window : (ℕ → T) → ℕ → ℕ → List T
  window f h zero = []
  window f h (suc n) = f h ∷ window f (after m h) n

  pub length-window : (f : ℕ → T) (h n : ℕ) → length (window f h n) ≡ n
  length-window f h zero = refl
  length-window f h (suc n) = ap suc (length-window f (after m h) n)

  -- Writing the slot just past a window extends it by that value.
  window-update :
      (f : ℕ → T) (v : T) (n h i : ℕ)
      → h < m
      → n < m
      → i ≡ (if ltb (h + n) m then h + n else h + n - m)
      → window (update f i v) h (suc n) ≡ window f h n ++ (v ∷ [])
  window-update f v zero h i hh hn e = ground (arith, update_self f h v)
  window-update f v (suc n) h i hh hn e =
      ap₂ ◌∷◌ (update-ne f i h v (ground arith))
        (window-update f v n (after m h) i (ground arith) (omega arith) (ground arith))

  pub window_snoc :
      (f : ℕ → T) (n h i : ℕ)
      → h < m
      → n < m
      → i ≡ (if ltb (h + n) m then h + n else h + n - m)
      → window f h (suc n) ≡ window f h n ++ (f i ∷ [])
  window_snoc f zero h i hh hn e = ground arith
  window_snoc f (suc n) h i hh hn e =
      ap (λ (l : List T). f h ∷ l)
        (window_snoc f n (after m h) i (ground arith) (omega arith) (ground arith))

  -- Writing there leaves the window.
  pub window_away :
      (f : ℕ → T) (v : T) (n h i : ℕ)
      → h < m
      → n < m
      → i ≡ (if ltb (h + n) m then h + n else h + n - m)
      → window (update f i v) h n ≡ window f h n
  window_away f v zero h i hh hn e = refl
  window_away f v (suc n) h i hh hn e =
      ap₂ ◌∷◌ (update-ne f i h v (ground arith))
        (window_away f v n (after m h) i (ground arith) (omega arith) (ground arith))

  -- how many values a lane holds
  abbrev pub held : RingBuffer T → ℕ
  held r = if leb r.tail r.head then r.head - r.tail else r.head + m - r.tail

  abbrev pub contents : RingBuffer T → List T
  contents r = window r.ring r.tail (held r)

  pub record IsLane (r : RingBuffer T) : Type 0 where
    pub head_in : r.head < m
    pub tail_in : r.tail < m

  pub IsLane-empty : (r : RingBuffer T) → r.tail ≡ r.head → contents r ≡ []
  IsLane-empty r e = rw none_held
    where
      none_held : held r ≡ 0
      none_held = ground arith

  window_of_pos : (f : ℕ → T) (h n : ℕ) → n ≢ 0 → window f h n ≡ f h ∷ window f (after m h) (n - 1)
  window_of_pos f h zero p = absurd (p refl)
  window_of_pos f h (suc n) p = ap (λ k. window f h (suc k)) (omega arith)

  pub contents_of_ne :
      (r : RingBuffer T)
      → IsLane r
      → r.tail ≢ r.head
      → contents r ≡ r.ring r.tail ∷ contents (record r { tail = after m r.tail })
  contents_of_ne r v ne =
      window_of_pos r.ring r.tail (held r) (ground arith)
      ∙ ap (λ n. r.ring r.tail ∷ window r.ring (after m r.tail) n) (ground arith)

  pub contents_put :
      (r : RingBuffer T) (v : T)
      → IsLane r
      → after m r.head ≢ r.tail
      → contents (record r { ring = update r.ring r.head v; head = after m r.head })
        ≡ contents r ++ (v ∷ [])
  contents_put r v lane ne =
      ap (λ n. window (update r.ring r.head v) r.tail n) grown
      ∙ window-update r.ring v (held r) r.tail r.head lane.tail_in (ground arith) (ground arith)
    where
      grown :
          held (record r { ring = update r.ring r.head v; head = after m r.head }) ≡ suc (held r)
      grown = ground arith

  -- The two accesses of a write: into the slot at the head, and of the head.
  pub contents-slot :
      (r : RingBuffer T) (v : T)
      → IsLane r
      → contents (record r { ring = update r.ring r.head v }) ≡ contents r
  contents-slot r v lane =
      window_away r.ring v (held r) r.tail r.head lane.tail_in (ground arith) (ground arith)

  pub contents-head :
      (r : RingBuffer T)
      → IsLane r
      → after m r.head ≢ r.tail
      → contents (record r { head = after m r.head }) ≡ contents r ++ (r.ring r.head ∷ [])
  contents-head r lane ne =
      ap (λ n. window r.ring r.tail n) grown
      ∙ window_snoc r.ring (held r) r.tail r.head lane.tail_in (ground arith) (ground arith)
    where
      grown : held (record r { head = after m r.head }) ≡ suc (held r)
      grown = ground arith

  pub length-contents : (r : RingBuffer T) → length (contents r) ≡ held r
  length-contents r = length-window r.ring r.tail (held r)

  pub held_full : (r : RingBuffer T) → IsLane r → after m r.head ≡ r.tail → held r + 1 ≡ m
  held_full r v e = ground arith

  pub held_room : (r : RingBuffer T) → IsLane r → after m r.head ≢ r.tail → held r + 1 < m
  held_room r v e = ground arith

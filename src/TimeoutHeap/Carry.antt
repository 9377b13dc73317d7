-- ===== src/TimeoutHeap/Carry.antt =====
-- The walk of `heap_insert` from the root to the target index, which swaps the carried thread with
-- every later one it meets.
use st_win.Prelude.{
  ℕ, ◌/◌, ◌≤◌, ◌<◌, ◌≡◌, ◌≢◌, ◌↔◌, ◌⊎◌, inl, inr, sym, ◌∙◌, arith, ltb, update, eq-cases,
  Bool-cases,
}
use st_win.TimeoutHeap.{Addr, Heap, Walk, read, displace, insert_swap}
use st_win.TimeoutHeap.Layout.{
  Layout, slot, Hangs, Fresh, read-slot, displace-Layout, at_inj, write-due, write-sleepq_size,
  slot-update, Hangs-update,
}

-- No thread is due before its parent.
abbrev pub Ordered : (Addr → ℕ) → (ℕ → Addr) → Type 0
Ordered due at = (i : ℕ) → 2 ≤ i → at i ≢ 0 → due (at (i / 2)) ≤ due (at i)

-- The indices 1 to `n` are in use, and no other.
pub record Sized (at : ℕ → Addr) (n : ℕ) : Type 0 where
  pub filled : (i : ℕ) → 0 < i → i ≤ n → at i ≢ 0
  pub free : (i : ℕ) → n < i → at i ≡ 0

abbrev pub In : (ℕ → Addr) → Addr → Type 0
In at a = (i : ℕ) × (at i ≡ a)

-- `a` is in the heap or carried.
abbrev pub Held : (ℕ → Addr) → Addr → Addr → Type 0
Held at x a = In at a ⊎ (a ≡ x)

pub Held-swap : (at : ℕ → Addr) (k : ℕ) (x a : Addr) → Held at x a ↔ Held (update at k x) (at k) a
Held-swap at k x a = (go, back)
  where
    go : Held at x a → Held (update at k x) (at k) a
    go (inl (i, e)) = elim (eq-cases k i) [
      | inl same ↦ inr (ground arith)
      | inr d ↦ inl (i, ground arith)
    ]
    go (inr e) = inl (k, ground arith)

    back : Held (update at k x) (at k) a → Held at x a
    back (inl (i, e)) = elim (eq-cases k i) [
      | inl same ↦ inr (ground arith)
      | inr d ↦ inl (i, ground arith)
    ]
    back (inr e) = inl (k, ground arith)

-- The state of the walk, against the layout `at₀` and the thread `x₀` that it began with.
pub record Walking (h₀ : Heap) (n : ℕ) (at₀ : ℕ → Addr) (x₀ : Addr) (w : Walk) (at : ℕ → Addr)
    : Type 0 where
  pub lay : Layout w.heap at
  pub sized : Sized at n
  pub carried : w.thread ≢ 0
  pub fresh : Fresh at w.thread
  pub here : w.p ≡ slot at w.index
  pub hangs : Hangs at w.index
  pub same_due : (a : Addr) → w.heap.due a ≡ h₀.due a
  pub same_size : w.heap.sleepq_size ≡ h₀.sleepq_size
  pub ordered : Ordered h₀.due at
  pub below : 2 ≤ w.index → h₀.due (at (w.index / 2)) ≤ h₀.due w.thread
  pub kept : (i : ℕ) → w.index ≤ i → at i ≡ at₀ i
  pub held : (a : Addr) → Held at₀ x₀ a ↔ Held at w.thread a

-- Between the swap and the descent: the carried thread is not due before the one at the index.
pub record Swapped (h₀ : Heap) (n : ℕ) (at₀ : ℕ → Addr) (x₀ : Addr) (w : Walk) (at : ℕ → Addr)
    : Type 0 where
  pub lay : Layout w.heap at
  pub sized : Sized at n
  pub carried : w.thread ≢ 0
  pub fresh : Fresh at w.thread
  pub here : w.p ≡ slot at w.index
  pub hangs : Hangs at w.index
  pub same_due : (a : Addr) → w.heap.due a ≡ h₀.due a
  pub same_size : w.heap.sleepq_size ≡ h₀.sleepq_size
  pub ordered : Ordered h₀.due at
  pub after : h₀.due (at w.index) ≤ h₀.due w.thread
  pub kept : (i : ℕ) → w.index < i → at i ≡ at₀ i
  pub held : (a : Addr) → Held at₀ x₀ a ↔ Held at w.thread a

module _ {h₀ : Heap} {n : ℕ} {at₀ : ℕ → Addr} {x₀ : Addr} {w : Walk} {at : ℕ → Addr}
    (s : Walking h₀ n at₀ x₀ w at) (ne : at w.index ≢ 0) where
  abbrev k : ℕ
  k = w.index

  abbrev t : Addr
  t = at k

  found : read w.heap w.p ≡ at k
  found = ground (arith, s.here, read-slot s.lay k s.hangs)

  Hangs-pos : 0 < k
  Hangs-pos = ground (arith, s.hangs)

  abbrev at' : ℕ → Addr
  at' = update at k w.thread

  Ordered-swap : h₀.due w.thread < h₀.due t → Ordered h₀.due at'
  Ordered-swap lt i two d = elim (eq-cases i k) [
    | inl e ↦ ground (arith, s.below, Hangs-pos)
    | inr i_ne ↦ elim (eq-cases (i / 2) k) [
      | inl e ↦ ground (arith, s.ordered i)
      | inr p_ne ↦ ground (arith, s.ordered i)
    ]
  ]

  Sized-swap : Sized at' n
  Sized-swap = record {
    filled = λ i p q. ground (arith, s.sized.filled i, s.carried);
    free = λ i p. ground (arith, s.sized.free i);
  }

  Fresh-swap : Fresh at' t
  Fresh-swap i e = elim (eq-cases i k) [
    | inl same ↦ s.fresh k (ground arith)
    | inr d ↦ d (at_inj s.lay i k (ground arith) (ground arith))
  ]

  displaced : Layout (displace w.heap w.thread t w.p k) at'
  displaced = rw s.here (displace-Layout s.lay s.carried s.fresh k s.hangs ne)

  pub insert_swap-Swapped : (at' : ℕ → Addr) × Swapped h₀ n at₀ x₀ (insert_swap w) at'
  unfolding insert_swap
  insert_swap-Swapped = elim (Bool-cases (ltb (w.heap.due w.thread) (w.heap.due (at k)))) [
    | inl lt ↦ (
      at',
      rw (found, lt)
          (record {
            lay = displaced;
            sized = Sized-swap;
            carried = ne;
            fresh = Fresh-swap;
            here = s.here ∙ sym (slot-update at k w.thread s.hangs);
            hangs = Hangs-update at k w.thread s.hangs;
            same_due = λ a. rw write-due (s.same_due a);
            same_size = rw write-sleepq_size s.same_size;
            ordered = Ordered-swap (ground (arith, s.same_due w.thread, s.same_due (at k)));
            after = ground (arith, s.same_due w.thread, s.same_due (at k));
            kept = λ i lt. ground (arith, s.kept i);
            held = λ a. (
              (λ m. (Held-swap at k w.thread a).0 ((s.held a).0 m)),
              (λ m. (s.held a).1 ((Held-swap at k w.thread a).1 m)),
            );
          }),
    )
    | inr ge ↦ (
      at,
      rw (found, ge)
          (record {
            lay = s.lay;
            sized = s.sized;
            carried = s.carried;
            fresh = s.fresh;
            here = s.here;
            hangs = s.hangs;
            same_due = s.same_due;
            same_size = s.same_size;
            ordered = s.ordered;
            after = ground (arith, s.same_due w.thread, s.same_due (at k));
            kept = λ i lt. s.kept i (omega arith);
            held = s.held;
          }),
    )
  ]

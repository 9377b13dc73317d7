-- ===== src/TimeoutHeap/Cut.antt =====
-- `heap_delete`: the last thread is taken out of the tree.
use st_win.Prelude.{
  ℕ, zero, suc, ◌-◌, ◌/◌, ◌<◌, ◌≡◌, ◌≢◌, ◌↔◌, inl, inr, refl, sym, ◌∙◌, false, arith, ◌==◌,
  if◌then◌else◌, update, eq-cases,
}
use st_win.TimeoutHeap.{
  Addr, Heap, top, left_of, right_of, read, write, last_slot, shift_right, test_bit, unlink,
  bits_of,
}
use st_win.TimeoutHeap.Layout.{
  Layout, slot, Hangs, Fresh, at_inj, read-slot, write-left, write-right, write-root,
  write-heap_index,
}
use st_win.TimeoutHeap.Carry.{Ordered, Sized, In, Held, Held-swap}
use st_win.TimeoutHeap.Descend.{bits_loop-top, shift_right-le}
use st_win.TimeoutHeap.Insert.{IsHeap}

module _ {h : Heap} {n : ℕ} {at : ℕ → Addr} (lay : Layout h at) (sized : Sized at n) where
  last_slot-below :
      (r i : ℕ) → Hangs at i → i ≡ shift_right n r → last_slot r n h (slot at i) ≡ slot at n
  unfolding last_slot shift_right
  last_slot-below zero i hangs e = rw e
  last_slot-below (suc bit) i hangs e =
      let j = shift_right n bit in
      let pos : 0 < i = ground (arith, hangs) in
      let full : at j ≢ 0 = sized.filled j (omega arith) (shift_right-le n bit) in
      let hangs' : Hangs at j =
        inr (omega arith, rw (← e) (sized.filled i pos (omega (arith, shift_right-le n bit)))) in
      let there : read h (slot at j) ≡ at j = read-slot lay j hangs' in
      let q : (if test_bit n bit then right_of (at i) else left_of (at i)) ≡ slot at j =
        unfold slot in ground arith in
      let go : (read h (slot at j) == 0) ≡ false = ground arith in
      rw (read-slot lay i hangs, q, go) (last_slot-below bit j hangs' refl)

  -- The loop finds the slot of the last thread.
  pub last_slot-slot : 0 < n → last_slot (bits_of n - 1) n h top ≡ slot at n
  last_slot-slot pos =
      let (b, e, one) = bits_loop-top n n pos (omega arith) in
      let rounds : bits_of n - 1 ≡ b = omega (arith, e) in
      let root : top ≡ slot at 1 = unfold slot in refl in
      rw (rounds, root) (last_slot-below b 1 (inl refl) (sym one))

-- The last thread is unlinked and the size counted down.
abbrev pub cut : Heap → (ℕ → Addr) → Heap
cut h at = let g = write h (slot at h.sleepq_size) 0 in record g { sleepq_size = g.sleepq_size - 1 }

module _ {h : Heap} {at : ℕ → Addr} (is : IsHeap h at) (pos : 0 < h.sleepq_size) where
  abbrev n : ℕ
  n = h.sleepq_size

  abbrev at₁ : ℕ → Addr
  at₁ = update at n 0

  pub Hangs-last : Hangs at n
  Hangs-last = elim (eq-cases n 1) [
    | inl one ↦ inl one
    | inr more ↦ inr (omega arith, is.sized.filled (n / 2) (omega arith) (omega arith))
  ]

  pub cut-Layout : Layout (cut h at) at₁
  cut-Layout = record {
    root = write-root is.lay 0 n Hangs-last;
    null = ground (arith, is.lay.null);
    left = λ i d. ground (arith, write-left is.lay 0 n Hangs-last i);
    right = λ i d. ground (arith, write-right is.lay 0 n Hangs-last i);
    index = λ i d. rw write-heap_index (ground (arith, is.lay.index i));
  }

  pub cut-Sized : Sized at₁ (n - 1)
  cut-Sized = record {
    filled = λ i p q. ground (arith, is.sized.filled i);
    free = λ i p. ground (arith, is.sized.free i);
  }

  pub cut-Ordered : Ordered h.due at₁
  cut-Ordered i two d = ground (arith, is.ordered i, is.sized.free i)

  pub cut-Fresh : Fresh at₁ (at n)
  cut-Fresh i e = ground (arith, at_inj is.lay i n, is.sized.filled n)

  pub last_ne : at n ≢ 0
  last_ne = is.sized.filled n pos (omega arith)

  pub In-last : (a : Addr) → Held at₁ (at n) a ↔ In at a
  In-last a = ((λ m. go ((Held-swap at n 0 a).1 m)), (λ m. (Held-swap at n 0 a).0 (inl m)))
    where
      go : Held at 0 a → In at a
      go (inl m) = m
      go (inr e) = (0, ground (arith, is.lay.null))

-- With `z` held beside `at'`, what is in `at'` is what `at` holds without `z`.
pub Without-In :
    {at : ℕ → Addr} {z : Addr} (at' : ℕ → Addr)
    → Fresh at' z
    → (a : Addr) → (Held at' z a ↔ In at a)
    → In at' a ↔ (In at a × (a ≢ z))
Without-In {at} {z} at' fresh a held =
    ((λ m. (held.0 (inl m), apart m)), (λ m. back (held.1 m.0) m.1))
  where
    apart : In at' a → a ≢ z
    apart (i, e) same = fresh i (e ∙ same)

    back : Held at' z a → a ≢ z → In at' a
    back (inl m) d = m
    back (inr e) d = absurd (d e)

-- A thread outside the heap may be changed.
pub unlink-Layout :
    {h : Heap} {at : ℕ → Addr} (z : Addr) → Fresh at z → Layout h at → Layout (unlink h z) at
unfolding unlink
unlink-Layout z fresh lay = record {
  root = lay.root;
  null = lay.null;
  left = λ i d. ground (arith, fresh i, lay.left i);
  right = λ i d. ground (arith, fresh i, lay.right i);
  index = λ i d. lay.index i d;
}

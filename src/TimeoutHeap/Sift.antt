-- ===== src/TimeoutHeap/Sift.antt =====
-- The sift of `heap_delete`: a thread that may be due after its children goes down until it is not.
use st_win.Prelude.{
  ℕ, zero, suc, ◌+◌, ◌*◌, ◌/◌, ◌≤◌, ◌<◌, ◌≡◌, ◌≢◌, ◌↔◌, ◌⊎◌, inl, inr, refl, sym, subst, ◌∙◌, true,
  false, arith, ltb, ◌==◌, if◌then◌else◌, update_self, eq-cases, Bool-cases,
}
use st_win.TimeoutHeap.{Addr, Heap, Slot, sift_swap, sift_down, younger}
use st_win.TimeoutHeap.Layout.{Layout, slot, Hangs, write-due, write-sleepq_size}
use st_win.TimeoutHeap.Carry.{Ordered, Sized, In}
use st_win.TimeoutHeap.Swap.{
  exchange, swap_left-Layout, swap_right-Layout, relinked_left, relinked_right,
}

-- The thread at `k` may be due after its children; its parent is due before all of them.
pub record Sifting (due : Addr → ℕ) (n : ℕ) (h : Heap) (k : ℕ) (at : ℕ → Addr) : Type 0 where
  pub lay : Layout h at
  pub sized : Sized at n
  pub hangs : Hangs at k
  pub ne : at k ≢ 0
  pub same_due : (a : Addr) → h.due a ≡ due a
  pub same_size : h.sleepq_size ≡ n
  pub apart : (i : ℕ) → 2 ≤ i → at i ≢ 0 → i / 2 ≢ k → due (at (i / 2)) ≤ due (at i)
  pub grand : (i : ℕ) → 2 ≤ i → at i ≢ 0 → i / 2 ≡ k → 2 ≤ k → due (at (k / 2)) ≤ due (at i)

-- `c` is a child of `k` that is due before or with the other child.
pub record Younger (due : Addr → ℕ) (at : ℕ → Addr) (k c : ℕ) : Type 0 where
  pub child : (c ≡ k * 2) ⊎ (c ≡ k * 2 + 1)
  pub there : at c ≢ 0
  pub first : (i : ℕ) → i / 2 ≡ k → at i ≢ 0 → due (at c) ≤ due (at i)

-- One round has been made, and the thread stands at `c`.
record Swapped (h : Heap) (at : ℕ → Addr) (k c : ℕ) (r : Heap × Slot) : Type 0 where
  lay : Layout r.0 (exchange at k c)
  here : r.1 ≡ slot (exchange at k c) c
  due : r.0.due ≡ h.due
  size : r.0.sleepq_size ≡ h.sleepq_size

module _ {due : Addr → ℕ} {n : ℕ} {h : Heap} {k : ℕ} {at : ℕ → Addr}
    (s : Sifting due n h k at) where
  up : 0 < k
  up = ground (arith, s.hangs)

  half-cases : (i : ℕ) → i / 2 ≡ k → (i ≡ k * 2) ⊎ (i ≡ k * 2 + 1)
  half-cases i e = elim (eq-cases i (k * 2)) [ inl even ↦ inl even | inr odd ↦ inr (omega arith) ]

  younger_lem : at (k * 2) ≢ 0 → (c : ℕ) × Younger due at k c × (younger h (at k) ≡ at c)
  unfolding younger
  younger_lem l_ne =
      let l = s.lay.left k s.ne in
      let r = s.lay.right k s.ne in
      elim (eq-cases (at (k * 2 + 1)) 0) [
        | inl none ↦ (
          k * 2,
          record {
            child = inl refl;
            there = l_ne;
            first = λ i e d. ground (arith, half-cases i e);
          },
          ground arith,
        )
        | inr some ↦ elim (Bool-cases (ltb (h.due (at (k * 2))) (h.due (at (k * 2 + 1))))) [
          | inl lt ↦ (
            k * 2,
            record {
              child = inl refl;
              there = l_ne;
              first = λ i e d.
                  ground
                    (arith, half-cases i e, s.same_due (at (k * 2)), s.same_due (at (k * 2 + 1)));
            },
            ground arith,
          )
          | inr ge ↦ (
            k * 2 + 1,
            record {
              child = inr refl;
              there = some;
              first = λ i e d.
                  ground
                    (arith, half-cases i e, s.same_due (at (k * 2)), s.same_due (at (k * 2 + 1)));
            },
            ground arith,
          )
        ]
      ]

  swap_lem_left :
      at (k * 2) ≢ 0 → Swapped h at k (k * 2) (sift_swap h (at k) (slot at k) (at (k * 2)))
  unfolding sift_swap slot
  swap_lem_left ne = record {
    lay = swap_left-Layout s.lay k s.hangs s.ne ne;
    here = rw (relinked_left s.lay k s.hangs s.ne ne) (ground (arith, up));
    due = rw (relinked_left s.lay k s.hangs s.ne ne) (write-due _ _ _);
    size = rw (relinked_left s.lay k s.hangs s.ne ne) (write-sleepq_size _ _ _);
  }

  swap_lem_right :
      at (k * 2 + 1) ≢ 0
      → Swapped h at k (k * 2 + 1) (sift_swap h (at k) (slot at k) (at (k * 2 + 1)))
  unfolding sift_swap slot
  swap_lem_right ne = record {
    lay = swap_right-Layout s.lay k s.hangs s.ne ne;
    here = rw (relinked_right s.lay k s.hangs s.ne ne) (ground (arith, up));
    due = rw (relinked_right s.lay k s.hangs s.ne ne) (write-due _ _ _);
    size = rw (relinked_right s.lay k s.hangs s.ne ne) (write-sleepq_size _ _ _);
  }

  swap_lem : {c : ℕ} → Younger due at k c → Swapped h at k c (sift_swap h (at k) (slot at k) (at c))
  swap_lem {c} y = go y.child y.there
    where
      go :
          (c ≡ k * 2) ⊎ (c ≡ k * 2 + 1)
          → at c ≢ 0
          → Swapped h at k c (sift_swap h (at k) (slot at k) (at c))
      go (inl e) ne =
          subst (λ c. at c ≢ 0 → Swapped h at k c (sift_swap h (at k) (slot at k) (at c))) (sym e)
            swap_lem_left ne
      go (inr e) ne =
          subst (λ c. at c ≢ 0 → Swapped h at k c (sift_swap h (at k) (slot at k) (at c))) (sym e)
            swap_lem_right ne

  Sized-exchange : {c : ℕ} → Younger due at k c → Sized (exchange at k c) n
  Sized-exchange {c} y = record {
    filled = λ i p q. ground (arith, s.sized.filled i, s.ne, y.there);
    free = λ i p. ground (arith, s.sized.free i, s.sized.free k, s.sized.free c, s.ne, y.there);
  }

  swap-Sifting :
      {c : ℕ} {r : Heap × Slot}
      → Younger due at k c
      → Swapped h at k c r
      → due (at c) < due (at k)
      → Sifting due n r.0 c (exchange at k c)
  swap-Sifting {c} y w lt = record {
    lay = w.lay;
    sized = Sized-exchange y;
    hangs = inr (ground (arith, y.child, up), ground (arith, y.child, up, s.ne, y.there));
    ne = ground (arith, s.ne);
    same_due = λ a. rw w.due (s.same_due a);
    same_size = w.size ∙ s.same_size;
    apart = λ i two d far. elim (eq-cases i c) [
      | inl e ↦ ground (arith, y.child, up)
      | inr i_ne ↦ elim (eq-cases i k) [
        | inl e ↦ ground (arith, s.grand c, y.child, up, y.there)
        | inr j_ne ↦ ground (arith, s.apart i, y.first i)
      ]
    ];
    grand = λ i two d far le. ground (arith, s.apart i, y.child, up);
  }

  Ordered-leaf : at (k * 2) ≡ 0 → Ordered due at
  Ordered-leaf none i two d =
      ground (arith, s.apart i, half-cases i, s.sized.filled (k * 2), s.sized.free i, up)

  Ordered-stop : {c : ℕ} → Younger due at k c → due (at k) ≤ due (at c) → Ordered due at
  Ordered-stop {c} y le i two d = ground (arith, s.apart i, y.first i)

-- The heap is in order again, and holds the threads that it held.
pub record Sifted (due : Addr → ℕ) (n : ℕ) (at : ℕ → Addr) (h : Heap) (at' : ℕ → Addr)
    : Type 0 where
  pub lay : Layout h at'
  pub sized : Sized at' n
  pub ordered : Ordered due at'
  pub members : (a : Addr) → In at' a ↔ In at a
  pub same_due : (a : Addr) → h.due a ≡ due a
  pub same_size : h.sleepq_size ≡ n

In-exchange : (at : ℕ → Addr) (k c : ℕ) (a : Addr) → In (exchange at k c) a ↔ In at a
In-exchange at k c a = (go, back)
  where
    go : In (exchange at k c) a → In at a
    go (i, e) = elim (eq-cases i c) [
      | inl p ↦ (k, ground arith)
      | inr p ↦ elim (eq-cases i k) [ inl q ↦ (c, ground arith) | inr q ↦ (i, ground arith) ]
    ]

    back : In at a → In (exchange at k c) a
    back (i, e) = elim (eq-cases i c) [
      | inl p ↦ elim (eq-cases k c) [ inl q ↦ (k, ground arith) | inr q ↦ (k, ground arith) ]
      | inr p ↦ elim (eq-cases i k) [ inl q ↦ (c, ground arith) | inr q ↦ (i, ground arith) ]
    ]

sift_down-suc :
    (fuel : ℕ) (h : Heap) (t : Addr) (p : Slot)
    → sift_down (suc fuel) h t p ≡ (
        let y = younger h t in
        let swapped = sift_swap h t p y in
        if h.left t == 0
        then h
        else if ltb (h.due y) (h.due t)
        then sift_down fuel swapped.0 t swapped.1
        else h)
unfolding sift_down
sift_down-suc fuel h t p = refl

module _ {due : Addr → ℕ} {n : ℕ} where
  settled :
      {h : Heap} {k : ℕ} {at : ℕ → Addr}
      → Sifting due n h k at
      → Ordered due at
      → Sifted due n at h at
  settled s o = record {
    lay = s.lay;
    sized = s.sized;
    ordered = o;
    members = λ a. ((λ m. m), (λ m. m));
    same_due = s.same_due;
    same_size = s.same_size;
  }

  resume :
      {h : Heap} {at at' : ℕ → Addr} (k c : ℕ)
      → Sifted due n (exchange at k c) h at'
      → Sifted due n at h at'
  resume {at} k c r = record {
    lay = r.lay;
    sized = r.sized;
    ordered = r.ordered;
    members = λ a. (
      (λ m. (In-exchange at k c a).0 ((r.members a).0 m)),
      (λ m. (r.members a).1 ((In-exchange at k c a).1 m)),
    );
    same_due = r.same_due;
    same_size = r.same_size;
  }

  -- The sift ends with the heap in order, given more fuel than the levels below `k`.
  pub sift_down-Sifted :
      (fuel k : ℕ) (h : Heap) (at : ℕ → Addr)
      → Sifting due n h k at
      → n < k + fuel
      → (at' : ℕ → Addr) × Sifted due n at (sift_down fuel h (at k) (slot at k)) at'
  sift_down-Sifted zero k h at s enough = absurd (s.ne (s.sized.free k (omega arith)))
  sift_down-Sifted (suc fuel) k h at s enough = rw sift_down-suc (elim (eq-cases (at (k * 2)) 0) [
    | inl none ↦
        let stop : (h.left (at k) == 0) ≡ true = ground (arith, s.lay.left k s.ne) in
        rw stop (at, settled s (Ordered-leaf s none))
    | inr some ↦
        let on : (h.left (at k) == 0) ≡ false = ground (arith, s.lay.left k s.ne) in
        let (c, y, e) = younger_lem s some in
        rw (on, e)
          (elim (Bool-cases (ltb (h.due (at c)) (h.due (at k)))) [
            | inl lt ↦
                let w = swap_lem s y in
                let s' =
                  swap-Sifting s y w (ground (arith, s.same_due (at c), s.same_due (at k))) in
                let (at', r) =
                  sift_down-Sifted fuel c _ (exchange at k c) s' (ground (arith, y.child, up s)) in
                rw lt (at', resume k c (rw (update_self _ c (at k), ← w.here) at r))
            | inr ge ↦ rw ge (
              at,
              settled s (Ordered-stop s y (ground (arith, s.same_due (at c), s.same_due (at k)))),
            )
          ])
  ])

-- ===== src/TimeoutHeap/Minimum.antt =====
-- The thread at the root is due first.
use st_win.Prelude.{ℕ, zero, suc, ◌/◌, ◌≤◌, ◌<◌, ◌≡◌, ◌≢◌, inl, inr, arith, sym, ◌∙◌, eq-cases}
use st_win.TimeoutHeap.{Addr, Heap}
use st_win.TimeoutHeap.Carry.{In}
use st_win.TimeoutHeap.Insert.{IsHeap}

module _ {h : Heap} {at : ℕ → Addr} (is : IsHeap h at) where
  root-le-below : (m i : ℕ) → 0 < i → i ≤ h.sleepq_size → i < m → h.due (at 1) ≤ h.due (at i)
  root-le-below zero i pos within lt = absurd (omega arith)
  root-le-below (suc m) i pos within lt = elim (eq-cases i 1) [
    | inl one ↦ ground arith
    | inr more ↦ ground (arith, is.ordered i, is.sized.filled i, root-le-below m (i / 2))
  ]

  pub root-le : (a : Addr) → a ≢ 0 → In at a → h.due h.sleep_q ≤ h.due a
  root-le a ne (i, e) =
      ground (arith, is.lay.root, is.lay.null, is.sized.free i, root-le-below (suc i) i)

  pub root-ne : (a : Addr) → a ≢ 0 → In at a → h.sleep_q ≢ 0
  root-ne a ne (i, e) = ground (arith, is.lay.root, is.lay.null, is.sized.free i, is.sized.filled 1)

  -- The same for a copy `due` of the times and `t` of the root.
  module _ (due : Addr → ℕ) (same_due : (a : Addr) → h.due a ≡ due a) (t : Addr)
      (first : h.sleep_q ≡ t) where
    pub due-first : (a : Addr) → a ≢ 0 → In at a → (t ≢ 0) × (due t ≤ due a)
    due-first a ne m = ground (arith, first, root-ne a ne m, root-le a ne m, same_due t, same_due a)

    pub root-In : (a : Addr) → t ≡ a → In at a
    root-In a e = (1, sym is.lay.root ∙ first ∙ e)

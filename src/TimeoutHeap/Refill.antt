-- ===== src/TimeoutHeap/Refill.antt =====
-- The end of `heap_delete`: the carried thread takes over the children of the deleted one and
-- goes down to its level.
use st_win.Prelude.{
  ℕ, ◌+◌, ◌/◌, ◌<◌, ◌≡◌, ◌≢◌, ◌↔◌, inl, inr, sym, subst₂, ◌∙◌, arith, update, update_self,
}
use st_win.TimeoutHeap.{Addr, Heap, Slot, Walk, read, write, place_leaf, sift_down}
use st_win.TimeoutHeap.Layout.{
  Layout, slot, Fresh, at_inj, relink, write-due, write-sleepq_size, slot-update, Hangs-update,
}
use st_win.TimeoutHeap.Carry.{In, Held, Held-swap, Walking}
use st_win.TimeoutHeap.Sift.{Sifting, Sifted, sift_down-Sifted}

-- The carried thread as a leaf, where `heap_insert` leaves it.
abbrev pub leafed : Walk → Heap
leafed w =
    place_leaf (record w.heap { heap_index = update w.heap.heap_index w.thread w.index }) w.p
      w.thread

-- It takes over the children of `z`.
abbrev pub hung : Walk → Addr → Heap
hung w z =
    let g = leafed w in
    record g {
      left = update g.left w.thread (g.left z);
      right = update g.right w.thread (g.right z);
    }

module _ {h₀ : Heap} {n : ℕ} {at₀ : ℕ → Addr} {x₀ : Addr} {w : Walk} {at : ℕ → Addr}
    (s : Walking h₀ n at₀ x₀ w at) (full : at w.index ≢ 0) (size : h₀.sleepq_size ≡ n) where
  abbrev k : ℕ
  k = w.index

  abbrev y : Addr
  y = w.thread

  abbrev z : Addr
  z = at k

  abbrev at' : ℕ → Addr
  at' = update at k y

  pub read-leafed : read (leafed w) w.p ≡ y
  unfolding read place_leaf write slot
  read-leafed = rw s.here (ground (arith, s.fresh (k / 2)))

  hung-Layout : Layout (hung w z) at'
  unfolding place_leaf write slot
  hung-Layout = rw s.here (
      relink s.lay s.carried s.fresh k s.hangs _ (ground arith) (λ a d. ground arith)
        (λ a d. ground arith) (λ a d. ground arith)
        (ground (arith, s.lay.left k full, s.fresh k, at_inj s.lay k (k / 2) full, s.hangs))
        (ground (arith, s.lay.right k full, s.fresh k, at_inj s.lay k (k / 2) full, s.hangs))
        (ground arith))

  hung-due : (a : Addr) → (hung w z).due a ≡ h₀.due a
  unfolding place_leaf
  hung-due a = rw write-due (s.same_due a)

  hung-size : (hung w z).sleepq_size ≡ n
  unfolding place_leaf
  hung-size = rw write-sleepq_size (s.same_size ∙ size)

  hung-Sifting : Sifting h₀.due n (hung w z) k at'
  hung-Sifting = record {
    lay = hung-Layout;
    sized = record {
      filled = λ i p q. ground (arith, s.sized.filled i, s.carried);
      free = λ i p. ground (arith, s.sized.free i);
    };
    hangs = Hangs-update at k y s.hangs;
    ne = ground (arith, s.carried);
    same_due = hung-due;
    same_size = hung-size;
    apart = λ i two d far. ground (arith, s.ordered i, s.below);
    grand = λ i two d e le. ground (arith, s.ordered i, s.ordered k);
  }

  pub gone : Fresh at' z
  gone i e = ground (arith, s.fresh k, at_inj s.lay i k)

  pub refilled :
      (at'' : ℕ → Addr) × Sifted h₀.due n at'
        (sift_down (hung w z).sleepq_size (hung w z) y w.p)
        at''
  refilled =
      let lift = λ (t : Addr) (p : Slot).
        (at'' : ℕ → Addr) × Sifted h₀.due n at' (sift_down (hung w z).sleepq_size (hung w z) t p)
          at'' in
      let enough : n < k + (hung w z).sleepq_size = ground (arith, hung-size, s.hangs) in
      subst₂ lift (update_self at k y) (slot-update at k y s.hangs ∙ sym s.here)
        (sift_down-Sifted (hung w z).sleepq_size k (hung w z) at' hung-Sifting enough)

  pub members : (a : Addr) → In at' a ↔ (Held at₀ x₀ a × (a ≢ z))
  members a = (
    (λ m. ((s.held a).1 ((Held-swap at k y a).1 (inl m)), (λ e. gone m.0 (m.1 ∙ e)))),
    (λ m. back ((Held-swap at k y a).0 ((s.held a).0 m.0)) m.1),
  )
    where
      back : Held at' z a → a ≢ z → In at' a
      back (inl m) d = m
      back (inr e) d = absurd (d e)

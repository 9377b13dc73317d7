-- ===== src/TimeoutHeap/Swap.antt =====
-- One round of the sift of `heap_delete`: a thread changes places with one of its children.
use st_win.Prelude.{
  ℕ, ◌+◌, ◌*◌, ◌/◌, ◌<◌, ◌≡◌, ◌≢◌, inl, inr, refl, sym, true, false, arith, ◌==◌, update, eq-cases,
}
use st_win.TimeoutHeap.{Addr, Heap, left_of, right_of, write, relink_child, sift_swap}
use st_win.TimeoutHeap.Layout.{
  Layout, slot, Hangs, at_inj, write-left, write-right, write-root, write-heap_index,
}

-- The threads at `k` and at its child `c` change places.
abbrev pub exchange : (ℕ → Addr) → ℕ → ℕ → ℕ → Addr
exchange at k c = update (update at k (at c)) c (at k)

module _ {h : Heap} {at : ℕ → Addr} (lay : Layout h at) (k : ℕ) (hangs : Hangs at k)
    (ne : at k ≢ 0) where
  up : 0 < k
  up = ground (arith, hangs)

  parent_ne : at (k / 2) ≢ at k
  parent_ne e = elim (eq-cases (at (k / 2)) 0) [
    | inl none ↦ ne (ground arith)
    | inr some ↦ absurd (omega (arith, at_inj lay (k / 2) k some e, up))
  ]

  module _ (c : ℕ) (half : c / 2 ≡ k) (y_ne : at c ≢ 0) where
    y_apart : at c ≢ at k
    y_apart e = absurd (omega (arith, at_inj lay c k y_ne e, up))

    y_above : at (k / 2) ≢ at c
    y_above e = absurd (omega (arith, at_inj lay c (k / 2) y_ne (sym e), up))

    abbrev lifted : Heap
    lifted = write h (slot at k) (at c)

    exchange-Layout :
        (h' : Heap)
        → h'.sleep_q ≡ lifted.sleep_q
        → ((a : Addr) → a ≢ at k → a ≢ at c → h'.left a ≡ lifted.left a)
        → ((a : Addr) → a ≢ at k → a ≢ at c → h'.right a ≡ lifted.right a)
        → ((a : Addr) → a ≢ at k → a ≢ at c → h'.heap_index a ≡ h.heap_index a)
        → h'.left (at c) ≡ exchange at k c (k * 2)
        → h'.right (at c) ≡ exchange at k c (k * 2 + 1)
        → h'.left (at k) ≡ at (c * 2)
        → h'.right (at k) ≡ at (c * 2 + 1)
        → h'.heap_index (at c) ≡ k
        → h'.heap_index (at k) ≡ c
        → Layout h' (exchange at k c)
    exchange-Layout h' root l r ix ly ry lt rt iy it = record {
      root = ground (arith, write-root lay (at c) k hangs, up);
      null = ground (arith, lay.null, up);
      left = λ i d. elim (eq-cases i c) [
        | inl e ↦ ground (arith, up)
        | inr i_ne ↦ elim (eq-cases i k) [
          | inl e ↦ ground (arith, up)
          | inr j_ne ↦
              ground
                (arith, l (at i), write-left lay (at c) k hangs i, at_inj lay i k, at_inj lay i c)
        ]
      ];
      right = λ i d. elim (eq-cases i c) [
        | inl e ↦ ground (arith, up)
        | inr i_ne ↦ elim (eq-cases i k) [
          | inl e ↦ ground (arith, up)
          | inr j_ne ↦
              ground
                (arith, r (at i), write-right lay (at c) k hangs i, at_inj lay i k, at_inj lay i c)
        ]
      ];
      index = λ i d. elim (eq-cases i c) [
        | inl e ↦ ground arith
        | inr i_ne ↦ elim (eq-cases i k) [
          | inl e ↦ ground arith
          | inr j_ne ↦ ground (arith, ix (at i), lay.index i, at_inj lay i k, at_inj lay i c)
        ]
      ];
    }

  -- The younger child is the left one.
  module _ (y_ne : at (k * 2) ≢ 0) where
    half_left : k * 2 / 2 ≡ k
    half_left = omega arith

    pub relinked_left :
        let g = write h (slot at k) (at (k * 2)) in
        relink_child h (at k) (slot at k) (at (k * 2)) ≡ (
          record g {
            left = update g.left (at (k * 2)) (at k);
            right = update g.right (at (k * 2)) (g.right (at k));
          },
          left_of (at (k * 2)),
        )
    unfolding relink_child
    relinked_left =
        let took : (at (k * 2) == (write h (slot at k) (at (k * 2))).left (at k)) ≡ true =
          unfold write slot in ground (arith, lay.left k ne, parent_ne, hangs) in
        rw took

    pub swap_left-Layout :
        Layout (sift_swap h (at k) (slot at k) (at (k * 2))).0 (exchange at k (k * 2))
    unfolding sift_swap
    swap_left-Layout =
        let apart = y_apart (k * 2) half_left y_ne in
        let gl = write-left lay (at (k * 2)) k hangs k ne in
        let gr = write-right lay (at (k * 2)) k hangs k ne in
        rw (relinked_left, write-heap_index)
          (exchange-Layout (k * 2) half_left y_ne _ refl (λ a d e. ground arith)
            (λ a d e. ground arith) (λ a d e. ground arith) (ground (arith, up))
            (ground (arith, up, gr)) (ground (arith, lay.left (k * 2) y_ne))
            (ground (arith, lay.right (k * 2) y_ne)) (ground (arith, lay.index k ne))
            (ground (arith, lay.index (k * 2) y_ne)))

  -- The younger child is the right one.
  module _ (z_ne : at (k * 2 + 1) ≢ 0) where
    half_right : (k * 2 + 1) / 2 ≡ k
    half_right = omega arith

    pub relinked_right :
        let g = write h (slot at k) (at (k * 2 + 1)) in
        relink_child h (at k) (slot at k) (at (k * 2 + 1)) ≡ (
          record g {
            left = update g.left (at (k * 2 + 1)) (g.left (at k));
            right = update g.right (at (k * 2 + 1)) (at k);
          },
          right_of (at (k * 2 + 1)),
        )
    unfolding relink_child
    relinked_right =
        let other : (at (k * 2 + 1) == (write h (slot at k) (at (k * 2 + 1))).left (at k)) ≡ false =
          ground (
            arith,
            write-left lay (at (k * 2 + 1)) k hangs k ne,
            at_inj lay (k * 2 + 1) (k * 2) z_ne,
            up,
          ) in
        rw other

    pub swap_right-Layout :
        Layout (sift_swap h (at k) (slot at k) (at (k * 2 + 1))).0 (exchange at k (k * 2 + 1))
    unfolding sift_swap
    swap_right-Layout =
        let apart = y_apart (k * 2 + 1) half_right z_ne in
        let gl = write-left lay (at (k * 2 + 1)) k hangs k ne in
        let gr = write-right lay (at (k * 2 + 1)) k hangs k ne in
        rw (relinked_right, write-heap_index)
          (exchange-Layout (k * 2 + 1) half_right z_ne _ refl (λ a d e. ground arith)
            (λ a d e. ground arith) (λ a d e. ground arith) (ground (arith, up, gl))
            (ground (arith, up)) (ground (arith, lay.left (k * 2 + 1) z_ne))
            (ground (arith, lay.right (k * 2 + 1) z_ne)) (ground (arith, lay.index k ne))
            (ground (arith, lay.index (k * 2 + 1) z_ne)))

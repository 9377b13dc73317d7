-- ===== src/TimeoutHeap/Delete.antt =====
-- `heap_delete`: the last thread is put in place of the deleted one.
use st_win.Prelude.{
  ℕ, ◌+◌, ◌-◌, ◌≤◌, ◌<◌, ◌≡◌, ◌≢◌, ◌↔◌, inl, inr, refl, sym, ap, subst, ◌∙◌, true, false, arith,
  ◌==◌, if◌then◌else◌, update, update_self, eq-cases,
}
use st_win.TimeoutHeap.{
  Addr, Heap, Walk, read, write, unlink, refill, given_index, sift_down, heap_delete,
}
use st_win.TimeoutHeap.Layout.{
  Layout, slot, Fresh, at_inj, read-slot, write-due, write-sleepq_size, write-heap_index,
}
use st_win.TimeoutHeap.Carry.{Ordered, In, Walking}
use st_win.TimeoutHeap.Insert.{
  IsHeap, walked, walked_leaf, walked-Walking, heap_insert-below, Ordered-due,
}
use st_win.TimeoutHeap.Sift.{Sifted}
use st_win.TimeoutHeap.Refill
use st_win.TimeoutHeap.Refill.{hung, leafed}
use st_win.TimeoutHeap.Cut.{
  last_slot-slot, cut, Hangs-last, cut-Layout, cut-Sized, cut-Ordered, cut-Fresh, last_ne, In-last,
  Without-In, unlink-Layout,
}

-- The heap `h'` holds what `h` holds, but for `z`; no due time has changed.
pub record Deleted (h : Heap) (at : ℕ → Addr) (z : Addr) (h' : Heap) (at' : ℕ → Addr) : Type 0 where
  pub heap : IsHeap h' at'
  pub members : (a : Addr) → In at' a ↔ (In at a × (a ≢ z))
  pub same_due : (a : Addr) → h'.due a ≡ h.due a
  pub size : h'.sleepq_size + 1 ≡ h.sleepq_size

module _ {h : Heap} {at : ℕ → Addr} (is : IsHeap h at) (pos : 0 < h.sleepq_size) where
  delete_last :
      (at' : ℕ → Addr) × Deleted h at (at h.sleepq_size) (unlink (cut h at) (at h.sleepq_size)) at'
  unfolding unlink
  delete_last =
      let z = at h.sleepq_size in
      let at₁ = update at h.sleepq_size 0 in
      let due : (a : Addr) → (unlink (cut h at) z).due a ≡ h.due a = λ a. rw write-due refl in
      let size : (write h (slot at h.sleepq_size) 0).sleepq_size ≡ h.sleepq_size =
        write-sleepq_size _ _ _ in
      (
        update at h.sleepq_size 0,
        record {
          heap = record {
            lay = unlink-Layout z (cut-Fresh is pos) (cut-Layout is pos);
            sized = rw size (cut-Sized is pos);
            ordered = Ordered-due _ _ _ due (cut-Ordered is pos);
          };
          members = λ a. Without-In at₁ (cut-Fresh is pos) a (In-last is pos a);
          same_due = due;
          size = omega (arith, size);
        },
      )

-- `refill`, where `heap_insert` returns the slot of a thread.
refill-below :
    (h : Heap) (z t : Addr)
    → t ≢ 0
    → h.sleep_q ≢ 0
    → (let w = walked (given_index h z t) t in
        read (leafed w) w.p ≡ w.thread
        → w.thread ≢ 0
        → refill h z t ≡ unlink (sift_down (hung w z).sleepq_size (hung w z) w.thread w.p) z)
unfolding refill walked_leaf
refill-below h z t t_some root there y_ne =
    let t_ne : (t == 0) ≡ false = ground arith in
    let go : ((walked (given_index h z t) t).thread == 0) ≡ false = ground arith in
    rw (t_ne, heap_insert-below (given_index h z t) t t_some root, there, go)

-- The last thread is to take the place of the one at `k`.
module _ {h : Heap} {at : ℕ → Addr} (is : IsHeap h at) (k : ℕ) (k_pos : 0 < k)
    (inner : k < h.sleepq_size) where
  abbrev n' : ℕ
  n' = h.sleepq_size

  abbrev t : Addr
  t = at n'

  abbrev z : Addr
  z = at k

  n_pos : 0 < n'
  n_pos = omega arith

  z_ne : z ≢ 0
  z_ne = is.sized.filled k k_pos (omega arith)

  t_ne : t ≢ 0
  t_ne = last_ne is n_pos

  z_index : (cut h at).heap_index z ≡ k
  z_index = rw write-heap_index (is.lay.index k z_ne)

  -- `t->heap_index = thread->heap_index`
  abbrev h₁ : Heap
  h₁ = given_index (cut h at) z t

  h₁-Layout : Layout h₁ (update at n' 0)
  h₁-Layout =
      let lay = cut-Layout is n_pos in
      let fresh = cut-Fresh is n_pos in
      record {
        root = lay.root;
        null = lay.null;
        left = lay.left;
        right = lay.right;
        index = λ i d. ground (arith, lay.index i d, fresh i);
      }

  h₁-Ordered : Ordered h₁.due (update at n' 0)
  h₁-Ordered = rw write-due (cut-Ordered is n_pos)

  carried :
      (at₂ : ℕ → Addr) × Walking h₁ (n' - 1) (update at n' 0) t (walked h₁ t) at₂
      × ((walked h₁ t).index ≡ h₁.heap_index t)
  carried =
      walked-Walking h₁-Layout (cut-Sized is n_pos) h₁-Ordered (cut-Fresh is n_pos) t_ne
        (rw (update_self, z_index) k_pos) (rw (update_self, z_index) (omega arith))

  carried_index : (walked h₁ t).index ≡ k
  carried_index = carried.2 ∙ rw (update_self, z_index) refl

  -- Index `k` still holds the thread to delete when the walk comes to it.
  at_k : carried.0 k ≡ z
  at_k = carried.1.kept k (ground (arith, carried_index)) ∙ ground arith

  z_kept : carried.0 (walked h₁ t).index ≡ z
  z_kept = rw carried_index at_k

  finish :
      (at₂ : ℕ → Addr) {w : Walk} (s : Walking h₁ (n' - 1) (update at n' 0) t w at₂)
      (full : at₂ w.index ≢ 0) (size : h₁.sleepq_size ≡ n' - 1)
      → at₂ w.index ≡ z
      → {h' : Heap} (at'' : ℕ → Addr) → Sifted h₁.due (n' - 1) (update at₂ w.index w.thread) h' at''
      → Deleted h at z (unlink h' z) at''
  unfolding unlink
  finish at₂ {w} s full size same {h'} at'' r =
      let due : (a : Addr) → h'.due a ≡ h.due a =
        λ a. r.same_due a ∙ ap (λ (f : Addr → ℕ). f a) (write-due _ _ _) in
      let fresh : Fresh at'' z =
        λ i e. let m = (r.members z).0 (i, e) in Refill.gone s full size m.0 (m.1 ∙ sym same) in
      record {
        heap = record {
          lay = unlink-Layout z fresh r.lay;
          sized = rw r.same_size r.sized;
          ordered = Ordered-due _ _ _ r.same_due r.ordered;
        };
        members = λ a.
            let swapped = Refill.members s full size a in
            (
              (λ m.
                  let (u, d) = swapped.0 ((r.members a).0 m) in
                  ((In-last is n_pos a).0 u, (λ e. d (e ∙ sym same)))),
              (λ m.
                  (r.members a).1 (swapped.1 ((In-last is n_pos a).1 m.0, (λ e. m.1 (e ∙ same))))),
            );
        same_due = due;
        size = omega (arith, r.same_size, n_pos);
      }

  delete_inner : (at' : ℕ → Addr) × Deleted h at z (refill (cut h at) z t) at'
  delete_inner =
      let w = walked h₁ t in
      let (at₂, s, e) = carried in
      let full : at₂ (walked h₁ t).index ≢ 0 = ground (arith, z_kept, z_ne) in
      let size : (write h (slot at n') 0).sleepq_size - 1 ≡ n' - 1 = rw write-sleepq_size in
      let root : (cut h at).sleep_q ≢ 0 = ground (arith, h₁-Layout.root, is.sized.filled 1) in
      let (at'', r) = Refill.refilled s full size in
      let there = Refill.read-leafed s full size in
      rw (refill-below (cut h at) z t t_ne root there s.carried) (
        subst
          (λ q.
            (at' : ℕ → Addr) × Deleted h at z
              (unlink (sift_down (hung w q).sleepq_size (hung w q) w.thread w.p) z) at')
          z_kept (at'', finish at₂ s full size z_kept at'' r))

module _ {h : Heap} {at : ℕ → Addr} (is : IsHeap h at) (k : ℕ) (k_pos : 0 < k)
    (within : k ≤ h.sleepq_size) where
  last_found : heap_delete h (at k) ≡ (
      if at h.sleepq_size == at k
      then unlink (cut h at) (at k)
      else refill (cut h at) (at k) (at h.sleepq_size))
  unfolding heap_delete
  last_found =
      let pos : 0 < h.sleepq_size = omega arith in
      rw (last_slot-slot is.lay is.sized pos, read-slot is.lay h.sleepq_size (Hangs-last is pos))

  heap_delete-at : (at' : ℕ → Addr) × Deleted h at (at k) (heap_delete h (at k)) at'
  heap_delete-at = elim (eq-cases k h.sleepq_size) [
    | inl last ↦
        let same : (at h.sleepq_size == at k) ≡ true = ground arith in
        rw (last_found, same, last) (delete_last is (omega arith))
    | inr inner ↦
        let other : (at h.sleepq_size == at k) ≡ false =
          ground (arith, at_inj is.lay k h.sleepq_size (is.sized.filled k k_pos within)) in
        rw (last_found, other) (delete_inner is k k_pos (omega arith))
  ]

-- `heap_delete` of a thread that is in a well-formed heap keeps the heap well formed, takes exactly
-- that thread out, counts the size down and changes no due time.
pub heap_delete-IsHeap :
    {h : Heap} {at : ℕ → Addr}
    → IsHeap h at
    → (z : Addr) → z ≢ 0
    → In at z
    → (at' : ℕ → Addr) × Deleted h at z (heap_delete h z) at'
heap_delete-IsHeap {h} {at} is z z_ne (k, e) =
    let k_pos : 0 < k = ground (arith, is.lay.null) in
    let within : k ≤ h.sleepq_size = ground (arith, is.sized.free k) in
    subst (λ z. (at' : ℕ → Addr) × Deleted h at z (heap_delete h z) at') e
      (heap_delete-at is k k_pos within)

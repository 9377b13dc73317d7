-- ===== src/TimeoutHeap/Layout.antt =====
-- How the pointers of the timeout heap lay out a complete binary tree: `at i` is the thread at
-- index `i`, the children of `i` stand at `2 i` and `2 i + 1`, and every index past the size is null.
use st_win.Prelude.{
  ℕ, ◌+◌, ◌*◌, ◌/◌, ◌%◌, ◌≤◌, ◌≡◌, ◌≢◌, ◌⊎◌, inl, inr, refl, arith, ◌==◌, if◌then◌else◌, update,
  eq-cases,
}
use st_win.TimeoutHeap.{Addr, Heap, Slot, top, left_of, right_of, read, write, displace}

pub record Layout (h : Heap) (at : ℕ → Addr) : Type 0 where
  pub root : h.sleep_q ≡ at 1
  pub null : at 0 ≡ 0
  pub left : (i : ℕ) → at i ≢ 0 → h.left (at i) ≡ at (i * 2)
  pub right : (i : ℕ) → at i ≢ 0 → h.right (at i) ≡ at (i * 2 + 1)
  pub index : (i : ℕ) → at i ≢ 0 → h.heap_index (at i) ≡ i

-- The slot that holds the thread at index `i`.
unfoldable pub slot : (ℕ → Addr) → ℕ → Slot
slot at i =
    if i == 1 then top else if i % 2 == 0 then left_of (at (i / 2)) else right_of (at (i / 2))

-- Index `i` is the root, or its parent is in the heap.
abbrev pub Hangs : (ℕ → Addr) → ℕ → Type 0
Hangs at i = (i ≡ 1) ⊎ ((2 ≤ i) × (at (i / 2) ≢ 0))

-- No index holds `x`.
abbrev pub Fresh : (ℕ → Addr) → Addr → Type 0
Fresh at x = (i : ℕ) → at i ≢ x

pub write-due : (h : Heap) (p : Slot) (x : Addr) → (write h p x).due ≡ h.due
unfolding write
write-due h top x = refl
write-due h (left_of t) x = refl
write-due h (right_of t) x = refl

pub write-sleepq_size : (h : Heap) (p : Slot) (x : Addr) → (write h p x).sleepq_size ≡ h.sleepq_size
unfolding write
write-sleepq_size h top x = refl
write-sleepq_size h (left_of t) x = refl
write-sleepq_size h (right_of t) x = refl

pub write-heap_index : (h : Heap) (p : Slot) (x : Addr) → (write h p x).heap_index ≡ h.heap_index
unfolding write
write-heap_index h top x = refl
write-heap_index h (left_of t) x = refl
write-heap_index h (right_of t) x = refl

-- What stands at an index does not move its slot.
pub slot-update :
    (at : ℕ → Addr) (k : ℕ) (x : Addr) → Hangs at k → slot (update at k x) k ≡ slot at k
unfolding slot
slot-update at k x hangs = ground arith

pub Hangs-update : (at : ℕ → Addr) (k : ℕ) (x : Addr) → Hangs at k → Hangs (update at k x) k
Hangs-update at k x (inl e) = inl e
Hangs-update at k x (inr (two, ne)) = inr (two, ground arith)

module _ {h : Heap} {at : ℕ → Addr} (lay : Layout h at) where
  pub at_inj : (i j : ℕ) → at i ≢ 0 → at i ≡ at j → i ≡ j
  at_inj i j ne e = ground (arith, lay.index i, lay.index j)

  pub read-slot : (i : ℕ) → Hangs at i → read h (slot at i) ≡ at i
  unfolding read slot
  read-slot i (inl e) = ground (arith, lay.root)
  read-slot i (inr (two, ne)) = elim (eq-cases (i % 2) 0) [
    | inl even ↦ let e : i / 2 * 2 ≡ i = omega arith in ground (arith, lay.left (i / 2) ne)
    | inr odd ↦ let e : i / 2 * 2 + 1 ≡ i = omega arith in ground (arith, lay.right (i / 2) ne)
  ]

-- Writing `x` into slot `i` of a layout, seen at every other slot.
module _ {h : Heap} {at : ℕ → Addr} (lay : Layout h at) (x : Addr) (k : ℕ)
    (hangs : Hangs at k) where
  pub write-left : (i : ℕ) → at i ≢ 0 → (write h (slot at k) x).left (at i) ≡ update at k x (i * 2)
  unfolding write slot
  write-left i ne = ground (arith, lay.left i ne, at_inj lay i (k / 2) ne)

  pub write-right :
      (i : ℕ) → at i ≢ 0 → (write h (slot at k) x).right (at i) ≡ update at k x (i * 2 + 1)
  unfolding write slot
  write-right i ne = ground (arith, lay.right i ne, at_inj lay i (k / 2) ne)

  pub write-root : (write h (slot at k) x).sleep_q ≡ update at k x 1
  unfolding write slot
  write-root = ground (arith, lay.root)

module _ {h : Heap} {at : ℕ → Addr} (lay : Layout h at) {x : Addr} (x_ne : x ≢ 0)
    (fresh : Fresh at x) (k : ℕ) (hangs : Hangs at k) where
  abbrev after : Heap
  after = write h (slot at k) x

  -- `x` takes index `k`: what is left to set are the fields of `x` itself.
  pub relink :
      (h' : Heap)
      → h'.sleep_q ≡ after.sleep_q
      → ((a : Addr) → a ≢ x → h'.left a ≡ after.left a)
      → ((a : Addr) → a ≢ x → h'.right a ≡ after.right a)
      → ((a : Addr) → a ≢ x → h'.heap_index a ≡ h.heap_index a)
      → h'.left x ≡ at (k * 2)
      → h'.right x ≡ at (k * 2 + 1)
      → h'.heap_index x ≡ k
      → Layout h' (update at k x)
  relink h' root l r ix lx rx kx = record {
    root = ground (arith, write-root lay x k hangs);
    null = ground (arith, lay.null);
    left = λ i ne. elim (eq-cases i k) [
      | inl e ↦ ground arith
      | inr d ↦ ground (arith, l (at i), write-left lay x k hangs i, fresh i)
    ];
    right = λ i ne. elim (eq-cases i k) [
      | inl e ↦ ground arith
      | inr d ↦ ground (arith, r (at i), write-right lay x k hangs i, fresh i)
    ];
    index = λ i ne. elim (eq-cases i k) [
      | inl e ↦ ground arith
      | inr d ↦ ground (arith, ix (at i), lay.index i, fresh i)
    ];
  }

  pub displace-Layout : at k ≢ 0 → Layout (displace h x (at k) (slot at k) k) (update at k x)
  unfolding displace write slot
  displace-Layout ne =
      relink _ (ground arith) (λ a d. ground arith) (λ a d. ground arith) (λ a d. ground arith)
        (ground (arith, lay.left k ne, fresh (k / 2)))
        (ground (arith, lay.right k ne, fresh (k / 2))) (ground arith)

-- ===== src/TimeoutHeap/Insert.antt =====
-- `heap_insert`: what the whole walk does, and the result.
use st_win.Prelude.{
  ℕ, ◌+◌, ◌-◌, ◌*◌, ◌/◌, ◌≤◌, ◌<◌, ◌≡◌, ◌≢◌, ◌↔◌, inl, inr, refl, sym, ◌∙◌, true, false, arith,
  ◌==◌, update, eq-cases, some,
}
use st_win.TimeoutHeap.{Addr, Heap, Walk, top, write, insert_walk, place_leaf, heap_insert, bits_of}
use st_win.TimeoutHeap.Layout.{Layout, slot, Fresh, relink, write-due, write-sleepq_size}
use st_win.TimeoutHeap.Carry.{Ordered, Sized, In, Held, Walking}
use st_win.TimeoutHeap.Descend.{bits_loop-top, insert_walk-Walking}

abbrev pub start : Heap → Addr → Walk
start h x = record { heap = h; thread = x; p = top; index = 1 }

-- The state in which the walk to the index of `x` ends.
unfoldable pub walked : Heap → Addr → Walk
walked h x = insert_walk (bits_of (h.heap_index x) - 1) (h.heap_index x) (start h x)

unfoldable pub walked_leaf : Heap → Addr → Heap
unfolding walked
walked_leaf h x =
    let w = walked h x in
    place_leaf (record w.heap { heap_index = update w.heap.heap_index w.thread w.index }) w.p
      w.thread

pub heap_insert-top :
    (h : Heap) (x : Addr) → x ≢ 0 → h.sleep_q ≡ 0 → heap_insert h x ≡ (place_leaf h top x, some top)
unfolding heap_insert
heap_insert-top h x ne none =
    let no_root : (h.sleep_q == 0) ≡ true = ground arith in
    let no_x : (x == 0) ≡ false = ground arith in rw (no_x, no_root) refl

pub heap_insert-below :
    (h : Heap) (x : Addr)
    → x ≢ 0
    → h.sleep_q ≢ 0
    → heap_insert h x ≡ (walked_leaf h x, some (walked h x).p)
unfolding heap_insert walked_leaf
heap_insert-below h x ne some_root =
    let root : (h.sleep_q == 0) ≡ false = ground arith in
    let no_x : (x == 0) ≡ false = ground arith in rw (no_x, root) refl

-- The whole walk, from the root to the index that the thread was given.
module _ {h : Heap} {n : ℕ} {at : ℕ → Addr} {x : Addr} (lay : Layout h at) (sized : Sized at n)
    (ordered : Ordered h.due at) (fresh : Fresh at x) (x_ne : x ≢ 0) where
  pub start-Walking : Walking h n at x (start h x) at
  unfolding slot
  start-Walking = record {
    lay = lay;
    sized = sized;
    carried = x_ne;
    fresh = fresh;
    here = refl;
    hangs = inl refl;
    same_due = λ a. refl;
    same_size = refl;
    ordered = ordered;
    below = ground arith;
    kept = λ i le. refl;
    held = λ a. ((λ m. m), (λ m. m));
  }

  pub walked-Walking :
      0 < h.heap_index x
      → h.heap_index x ≤ n + 1
      → (at' : ℕ → Addr) × Walking h n at x (walked h x) at' × ((walked h x).index ≡ h.heap_index x)
  unfolding walked
  walked-Walking pos fits =
      let target = h.heap_index x in
      let (b, e, one) = bits_loop-top target target pos (omega arith) in
      let rounds : bits_of target - 1 ≡ b = omega (arith, e) in
      rw rounds (insert_walk-Walking target fits pos b (start h x) at start-Walking (sym one))

-- The carried thread is put into its slot; `next` are its children there.
module _ {h₀ : Heap} {n : ℕ} {at₀ : ℕ → Addr} {x₀ : Addr} {w : Walk} {at : ℕ → Addr}
    (s : Walking h₀ n at₀ x₀ w at) where
  abbrev at' : ℕ → Addr
  at' = update at w.index w.thread

  pub place-Layout :
      (ix : Addr → ℕ)
      → ix w.thread ≡ w.index
      → ((a : Addr) → a ≢ w.thread → ix a ≡ w.heap.heap_index a)
      → at (w.index * 2) ≡ 0
      → at (w.index * 2 + 1) ≡ 0
      → Layout (place_leaf (record w.heap { heap_index = ix }) w.p w.thread) at'
  unfolding place_leaf write slot
  place-Layout ix here others l r = rw s.here (
      relink s.lay s.carried s.fresh w.index s.hangs _ (ground arith) (λ a d. ground arith)
        (λ a d. ground arith) (λ a d. ground (arith, others a d)) (ground arith) (ground arith)
        (ground arith))

  pub place-Ordered : at w.index ≡ 0 → Ordered h₀.due at'
  place-Ordered none i two ne =
      let up : 0 < w.index = ground (arith, s.hangs) in
      let past : n < w.index = ground (arith, s.sized.filled w.index) in
      elim (eq-cases w.index i) [
        | inl same ↦ ground (arith, s.below)
        | inr d ↦ ground (arith, s.ordered i, s.sized.free i)
      ]

  pub place-Sized : w.index ≡ n + 1 → Sized at' (n + 1)
  place-Sized e = record {
    filled = λ i p q. elim (eq-cases w.index i) [
      | inl same ↦ ground (arith, s.carried)
      | inr d ↦ ground (arith, s.sized.filled i)
    ];
    free = λ i p. ground (arith, s.sized.free i);
  }

  pub place-In : at w.index ≡ 0 → (a : Addr) → In at' a ↔ Held at₀ x₀ a
  place-In none a = ((λ m. (s.held a).1 (go m)), (λ m. back ((s.held a).0 m)))
    where
      go : In at' a → Held at w.thread a
      go (i, e) = elim (eq-cases w.index i) [
        | inl same ↦ inr (ground arith)
        | inr d ↦ inl (i, ground arith)
      ]

      back : Held at w.thread a → In at' a
      back (inr e) = (w.index, ground arith)
      back (inl (i, e)) = elim (eq-cases w.index i) [
        | inl same ↦ (0, ground (arith, s.lay.null, s.hangs))
        | inr d ↦ (i, ground arith)
      ]

-- `at` shows that the heap is well formed: a complete tree of the recorded size, in heap order.
pub record IsHeap (h : Heap) (at : ℕ → Addr) : Type 0 where
  pub lay : Layout h at
  pub sized : Sized at h.sleepq_size
  pub ordered : Ordered h.due at

pub Ordered-due :
    (f g : Addr → ℕ) (at : ℕ → Addr) → ((a : Addr) → f a ≡ g a) → Ordered g at → Ordered f at
Ordered-due f g at same o i two ne = ground (arith, same (at (i / 2)), same (at i), o i two ne)

-- The heap `h'` holds what `h` holds, and `x`; no due time has changed.
pub record Inserted (h : Heap) (at : ℕ → Addr) (x : Addr) (h' : Heap) (at' : ℕ → Addr)
    : Type 0 where
  pub heap : IsHeap h' at'
  pub members : (a : Addr) → In at' a ↔ Held at x a
  pub same_due : (a : Addr) → h'.due a ≡ h.due a

-- `heap_insert` on a heap of `n` threads, called as `_st_add_sleep_q` calls it: the size is counted
-- up already, and the new thread is given the first free index.
module _ {h : Heap} {n : ℕ} {at : ℕ → Addr} {x : Addr} (lay : Layout h at) (sized : Sized at n)
    (ordered : Ordered h.due at) (fresh : Fresh at x) (x_ne : x ≢ 0) (size : h.sleepq_size ≡ n + 1)
    (given : h.heap_index x ≡ n + 1) where
  placed :
      (w : Walk) {at₁ : ℕ → Addr} (ix : Addr → ℕ)
      → Walking h n at x w at₁
      → w.index ≡ n + 1
      → ix w.thread ≡ w.index
      → ((a : Addr) → a ≢ w.thread → ix a ≡ w.heap.heap_index a)
      → (at' : ℕ → Addr) × Inserted h at x
          (place_leaf (record w.heap { heap_index = ix }) w.p w.thread)
          at'
  unfolding place_leaf
  placed w {at₁} ix s e here others =
      let nothing : at₁ w.index ≡ 0 = s.sized.free _ (omega arith) in
      let due : (a : Addr)
          → (write (record w.heap { heap_index = ix }) w.p w.thread).due a ≡ h.due a =
        λ a. rw write-due (s.same_due a) in
      (
        update at₁ w.index w.thread,
        record {
          heap = record {
            lay =
                place-Layout s ix here others (s.sized.free _ (omega arith))
                  (s.sized.free _ (omega arith));
            sized = rw (write-sleepq_size, s.same_size, size) (place-Sized s e);
            ordered = Ordered-due _ _ _ due (place-Ordered s nothing);
          };
          members = place-In s nothing;
          same_due = due;
        },
      )

  -- `heap_insert` of a thread that is not in a well-formed heap of `n` threads, with the size
  -- counted up and the thread given the index `n + 1`, keeps the heap well formed, adds exactly
  -- that thread and changes no due time.
  pub heap_insert-IsHeap : (at' : ℕ → Addr) × Inserted h at x (heap_insert h x).0 at'
  unfolding walked_leaf
  heap_insert-IsHeap = elim (eq-cases n 0) [
    | inl none ↦ rw (heap_insert-top h x x_ne (lay.root ∙ sized.free 1 (omega arith))) (
        placed (start h x) h.heap_index (start-Walking lay sized ordered fresh x_ne) (omega arith)
          (omega arith) (λ a d. refl))
    | inr more ↦
        let (at₁, s, e) = walked-Walking lay sized ordered fresh x_ne (omega arith) (omega arith) in
        let root : h.sleep_q ≢ 0 = ground (arith, lay.root, sized.filled 1) in
        rw (heap_insert-below h x x_ne root)
          (placed (walked h x) _ s (e ∙ given) (ground arith) (λ a d. ground arith))
  ]

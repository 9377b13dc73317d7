-- ===== src/TimeoutHeap.antt =====
-- The timeout heap of sched.c: `heap_insert`, `heap_delete` and the sleep queue operations.
-- Memory is one function for each field of `struct _st_thread`; the null pointer is 0.
pub mod Layout
pub mod Carry
pub mod Descend
pub mod Insert
pub mod Swap
pub mod Sift
pub mod Refill
pub mod Cut
pub mod Delete
pub mod Minimum
use st_win.Prelude.{
  ℕ, zero, suc, ◌+◌, ◌-◌, ◌*◌, ◌/◌, ◌%◌, Bool, Option, none, some, ltb, ◌==◌, if◌then◌else◌, update,
}

abbrev pub Addr : Type 0
Addr = ℕ

-- `_ST_SLEEPQ`, `_ST_SLEEPQ_SIZE`, and the fields of the threads that serve the heap.
pub record Heap : Type 0 where
  pub sleep_q : Addr
  pub sleepq_size : ℕ
  pub due : Addr → ℕ
  pub left : Addr → Addr
  pub right : Addr → Addr
  pub heap_index : Addr → ℕ

-- What a `_st_thread_t**` of this code can point at: `&_ST_SLEEPQ`, `&t->left` or `&t->right`.
pub data Slot : Type 0 where
  top : Slot
  left_of : Addr → Slot
  right_of : Addr → Slot

-- `*p`
unfoldable pub read : Heap → Slot → Addr
read h top = h.sleep_q
read h (left_of t) = h.left t
read h (right_of t) = h.right t

-- `*p = x`
unfoldable pub write : Heap → Slot → Addr → Heap
write h top x = record h { sleep_q = x }
write h (left_of t) x = record h { left = update h.left t x }
write h (right_of t) x = record h { right = update h.right t x }

-- `while (s) { s >>= 1; bits++; }`, where `s` rounds are enough.
unfoldable pub bits_loop : ℕ → ℕ → ℕ → ℕ
bits_loop zero s bits = bits
bits_loop (suc fuel) s bits =
    let rest = bits_loop fuel (s / 2) (bits + 1) in if s == 0 then bits else rest

abbrev pub bits_of : ℕ → ℕ
bits_of s = bits_loop s s 0

-- `s >> k`; the test `s & (1 << bit)` reads the last digit of `s >> bit`.
unfoldable pub shift_right : ℕ → ℕ → ℕ
shift_right s zero = s
shift_right s (suc k) = shift_right s k / 2

abbrev pub test_bit : ℕ → ℕ → Bool
test_bit s bit = shift_right s bit % 2 == 1

-- The variables of the loop of `heap_insert`.
pub record Walk : Type 0 where
  pub heap : Heap
  pub thread : Addr
  pub p : Slot
  pub index : ℕ

-- `thread` takes the place of `t`, which stands at `*p`.
unfoldable pub displace : Heap → Addr → Addr → Slot → ℕ → Heap
unfolding write
displace h thread t p index =
    let h₁ = record h {
      left = update h.left thread (h.left t);
      right = update h.right thread (h.right t);
    } in
    let h₂ = write h₁ p thread in record h₂ { heap_index = update h₂.heap_index thread index }

unfoldable pub insert_swap : Walk → Walk
unfolding read displace
insert_swap w =
    let t = read w.heap w.p in
    if ltb (w.heap.due w.thread) (w.heap.due t)
    then record w { heap = displace w.heap w.thread t w.p w.index; thread = t }
    else w

unfoldable pub insert_descend : ℕ → ℕ → Walk → Walk
unfolding read
insert_descend target bit w =
    let t = read w.heap w.p in
    if test_bit target bit
    then record w { p = right_of t; index = w.index * 2 + 1 }
    else record w { p = left_of t; index = w.index * 2 }

-- `for (bit = rounds - 1; bit >= 0; bit--)`, with its `break`.
unfoldable pub insert_walk : ℕ → ℕ → Walk → Walk
unfolding insert_swap insert_descend
insert_walk zero target w = w
insert_walk (suc bit) target w =
    let w' = insert_descend target bit (insert_swap w) in
    let rest = insert_walk bit target w' in if read w'.heap w'.p == 0 then w' else rest

-- `*p = thread; thread->left = thread->right = NULL;`
unfoldable pub place_leaf : Heap → Slot → Addr → Heap
unfolding write
place_leaf h p thread =
    let h₁ = write h p thread in
    record h₁ { left = update h₁.left thread 0; right = update h₁.right thread 0 }

unfoldable pub heap_insert : Heap → Addr → Heap × Option Slot
unfolding insert_walk place_leaf bits_loop
heap_insert h thread =
    if thread == 0
    then (h, none)
    else if h.sleep_q == 0
    then (place_leaf h top thread, some top)
    else let target = h.heap_index thread in
      let w =
        insert_walk (bits_of target - 1) target
          (record { heap = h; thread = thread; p = top; index = 1 }) in
      let h₁ = record w.heap { heap_index = update w.heap.heap_index w.thread w.index } in
      (place_leaf h₁ w.p w.thread, some w.p)

-- The loop of `heap_delete` that finds the slot of the last thread, with its two `break`s.
unfoldable pub last_slot : ℕ → ℕ → Heap → Slot → Slot
unfolding read
last_slot zero size h p = p
last_slot (suc bit) size h p =
    let t = read h p in
    let q = if test_bit size bit then right_of t else left_of t in
    let rest = last_slot bit size h q in if read h q == 0 then p else rest

-- `y`, the younger child of `t`.
unfoldable pub younger : Heap → Addr → Addr
younger h t =
    if h.right t == 0
    then h.left t
    else if ltb (h.due (h.left t)) (h.due (h.right t))
    then h.left t
    else h.right t

-- `*p = y`, and the links of `y` and `t` are exchanged.
unfoldable pub relink_child : Heap → Addr → Slot → Addr → Heap × Slot
unfolding write
relink_child h t p y =
    let h₁ = write h p y in
    if y == h₁.left t
    then (
      record h₁ { left = update h₁.left y t; right = update h₁.right y (h₁.right t) },
      left_of y,
    )
    else (
      record h₁ { left = update h₁.left y (h₁.left t); right = update h₁.right y t },
      right_of y,
    )

-- One round of the sift: `y` goes up, `t` goes down.
unfoldable pub sift_swap : Heap → Addr → Slot → Addr → Heap × Slot
unfolding relink_child
sift_swap h t p y =
    let tl = h.left y in
    let tr = h.right y in
    let (h₁, q) = relink_child h t p y in
    let h₂ = record h₁ { left = update h₁.left t tl; right = update h₁.right t tr } in
    let index_tmp = h₂.heap_index t in
    let ix = update h₂.heap_index t (h₂.heap_index y) in
    (record h₂ { heap_index = update ix y index_tmp }, q)

-- `for (;;)` of `heap_delete`; every round goes one level down, so the size is enough fuel.
unfoldable pub sift_down : ℕ → Heap → Addr → Slot → Heap
unfolding younger sift_swap
sift_down zero h t p = h
sift_down (suc fuel) h t p =
    let y = younger h t in
    let swapped = sift_swap h t p y in
    let rest = sift_down fuel swapped.0 t swapped.1 in
    if h.left t == 0 then h else if ltb (h.due y) (h.due t) then rest else h

-- `thread->left = thread->right = NULL;`
unfoldable pub unlink : Heap → Addr → Heap
unlink h thread = record h { left = update h.left thread 0; right = update h.right thread 0 }

-- `heap_delete` from the call of `heap_insert` on: the thread at the returned slot takes over the
-- children of the deleted one, and the heap order is established again.
unfoldable pub adopt : Addr → Heap → Option Slot → Heap
unfolding sift_down unlink read
adopt thread h none = h
adopt thread h (some p) =
    let t = read h p in
    let h₁ = record h {
      left = update h.left t (h.left thread);
      right = update h.right t (h.right thread);
    } in
    if t == 0 then h else unlink (sift_down h₁.sleepq_size h₁ t p) thread

abbrev pub given_index : Heap → Addr → Addr → Heap
given_index h thread t = record h { heap_index = update h.heap_index t (h.heap_index thread) }

-- What `heap_delete` does with `t`, the last thread, which it has taken out.
unfoldable pub refill : Heap → Addr → Addr → Heap
unfolding adopt
refill h thread t =
    let r = heap_insert (if t == 0 then h else given_index h thread t) t in adopt thread r.0 r.1

unfoldable pub heap_delete : Heap → Addr → Heap
unfolding last_slot read write bits_loop
heap_delete h thread =
    let p = last_slot (bits_of h.sleepq_size - 1) h.sleepq_size h top in
    let t = read h p in
    let cut = write h p 0 in
    let h₁ = record cut { sleepq_size = cut.sleepq_size - 1 } in
    if t == thread then unlink h₁ thread else refill h₁ thread t

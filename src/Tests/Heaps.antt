-- ===== src/Tests/Heaps.antt =====
-- The timeout heap at work: thread 9 joins two others, and thread 5 leaves.
use st_win.Prelude.{ℕ, ◌≡◌, refl, update, arith}
use st_win.TimeoutHeap.{Addr, Heap, heap_insert, heap_delete, shift_right, refill}
use st_win.TimeoutHeap.Layout.{Layout}
use st_win.TimeoutHeap.Insert.{Inserted, heap_insert-IsHeap}
use st_win.TimeoutHeap.Delete.{Deleted, heap_delete-IsHeap}
use st_win.Tests.{two_at, two_heap, two_heap-IsHeap}

-- `two_heap` when thread 9, due at 50, is about to be put in.
abbrev three_heap : Heap
three_heap = record two_heap {
  sleepq_size = 3;
  due = update two_heap.due 9 50;
  heap_index = update two_heap.heap_index 9 3;
}

three-Layout : Layout three_heap two_at
three-Layout = record {
  root = refl;
  null = refl;
  left = λ i ne. ground arith;
  right = λ i ne. ground arith;
  index = λ i ne. ground arith;
}

heap_insert-IsHeap_example :
    (at' : ℕ → Addr) × Inserted three_heap two_at 9 (heap_insert three_heap 9).0 at'
heap_insert-IsHeap_example =
    heap_insert-IsHeap {h = three_heap} {n = 2} {at = two_at} {x = 9} three-Layout
      two_heap-IsHeap.sized (λ i two ne. ground arith) (λ i e. ground arith) (ground arith) refl
      refl

inserted_root : (heap_insert three_heap 9).0.sleep_q ≡ 9
unfolding heap_insert shift_right
inserted_root = refl

heap_delete-IsHeap_example :
    (at' : ℕ → Addr) × Deleted two_heap two_at 5 (heap_delete two_heap 5) at'
heap_delete-IsHeap_example = heap_delete-IsHeap two_heap-IsHeap 5 (ground arith) (1, refl)

deleted_root : (heap_delete two_heap 5).sleep_q ≡ 7
unfolding heap_delete shift_right refill heap_insert
deleted_root = refl

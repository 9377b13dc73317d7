-- ===== src/Tests.antt =====
-- The states that the tests and examples run on: thread 3 runs, thread 5 is due at 100 and thread 7 at
-- 200; 5 waits on the condition variable 20, 7 sleeps.
mod Heaps
mod Scheduling
mod Waiting
mod Interleaving
mod Keys
mod Threads
mod Transfers
mod Polling
mod Lists
mod Caches
mod Names
mod Servers
mod Relays
use st_win.Prelude.{
  ℕ, ◌+◌, ◌*◌, ◌/◌, ◌≤◌, ◌<◌, ◌≡◌, ◌≢◌, ◌↔◌, refl, arith, ◌==◌, if◌then◌else◌, update, Bool, true,
  false, List, [], ◌∷◌, eq-cases, ◌⊎◌, inl, inr,
}
use st_win.Prelude.Int.{pos}
use st_win.TimeoutHeap.{Addr, Heap}
use st_win.TimeoutHeap.Carry.{In, Sized, Ordered}
use st_win.TimeoutHeap.Layout.{Layout}
use st_win.TimeoutHeap.Insert.{IsHeap}
use st_win.Vp.{State, running, cond_wait, sleeping, runnable, Vp, eok}
use st_win.Sched.Invariant.{Wf}

abbrev pub two_at : ℕ → Addr
two_at = update (update (λ i. 0) 1 5) 2 7

abbrev pub two_heap : Heap
two_heap = record {
  sleep_q = 5;
  sleepq_size = 2;
  due = update (update (λ a. 0) 5 100) 7 200;
  left = update (λ a. 0) 5 7;
  right = λ a. 0;
  heap_index = update (update (λ a. 0) 5 1) 7 2;
}

two-Layout : Layout two_heap two_at
two-Layout = record {
  root = refl;
  null = refl;
  left = λ i ne. ground arith;
  right = λ i ne. ground arith;
  index = λ i ne. ground arith;
}

pub two_heap-IsHeap : IsHeap two_heap two_at
two_heap-IsHeap = record {
  lay = two-Layout;
  sized = record { filled = λ i pos le. ground arith; free = λ i out. ground arith };
  ordered = λ i two ne. ground arith;
}

abbrev pub two_vp : Vp
two_vp = record {
  heap = two_heap;
  current = 3;
  active_count = pos 3;
  idle_thread = 1;
  last_clock = 50;
  pagesize = 4096;
  run_q = [];
  io_q = [];
  zombie_q = [];
  curr_time = 0;
  last_tset = 0;
  errno = eok;
  state = update (update (update (λ a. runnable) 3 running) 5 cond_wait) 7 sleeping;
  fl_primordial = λ a. false;
  fl_idle_thread = update (λ a. false) 1 true;
  fl_on_sleepq = update (update (λ a. false) 5 true) 7 true;
  fl_interrupt = λ a. false;
  fl_timedout = λ a. false;
  start = λ a. 0;
  arg = λ a. 0;
  retval = λ a. 0;
  stack = λ a. 0;
  term = λ a. 0;
  context = λ a. a + 1000;
  cond_q = update (λ a. []) 20 (5 ∷ []);
  owner = update (λ a. 0) 30 3;
  mutex_q = λ a. [];
  pds = λ a. [];
  poll_thread = λ a. 0;
  on_ioq = λ a. false;
}

pub two-In : (a : Addr) → a ≢ 0 → (two_vp.fl_on_sleepq a ≡ true) ↔ In two_at a
two-In a ne = (
  (λ e. elim (eq-cases a 5) [ inl five ↦ (1, ground arith) | inr other ↦ (2, ground arith) ]),
  λ m. ground (arith, m.1),
)

pub two_vp-Wf : Wf two_vp two_at
two_vp-Wf = record { heap = two_heap-IsHeap; flagged = two-In }

-- ===== src/Tests/Scheduling.antt =====
-- The sleep queue and the clock at work.
use st_win.Prelude.{ℕ, List}
use st_win.TimeoutHeap.{Addr}
use st_win.Sched.{vp_check_clock}
use st_win.Sched.Clock.{Expired, vp_check_clock-Expired}
use st_win.Tests.{two_at, two_heap-IsHeap, two_heap, two_vp}

vp_check_clock-Expired_example :
    (at' : ℕ → Addr) × (woken : List Addr) × Expired two_heap.due 150 two_vp two_at
      (vp_check_clock 150 0 two_vp)
      at'
      woken
vp_check_clock-Expired_example = vp_check_clock-Expired 150 0 two_vp two_at two_heap-IsHeap

-- ===== src/Steps.antt =====
-- The scheduler as a whole: the operations of sched.c and sync.c, cut where they switch fibers, as steps
-- on the virtual processor, and what every interleaving of them keeps. RunQueue is about the run queue,
-- Blocking has the steps that block the caller, Waking those that wake others and Switching
-- `_st_vp_schedule`.
mod RunQueue
mod Blocking
mod Waking
mod Switching
pub use RunQueue.{is_active, is_timed, Ready, Sane, Runs}
use st_win.Prelude.{ℕ, ◌≡◌, ◌≢◌, List}
use st_win.TimeoutHeap.{Addr}
use st_win.Vp.{Vp, Pollfd, runnable, set_state}
use st_win.Sched.{vp_check_clock, thread_interrupt, pick, resume}
use st_win.Sync.{
  fall_asleep, cond_enqueue, cond_leave, cond_signal, cond_broadcast, mutex_enqueue, mutex_leave,
  mutex_unlock,
}
use st_win.Event.Poll.{poll_enqueue}
use Blocking.{
  fall_asleep-Sane, cond_enqueue-Sane, mutex_enqueue-Sane, poll_enqueue-Sane, cond_leave-Sane,
  mutex_leave-Sane,
}
use Waking.{
  vp_check_clock-Sane, thread_interrupt-Sane, cond_signal-Sane, cond_broadcast-Sane,
  mutex_unlock-Sane,
}
use Switching.{schedule-Sane, idle_yields-Sane}

-- What the running thread does between two calls of `swapFiber`, and the switch itself.
pub data Step (vp : Vp) : Vp → Type 0 where
  interrupt : (x : Addr) → x ≢ 0 → Step vp (thread_interrupt x vp)
  check_clock : (now wall : ℕ) → Step vp (vp_check_clock now wall vp)
  signal : (cvar : Addr) → Step vp (cond_signal cvar vp).0
  broadcast : (cvar : Addr) → Step vp (cond_broadcast cvar vp).0
  unlock : (lock : Addr) → Step vp (mutex_unlock lock vp).0
  sleep : (usecs : ℕ) → Runs vp → Step vp (fall_asleep vp.current usecs vp)
  wait : (cvar : Addr) (timeout : ℕ) → Runs vp → Step vp (cond_enqueue cvar vp.current timeout vp)
  end_wait : (cvar : Addr) → Step vp (cond_leave cvar vp.current vp).0
  lock : (m : Addr) → Runs vp → Step vp (mutex_enqueue m vp.current vp)
  end_lock : (m : Addr) → Step vp (mutex_leave m vp.current vp).0
  poll :
      (pq : Addr) (pds : List Pollfd) (timeout : ℕ)
      → Runs vp
      → Step vp (poll_enqueue vp.current pq pds timeout vp)
  schedule : Step vp (resume (pick vp).0 (pick vp).1)
  idle_yields : Step vp (set_state vp.idle_thread runnable vp)

pub data Reach (vp : Vp) : Vp → Type 0 where
  here : Reach vp vp
  next : {u v : Vp} → Reach vp u → Step u v → Reach vp v

Step-Sane : {u v : Vp} → Step u v → Sane u → Sane v
Step-Sane (interrupt x ne) s = thread_interrupt-Sane x ne s
Step-Sane (check_clock now wall) s = vp_check_clock-Sane now wall s
Step-Sane (signal cvar) s = cond_signal-Sane cvar s
Step-Sane (broadcast cvar) s = cond_broadcast-Sane cvar s
Step-Sane (unlock m) s = mutex_unlock-Sane m s
Step-Sane (sleep usecs u) s = fall_asleep-Sane usecs u s
Step-Sane (wait cvar timeout u) s = cond_enqueue-Sane cvar timeout u s
Step-Sane {u} (end_wait cvar) s = cond_leave-Sane cvar u.current s
Step-Sane (lock m u) s = mutex_enqueue-Sane m u s
Step-Sane {u} (end_lock m) s = mutex_leave-Sane m u.current s
Step-Sane (poll pq pds timeout u) s = poll_enqueue-Sane pq pds timeout u s
Step-Sane schedule s = schedule-Sane s
Step-Sane idle_yields s = idle_yields-Sane s

-- From a sane state, no interleaving of the steps of the threads that exist leads out of the sane
-- states: interruptions, the clock, signals and broadcasts, unlocking, the steps by which a running
-- thread other than the idle one goes to sleep, waits, polls or queues for a mutex, the ends of
-- such waits, and _st_vp_schedule. In a sane state each thread on the run queue is runnable and
-- stands there once, a thread on the sleep queue sleeps, polls or waits on a condition variable, so
-- that none is on both, the timeout heap is well formed and holds exactly the flagged threads, the
-- idle thread is running or runnable and not on the run queue, and no wait queue holds a null
-- pointer.
pub Reach-Sane : {u v : Vp} → Sane u → Reach u v → Sane v
Reach-Sane s here = s
Reach-Sane s (next r st) = Step-Sane st (Reach-Sane s r)

-- ===== src/Vp.antt =====
-- The data of common.h: threads, condition variables, mutexes, poll queues and the virtual processor.
-- Memory is one function for each field; the null pointer is 0. A circular list is
-- the list of its elements, and a link that is taken out is found by its element.
use st_win.Prelude.{ℕ, Bool, true, false, List, update}
use st_win.Prelude.Int.{ℤ}
use st_win.Clist.{append_link}
use st_win.TimeoutHeap.{Addr, Heap}

-- `_ST_ST_RUNNING` to `_ST_ST_SUSPENDED`
pub data State : Type 0 where
  running runnable io_wait lock_wait cond_wait sleeping zombie suspended : State

abbrev pub is_running : State → Bool
is_running running = true
is_running _ = false

abbrev pub is_runnable : State → Bool
is_runnable runnable = true
is_runnable _ = false

abbrev pub is_lock_wait : State → Bool
is_lock_wait lock_wait = true
is_lock_wait _ = false

abbrev pub is_cond_wait : State → Bool
is_cond_wait cond_wait = true
is_cond_wait _ = false

abbrev pub is_sleeping : State → Bool
is_sleeping sleeping = true
is_sleeping _ = false

abbrev pub is_zombie : State → Bool
is_zombie zombie = true
is_zombie _ = false

-- The values of `errno` that the library sets itself.
pub data Errno : Type 0 where
  eok eintr einval edeadlk ebusy eperm etime eagain ebadf : Errno

-- `events` and `revents` of a `struct pollfd`, one field for each bit that the library reads and one
-- for the rest.
pub record Events : Type 0 where
  pub pollin : Bool
  pub pollout : Bool
  pub pollpri : Bool
  pub pollnval : Bool
  pub other : Bool

pub record Pollfd : Type 0 where
  pub fd : ℕ
  pub events : Events
  pub revents : Events

-- `_st_this_vp`, the globals of sched.c, and the objects that its threads share.
pub record Vp : Type 0 where
  pub heap : Heap
  pub current : Addr
  pub active_count : ℤ
  pub idle_thread : Addr
  pub last_clock : ℕ
  pub pagesize : ℕ
  pub run_q : List Addr
  pub io_q : List Addr
  pub zombie_q : List Addr
  pub curr_time : ℕ
  pub last_tset : ℕ
  pub errno : Errno
  -- struct _st_thread
  pub state : Addr → State
  pub fl_primordial : Addr → Bool
  pub fl_idle_thread : Addr → Bool
  pub fl_on_sleepq : Addr → Bool
  pub fl_interrupt : Addr → Bool
  pub fl_timedout : Addr → Bool
  pub start : Addr → Addr
  pub arg : Addr → Addr
  pub retval : Addr → Addr
  pub stack : Addr → Addr
  pub term : Addr → Addr
  pub context : Addr → Addr
  -- struct _st_cond, struct _st_mutex
  pub cond_q : Addr → List Addr
  pub owner : Addr → Addr
  pub mutex_q : Addr → List Addr
  -- struct _st_pollq
  pub pds : Addr → List Pollfd
  pub poll_thread : Addr → Addr
  pub on_ioq : Addr → Bool

-- `_ST_ADD_RUNQ(t)`
abbrev pub add_runq : Addr → Vp → Vp
add_runq t vp = record vp { run_q = append_link t vp.run_q }

abbrev pub set_state : Addr → State → Vp → Vp
set_state t s vp = record vp { state = update vp.state t s }

-- `t->state = _ST_ST_RUNNABLE; _ST_ADD_RUNQ(t);`
abbrev pub make_runnable : Addr → Vp → Vp
make_runnable t vp = add_runq t (set_state t runnable vp)

abbrev pub set_errno : Errno → Vp → Vp
set_errno e vp = record vp { errno = e }

-- The `int` that most operations return: 0, or -1 with `errno` set.
pub data Rc : Type 0 where
  ok fail : Rc

abbrev pub error : Errno → Vp → Vp × Rc
error e vp = (set_errno e vp, fail)

-- `me->flags &= ~_ST_FL_INTERRUPT; errno = EINTR; return -1;`
abbrev pub interrupted : Addr → Vp → Vp × Rc
interrupted me vp = error eintr (record vp { fl_interrupt = update vp.fl_interrupt me false })

-- `ST_UTIME_NO_TIMEOUT`
abbrev pub no_timeout : ℕ
no_timeout = 0xffff_ffff_ffff_ffff

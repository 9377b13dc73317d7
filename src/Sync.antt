-- ===== src/Sync.antt =====
-- sync.c: time functions, condition variables and mutexes. An address that `calloc` returns is an
-- argument, 0 if it fails; `swap` runs the other threads until the caller is resumed.
pub mod Wakeup
pub mod Ownership
use st_win.Prelude.{
  ℕ, ◌+◌, ◌*◌, ◌%◌, ◌^◌, ◌==◌, Bool, true, false, not, ◌&&◌, ◌||◌, List, [], ◌∷◌, if◌then◌else◌,
  update,
}
use st_win.Prelude.Int.{ℤ, pos, negsuc, is_nonzero}
use st_win.TimeoutHeap.{Addr}
use st_win.Vp.{
  State, lock_wait, cond_wait, sleeping, suspended, zombie, Vp, Rc, ok, fail, error, interrupted,
  no_timeout, set_state, make_runnable, set_errno, is_lock_wait, is_cond_wait, is_sleeping,
  is_zombie, einval, ebusy, edeadlk, eperm, etime, eintr,
}
use st_win.Clist.{append_link, remove_link}
use st_win.Sched.{Swap, add_sleep_q, leave_sleep_q, vp_schedule}

-- `st_utime`: the clock of the system, in seconds and milliseconds, or what the function set for it
-- returns.
unfoldable pub utime : Addr → ℕ → ℕ → ℕ → ℕ
utime utime_fn secs millitm custom =
    if utime_fn == 0 then (secs * 1000000 + millitm * 1000) % 2 ^ 64 else custom

-- `st_set_utime_function`: `utime_fn` is the function pointer `_st_utime`.
unfoldable pub set_utime_function : Addr → Addr → Vp → Vp × Addr × Rc
set_utime_function func utime_fn vp =
    if is_nonzero vp.active_count then (set_errno einval vp, utime_fn, fail) else (vp, func, ok)

-- `st_utime_last_clock`
unfoldable pub utime_last_clock : Vp → ℕ
utime_last_clock vp = vp.last_clock

-- `st_timecache_set`, with the results of `time(NULL)` and `st_utime()`; it returns `wason`.
unfoldable pub timecache_set : Bool → ℕ → ℕ → Vp → Vp × Bool
timecache_set on wall now vp =
    let wason = not (vp.curr_time == 0) in
    if on
    then (record vp { curr_time = wall; last_tset = now }, wason)
    else (record vp { curr_time = 0 }, wason)

-- `st_time`
unfoldable pub time : ℕ → Vp → ℕ
time wall vp = if vp.curr_time == 0 then wall else vp.curr_time

-- What `st_usleep` does before it calls the scheduler.
unfoldable pub fall_asleep : Addr → ℕ → Vp → Vp
fall_asleep me usecs vp =
    if usecs == no_timeout
    then set_state me suspended vp
    else if is_sleeping (vp.state me)
    then vp
    else add_sleep_q me usecs (set_state me sleeping vp)

-- `st_cond_new`
unfoldable pub cond_new : Addr → Vp → Vp × Addr
cond_new cvar vp =
    if cvar == 0 then (vp, 0) else (record vp { cond_q = update vp.cond_q cvar [] }, cvar)

abbrev pub is_empty : List Addr → Bool
is_empty [] = true
is_empty (x ∷ q) = false

-- `st_cond_destroy`, without the `free`
unfoldable pub cond_destroy : Addr → Vp → Vp × Rc
cond_destroy cvar vp = if is_empty (vp.cond_q cvar) then (vp, ok) else error ebusy vp

-- `st_cond_timedwait` before the call of the scheduler: the caller joins the wait queue.
unfoldable pub cond_enqueue : Addr → Addr → ℕ → Vp → Vp
cond_enqueue cvar me timeout vp =
    let vp₁ = set_state me cond_wait vp in
    let vp₂ = record vp₁ { cond_q = update vp₁.cond_q cvar (append_link me (vp₁.cond_q cvar)) } in
    if timeout == no_timeout then vp₂ else add_sleep_q me timeout vp₂

-- `st_cond_timedwait` after it: the caller leaves the queue and reports how it was woken.
unfoldable pub cond_leave : Addr → Addr → Vp → Vp × Rc
unfolding remove_link
cond_leave cvar me vp =
    let vp₁ = record vp { cond_q = update vp.cond_q cvar (remove_link me (vp.cond_q cvar)) } in
    let r =
      if vp₁.fl_timedout me
      then error etime (record vp₁ { fl_timedout = update vp₁.fl_timedout me false })
      else (vp₁, ok) in
    if r.0.fl_interrupt me then interrupted me r.0 else r

-- A thread in the wait queue is woken.
unfoldable pub wake : Addr → Vp → Vp
unfolding leave_sleep_q
wake thread vp = make_runnable thread (leave_sleep_q thread vp)

-- The loop of `_st_cond_signal` over the rest of the wait queue.
unfoldable pub signal_loop : Bool → List Addr → Vp → Vp
signal_loop broadcast [] vp = vp
signal_loop broadcast (thread ∷ q) vp =
    let waits = is_cond_wait (vp.state thread) in
    let vp₁ = if waits then wake thread vp else vp in
    let rest = signal_loop broadcast q vp₁ in if waits && not broadcast then vp₁ else rest

-- `_st_cond_signal`
unfoldable pub cond_wakeup : Bool → Addr → Vp → Vp × Rc
cond_wakeup broadcast cvar vp = (signal_loop broadcast (vp.cond_q cvar) vp, ok)

-- `st_cond_signal`
unfoldable pub cond_signal : Addr → Vp → Vp × Rc
unfolding cond_wakeup
cond_signal cvar vp = cond_wakeup false cvar vp

-- `st_cond_broadcast`
unfoldable pub cond_broadcast : Addr → Vp → Vp × Rc
unfolding cond_wakeup
cond_broadcast cvar vp = cond_wakeup true cvar vp

-- `st_mutex_new`
unfoldable pub mutex_new : Addr → Vp → Vp × Addr
mutex_new lock vp =
    if lock == 0
    then (vp, 0)
    else (record vp { mutex_q = update vp.mutex_q lock []; owner = update vp.owner lock 0 }, lock)

-- `st_mutex_destroy`, without the `free`
unfoldable pub mutex_destroy : Addr → Vp → Vp × Rc
mutex_destroy lock vp =
    if not (vp.owner lock == 0) || not (is_empty (vp.mutex_q lock))
    then error ebusy vp
    else (vp, ok)

-- The loop of `st_mutex_unlock`: the mutex goes to the first thread that waits for it.
unfoldable pub hand_over : Addr → List Addr → Vp → Vp
hand_over lock [] vp = record vp { owner = update vp.owner lock 0 }
hand_over lock (thread ∷ q) vp =
    let rest = hand_over lock q vp in
    if is_lock_wait (vp.state thread)
    then make_runnable thread (record vp { owner = update vp.owner lock thread })
    else rest

-- `st_mutex_unlock`
unfoldable pub mutex_unlock : Addr → Vp → Vp × Rc
mutex_unlock lock vp =
    if vp.owner lock == vp.current
    then (hand_over lock (vp.mutex_q lock) vp, ok)
    else error eperm vp

-- `st_mutex_trylock`
unfoldable pub mutex_trylock : Addr → Vp → Vp × Rc
mutex_trylock lock vp =
    if vp.owner lock == 0
    then (record vp { owner = update vp.owner lock vp.current }, ok)
    else error ebusy vp

-- `st_mutex_lock` when it blocks: before and after the call of the scheduler.
unfoldable pub mutex_enqueue : Addr → Addr → Vp → Vp
mutex_enqueue lock me vp =
    let vp₁ = set_state me lock_wait vp in
    record vp₁ { mutex_q = update vp₁.mutex_q lock (append_link me (vp₁.mutex_q lock)) }

unfoldable pub mutex_leave : Addr → Addr → Vp → Vp × Rc
unfolding remove_link
mutex_leave lock me vp =
    let vp₁ = record vp { mutex_q = update vp.mutex_q lock (remove_link me (vp.mutex_q lock)) } in
    if vp₁.fl_interrupt me && not (vp₁.owner lock == me) then interrupted me vp₁ else (vp₁, ok)

module _ (swap : Swap) where
  -- `st_usleep`
  unfoldable pub usleep : ℕ → Vp → Vp × Rc
  unfolding fall_asleep vp_schedule
  usleep usecs vp =
      let me = vp.current in
      if not (me == 0) && not (is_zombie (vp.state me))
      then if vp.fl_interrupt me
        then interrupted me vp
        else (vp_schedule swap (fall_asleep me usecs vp), ok)
      else (vp_schedule swap vp, ok)

  -- `st_sleep`
  unfoldable pub sleep : ℤ → Vp → Vp × Rc
  unfolding usleep
  sleep (pos secs) = usleep (secs * 1000000)
  sleep (negsuc n) = usleep no_timeout

  -- `st_cond_timedwait`
  unfoldable pub cond_timedwait : Addr → ℕ → Vp → Vp × Rc
  unfolding cond_enqueue cond_leave vp_schedule
  cond_timedwait cvar timeout vp =
      let me = vp.current in
      if me == 0
      then (vp, ok)
      else if vp.fl_interrupt me
      then interrupted me vp
      else cond_leave cvar me (vp_schedule swap (cond_enqueue cvar me timeout vp))

  -- `st_cond_wait`
  unfoldable pub cond_wait_for : Addr → Vp → Vp × Rc
  unfolding cond_timedwait
  cond_wait_for cvar = cond_timedwait cvar no_timeout

  -- `st_mutex_lock`
  unfoldable pub mutex_lock : Addr → Vp → Vp × Rc
  unfolding mutex_enqueue mutex_leave vp_schedule
  mutex_lock lock vp =
      let me = vp.current in
      if me == 0
      then (vp, ok)
      else if vp.fl_interrupt me
      then interrupted me vp
      else if vp.owner lock == 0
      then (record vp { owner = update vp.owner lock me }, ok)
      else if vp.owner lock == me
      then error edeadlk vp
      else mutex_leave lock me (vp_schedule swap (mutex_enqueue lock me vp))

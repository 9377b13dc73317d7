-- ===== src/Sched.antt =====
-- sched.c: the sleep queue, the clock, the scheduler and interruption.
pub mod Clock
pub mod Invariant
use st_win.Prelude.{
  ℕ, zero, suc, ◌+◌, ◌-◌, ◌%◌, ◌^◌, ◌==◌, ltb, Bool, true, false, not, ◌&&◌, ◌||◌, List, [], ◌∷◌,
  if◌then◌else◌, update,
}
use st_win.TimeoutHeap.{Addr, Heap, heap_insert, heap_delete}
use st_win.Vp.{
  State, running, runnable, Vp, add_runq, set_state, make_runnable, is_running, is_runnable,
  is_cond_wait, is_zombie,
}
use st_win.Clist.{append_link}

-- `thread->due = _ST_LAST_CLOCK + timeout`, in 64 bits, and the index that the thread is given.
unfoldable pub enter_heap : Heap → Addr → ℕ → Heap
enter_heap h thread due = record h {
  due = update h.due thread due;
  heap_index = update h.heap_index thread (h.sleepq_size + 1);
  sleepq_size = h.sleepq_size + 1;
}

-- `_st_add_sleep_q`
unfoldable pub add_sleep_q : Addr → ℕ → Vp → Vp
unfolding enter_heap
add_sleep_q thread timeout vp = record vp {
  heap = (heap_insert (enter_heap vp.heap thread ((vp.last_clock + timeout) % 2 ^ 64)) thread).0;
  fl_on_sleepq = update vp.fl_on_sleepq thread true;
}

-- `_st_del_sleep_q`
unfoldable pub del_sleep_q : Addr → Vp → Vp
del_sleep_q thread vp = record vp {
  heap = heap_delete vp.heap thread;
  fl_on_sleepq = update vp.fl_on_sleepq thread false;
}

-- `if (thread->flags & _ST_FL_ON_SLEEPQ) _ST_DEL_SLEEPQ(thread);`
unfoldable pub leave_sleep_q : Addr → Vp → Vp
leave_sleep_q thread vp = if vp.fl_on_sleepq thread then del_sleep_q thread vp else vp

-- What `_st_vp_check_clock` does with a thread whose time has come.
unfoldable pub expire : Addr → Vp → Vp
expire thread vp =
    let vp₁ = del_sleep_q thread vp in
    let vp₂ =
      if is_cond_wait (vp₁.state thread)
      then record vp₁ { fl_timedout = update vp₁.fl_timedout thread true }
      else vp₁ in
    make_runnable thread vp₂

-- `while (_ST_SLEEPQ != NULL)` of `_st_vp_check_clock`: each round takes one thread off the heap.
unfoldable pub expire_loop : ℕ → ℕ → Vp → Vp
expire_loop zero now vp = vp
expire_loop (suc fuel) now vp =
    let thread = vp.heap.sleep_q in
    let rest = expire_loop fuel now (expire thread vp) in
    if thread == 0 then vp else if ltb now (vp.heap.due thread) then vp else rest

-- The first part of `_st_vp_check_clock`: the clock and the cached time are brought up to date.
unfoldable pub tick_clock : ℕ → ℕ → Vp → Vp
tick_clock now wall vp =
    let vp₁ = record vp { last_clock = now } in
    if not (vp₁.curr_time == 0) && ltb 999000 ((now + 2 ^ 64 - vp₁.last_tset) % 2 ^ 64)
    then record vp₁ { curr_time = wall; last_tset = now }
    else vp₁

-- `_st_vp_check_clock`, at the time `now` of `st_utime()` and `wall` of `time(NULL)`.
unfoldable pub vp_check_clock : ℕ → ℕ → Vp → Vp
unfolding tick_clock
vp_check_clock now wall vp =
    let vp₁ = tick_clock now wall vp in expire_loop vp₁.heap.sleepq_size now vp₁

-- `st_thread_interrupt`
unfoldable pub thread_interrupt : Addr → Vp → Vp
unfolding leave_sleep_q
thread_interrupt thread vp =
    if is_zombie (vp.state thread)
    then vp
    else let vp₁ = record vp { fl_interrupt = update vp.fl_interrupt thread true } in
      if is_running (vp₁.state thread) || is_runnable (vp₁.state thread)
      then vp₁
      else make_runnable thread (leave_sleep_q thread vp₁)

-- The head of the run queue, or null.
unfoldable pub take_runq : Vp → Addr × Vp
take_runq vp = elim vp.run_q [ [] ↦ (0, vp) | t ∷ q ↦ (t, record vp { run_q = q }) ]

-- `_st_vp_schedule` up to the choice of the thread to resume; 0 if there is none.
unfoldable pub pick : Vp → Addr × Vp
unfolding take_runq
pick vp =
    let (head, vp₁) = take_runq vp in
    let thread =
      if head == 0 || not (is_runnable (vp₁.state head)) then vp₁.idle_thread else head in
    if vp₁.current == thread && not (thread == vp₁.idle_thread)
    then (vp₁.idle_thread, add_runq thread vp₁)
    else (thread, vp₁)

-- The chosen thread is made the running one.
unfoldable pub resume : Addr → Vp → Vp
resume thread vp = record (set_state thread running vp) { current = thread }

-- `swapFiber(ctx)` runs other threads and returns when somebody resumes this one.
abbrev pub Swap : Type 0
Swap = Addr → Vp → Vp

module _ (swap : Swap) where
  -- `_st_vp_schedule`
  unfoldable pub vp_schedule : Vp → Vp
  unfolding pick resume
  vp_schedule vp =
      let (thread, vp₁) = pick vp in
      let vp₂ = resume thread vp₁ in
      if thread == 0
      then vp₁
      else if vp₂.context thread == 0
      then vp₂
      else swap (vp₂.context thread) vp₂

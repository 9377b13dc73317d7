-- ===== src/Thread.antt =====
-- sched.c: the life of a thread. `st_thread_create`, `_st_thread_main`, `st_thread_exit`,
-- `st_thread_join`, `st_init` and the loop of the idle thread. Allocation results are arguments.
pub mod Placement
pub mod Join
pub mod Awaited
use st_win.Prelude.{
  ℕ, zero, suc, ◌+◌, ◌-◌, ◌*◌, ◌/◌, ◌%◌, ◌==◌, Bool, true, false, not, ◌&&◌, ◌||◌, Option, none,
  some, List, [], ◌∷◌, if◌then◌else◌, update,
}
use st_win.Prelude.Int.{ℤ, incr, decr, is_positive}
use st_win.TimeoutHeap.{Addr}
use st_win.Vp.{
  State, running, zombie, runnable, Vp, Errno, Rc, ok, fail, set_errno, einval, edeadlk, no_timeout,
  add_runq, set_state, make_runnable, is_zombie, is_runnable,
}
use st_win.Clist.{append_link, remove_link}
use st_win.Sched.{vp_check_clock, vp_schedule}
use st_win.Sync.{cond_new, cond_destroy, cond_signal, cond_timedwait, is_empty}
use st_win.Key.{Keys, keys_max, thread_cleanup}
use st_win.Stk.{Stacks, stack_new, stack_free}

-- The virtual processor, the thread-specific data and the stacks.
pub record System : Type 0 where
  pub vp : Vp
  pub keys : Keys
  pub stacks : Stacks

-- `sizeof(void*)` and `sizeof(_st_thread_t)`
pub record Abi : Type 0 where
  pub pointer_size : ℕ
  pub thread_size : ℕ

-- What the allocations of `st_thread_create` return, and `createFiber`.
pub record Alloc : Type 0 where
  pub object : Addr
  pub segment : Addr
  pub rand : ℕ
  pub fiber : Addr
  pub cond : Addr

-- `ST_DEFAULT_STACK_SIZE`, `MD_STACK_PAD_SIZE`
abbrev pub default_stack_size : ℕ
default_stack_size = 64 * 1024

abbrev pub stack_pad_size : ℕ
stack_pad_size = 128

-- The stack size, a multiple of the page size.
abbrev pub stack_bytes : ℕ → ℕ → ℕ
stack_bytes pagesize stk_size =
    let size = if stk_size == 0 then default_stack_size else stk_size in
    (size + pagesize - 1) / pagesize * pagesize

-- The places of the private data, the thread object and the stack pointer under the top of the stack.
abbrev pub ptds_at : Abi → Addr → Addr
ptds_at abi top = top - keys_max * abi.pointer_size

abbrev pub thread_at : Abi → Addr → Addr
thread_at abi top = ptds_at abi top - abi.thread_size

abbrev pub sp_at : Abi → Addr → Addr
sp_at abi top =
    let sp = thread_at abi top in (if sp % 64 == 0 then sp else sp - sp % 64) - stack_pad_size

-- `memset(thread, 0, sizeof(_st_thread_t))`
unfoldable pub clear_thread : Addr → Vp → Vp
clear_thread thread vp = record vp {
  heap = record vp.heap {
    due = update vp.heap.due thread 0;
    left = update vp.heap.left thread 0;
    right = update vp.heap.right thread 0;
    heap_index = update vp.heap.heap_index thread 0;
  };
  state = update vp.state thread running;
  fl_primordial = update vp.fl_primordial thread false;
  fl_idle_thread = update vp.fl_idle_thread thread false;
  fl_on_sleepq = update vp.fl_on_sleepq thread false;
  fl_interrupt = update vp.fl_interrupt thread false;
  fl_timedout = update vp.fl_timedout thread false;
  start = update vp.start thread 0;
  arg = update vp.arg thread 0;
  retval = update vp.retval thread 0;
  stack = update vp.stack thread 0;
  term = update vp.term thread 0;
  context = update vp.context thread 0;
}

-- `// Initialize thread`
unfoldable pub init_thread : Addr → Addr → Addr → Addr → Addr → Vp → Vp
unfolding clear_thread
init_thread thread stack start arg fiber vp =
    let vp₁ = clear_thread thread vp in
    record vp₁ {
      stack = update vp₁.stack thread stack;
      start = update vp₁.start thread start;
      arg = update vp₁.arg thread arg;
      context = update vp₁.context thread fiber;
    }

-- `// Make thread runnable`
unfoldable pub launch : Addr → System → System
launch thread s =
    let vp₁ = set_state thread runnable s.vp in
    record s { vp = add_runq thread (record vp₁ { active_count = incr vp₁.active_count }) }

-- The termination condition variable of a joinable thread; without one the stack is given back.
unfoldable pub make_joinable : Addr → Addr → System → System × Addr
unfolding launch
make_joinable cond thread s =
    let r = cond_new cond s.vp in
    let s₁ = record s { vp = record r.0 { term = update r.0.term thread r.1 } } in
    if r.1 == 0
    then (record s₁ { stacks = stack_free (s₁.vp.stack thread) s₁.stacks }, 0)
    else (launch thread s₁, thread)

-- `st_thread_create` once it has a stack.
unfoldable pub build_thread : Abi → Alloc → Addr → Addr → Bool → Addr → System → System × Addr
build_thread abi alloc start arg joinable stack s =
    let top = s.stacks.stk_top stack in
    let thread = thread_at abi top in
    let s₁ = record s {
      stacks = record s.stacks { sp = update s.stacks.sp stack (sp_at abi top) };
      keys = record s.keys { private_data = update s.keys.private_data thread (λ key. 0) };
      vp = init_thread thread stack start arg alloc.fiber s.vp;
    } in
    if joinable then make_joinable alloc.cond thread s₁ else (launch thread s₁, thread)

-- `st_thread_create`
unfoldable pub thread_create : Abi → Alloc → Addr → Addr → Bool → ℕ → System → System × Addr
thread_create abi alloc start arg joinable stk_size s =
    let size = stack_bytes s.vp.pagesize stk_size in
    let r = stack_new s.vp.pagesize size alloc.object alloc.segment alloc.rand s.stacks in
    let s₁ = record s { stacks = r.0 } in
    if r.1 == 0 then (s₁, 0) else build_thread abi alloc start arg joinable r.1 s₁

-- `st_active_count`, `st_thread_self`
unfoldable pub active_count : Vp → ℤ
active_count vp = vp.active_count

unfoldable pub thread_self : Vp → Addr
thread_self vp = vp.current

-- `st_thread_exit` up to the test of `thread->term`.
unfoldable pub exit_begin : Addr → Addr → System → System
exit_begin thread retval s =
    let vp₁ = record s.vp { retval = update s.vp.retval thread retval } in
    record s {
      keys = thread_cleanup thread s.keys;
      vp = set_state thread zombie (record vp₁ { active_count = decr vp₁.active_count });
    }

-- The thread goes on the zombie queue, and whoever waits to join it is told.
unfoldable pub exit_announce : Addr → Vp → Vp
exit_announce thread vp =
    let vp₁ = record vp { zombie_q = append_link thread vp.zombie_q } in
    (cond_signal (vp₁.term thread) vp₁).0

-- `// Continue the cleanup`
unfoldable pub exit_joined : Addr → Vp → Vp
unfolding cond_destroy
exit_joined thread vp =
    let vp₁ = (cond_destroy (vp.term thread) vp).0 in record vp₁ { term = update vp₁.term thread 0 }

-- `if (!(thread->flags & _ST_FL_PRIMORDIAL)) _st_stack_free(thread->stack);`
unfoldable pub exit_stack : Addr → System → System
unfolding stack_free
exit_stack thread s =
    if s.vp.fl_primordial thread
    then s
    else record s { stacks = stack_free (s.vp.stack thread) s.stacks }

-- The join part of `st_thread_join`: the zombie becomes runnable and does its clean-up.
unfoldable pub collect : Addr → Vp → Vp
collect thread vp =
    let vp₁ = set_state thread runnable vp in
    add_runq thread (record vp₁ { zombie_q = remove_link thread vp₁.zombie_q })

-- `errno = e; return -1;` of `st_thread_join`
abbrev pub refused : Errno → Vp → Option (Vp × Rc × Addr)
refused e vp = some (set_errno e vp, fail, 0)

abbrev pub is_fail : Rc → Bool
is_fail ok = false
is_fail fail = true

module _ (swap : Addr → System → System) where
  -- `_ST_SWITCH_CONTEXT(thread)`
  unfoldable pub switch_context : Addr → System → System
  switch_context thread s = if s.vp.context thread == 0 then s else swap (s.vp.context thread) s

  unfoldable pub exit_joinable : Addr → System → System
  exit_joinable thread s =
      let s₁ = switch_context thread (record s { vp = exit_announce thread s.vp }) in
      record s₁ { vp = exit_joined thread s₁.vp }

  -- `st_thread_exit`
  unfoldable pub thread_exit : Addr → System → System
  thread_exit retval s =
      let thread = s.vp.current in
      let s₁ = exit_begin thread retval s in
      let s₂ = if s₁.vp.term thread == 0 then s₁ else exit_joinable thread s₁ in
      if thread == 0 then s else switch_context thread (exit_stack thread s₂)

  -- `_st_thread_main`: `call` runs a start function of the program, with its result.
  module _ (call : Addr → Addr → System → System × Addr) (swap_out : System → System) where
    unfoldable pub thread_main : Addr → System → System
    thread_main thd s =
        let s₁ = if s.vp.start thd == 0 then s else (call (s.vp.start thd) (s.vp.arg thd) s).0 in
        if thd == 0 then s else swap_out (thread_exit (s₁.vp.retval thd) s₁)

-- The end of `st_thread_join`; the third result goes to `*retvalp`.
unfoldable pub join_end : Addr → Option (Vp × Rc) → Option (Vp × Rc × Addr)
join_end thread none = none
join_end thread (some (vp, fail)) = some (vp, fail, 0)
join_end thread (some (vp, ok)) = some (collect thread vp, ok, vp.retval thread)

module _ (swap : Addr → Vp → Vp) where
  -- `while (thread->state != _ST_ST_ZOMBIE)` of `st_thread_join`, with the rounds that it may take.
  unfoldable pub join_loop : ℕ → Addr → Addr → Vp → Option (Vp × Rc)
  join_loop zero term thread vp = none
  join_loop (suc fuel) term thread vp =
      let r = cond_timedwait swap term no_timeout vp in
      let rest = join_loop fuel term thread r.0 in
      if is_zombie (vp.state thread)
      then some (vp, ok)
      else if is_fail r.1
      then some (r.0, fail)
      else rest

  -- `st_thread_join`
  unfoldable pub thread_join : ℕ → Addr → Vp → Option (Vp × Rc × Addr)
  thread_join fuel thread vp =
      let term = vp.term thread in
      if term == 0
      then refused einval vp
      else if vp.current == thread
      then refused edeadlk vp
      else if not (is_empty (vp.cond_q term))
      then refused einval vp
      else join_end thread (join_loop fuel term thread vp)

  -- One round of `_st_idle_thread_start` after `dispatch`, with the clocks; the flag says to go on.
  unfoldable pub idle_round : Addr → ℕ → ℕ → Vp → Vp × Bool
  idle_round me now wall vp =
      let vp₁ = vp_check_clock now wall vp in
      let vp₂ =
        if not (me == 0) && not (is_zombie (vp₁.state me)) && not (is_runnable (vp₁.state me))
        then set_state me runnable vp₁
        else vp₁ in
      if is_positive vp₂.active_count then (vp_schedule swap vp₂, true) else (vp₂, false)

  module _ (dispatch : Vp → Vp) where
    -- `_st_idle_thread_start`, with the readings of the clocks, one for each round that it may take.
    unfoldable pub idle_loop : List (ℕ × ℕ) → Addr → Vp → Option Vp
    unfolding idle_round
    idle_loop [] me vp = if is_positive vp.active_count then none else some vp
    idle_loop ((now, wall) ∷ clocks) me vp =
        let r = idle_round me now wall (dispatch vp) in
        let rest = idle_loop clocks me r.0 in
        if is_positive vp.active_count then (if r.1 then rest else some r.0) else some vp

    unfoldable pub idle_thread_start : List (ℕ × ℕ) → Vp → Option Vp
    unfolding idle_loop
    idle_thread_start clocks vp = idle_loop clocks vp.current vp

-- `memset(&_st_this_vp, 0, sizeof(_st_vp_t));` and the empty queues, then the page size and the clock.
unfoldable pub reset_vp : Vp → Vp
reset_vp vp = record vp {
  heap = record vp.heap { sleep_q = 0; sleepq_size = 0 };
  idle_thread = 0;
  last_clock = 0;
  pagesize = 0;
  run_q = [];
  io_q = [];
  zombie_q = [];
}

-- The idle thread is flagged, not counted, and not on the run queue.
unfoldable pub set_idle : Addr → Vp → Vp
unfolding remove_link
set_idle thread vp = record vp {
  idle_thread = thread;
  fl_primordial = update vp.fl_primordial thread false;
  fl_idle_thread = update vp.fl_idle_thread thread true;
  fl_on_sleepq = update vp.fl_on_sleepq thread false;
  fl_interrupt = update vp.fl_interrupt thread false;
  fl_timedout = update vp.fl_timedout thread false;
  active_count = decr vp.active_count;
  run_q = remove_link thread vp.run_q;
}

-- `st_init` after the choice of an event system and `_st_io_init`, which returns 0 always: `events` is
-- what the initialisation of the event system returns, `idle_start` stands for `_st_idle_thread_start`.
unfoldable pub init : Abi → Alloc → Addr → Bool → ℕ → ℕ → System → System × Rc
init abi alloc idle_start events pagesize now s =
    let s₁ = record s { vp = reset_vp s.vp } in
    let s₂ = record s₁ { vp = record s₁.vp { pagesize = pagesize; last_clock = now } } in
    let r = thread_create abi alloc idle_start 0 false 0 s₂ in
    if is_positive s.vp.active_count
    then (s, ok)
    else if not events
    then (s₁, fail)
    else if r.1 == 0
    then (r.0, fail)
    else (record r.0 { vp = set_idle r.1 r.0.vp }, ok)

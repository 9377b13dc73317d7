-- ===== src/Tests/Threads.antt =====
-- Stacks and threads at work: pages of 4096 bytes, a free stack of 65536 bytes, one of 128 KiB in use.
use st_win.Prelude.{
  ◌<◌, ◌≡◌, ◌⊎◌, inr, refl, arith, ◌==◌, true, false, not, ◌&&◌, some, [], ◌∷◌, ◌++◌, if◌then◌else◌,
  update,
}
use st_win.Prelude.Int.{pos}
use st_win.TimeoutHeap.{Addr}
use st_win.Vp.{running, runnable, cond_wait, Vp, ok, no_timeout, eok}
use st_win.Sched.{vp_schedule, Swap}
use st_win.Prelude.Members.{has, Distinct}
use st_win.Sync.{cond_enqueue, cond_signal, signal_loop, wake}
use st_win.Key.{Keys}
use st_win.Stk.{Stacks, stack_free}
use st_win.Stk.Redzone.{Guarded, Sound, stack_free-Sound}
use st_win.Thread.{
  System, Abi, Alloc, thread_create, thread_join, exit_announce, exit_begin, stack_bytes,
}
use st_win.Thread.Placement.{Created, Placed, with_stack, overhead, thread_create-Created}
use st_win.Thread.Join.{Joined, exited, resumed, exit-join}
use st_win.Thread.Awaited.{Kept, Collected, join-exit}
use st_win.Tests.{two_vp}

abbrev stacks : Stacks
stacks = record {
  free_stacks = 40 ∷ [];
  num_free_stacks = pos 1;
  randomize = false;
  vaddr = update (update (λ ts. 0) 40 100000) 41 300000;
  vaddr_size = update (update (λ ts. 0) 40 73728) 41 139264;
  stk_size = update (update (λ ts. 0) 40 65536) 41 131072;
  stk_bottom = update (update (λ ts. 0) 40 104096) 41 304096;
  stk_top = update (update (λ ts. 0) 40 169632) 41 435168;
  sp = λ ts. 0;
}

free-Guarded : (ts : Addr) → has ts stacks.free_stacks ≡ true → Guarded 4096 stacks ts
unfolding has
free-Guarded ts m = record {
  real = ground arith;
  below = ground arith;
  size = ground arith;
  above = ground arith;
}

stacks-Sound : Sound 4096 stacks
stacks-Sound = record { guarded = free-Guarded; counted = refl }

not_free : has 50 stacks.free_stacks ≡ false
unfolding has
not_free = refl

used-Guarded : Guarded 4096 stacks 41
used-Guarded = record {
  real = ground arith;
  below = ground arith;
  size = refl;
  above = ground arith;
}

stack_free-Sound_example :
    Sound 4096 (stack_free 41 stacks)
    × ((a : Addr)
        → has a (stack_free 41 stacks).free_stacks
          ≡ (if not (41 == 0) && (41 == a) then true else has a stacks.free_stacks))
stack_free-Sound_example = stack_free-Sound 4096 41 stacks stacks-Sound (inr used-Guarded)

abbrev no_keys : Keys
no_keys = record {
  key_max = 0;
  destructors = λ k. 0;
  private_data = λ t k. 0;
  calls = [];
  errno = eok;
}

abbrev system : System
system = record { vp = two_vp; keys = no_keys; stacks = stacks }

abbrev abi : Abi
abi = record { pointer_size = 8; thread_size = 160 }

abbrev alloc : Alloc
alloc = record { object = 50; segment = 500000; rand = 7; fiber = 60; cond = 70 }

thread_create-Created_example :
    ((thread_create abi alloc 80 90 true 0 system).1 ≡ 0)
    ⊎ ((ts : Addr) × Created abi 80 90 ts
          (thread_create abi alloc 80 90 true 0 system).1
          (with_stack 0 alloc system)
          (thread_create abi alloc 80 90 true 0 system).0
        × ((stack_bytes 4096 0 < overhead abi)
            ⊎ Placed abi 4096 ts
                (thread_create abi alloc 80 90 true 0 system).1
                (thread_create abi alloc 80 90 true 0 system).0.stacks))
thread_create-Created_example =
    thread_create-Created abi alloc 80 90 true 0 system stacks-Sound not_free

-- Thread 3 is joinable, with the termination variable 21.
abbrev joinable_system : System
joinable_system = record system { vp = record two_vp { term = update (λ a. 0) 3 21 } }

not_zombie : has 3 (joinable_system.vp.zombie_q) ≡ false
unfolding has
not_zombie = refl

exit-join_example :
    (r : Vp) × (thread_join
        (λ c vp. vp)
        1
        3
        (record (exit_announce 3 (exit_begin 3 99 joinable_system).vp) { current = 7 })
      ≡ some (r, ok, 99))
    × Joined 3 99 joinable_system r
exit-join_example =
    exit-join (λ c vp. vp) 0 3 7 99 joinable_system (ground arith) refl not_zombie (ground arith)

-- Thread 7 joins thread 3, which exits with 99 while 7 waits.
abbrev joining_vp : Vp
joining_vp = record joinable_system.vp {
  current = 7;
  state = λ a. runnable;
  fl_on_sleepq = λ a. false;
}

-- The others run until 3 has called `st_thread_exit`, and 7 is resumed.
abbrev exit_meanwhile : Swap
exit_meanwhile context vp =
    let e = exited 3 99 (record system { vp = vp }) in
    record e { current = 7; state = update e.state 7 running; run_q = [] }

-- Thread 3 runs, and 7 waits.
abbrev exiting_system : System
exiting_system = record system {
  vp = vp_schedule (λ c vp. vp) (cond_enqueue 21 7 no_timeout joining_vp);
}

waiting_then : Kept 7 3 (cond_enqueue 21 7 no_timeout joining_vp) exiting_system.vp
unfolding vp_schedule cond_enqueue
waiting_then = record { term = refl; waiters = refl; timedout = refl; interrupt = refl }

cond_wait_then : exiting_system.vp.state 7 ≡ cond_wait
unfolding vp_schedule cond_enqueue
cond_wait_then = refl

resumed_then : Kept 7 3 (exited 3 99 exiting_system) (resumed exit_meanwhile 3 joining_vp)
unfolding vp_schedule cond_enqueue
resumed_then = record { term = refl; waiters = refl; timedout = refl; interrupt = refl }

zombie_then : (resumed exit_meanwhile 3 joining_vp).state 3 ≡ (exited 3 99 exiting_system).state 3
unfolding vp_schedule cond_enqueue
zombie_then = refl

value_then : (resumed exit_meanwhile 3 joining_vp).retval 3 ≡ (exited 3 99 exiting_system).retval 3
unfolding vp_schedule cond_enqueue
value_then = refl

one_zombie : Distinct (resumed exit_meanwhile 3 joining_vp).zombie_q
unfolding vp_schedule cond_enqueue exit_announce exit_begin has cond_signal signal_loop wake
one_zombie = (refl, tt)

join-exit_example :
    ((exited 3 99 exiting_system).state 7 ≡ runnable)
    × ((exited 3 99 exiting_system).run_q ≡ exiting_system.vp.run_q ++ (7 ∷ []))
    × ((exited 3 99 exiting_system).zombie_q ≡ exiting_system.vp.zombie_q ++ (3 ∷ []))
    × ((r : Vp) × (thread_join exit_meanwhile 2 3 joining_vp ≡ some (r, ok, 99))
        × Collected 3 21 (resumed exit_meanwhile 3 joining_vp) r)
join-exit_example =
    join-exit exit_meanwhile 0 3 99 joining_vp exiting_system (ground arith) (ground arith)
      (ground arith) refl refl refl refl waiting_then cond_wait_then resumed_then zombie_then
      value_then one_zombie

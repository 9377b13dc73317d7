-- ===== src/Thread/Join.antt =====
-- `st_thread_exit` and `st_thread_join`: the value that a thread exits with reaches the one that joins it.
use st_win.Prelude.{
  ℕ, suc, ◌≡◌, ◌≢◌, refl, ap, ◌∙◌, ◌==◌, true, false, some, List, [], ◌∷◌, ◌++◌, update, arith,
}
use st_win.Prelude.Int.{decr}
use st_win.TimeoutHeap.{Addr}
use st_win.Vp.{zombie, runnable, Vp, Rc, ok, no_timeout, is_zombie}
use st_win.Clist.{append_link, remove_link}
use st_win.Sched.{vp_schedule}
use st_win.Prelude.Members.{has}
use st_win.Sync.{cond_signal, cond_wakeup, signal_loop, cond_enqueue, cond_leave, cond_timedwait}
use st_win.Thread.{System, exit_begin, exit_announce, collect, join_loop, join_end, thread_join}

remove-last : (t : Addr) (q : List Addr) → has t q ≡ false → remove_link t (append_link t q) ≡ q
unfolding has remove_link
remove-last t [] m = ground arith
remove-last t (x ∷ q) m = ground (arith, remove-last t q)

exit_begin-fields :
    (t retval : Addr) (s : System)
    → ((exit_begin t retval s).vp.state t ≡ zombie)
      × ((exit_begin t retval s).vp.retval t ≡ retval)
      × ((exit_begin t retval s).vp.active_count ≡ decr s.vp.active_count)
      × ((exit_begin t retval s).vp.run_q ≡ s.vp.run_q)
      × ((exit_begin t retval s).vp.zombie_q ≡ s.vp.zombie_q)
      × ((exit_begin t retval s).vp.cond_q ≡ s.vp.cond_q)
      × ((exit_begin t retval s).vp.term ≡ s.vp.term)
unfolding exit_begin
exit_begin-fields t retval s = (ground arith, ground arith, refl, refl, refl, refl, refl)

-- With nobody waiting, the announcement only puts the thread on the zombie queue.
exit_announce-alone :
    (t : Addr) (vp : Vp)
    → vp.cond_q (vp.term t) ≡ []
    → exit_announce t vp ≡ record vp { zombie_q = append_link t vp.zombie_q }
unfolding exit_announce cond_signal cond_wakeup signal_loop
exit_announce-alone t vp e = rw e refl

join_loop-zombie :
    (swap : Addr → Vp → Vp) (fuel : ℕ) (term t : Addr) (vp : Vp)
    → is_zombie (vp.state t) ≡ true
    → join_loop swap (suc fuel) term t vp ≡ some (vp, ok)
unfolding join_loop
join_loop-zombie swap fuel term t vp dead = rw dead

join_loop-waits :
    (swap : Addr → Vp → Vp) (fuel : ℕ) (term t : Addr) (vp : Vp)
    → is_zombie (vp.state t) ≡ false
    → (cond_timedwait swap term no_timeout vp).1 ≡ ok
    → join_loop swap (suc fuel) term t vp
      ≡ join_loop swap fuel term t (cond_timedwait swap term no_timeout vp).0
unfolding join_loop
join_loop-waits swap fuel term t vp live woken = rw (live, woken)

thread_join-loops :
    (swap : Addr → Vp → Vp) (fuel : ℕ) (t : Addr) (vp : Vp)
    → vp.term t ≢ 0
    → vp.current ≢ t
    → vp.cond_q (vp.term t) ≡ []
    → thread_join swap fuel t vp ≡ join_end t (join_loop swap fuel (vp.term t) t vp)
unfolding thread_join
thread_join-loops swap fuel t vp joinable other alone =
    let a : (vp.term t == 0) ≡ false = ground arith in
    let b : (vp.current == t) ≡ false = ground arith in rw (a, b, alone)

-- What `st_thread_join` returns at once when the thread is a zombie that nobody else joins.
join-zombie :
    (swap : Addr → Vp → Vp) (fuel : ℕ) (t : Addr) (vp : Vp)
    → vp.term t ≢ 0
    → vp.current ≢ t
    → vp.cond_q (vp.term t) ≡ []
    → is_zombie (vp.state t) ≡ true
    → thread_join swap (suc fuel) t vp ≡ some (collect t vp, ok, vp.retval t)
unfolding join_end
join-zombie swap fuel t vp joinable other alone dead = rw (thread_join-loops, join_loop-zombie)

-- What is left when thread `t` has exited with `retval` and been joined.
pub record Joined (t retval : Addr) (s : System) (r : Vp) : Type 0 where
  pub state : r.state t ≡ runnable
  pub queue : r.run_q ≡ s.vp.run_q ++ (t ∷ [])
  pub zombies : r.zombie_q ≡ s.vp.zombie_q
  pub count : r.active_count ≡ decr s.vp.active_count

abbrev pub exited : Addr → Addr → System → Vp
exited t retval s = exit_announce t (exit_begin t retval s).vp

exited-fields :
    (t retval : Addr) (s : System)
    → s.vp.cond_q (s.vp.term t) ≡ []
    → exited t retval s
      ≡ record (exit_begin t retval s).vp { zombie_q = append_link t s.vp.zombie_q }
unfolding exit_begin
exited-fields t retval s alone = exit_announce-alone t (exit_begin t retval s).vp alone

collect-Joined :
    (t retval : Addr) (s : System) (vp : Vp)
    → vp.run_q ≡ s.vp.run_q
    → vp.zombie_q ≡ append_link t s.vp.zombie_q
    → vp.active_count ≡ decr s.vp.active_count
    → has t s.vp.zombie_q ≡ false
    → Joined t retval s (collect t vp)
unfolding collect
collect-Joined t retval s vp q zq n new = record {
  state = ground arith;
  queue = rw q;
  zombies = rw zq (remove-last t s.vp.zombie_q new);
  count = n;
}

-- A joinable thread `t` that calls `st_thread_exit` with `retval` while nobody waits for it and
-- while it is not on the zombie queue can be joined by any other thread: `st_thread_join` returns 0
-- and gives that value, without waiting, and `t` is off the zombie queue, not counted and runnable,
-- so that it does the rest of its clean-up.
pub exit-join :
    (swap : Addr → Vp → Vp) (fuel : ℕ) (t j retval : Addr) (s : System)
    → s.vp.term t ≢ 0
    → s.vp.cond_q (s.vp.term t) ≡ []
    → has t s.vp.zombie_q ≡ false
    → j ≢ t
    → (r : Vp) × (thread_join swap (suc fuel) t (record (exited t retval s) { current = j })
        ≡ some (r, ok, retval))
      × Joined t retval s r
exit-join swap fuel t j retval s joinable alone new other =
    let (z, v, n, q, zq, cq, te) = exit_begin-fields t retval s in
    let before = record (exit_begin t retval s).vp {
      zombie_q = append_link t s.vp.zombie_q;
      current = j;
    } in
    let joined : thread_join swap (suc fuel) t before ≡ some (collect t before, ok, retval) =
      join-zombie swap fuel t before (rw te joinable) other (rw (te, cq) alone) (rw z refl)
      ∙ ap (λ (value : Addr). some (collect t before, ok, value)) v in
    rw exited-fields (collect t before, joined, collect-Joined t retval s before q refl n new)

-- The caller of `st_thread_join` has waited, and is resumed.
abbrev pub resumed : (Addr → Vp → Vp) → Addr → Vp → Vp
resumed swap t vp = vp_schedule swap (cond_enqueue (vp.term t) vp.current no_timeout vp)

cond_timedwait-leaves :
    (swap : Addr → Vp → Vp) (cvar timeout : ℕ) (vp : Vp)
    → vp.current ≢ 0
    → vp.fl_interrupt vp.current ≡ false
    → cond_timedwait swap cvar timeout vp
      ≡ cond_leave cvar vp.current (vp_schedule swap (cond_enqueue cvar vp.current timeout vp))
unfolding cond_timedwait
cond_timedwait-leaves swap cvar timeout vp awake calm =
    let a : (vp.current == 0) ≡ false = ground arith in rw (a, calm)

-- A thread that is resumed without a time-out or an interruption only leaves the queue.
pub cond_leave-ok :
    (cvar me : Addr) (vp : Vp)
    → vp.fl_timedout me ≡ false
    → vp.fl_interrupt me ≡ false
    → cond_leave cvar me vp
      ≡ (record vp { cond_q = update vp.cond_q cvar (remove_link me (vp.cond_q cvar)) }, ok)
unfolding cond_leave
cond_leave-ok cvar me vp in_time calm = rw (in_time, calm)

-- The caller waits once, and the thread is a zombie when it is resumed.
pub join-resumed :
    (swap : Addr → Vp → Vp) (fuel : ℕ) (t : Addr) (vp : Vp)
    → vp.term t ≢ 0
    → vp.current ≢ t
    → vp.current ≢ 0
    → vp.cond_q (vp.term t) ≡ []
    → is_zombie (vp.state t) ≡ false
    → vp.fl_interrupt vp.current ≡ false
    → is_zombie ((resumed swap t vp).state t) ≡ true
    → (resumed swap t vp).fl_timedout vp.current ≡ false
    → (resumed swap t vp).fl_interrupt vp.current ≡ false
    → thread_join swap (suc (suc fuel)) t vp
      ≡ some (
        collect t (cond_leave (vp.term t) vp.current (resumed swap t vp)).0,
        ok,
        (resumed swap t vp).retval t,
      )
unfolding join_end
join-resumed swap fuel t vp joinable other awake alone live calm dead in_time calm' =
    let waited = cond_timedwait-leaves swap (vp.term t) no_timeout vp awake calm in
    let left = cond_leave-ok (vp.term t) vp.current (resumed swap t vp) in_time calm' in
    thread_join-loops swap (suc (suc fuel)) t vp joinable other alone
    ∙ ap (join_end t) (
        join_loop-waits swap (suc fuel) (vp.term t) t vp live
          (ap (λ (r : Vp × Rc). r.1) (waited ∙ left))
        ∙ ap (λ (r : Vp × Rc). join_loop swap (suc fuel) (vp.term t) t r.0) waited
        ∙ join_loop-zombie swap fuel (vp.term t) t
            (cond_leave (vp.term t) vp.current (resumed swap t vp)).0
            (ap (λ (r : Vp × Rc). is_zombie (r.0.state t)) left ∙ dead))
    ∙ ap
        (λ (v : Addr).
          some (collect t (cond_leave (vp.term t) vp.current (resumed swap t vp)).0, ok, v))
        (ap (λ (r : Vp × Rc). r.0.retval t) left)

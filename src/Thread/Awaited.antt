-- ===== src/Thread/Awaited.antt =====
-- `st_thread_join` that waits: the exit of the thread wakes the one that joins it.
use st_win.Prelude.{
  ℕ, suc, ◌≡◌, ◌≢◌, refl, sym, ap, ◌∙◌, ◌==◌, true, false, some, [], ◌∷◌, ◌++◌, if◌then◌else◌,
  arith,
}
use st_win.Prelude.Members.{has, Distinct, remove_link, has-remove_link}
use st_win.TimeoutHeap.{Addr}
use st_win.Vp.{cond_wait, zombie, runnable, Vp, ok, no_timeout, is_zombie}
use st_win.Clist.{append_link}
use st_win.Sched.{leave_sleep_q, del_sleep_q}
use st_win.Sync.{wake, cond_signal, cond_wakeup, signal_loop, cond_enqueue, cond_leave}
use st_win.Sync.Wakeup.{}
use st_win.Thread.{System, exit_begin, exit_announce, collect, thread_join}
use st_win.Thread.Join.{exited, resumed, join-resumed, cond_leave-ok}

-- With one thread waiting, the announcement wakes it.
exit_announce-wakes :
    (t j : Addr) (vp : Vp)
    → vp.cond_q (vp.term t) ≡ j ∷ []
    → vp.state j ≡ cond_wait
    → exit_announce t vp ≡ wake j (record vp { zombie_q = append_link t vp.zombie_q })
unfolding exit_announce cond_signal cond_wakeup signal_loop
exit_announce-wakes t j vp one waits = rw (one, waits) refl

-- `e` is `s` when `t` has announced its end, with the value `value`, to `j`, which waits for it.
record Told (t j value : Addr) (s e : Vp) : Type 0 where
  woken : e.state j ≡ runnable
  queue : e.run_q ≡ s.run_q ++ (j ∷ [])
  state : e.state t ≡ zombie
  retval : e.retval t ≡ value
  zombies : e.zombie_q ≡ s.zombie_q ++ (t ∷ [])
  waiters : e.cond_q ≡ s.cond_q
  term : e.term ≡ s.term
  timedout : e.fl_timedout ≡ s.fl_timedout
  interrupt : e.fl_interrupt ≡ s.fl_interrupt

wake-Told :
    (t j retval : Addr) (s : System)
    → t ≢ j
    → Told t j retval s.vp
        (wake j (record (exit_begin t retval s).vp { zombie_q = append_link t s.vp.zombie_q }))
unfolding wake leave_sleep_q del_sleep_q exit_begin
wake-Told t j retval s other = record {
  woken = ground arith;
  queue = ground arith;
  state = ground arith;
  retval = ground arith;
  zombies = ground arith;
  waiters = ground arith;
  term = ground arith;
  timedout = ground arith;
  interrupt = ground arith;
}

exited-Told :
    (t j retval : Addr) (s : System)
    → t ≢ j
    → s.vp.cond_q (s.vp.term t) ≡ j ∷ []
    → s.vp.state j ≡ cond_wait
    → Told t j retval s.vp (exited t retval s)
unfolding exit_begin
exited-Told t j retval s other one waits =
    rw (exit_announce-wakes t j (exit_begin t retval s).vp one (ground arith))
      (wake-Told t j retval s other)

-- What the other threads leave alone while `j` waits for `t`: the termination variable of `t`, its
-- wait queue, and the flags of `j`.
pub record Kept (j t : Addr) (before after : Vp) : Type 0 where
  pub term : after.term t ≡ before.term t
  pub waiters : after.cond_q (before.term t) ≡ before.cond_q (before.term t)
  pub timedout : after.fl_timedout j ≡ before.fl_timedout j
  pub interrupt : after.fl_interrupt j ≡ before.fl_interrupt j

-- `r` is `w` when `t` has been collected by the only thread that waited on `term`.
pub record Collected (t term : Addr) (w r : Vp) : Type 0 where
  pub state : r.state t ≡ runnable
  pub queue : r.run_q ≡ w.run_q ++ (t ∷ [])
  pub zombies : (a : Addr) → has a r.zombie_q ≡ (if t == a then false else has a w.zombie_q)
  pub waiters : r.cond_q term ≡ []

collect-Collected :
    (t j term : Addr) (w : Vp)
    → w.cond_q term ≡ j ∷ []
    → w.fl_timedout j ≡ false
    → w.fl_interrupt j ≡ false
    → Distinct w.zombie_q
    → Collected t term w (collect t (cond_leave term j w).0)
unfolding collect remove_link
collect-Collected t j term w one in_time calm once =
    rw (cond_leave-ok term j w in_time calm) (record {
      state = ground arith;
      queue = refl;
      zombies = λ a. has-remove_link a t w.zombie_q once;
      waiters = rw one (ground arith);
    })

-- `st_thread_join` of a live joinable thread `t` that nobody else joins, by another thread `j` that
-- is neither interrupted nor timed out, waits on its termination variable. When `t` then calls
-- `st_thread_exit` with `retval`, in a state `s` in which `j` still waits, this makes `j` runnable,
-- at the end of the run queue, and puts `t` on the zombie queue. When `j` is resumed,
-- `st_thread_join` returns 0 with `retval`; `t` is off the zombie queue, and nobody else, and
-- runnable at the end of the run queue, and nobody waits on the variable. This holds if the other
-- threads leave alone the variable of `t`, its wait queue and the flags of `j`, if `t` stays the
-- zombie that it is with its value, and if the zombie queue has no repetition when `j` is resumed.
pub join-exit :
    (swap : Addr → Vp → Vp) (fuel : ℕ) (t retval : Addr) (vp : Vp) (s : System)
    → vp.term t ≢ 0
    → vp.current ≢ t
    → vp.current ≢ 0
    → vp.cond_q (vp.term t) ≡ []
    → is_zombie (vp.state t) ≡ false
    → vp.fl_interrupt vp.current ≡ false
    → vp.fl_timedout vp.current ≡ false
    → Kept vp.current t (cond_enqueue (vp.term t) vp.current no_timeout vp) s.vp
    → s.vp.state vp.current ≡ cond_wait
    → Kept vp.current t (exited t retval s) (resumed swap t vp)
    → (resumed swap t vp).state t ≡ (exited t retval s).state t
    → (resumed swap t vp).retval t ≡ (exited t retval s).retval t
    → Distinct (resumed swap t vp).zombie_q
    → ((exited t retval s).state vp.current ≡ runnable)
      × ((exited t retval s).run_q ≡ s.vp.run_q ++ (vp.current ∷ []))
      × ((exited t retval s).zombie_q ≡ s.vp.zombie_q ++ (t ∷ []))
      × ((r : Vp) × (thread_join swap (suc (suc fuel)) t vp ≡ some (r, ok, retval))
          × Collected t (vp.term t) (resumed swap t vp) r)
unfolding cond_enqueue
join-exit swap fuel t retval vp s joinable other awake alone live calm in_time kept waits kept' same
      value once =
    let j = vp.current in
    let w = resumed swap t vp in
    let at : s.vp.cond_q (s.vp.term t) ≡ j ∷ [] =
      ap s.vp.cond_q kept.term ∙ kept.waiters ∙ rw alone (ground arith) in
    let told = exited-Told t j retval s (λ e. other (sym e)) at waits in
    let in_time' : w.fl_timedout j ≡ false =
      kept'.timedout ∙ ap (λ f. f j) told.timedout ∙ kept.timedout ∙ in_time in
    let calm' : w.fl_interrupt j ≡ false =
      kept'.interrupt ∙ ap (λ f. f j) told.interrupt ∙ kept.interrupt ∙ calm in
    let var : (exited t retval s).term t ≡ vp.term t = ap (λ f. f t) told.term ∙ kept.term in
    let one : w.cond_q (vp.term t) ≡ j ∷ [] =
      ap w.cond_q (sym var)
      ∙ kept'.waiters
      ∙ ap (λ f. f ((exited t retval s).term t)) told.waiters
      ∙ ap s.vp.cond_q (ap (λ f. f t) told.term)
      ∙ at in
    let dead : is_zombie (w.state t) ≡ true = ap is_zombie (same ∙ told.state) in
    (
      told.woken,
      told.queue,
      told.zombies,
      (
        collect t (cond_leave (vp.term t) j w).0,
        join-resumed swap fuel t vp joinable other awake alone live calm dead in_time' calm'
            ∙ ap (λ (v : Addr). some (collect t (cond_leave (vp.term t) j w).0, ok, v))
                (value ∙ told.retval),
        collect-Collected t j (vp.term t) w one in_time' calm' once,
      ),
    )

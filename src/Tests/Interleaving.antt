-- ===== src/Tests/Interleaving.antt =====
-- A run of the scheduler: thread 3 goes to sleep, the idle thread finds thread 5 due, and 5 runs.
use st_win.Prelude.{◌≡◌, refl, arith, true, false, [], ◌∷◌}
use st_win.Prelude.Members.{has}
use st_win.TimeoutHeap.{heap_delete, heap_insert, shift_right, refill}
use st_win.Vp.{Vp}
use st_win.Sched.{
  pick, resume, take_runq, vp_check_clock, expire_loop, expire, del_sleep_q, add_sleep_q,
  enter_heap,
}
use st_win.Sync.{fall_asleep}
use st_win.Steps.{Sane, Runs, Reach, here, next, sleep, schedule, check_clock, Reach-Sane}
use st_win.Tests.{two_vp, two_at, two_vp-Wf}

two_vp-Sane : Sane two_vp
unfolding has
two_vp-Sane = (
  record {
    distinct = tt;
    real = refl;
    ready = λ a m. absurd (no_has m);
    timed = λ a ne on. ground arith;
    idle_real = ground arith;
    idle_off = refl;
    idle_active = refl;
    waiters = λ c. ground arith;
    lockers = λ l. refl;
  },
  (two_at, two_vp-Wf),
)
  where
    no_has : false ≡ true → ⊥
    no_has e = cc

abbrev asleep_vp : Vp
asleep_vp = fall_asleep 3 20 two_vp

abbrev idle_vp : Vp
idle_vp = resume (pick asleep_vp).0 (pick asleep_vp).1

abbrev woken_vp : Vp
woken_vp = vp_check_clock 150 0 idle_vp

abbrev yielded_vp : Vp
yielded_vp = resume (pick woken_vp).0 (pick woken_vp).1

three-Runs : Runs two_vp
three-Runs = record { real = ground arith; not_idle = ground arith; runs = refl }

five_runs : Reach two_vp yielded_vp
five_runs =
    next (next (next (next here (sleep 20 three-Runs)) schedule) (check_clock 150 0)) schedule

-- Threads 3 and 5 are due; 3 runs next, and 5 stays on the run queue.
queue_after : yielded_vp.run_q ≡ 5 ∷ []
unfolding fall_asleep add_sleep_q enter_heap heap_insert pick take_runq resume vp_check_clock
    expire_loop expire del_sleep_q heap_delete shift_right refill
queue_after = refl

Reach-Sane_example : Sane yielded_vp
Reach-Sane_example = Reach-Sane two_vp-Sane five_runs

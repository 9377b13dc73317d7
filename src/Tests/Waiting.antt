-- ===== src/Tests/Waiting.antt =====
-- Condition variables and mutexes at work.
use st_win.Prelude.{
  ◌≡◌, ◌≢◌, ◌⊎◌, inl, refl, arith, true, false, ◌&&◌, none, some, [], ◌∷◌, ◌++◌, if◌then◌else◌,
  update,
}
use st_win.TimeoutHeap.{Addr}
use st_win.Vp.{runnable, Vp, ok, fail, error, eperm}
use st_win.Sched.{vp_schedule, Swap, del_sleep_q}
use st_win.Prelude.Members.{has}
use st_win.Sync.{
  wake, hand_over, signal_loop, cond_signal, cond_broadcast, mutex_lock, mutex_unlock,
  mutex_enqueue,
}
use st_win.Sync.Wakeup.{
  first, waits_in, all_that, Woken, Left, cond_signal-Woken, cond_broadcast-wakes_all,
}
use st_win.Prelude.Members.{Distinct}
use st_win.Sync.Ownership.{
  locks_in, Served, Reach, here, next, enqueue, unlock, mutex_lock-owner, Reach-Served,
  mutex_unlock-hands_over,
}
use st_win.Tests.{two_vp, two_at, two_vp-Wf}

cond_signal-Woken_example :
    ((first (waits_in two_vp) (two_vp.cond_q 20) ≡ none) × (cond_signal 20 two_vp ≡ (two_vp, ok)))
    ⊎ ((t : Addr) × (first (waits_in two_vp) (two_vp.cond_q 20) ≡ some t)
        × ((cond_signal 20 two_vp).1 ≡ ok)
        × Woken two_vp t (cond_signal 20 two_vp).0
        × Left two_at t (cond_signal 20 two_vp).0)
unfolding has
cond_signal-Woken_example = cond_signal-Woken 20 two_vp two_at two_vp-Wf refl

signalled : (cond_signal 20 two_vp).0.run_q ≡ 5 ∷ []
unfolding cond_signal signal_loop wake del_sleep_q
signalled = refl

two_vp-Distinct : Distinct (two_vp.cond_q 20)
unfolding has
two_vp-Distinct = (refl, tt)

cond_broadcast-wakes_all_example :
    ((a : Addr)
      → (cond_broadcast 20 two_vp).0.state a
        ≡ (if has a (two_vp.cond_q 20) && waits_in two_vp a then runnable else two_vp.state a))
    × ((cond_broadcast 20 two_vp).0.run_q
        ≡ two_vp.run_q ++ all_that (waits_in two_vp) (two_vp.cond_q 20))
    × ((cond_broadcast 20 two_vp).1 ≡ ok)
cond_broadcast-wakes_all_example = cond_broadcast-wakes_all 20 two_vp two_vp-Distinct

-- Thread 7 runs, and waits for the mutex 30, which thread 3 owns.
abbrev seven_vp : Vp
seven_vp = record two_vp { current = 7; fl_on_sleepq = λ a. false }

-- The other threads run until thread 3 has unlocked the mutex and thread 7 is resumed.
abbrev unlock_meanwhile : Swap
unlock_meanwhile context vp =
    let r = (mutex_unlock 30 (record vp { current = 3 })).0 in record r { current = 7 }

handed : (vp_schedule unlock_meanwhile (mutex_enqueue 30 7 seven_vp)).owner 30 ≡ 7
unfolding vp_schedule mutex_enqueue mutex_unlock hand_over
handed = refl

mutex_lock-owner_example :
    (((mutex_lock unlock_meanwhile 30 seven_vp).1 ≡ ok)
      × ((mutex_lock unlock_meanwhile 30 seven_vp).0.owner 30 ≡ 7))
    ⊎ (((mutex_lock unlock_meanwhile 30 seven_vp).1 ≡ fail)
        × (((mutex_lock unlock_meanwhile 30 seven_vp).0.owner 30 ≢ 7)
            ⊎ (seven_vp.owner 30 ≡ 7)
            ⊎ (seven_vp.fl_interrupt 7 ≡ true)))
mutex_lock-owner_example = mutex_lock-owner unlock_meanwhile 30 seven_vp (ground arith) (inl handed)

two_vp-Served : Served 30 seven_vp
unfolding has
two_vp-Served = record { real = refl; idle = λ free a m. ground arith }

abbrev queued_vp : Vp
queued_vp = mutex_enqueue 30 7 seven_vp

unlocked : Reach 30 seven_vp (mutex_unlock 30 queued_vp).0
unlocked = next (next here (enqueue (ground arith) (ground arith) (ground arith))) unlock

Reach-Served_example : Served 30 (mutex_unlock 30 queued_vp).0
Reach-Served_example = Reach-Served two_vp-Served unlocked

mutex_unlock-hands_over_example :
    ((two_vp.owner 30 ≢ 3) × (mutex_unlock 30 two_vp ≡ error eperm two_vp))
    ⊎ ((two_vp.owner 30 ≡ 3)
        × (first (locks_in two_vp) (two_vp.mutex_q 30) ≡ none)
        × (mutex_unlock 30 two_vp ≡ (record two_vp { owner = update two_vp.owner 30 0 }, ok)))
    ⊎ ((two_vp.owner 30 ≡ 3)
        × ((t : Addr) × (first (locks_in two_vp) (two_vp.mutex_q 30) ≡ some t)
            × ((mutex_unlock 30 two_vp).0.owner 30 ≡ t)
            × ((mutex_unlock 30 two_vp).0.state t ≡ runnable)
            × ((mutex_unlock 30 two_vp).0.run_q ≡ two_vp.run_q ++ (t ∷ []))
            × ((mutex_unlock 30 two_vp).1 ≡ ok)))
mutex_unlock-hands_over_example = mutex_unlock-hands_over 30 two_vp

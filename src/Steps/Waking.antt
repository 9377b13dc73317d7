-- ===== src/Steps/Waking.antt =====
-- The steps that make threads runnable keep the scheduler's invariant.
use st_win.Prelude.{
  ℕ, zero, suc, ◌≡◌, ◌≢◌, inl, inr, refl, ◌==◌, ltb, Bool, true, false, not, ◌||◌, List, [], ◌∷◌,
  update, arith, eq-cases, Bool-cases,
}
use st_win.Prelude.Members.{has}
use st_win.TimeoutHeap.{Addr}
use st_win.TimeoutHeap.Minimum.{root-In}
use st_win.Vp.{Vp, is_cond_wait, is_lock_wait, is_zombie, is_running, is_runnable, make_runnable}
use st_win.Sched.{
  del_sleep_q, leave_sleep_q, expire, expire_loop, tick_clock, vp_check_clock, thread_interrupt,
}
use st_win.Sched.Invariant.{Wf-same, del_sleep_q-Wf, thread_interrupt-Wf}
use st_win.Sync.{wake, signal_loop, cond_signal, cond_broadcast, hand_over, mutex_unlock}
use st_win.Sync.Wakeup.{signal_loop-Wf}
use st_win.Steps.RunQueue.{timed-active, Ready, Sane, Put, Ready-Put, Ready-same}

expire-Put : (t : Addr) (vp : Vp) → Put vp t (expire t vp)
unfolding expire del_sleep_q
expire-Put t vp = record {
  states = λ a. ground arith;
  queue = ground arith;
  awake = ground arith;
  others = λ a ne. ground arith;
  idle = ground arith;
  conds = ground arith;
  mutexes = ground arith;
}

wake-Put : (t : Addr) (vp : Vp) → Put vp t (wake t vp)
unfolding wake leave_sleep_q del_sleep_q
wake-Put t vp = record {
  states = λ a. ground arith;
  queue = ground arith;
  awake = ground arith;
  others = λ a ne. ground arith;
  idle = ground arith;
  conds = ground arith;
  mutexes = ground arith;
}

expire-same :
    (t : Addr) (vp : Vp)
    → ((expire t vp).heap ≡ (del_sleep_q t vp).heap)
      × ((expire t vp).fl_on_sleepq ≡ (del_sleep_q t vp).fl_on_sleepq)
unfolding expire del_sleep_q
expire-same t vp = (ground arith, ground arith)

expire-Sane : (t : Addr) {vp : Vp} → vp.heap.sleep_q ≡ t → t ≢ 0 → Sane vp → Sane (expire t vp)
expire-Sane t {vp} first ne (d, (at, wf)) =
    let on = (wf.flagged t ne).1 (root-In wf.heap vp.heap.due (λ a. refl) t first t refl) in
    let (at', wf', m) = del_sleep_q-Wf t wf ne on in
    (
      Ready-Put t d ne (timed-active (vp.state t) (d.timed t ne on)) (expire-Put t vp),
      (at', Wf-same (expire-same t vp).0 (expire-same t vp).1 wf'),
    )

expire_loop-Sane : (fuel now : ℕ) {vp : Vp} → Sane vp → Sane (expire_loop fuel now vp)
unfolding expire_loop
expire_loop-Sane zero now sane = sane
expire_loop-Sane (suc fuel) now {vp} sane = elim (eq-cases vp.heap.sleep_q 0) [
  | inl null ↦ let z : (vp.heap.sleep_q == 0) ≡ true = ground arith in rw z sane
  | inr ne ↦
      let z : (vp.heap.sleep_q == 0) ≡ false = ground arith in
      elim (Bool-cases (ltb now (vp.heap.due vp.heap.sleep_q))) [
        | inl later ↦ rw (z, later) sane
        | inr come ↦
            rw (z, come) (expire_loop-Sane fuel now (expire-Sane vp.heap.sleep_q refl ne sane))
      ]
]

tick_clock-same :
    (now wall : ℕ) (vp : Vp)
    → ((tick_clock now wall vp).heap ≡ vp.heap)
      × ((tick_clock now wall vp).fl_on_sleepq ≡ vp.fl_on_sleepq)
      × ((tick_clock now wall vp).run_q ≡ vp.run_q)
      × ((tick_clock now wall vp).state ≡ vp.state)
      × ((tick_clock now wall vp).idle_thread ≡ vp.idle_thread)
      × ((tick_clock now wall vp).cond_q ≡ vp.cond_q)
      × ((tick_clock now wall vp).mutex_q ≡ vp.mutex_q)
unfolding tick_clock
tick_clock-same now wall vp = (
  ground arith,
  ground arith,
  ground arith,
  ground arith,
  ground arith,
  ground arith,
  ground arith,
)

pub vp_check_clock-Sane : (now wall : ℕ) {vp : Vp} → Sane vp → Sane (vp_check_clock now wall vp)
unfolding vp_check_clock
vp_check_clock-Sane now wall {vp} (d, (at, wf)) =
    let (h, f, q, s, i, c, m) = tick_clock-same now wall vp in
    let d' = Ready-same d q s f i (λ a. rw c (d.waiters a)) (λ a. rw m (d.lockers a)) in
    expire_loop-Sane (tick_clock now wall vp).heap.sleepq_size now (d', (at, Wf-same h f wf))

interrupt-Ready : (x : Addr) {vp : Vp} → Ready vp → x ≢ 0 → Ready (thread_interrupt x vp)
unfolding thread_interrupt
interrupt-Ready x {vp} d ne = elim (Bool-cases (is_zombie (vp.state x))) [
  | inl dead ↦ rw dead d
  | inr live ↦ rw live (elim (Bool-cases (is_running (vp.state x) || is_runnable (vp.state x))) [
    | inl active ↦ rw active (Ready-same d refl refl refl refl d.waiters d.lockers)
    | inr blocked ↦
        let marked : Ready (record vp { fl_interrupt = update vp.fl_interrupt x true }) =
          Ready-same d refl refl refl refl d.waiters d.lockers in
        rw blocked (Ready-Put x marked ne (ground arith) (unfold wake in wake-Put x _))
  ])
]

pub thread_interrupt-Sane : (x : Addr) {vp : Vp} → x ≢ 0 → Sane vp → Sane (thread_interrupt x vp)
thread_interrupt-Sane x ne (d, (at, wf)) = (interrupt-Ready x d ne, thread_interrupt-Wf x wf ne)

signal_loop-Ready :
    (broadcast : Bool) (q : List Addr) {vp : Vp}
    → Ready vp
    → has 0 q ≡ false
    → Ready (signal_loop broadcast q vp)
unfolding signal_loop has
signal_loop-Ready broadcast [] d real = d
signal_loop-Ready broadcast (t ∷ q) {vp} d real =
    let real' : has 0 q ≡ false = ground arith in
    elim (Bool-cases (is_cond_wait (vp.state t))) [
      | inr idle ↦ rw idle (signal_loop-Ready broadcast q d real')
      | inl waits ↦
          let d' = Ready-Put t d (ground arith) (ground arith) (wake-Put t vp) in
          rw waits (elim (Bool-cases (not broadcast)) [
            | inl one ↦ rw one d'
            | inr all ↦ rw all (signal_loop-Ready broadcast q d' real')
          ])
    ]

pub cond_signal-Sane : (cvar : Addr) {vp : Vp} → Sane vp → Sane (cond_signal cvar vp).0
unfolding cond_signal
cond_signal-Sane cvar {vp} (d, (at, wf)) = (
  signal_loop-Ready false (vp.cond_q cvar) d (d.waiters cvar),
  signal_loop-Wf false (vp.cond_q cvar) wf (d.waiters cvar),
)

pub cond_broadcast-Sane : (cvar : Addr) {vp : Vp} → Sane vp → Sane (cond_broadcast cvar vp).0
unfolding cond_broadcast
cond_broadcast-Sane cvar {vp} (d, (at, wf)) = (
  signal_loop-Ready true (vp.cond_q cvar) d (d.waiters cvar),
  signal_loop-Wf true (vp.cond_q cvar) wf (d.waiters cvar),
)

-- The mutex is given to a thread that waits for it without a time-out.
give-Put :
    (lock t : Addr) {vp : Vp}
    → vp.fl_on_sleepq t ≡ false
    → Put vp t (make_runnable t (record vp { owner = update vp.owner lock t }))
give-Put lock t off = record {
  states = λ a. refl;
  queue = refl;
  awake = off;
  others = λ a ne. refl;
  idle = refl;
  conds = refl;
  mutexes = refl;
}

hand_over-Sane :
    (lock : Addr) (q : List Addr) {vp : Vp} → Sane vp → has 0 q ≡ false → Sane (hand_over lock q vp)
unfolding hand_over has
hand_over-Sane lock [] (d, (at, wf)) real =
    (Ready-same d refl refl refl refl d.waiters d.lockers, (at, Wf-same refl refl wf))
hand_over-Sane lock (t ∷ q) {vp} (d, (at, wf)) real =
    let ne : t ≢ 0 = ground arith in
    elim (Bool-cases (is_lock_wait (vp.state t))) [
      | inr other ↦ rw other (hand_over-Sane lock q (d, (at, wf)) (ground arith))
      | inl waits ↦ rw waits (
        Ready-Put t d ne (ground arith) (give-Put lock t (untimed ne waits)),
        (at, Wf-same refl refl wf),
      )
    ]
  where
    untimed : t ≢ 0 → is_lock_wait (vp.state t) ≡ true → vp.fl_on_sleepq t ≡ false
    untimed ne waits = elim (Bool-cases (vp.fl_on_sleepq t)) [
      | inr off ↦ off
      | inl on ↦ let timed = d.timed t ne on in ground arith
    ]

pub mutex_unlock-Sane : (lock : Addr) {vp : Vp} → Sane vp → Sane (mutex_unlock lock vp).0
unfolding mutex_unlock
mutex_unlock-Sane lock {vp} (d, (at, wf)) = elim (Bool-cases (vp.owner lock == vp.current)) [
  | inl mine ↦ rw mine (hand_over-Sane lock (vp.mutex_q lock) (d, (at, wf)) (d.lockers lock))
  | inr other ↦
      rw other (Ready-same d refl refl refl refl d.waiters d.lockers, (at, Wf-same refl refl wf))
]

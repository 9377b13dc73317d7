-- ===== src/Steps/Blocking.antt =====
-- The steps that block the caller, end its wait or switch threads keep the scheduler's invariant.
use st_win.Prelude.{
  ℕ, ◌≡◌, ◌≢◌, inl, inr, refl, ◌==◌, true, false, List, [], ◌∷◌, if◌then◌else◌, update, arith,
  eq-cases, Bool-cases,
}
use st_win.Prelude.Members.{has, has-append_link}
use st_win.TimeoutHeap.{Addr}
use st_win.Vp.{
  State, suspended, sleeping, cond_wait, lock_wait, io_wait, Vp, Pollfd, no_timeout, set_state,
  is_sleeping,
}
use st_win.Clist.{append_link, remove_link}
use st_win.Sched.{add_sleep_q}
use st_win.Sched.Invariant.{Wf-same, add_sleep_q-Wf}
use st_win.Sync.{fall_asleep, cond_enqueue, cond_leave, mutex_enqueue, mutex_leave}
use st_win.Event.Poll.{poll_enqueue}
use st_win.Steps.RunQueue.{
  is_timed, Ready, Sane, Blocked, Runs, Ready-Blocked, Ready-same, unflagged,
}

-- A null pointer does not come onto a wait queue by `ST_APPEND_LINK` of a thread or by `ST_REMOVE_LINK`.
append-real : (e : Addr) (q : List Addr) → e ≢ 0 → has 0 q ≡ false → has 0 (append_link e q) ≡ false
append-real e q ne real = ground (arith, has-append_link 0 e q)

remove-real : (e : Addr) (q : List Addr) → has 0 q ≡ false → has 0 (remove_link e q) ≡ false
unfolding has remove_link
remove-real e [] real = real
remove-real e (x ∷ q) real = ground (arith, remove-real e q)

appended :
    (f : Addr → List Addr) (p e c : Addr)
    → e ≢ 0
    → ((c : Addr) → has 0 (f c) ≡ false)
    → has 0 (update f p (append_link e (f p)) c) ≡ false
appended f p e c ne real = ground (arith, append-real e (f p) ne (real p), real c)

removed :
    (f : Addr → List Addr) (p e c : Addr)
    → ((c : Addr) → has 0 (f c) ≡ false)
    → has 0 (update f p (remove_link e (f p)) c) ≡ false
removed f p e c real = ground (arith, remove-real e (f p) (real p), real c)

-- `_st_add_sleep_q` changes the heap and one flag.
sleep-fields :
    (x : Addr) (t : ℕ) (vp : Vp)
    → ((add_sleep_q x t vp).state ≡ vp.state)
      × ((add_sleep_q x t vp).run_q ≡ vp.run_q)
      × ((add_sleep_q x t vp).idle_thread ≡ vp.idle_thread)
      × ((add_sleep_q x t vp).cond_q ≡ vp.cond_q)
      × ((add_sleep_q x t vp).mutex_q ≡ vp.mutex_q)
      × ((add_sleep_q x t vp).fl_on_sleepq ≡ update vp.fl_on_sleepq x true)
unfolding add_sleep_q
sleep-fields x t vp = (refl, refl, refl, refl, refl, refl)

-- A thread that has blocked without a time-out, and one that has blocked with one.
block-Sane :
    {vp : Vp} (s : State) {r : Vp}
    → Sane vp
    → Runs vp
    → Blocked vp vp.current s r
    → r.heap ≡ vp.heap
    → r.fl_on_sleepq ≡ vp.fl_on_sleepq
    → Sane r
block-Sane s (d, (at, wf)) u b h f = (Ready-Blocked s d u b, (at, Wf-same h f wf))

block_timed-Sane :
    {vp : Vp} (s : State) (timeout : ℕ) {r : Vp}
    → Sane vp
    → Runs vp
    → Blocked vp vp.current s r
    → r.heap ≡ vp.heap
    → r.fl_on_sleepq ≡ vp.fl_on_sleepq
    → is_timed s ≡ true
    → Sane (add_sleep_q vp.current timeout r)
block_timed-Sane {vp} s timeout {r} (d, (at, wf)) u b h f timed =
    let off : r.fl_on_sleepq vp.current ≡ false = rw f (unflagged d u) in
    let (st, q, i, c, m, fl) = sleep-fields vp.current timeout r in
    let (at', wf', _, _) = add_sleep_q-Wf vp.current timeout (Wf-same h f wf) u.real off in
    (
      Ready-Blocked s d u (record {
        states = rw st b.states;
        queue = rw q b.queue;
        flags = rw fl (λ a. elim (eq-cases vp.current a) [
          | inl mine ↦ inr (ground arith, timed)
          | inr other ↦ inl (rw f (ground arith))
        ]);
        idle = rw i b.idle;
        conds = rw c b.conds;
        mutexes = rw m b.mutexes;
      }),
      (at', wf'),
    )

-- Only the state of the caller has changed.
abbrev blocked :
    {vp : Vp} (s : State) → Ready vp → Blocked vp vp.current s (set_state vp.current s vp)
blocked {vp} s d = record {
  states = λ a. refl;
  queue = refl;
  flags = λ a. inl refl;
  idle = refl;
  conds = d.waiters;
  mutexes = d.lockers;
}

pub fall_asleep-Sane :
    (usecs : ℕ) {vp : Vp} → Runs vp → Sane vp → Sane (fall_asleep vp.current usecs vp)
unfolding fall_asleep
fall_asleep-Sane usecs {vp} u sane = elim (Bool-cases (usecs == no_timeout)) [
  | inl endless ↦ rw endless (block-Sane suspended sane u (blocked suspended sane.0) refl refl)
  | inr timed ↦
      let awake : is_sleeping (vp.state vp.current) ≡ false = let r = u.runs in ground arith in
      rw (timed, awake)
        (block_timed-Sane sleeping usecs sane u (blocked sleeping sane.0) refl refl refl)
]

pub cond_enqueue-Sane :
    (cvar : Addr) (timeout : ℕ) {vp : Vp}
    → Runs vp
    → Sane vp
    → Sane (cond_enqueue cvar vp.current timeout vp)
unfolding cond_enqueue
cond_enqueue-Sane cvar timeout {vp} u sane =
    let vp₁ = set_state vp.current cond_wait vp in
    let vp₂ = record vp₁ {
      cond_q = update vp₁.cond_q cvar (append_link vp.current (vp₁.cond_q cvar));
    } in
    let b : Blocked vp vp.current cond_wait vp₂ = record {
      states = λ a. refl;
      queue = refl;
      flags = λ a. inl refl;
      idle = refl;
      conds = λ c. appended vp.cond_q cvar vp.current c u.real sane.0.waiters;
      mutexes = sane.0.lockers;
    } in
    elim (Bool-cases (timeout == no_timeout)) [
      | inl endless ↦ rw endless (block-Sane cond_wait sane u b refl refl)
      | inr timed ↦ rw timed (block_timed-Sane cond_wait timeout sane u b refl refl refl)
    ]

pub mutex_enqueue-Sane :
    (lock : Addr) {vp : Vp} → Runs vp → Sane vp → Sane (mutex_enqueue lock vp.current vp)
unfolding mutex_enqueue
mutex_enqueue-Sane lock {vp} u sane =
    block-Sane lock_wait sane u
      (record {
        states = λ a. refl;
        queue = refl;
        flags = λ a. inl refl;
        idle = refl;
        conds = sane.0.waiters;
        mutexes = λ l. appended vp.mutex_q lock vp.current l u.real sane.0.lockers;
      })
      refl refl

poll_enqueue-fields :
    (me pq : Addr) (pds : List Pollfd) (timeout : ℕ) (vp : Vp)
    → poll_enqueue me pq pds timeout vp
      ≡ set_state me io_wait (
          add_sleep_q me (if timeout == no_timeout then 1 else timeout) (record vp {
            pds = update vp.pds pq pds;
            poll_thread = update vp.poll_thread pq me;
            on_ioq = update vp.on_ioq pq true;
            io_q = append_link pq vp.io_q;
          }))
unfolding poll_enqueue
poll_enqueue-fields me pq pds timeout vp = refl

pub poll_enqueue-Sane :
    (pq : Addr) (pds : List Pollfd) (timeout : ℕ) {vp : Vp}
    → Runs vp
    → Sane vp
    → Sane (poll_enqueue vp.current pq pds timeout vp)
poll_enqueue-Sane pq pds timeout {vp} u (d, (at, wf)) =
    let usecs = if timeout == no_timeout then 1 else timeout in
    let vp₁ = record vp {
      pds = update vp.pds pq pds;
      poll_thread = update vp.poll_thread pq vp.current;
      on_ioq = update vp.on_ioq pq true;
      io_q = append_link pq vp.io_q;
    } in
    let (st, q, i, c, m, fl) = sleep-fields vp.current usecs vp₁ in
    let (at', wf', _, _) =
      add_sleep_q-Wf vp.current usecs (Wf-same refl refl wf) u.real (unflagged d u) in
    rw poll_enqueue-fields (
      Ready-Blocked io_wait d u (record {
        states = rw st (λ a. refl);
        queue = q;
        flags = rw fl (λ a. elim (eq-cases vp.current a) [
          | inl mine ↦ inr (ground arith, refl)
          | inr other ↦ inl (ground arith)
        ]);
        idle = i;
        conds = rw c d.waiters;
        mutexes = rw m d.lockers;
      }),
      (at', Wf-same refl refl wf'),
    )

cond_leave-fields :
    (cvar me : Addr) (vp : Vp)
    → let r = (cond_leave cvar me vp).0 in
      (r.heap ≡ vp.heap)
      × (r.fl_on_sleepq ≡ vp.fl_on_sleepq)
      × (r.run_q ≡ vp.run_q)
      × (r.state ≡ vp.state)
      × (r.idle_thread ≡ vp.idle_thread)
      × (r.cond_q ≡ update vp.cond_q cvar (remove_link me (vp.cond_q cvar)))
      × (r.mutex_q ≡ vp.mutex_q)
unfolding cond_leave
cond_leave-fields cvar me vp = (
  ground arith,
  ground arith,
  ground arith,
  ground arith,
  ground arith,
  ground arith,
  ground arith,
)

pub cond_leave-Sane : (cvar me : Addr) {vp : Vp} → Sane vp → Sane (cond_leave cvar me vp).0
cond_leave-Sane cvar me {vp} (d, (at, wf)) =
    let (h, f, q, s, i, c, m) = cond_leave-fields cvar me vp in
    (
      Ready-same d q s f i (rw c (λ a. removed vp.cond_q cvar me a d.waiters)) (rw m d.lockers),
      (at, Wf-same h f wf),
    )

mutex_leave-fields :
    (lock me : Addr) (vp : Vp)
    → let r = (mutex_leave lock me vp).0 in
      (r.heap ≡ vp.heap)
      × (r.fl_on_sleepq ≡ vp.fl_on_sleepq)
      × (r.run_q ≡ vp.run_q)
      × (r.state ≡ vp.state)
      × (r.idle_thread ≡ vp.idle_thread)
      × (r.cond_q ≡ vp.cond_q)
      × (r.mutex_q ≡ update vp.mutex_q lock (remove_link me (vp.mutex_q lock)))
unfolding mutex_leave
mutex_leave-fields lock me vp = (
  ground arith,
  ground arith,
  ground arith,
  ground arith,
  ground arith,
  ground arith,
  ground arith,
)

pub mutex_leave-Sane : (lock me : Addr) {vp : Vp} → Sane vp → Sane (mutex_leave lock me vp).0
mutex_leave-Sane lock me {vp} (d, (at, wf)) =
    let (h, f, q, s, i, c, m) = mutex_leave-fields lock me vp in
    (
      Ready-same d q s f i (rw c d.waiters) (rw m (λ l. removed vp.mutex_q lock me l d.lockers)),
      (at, Wf-same h f wf),
    )

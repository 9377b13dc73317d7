-- ===== src/Steps/RunQueue.antt =====
-- The run queue: who is on it, and who is on the sleep queue.
use st_win.Prelude.{
  ℕ, ◌≡◌, ◌≢◌, ◌⊎◌, inl, inr, sym, ◌∙◌, ◌==◌, Bool, true, false, [], ◌∷◌, ◌++◌, if◌then◌else◌,
  arith, eq-cases, Bool-cases,
}
use st_win.Prelude.Members.{has, Distinct, has-append_link, Distinct-append_link}
use st_win.TimeoutHeap.{Addr}
use st_win.Vp.{State, running, runnable, io_wait, cond_wait, sleeping, Vp, is_running, is_runnable}
use st_win.Sched.Invariant.{Wf}

-- Running, or ready to run.
abbrev pub is_active : State → Bool
is_active running = true
is_active runnable = true
is_active _ = false

-- The states that a time-out can end.
abbrev pub is_timed : State → Bool
is_timed sleeping = true
is_timed cond_wait = true
is_timed io_wait = true
is_timed _ = false

pub runnable-active : (s : State) → is_active s ≡ false → is_runnable s ≡ false
runnable-active s e = ground arith

pub timed-active : (s : State) → is_timed s ≡ true → is_active s ≡ false
timed-active s e = ground arith

-- Every thread on the run queue is runnable and stands there once, the idle thread is active and not on
-- it, a thread on the sleep queue is in a state that a time-out can end, and no wait queue holds a null
-- pointer.
pub record Ready (vp : Vp) : Type 0 where
  pub distinct : Distinct vp.run_q
  pub real : has 0 vp.run_q ≡ false
  pub ready : (a : Addr) → has a vp.run_q ≡ true → is_runnable (vp.state a) ≡ true
  pub timed : (a : Addr) → a ≢ 0 → vp.fl_on_sleepq a ≡ true → is_timed (vp.state a) ≡ true
  pub idle_real : vp.idle_thread ≢ 0
  pub idle_off : has vp.idle_thread vp.run_q ≡ false
  pub idle_active : is_active (vp.state vp.idle_thread) ≡ true
  pub waiters : (cvar : Addr) → has 0 (vp.cond_q cvar) ≡ false
  pub lockers : (lock : Addr) → has 0 (vp.mutex_q lock) ≡ false

-- The whole invariant: the run queue is ready, and the timeout heap holds the flagged threads.
abbrev pub Sane : Vp → Type 0
Sane vp = Ready vp × ((at : ℕ → Addr) × Wf vp at)

-- `r` is `vp` after `t` has been made runnable.
pub record Put (vp : Vp) (t : Addr) (r : Vp) : Type 0 where
  pub states : (a : Addr) → r.state a ≡ (if t == a then runnable else vp.state a)
  pub queue : r.run_q ≡ vp.run_q ++ (t ∷ [])
  pub awake : r.fl_on_sleepq t ≡ false
  pub others : (a : Addr) → a ≢ t → r.fl_on_sleepq a ≡ vp.fl_on_sleepq a
  pub idle : r.idle_thread ≡ vp.idle_thread
  pub conds : r.cond_q ≡ vp.cond_q
  pub mutexes : r.mutex_q ≡ vp.mutex_q

-- A thread that is not active is not on the run queue.
pub Ready-off :
    {vp : Vp} (t : Addr) → Ready vp → is_active (vp.state t) ≡ false → has t vp.run_q ≡ false
Ready-off {vp} t d off = elim (Bool-cases (has t vp.run_q)) [
  | inr out ↦ out
  | inl on ↦ let r = d.ready t on in let n = runnable-active (vp.state t) off in cc
]

-- Neither is one that runs.
pub Ready-running :
    {vp : Vp} (t : Addr) → Ready vp → is_running (vp.state t) ≡ true → has t vp.run_q ≡ false
Ready-running {vp} t d runs = elim (Bool-cases (has t vp.run_q)) [
  | inr out ↦ out
  | inl on ↦ let r = d.ready t on in ground arith
]

pub Ready-Put :
    {vp : Vp} (t : Addr) {r : Vp}
    → Ready vp
    → t ≢ 0
    → is_active (vp.state t) ≡ false
    → Put vp t r
    → Ready r
Ready-Put {vp} t {r} d ne off p =
    let new = Ready-off t d off in
    let other : t ≢ vp.idle_thread = λ e. let act = d.idle_active in idle_no e act in
    record {
      distinct = rw p.queue (Distinct-append_link t vp.run_q d.distinct new);
      real = rw p.queue (ground (arith, has-append_link 0 t vp.run_q, d.real));
      ready = λ a m.
          let m' : has a (vp.run_q ++ (t ∷ [])) ≡ true = rw (← p.queue) m in
          ground (arith, p.states a, has-append_link a t vp.run_q, d.ready a);
      timed = λ a a_ne on. elim (eq-cases a t) [
        | inl same ↦ let aw = p.awake in let on' = rw same at on in cc
        | inr diff ↦ ground (arith, p.states a, p.others a diff, d.timed a a_ne)
      ];
      idle_real = rw p.idle d.idle_real;
      idle_off =
          rw (p.idle, p.queue)
            (ground (arith, has-append_link vp.idle_thread t vp.run_q, d.idle_off));
      idle_active = rw p.idle (ground (arith, p.states vp.idle_thread, d.idle_active));
      waiters = λ c. rw p.conds (d.waiters c);
      lockers = λ l. rw p.mutexes (d.lockers l);
    }
  where
    idle_no : t ≡ vp.idle_thread → is_active (vp.state vp.idle_thread) ≡ true → ⊥
    idle_no e act = let off' = rw e at off in cc

-- `r` is `vp` after the thread `me`, which was running, has blocked in the state `s`.
pub record Blocked (vp : Vp) (me : Addr) (s : State) (r : Vp) : Type 0 where
  pub states : (a : Addr) → r.state a ≡ (if me == a then s else vp.state a)
  pub queue : r.run_q ≡ vp.run_q
  pub flags : (a : Addr) → (r.fl_on_sleepq a ≡ vp.fl_on_sleepq a) ⊎ ((a ≡ me) × (is_timed s ≡ true))
  pub idle : r.idle_thread ≡ vp.idle_thread
  pub conds : (c : Addr) → has 0 (r.cond_q c) ≡ false
  pub mutexes : (l : Addr) → has 0 (r.mutex_q l) ≡ false

-- The current thread runs, and is not the idle thread.
pub record Runs (vp : Vp) : Type 0 where
  pub real : vp.current ≢ 0
  pub not_idle : vp.current ≢ vp.idle_thread
  pub runs : is_running (vp.state vp.current) ≡ true

pub unflagged : {vp : Vp} → Ready vp → Runs vp → vp.fl_on_sleepq vp.current ≡ false
unflagged {vp} d u = elim (Bool-cases (vp.fl_on_sleepq vp.current)) [
  | inr off ↦ off
  | inl on ↦ let t = d.timed vp.current u.real on in let r = u.runs in ground arith
]

pub Ready-Blocked :
    {vp : Vp} (s : State) {r : Vp} → Ready vp → Runs vp → Blocked vp vp.current s r → Ready r
Ready-Blocked {vp} s {r} d u b =
    let new = Ready-running vp.current d u.runs in
    let off = unflagged d u in
    record {
      distinct = rw b.queue d.distinct;
      real = rw b.queue d.real;
      ready = λ a m.
          let m' : has a vp.run_q ≡ true = rw (← b.queue) m in
          elim (eq-cases vp.current a) [
            | inl same ↦ let new' = rw same at new in cc
            | inr diff ↦ ground (arith, b.states a, d.ready a)
          ];
      timed = λ a a_ne on. elim (b.flags a) [
        | inl same ↦ let on' = sym same ∙ on in ground (arith, b.states a, d.timed a a_ne)
        | inr (mine, t) ↦ ground (arith, b.states a)
      ];
      idle_real = rw b.idle d.idle_real;
      idle_off = rw (b.idle, b.queue) d.idle_off;
      idle_active = rw b.idle (ground (arith, b.states vp.idle_thread, d.idle_active, u.not_idle));
      waiters = b.conds;
      lockers = b.mutexes;
    }

-- Only the queues, the states, the flag and the idle thread matter.
pub Ready-same :
    {vp r : Vp}
    → Ready vp
    → r.run_q ≡ vp.run_q
    → r.state ≡ vp.state
    → r.fl_on_sleepq ≡ vp.fl_on_sleepq
    → r.idle_thread ≡ vp.idle_thread
    → ((c : Addr) → has 0 (r.cond_q c) ≡ false)
    → ((l : Addr) → has 0 (r.mutex_q l) ≡ false)
    → Ready r
Ready-same d q s f i conds mutexes = record {
  distinct = rw q d.distinct;
  real = rw q d.real;
  ready = rw (q, s) d.ready;
  timed = rw (f, s) d.timed;
  idle_real = rw i d.idle_real;
  idle_off = rw (i, q) d.idle_off;
  idle_active = rw (i, s) d.idle_active;
  waiters = conds;
  lockers = mutexes;
}

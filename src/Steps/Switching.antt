-- ===== src/Steps/Switching.antt =====
-- `_st_vp_schedule` keeps the scheduler's invariant: whom it picks, and what his resumption changes.
use st_win.Prelude.{
  ℕ, ◌≡◌, ◌≢◌, ◌⊎◌, inl, inr, refl, ◌==◌, true, false, not, ◌&&◌, ◌||◌, List, [], ◌∷◌, ◌++◌,
  if◌then◌else◌, arith, eq-cases, Bool-cases,
}
use st_win.Prelude.Members.{has, Distinct, Distinct-append_link, has-append_link}
use st_win.TimeoutHeap.{Addr}
use st_win.Vp.{State, runnable, Vp, set_state, add_runq, is_runnable}
use st_win.Sched.{pick, take_runq, resume}
use st_win.Sched.Invariant.{Wf, Wf-same}
use st_win.Steps.RunQueue.{is_active, Ready, Sane}

-- A thread that is active is taken off the run queue, and becomes the current one.
resume-Ready :
    {vp : Vp} (t : Addr) (q : List Addr)
    → Ready vp
    → Distinct q
    → ((a : Addr) → has a q ≡ true → has a vp.run_q ≡ true)
    → has 0 q ≡ false
    → has vp.idle_thread q ≡ false
    → has t q ≡ false
    → t ≢ 0
    → is_active (vp.state t) ≡ true
    → Ready (resume t (record vp { run_q = q }))
unfolding resume
resume-Ready {vp} t q d distinct less real idle off ne act = record {
  distinct = distinct;
  real = real;
  ready = λ a m. elim (eq-cases t a) [
    | inl same ↦ let off' = rw same at off in cc
    | inr diff ↦ ground (arith, d.ready a (less a m))
  ];
  timed = λ a a_ne on. elim (eq-cases t a) [
    | inl same ↦ let s = rw same at act in ground (arith, d.timed a a_ne on)
    | inr diff ↦ ground (arith, d.timed a a_ne on)
  ];
  idle_real = d.idle_real;
  idle_off = idle;
  idle_active = ground (arith, d.idle_active);
  waiters = d.waiters;
  lockers = d.lockers;
}

runnable-is_active : (s : State) → is_runnable s ≡ true → is_active s ≡ true
runnable-is_active s e = ground arith

resume-Wf : (t : Addr) {vp : Vp} {at : ℕ → Addr} → Wf vp at → Wf (resume t vp) at
unfolding resume
resume-Wf t wf = Wf-same refl refl wf

take_nil : (vp : Vp) → vp.run_q ≡ [] → take_runq vp ≡ (0, vp)
unfolding take_runq
take_nil vp e = rw e

take_head :
    (vp : Vp) (h : Addr) (q : List Addr)
    → vp.run_q ≡ h ∷ q
    → take_runq vp ≡ (h, record vp { run_q = q })
unfolding take_runq
take_head vp h q e = rw e

-- What `_st_vp_schedule` does with the head that it has taken.
pick_taken : Vp → Addr → Vp → Addr × Vp
pick_taken vp head vp₁ =
    let thread =
      if head == 0 || not (is_runnable (vp₁.state head)) then vp₁.idle_thread else head in
    if vp₁.current == thread && not (thread == vp₁.idle_thread)
    then (vp₁.idle_thread, add_runq thread vp₁)
    else (thread, vp₁)

pick_taken-lem : (vp : Vp) → pick vp ≡ pick_taken vp (take_runq vp).0 (take_runq vp).1
unfolding pick pick_taken
pick_taken-lem vp = refl

pick_nil : (vp : Vp) → vp.run_q ≡ [] → pick vp ≡ (vp.idle_thread, vp)
unfolding pick_taken
pick_nil vp e = rw (pick_taken-lem, take_nil vp e) (ground arith)

-- The idle thread if the run queue is empty; or its head, which leaves it; or the idle thread again if
-- the head is the caller itself, which goes to the end of the queue.
pick_head :
    (vp : Vp) (h : Addr) (q : List Addr)
    → vp.run_q ≡ h ∷ q
    → h ≢ 0
    → is_runnable (vp.state h) ≡ true
    → (pick vp ≡ (h, record vp { run_q = q }))
      ⊎ (pick vp ≡ (vp.idle_thread, record vp { run_q = q ++ (h ∷ []) }))
unfolding pick_taken
pick_head vp h q e ne run =
    let z : (h == 0) ≡ false = ground arith in
    elim (Bool-cases ((vp.current == h) && not (h == vp.idle_thread))) [
      | inl mine ↦ inr (rw (pick_taken-lem, take_head vp h q e, z, run, mine) refl)
      | inr other ↦ inl (rw (pick_taken-lem, take_head vp h q e, z, run, other) refl)
    ]

List-cases : (l : List Addr) → (l ≡ []) ⊎ ((h : Addr) × (q : List Addr) × (l ≡ h ∷ q))
List-cases [] = inl refl
List-cases (h ∷ q) = inr (h, q, refl)

-- The idle thread takes over; the run queue has changed at most in its order.
pub schedule-Sane : {vp : Vp} → Sane vp → Sane (resume (pick vp).0 (pick vp).1)
schedule-Sane {vp} (d, (at, wf)) = elim (List-cases vp.run_q) [
  | inl empty ↦ rw (pick_nil vp empty) (idle_next vp.run_q d.distinct (λ a m. m) d.real d.idle_off)
  | inr (h, q, e) ↦
      let distinct = rw e at d.distinct in
      let on : has h vp.run_q ≡ true = rw e (unfold has in ground arith) in
      let run = d.ready h on in
      let real : (h ≢ 0) × (has 0 q ≡ false) = cons_off 0 h q (rw e at d.real) in
      let idle = cons_off vp.idle_thread h q (rw e at d.idle_off) in
      elim (pick_head vp h q e real.0 run) [
        | inl first ↦ rw first (
          resume-Ready h q d distinct.1 (λ a m. rw e (unfold has in ground arith)) real.1 idle.1
              distinct.0 real.0 (runnable-is_active (vp.state h) run),
          (at, resume-Wf _ (Wf-same refl refl wf)),
        )
        | inr again ↦ rw again (
            idle_next (q ++ (h ∷ [])) (Distinct-append_link h q distinct.1 distinct.0)
              (λ a m. rw e (unfold has in ground (arith, has-append_link a h q)))
              (ground (arith, has-append_link 0 h q))
              (ground (arith, has-append_link vp.idle_thread h q)))
      ]
]
  where
    idle_next :
        (q : List Addr)
        → Distinct q
        → ((a : Addr) → has a q ≡ true → has a vp.run_q ≡ true)
        → has 0 q ≡ false
        → has vp.idle_thread q ≡ false
        → Sane (resume vp.idle_thread (record vp { run_q = q }))
    idle_next q distinct less real off = (
      resume-Ready vp.idle_thread q d distinct less real off off d.idle_real d.idle_active,
      (at, resume-Wf _ (Wf-same refl refl wf)),
    )

    cons_off : (a h : Addr) (q : List Addr) → has a (h ∷ q) ≡ false → (h ≢ a) × (has a q ≡ false)
    cons_off a h q e = unfold has in (ground arith, ground arith)

-- `me->state = _ST_ST_RUNNABLE` of the idle thread.
pub idle_yields-Sane : {vp : Vp} → Sane vp → Sane (set_state vp.idle_thread runnable vp)
idle_yields-Sane {vp} (d, (at, wf)) = (
  record {
    distinct = d.distinct;
    real = d.real;
    ready = λ a m. ground (arith, d.ready a m);
    timed = λ a a_ne on.
        let t = d.timed a a_ne on in
        elim (eq-cases vp.idle_thread a) [
          | inl same ↦ let act = d.idle_active in let t' = rw (← same) at t in ground arith
          | inr diff ↦ ground arith
        ];
    idle_real = d.idle_real;
    idle_off = d.idle_off;
    idle_active = ground arith;
    waiters = d.waiters;
    lockers = d.lockers;
  },
  (at, Wf-same refl refl wf),
)

-- ===== src/Sched/Clock.antt =====
-- `_st_vp_check_clock` wakes exactly the threads whose time has come, in the order of their times.
use st_win.Prelude.{
  ℕ, zero, suc, ◌+◌, ◌-◌, ◌≤◌, ◌<◌, ◌≡◌, ◌≢◌, ◌↔◌, inl, inr, refl, sym, ◌∙◌, ◌==◌, ltb, true, false,
  not, ◌%◌, ◌^◌, ◌&&◌, List, [], ◌∷◌, ◌++◌, if◌then◌else◌, arith, eq-cases, Bool-cases, append-nil,
  append_assoc,
}
use st_win.Prelude.Members.{has}
use st_win.TimeoutHeap.{Addr, heap_delete}
use st_win.TimeoutHeap.Carry.{In}
use st_win.TimeoutHeap.Insert.{IsHeap}
use st_win.TimeoutHeap.Delete.{Deleted, heap_delete-IsHeap}
use st_win.TimeoutHeap.Minimum.{due-first, root-In}
use st_win.Vp.{runnable, Vp, is_cond_wait}
use st_win.Sched.{del_sleep_q, expire, expire_loop, tick_clock, vp_check_clock}

-- The threads of the list stand in the order of their times.
abbrev pub SortedBy : (Addr → ℕ) → List Addr → Type 0
SortedBy due [] = Unit
SortedBy due (x ∷ q) = ((a : Addr) → has a q ≡ true → due x ≤ due a) × SortedBy due q

-- `r` is `vp` after the threads of `woken` have been woken at the time `now`.
pub record Expired (due : Addr → ℕ) (now : ℕ) (vp : Vp) (at : ℕ → Addr) (r : Vp) (at' : ℕ → Addr)
    (woken : List Addr) : Type 0 where
  pub heap : IsHeap r.heap at'
  pub asleep : (a : Addr) → a ≢ 0 → In at' a ↔ (In at a × (now < due a))
  pub awake : (a : Addr) → a ≢ 0 → (has a woken ≡ true) ↔ (In at a × (due a ≤ now))
  pub real : has 0 woken ≡ false
  pub sorted : SortedBy due woken
  pub queue : r.run_q ≡ vp.run_q ++ woken
  pub states : (a : Addr) → r.state a ≡ (if has a woken then runnable else vp.state a)
  pub on_sleepq : (a : Addr) → r.fl_on_sleepq a ≡ (if has a woken then false else vp.fl_on_sleepq a)
  pub timedout :
      (a : Addr)
      → r.fl_timedout a
        ≡ (if has a woken && is_cond_wait (vp.state a) then true else vp.fl_timedout a)

expire-run_q : (t : Addr) (vp : Vp) → (expire t vp).run_q ≡ vp.run_q ++ (t ∷ [])
unfolding expire del_sleep_q
expire-run_q t vp = ground arith

-- The fields of an expired thread, and those of the others.
expire-fields :
    (t : Addr) (vp : Vp) (a : Addr)
    → ((expire t vp).state a ≡ (if t == a then runnable else vp.state a))
      × ((expire t vp).fl_on_sleepq a ≡ (if t == a then false else vp.fl_on_sleepq a))
      × ((expire t vp).fl_timedout a
          ≡ (if (t == a) && is_cond_wait (vp.state a) then true else vp.fl_timedout a))
unfolding expire del_sleep_q
expire-fields t vp a = (ground arith, ground arith, ground arith)

expire-heap : (t : Addr) (vp : Vp) → (expire t vp).heap ≡ heap_delete vp.heap t
unfolding expire del_sleep_q
expire-heap t vp = ground arith

module _ {due : Addr → ℕ} (now : ℕ) (vp : Vp) {at : ℕ → Addr} (is : IsHeap vp.heap at)
    (same_due : (a : Addr) → vp.heap.due a ≡ due a) (t : Addr) (first : vp.heap.sleep_q ≡ t) where
  earliest : (a : Addr) → a ≢ 0 → In at a → (t ≢ 0) × (due t ≤ due a)
  earliest = due-first is due same_due t first

  -- Nothing is due: the loop stops.
  stops : (t ≢ 0 → now < due t) → Expired due now vp at vp at []
  unfolding has
  stops late = record {
    heap = is;
    asleep = λ a ne.
        ((λ m. (m, omega (arith, late (earliest a ne m).0, (earliest a ne m).1))), (λ m. m.0));
    awake = λ a ne. (
      (λ e. cc),
      (λ m. absurd (omega (arith, late (earliest a ne m.0).0, (earliest a ne m.0).1, m.1))),
    );
    real = refl;
    sorted = tt;
    queue = sym (append-nil vp.run_q);
    states = λ a. refl;
    on_sleepq = λ a. refl;
    timedout = λ a. refl;
  }

  steps :
      {at₁ : ℕ → Addr} {r : Vp} {at' : ℕ → Addr} {woken : List Addr}
      → t ≢ 0
      → due t ≤ now
      → Deleted vp.heap at t (expire t vp).heap at₁
      → Expired due now (expire t vp) at₁ r at' woken
      → Expired due now vp at r at' (t ∷ woken)
  unfolding has
  steps {woken} ne come d x = record {
    heap = x.heap;
    asleep = λ a a_ne. (
      (λ m. let (u, v) = (x.asleep a a_ne).0 m in (((d.members a).0 u).0, v)),
      (λ m. (x.asleep a a_ne).1 ((d.members a).1 (m.0, (λ e. late a e m.1)), m.1)),
    );
    awake = λ a a_ne. (wake a a_ne, woke a a_ne);
    real = ground (arith, x.real);
    sorted = (
      (λ a m. elim (eq-cases a 0) [
        | inl null ↦ ground (arith, x.real)
        | inr a_ne ↦ (earliest a a_ne ((d.members a).0 ((x.awake a a_ne).0 m).0).0).1
      ]),
      x.sorted,
    );
    queue = x.queue ∙ rw expire-run_q (append_assoc vp.run_q (t ∷ []) woken);
    states = λ a. ground (arith, x.states a, not_again, (expire-fields t vp a).0);
    on_sleepq = λ a. ground (arith, x.on_sleepq a, (expire-fields t vp a).1);
    timedout = λ a.
        ground (arith, x.timedout a, not_again, (expire-fields t vp a).0, (expire-fields t vp a).2);
  }
    where
      late : (a : Addr) → a ≡ t → now < due a → ⊥
      late a e lt = ground arith

      not_again : has t woken ≡ false
      not_again = elim (Bool-cases (has t woken)) [
        | inl yes' ↦ absurd (((d.members t).0 ((x.awake t ne).0 yes').0).1 refl)
        | inr no' ↦ no'
      ]

      wake : (a : Addr) → a ≢ 0 → has a (t ∷ woken) ≡ true → In at a × (due a ≤ now)
      wake a a_ne m = elim (eq-cases t a) [
        | inl e ↦ (root-In is due same_due t first a e, ground arith)
        | inr other ↦ let (u, v) = (x.awake a a_ne).0 (ground arith) in (((d.members a).0 u).0, v)
      ]

      woke : (a : Addr) → a ≢ 0 → In at a × (due a ≤ now) → has a (t ∷ woken) ≡ true
      woke a a_ne m = elim (eq-cases t a) [
        | inl e ↦ ground arith
        | inr other ↦
            let got = (x.awake a a_ne).1 ((d.members a).1 (m.0, (λ e. other (sym e))), m.1) in
            ground arith
      ]

expire_loop-suc :
    (fuel now : ℕ) (vp : Vp)
    → expire_loop (suc fuel) now vp ≡ (
        if vp.heap.sleep_q == 0
        then vp
        else if ltb now (vp.heap.due vp.heap.sleep_q)
        then vp
        else expire_loop fuel now (expire vp.heap.sleep_q vp))
unfolding expire_loop
expire_loop-suc fuel now vp = refl

-- The loop ends with every thread that is due awake, given a round for each thread of the heap.
expire_loop-Expired :
    {due : Addr → ℕ} (fuel now : ℕ) (vp : Vp) (at : ℕ → Addr)
    → IsHeap vp.heap at
    → ((a : Addr) → vp.heap.due a ≡ due a)
    → vp.heap.sleepq_size ≤ fuel
    → (at' : ℕ → Addr) × (woken : List Addr) × Expired due now vp at
        (expire_loop fuel now vp)
        at'
        woken
expire_loop-Expired zero now vp at is same enough =
    unfold expire_loop in
    (
      at,
      [],
      stops now vp is same vp.heap.sleep_q refl
          (λ ne. absurd (ne (is.lay.root ∙ is.sized.free 1 (omega arith)))),
    )
expire_loop-Expired {due} (suc fuel) now vp at is same enough =
    let t = vp.heap.sleep_q in
    rw expire_loop-suc (elim (eq-cases t 0) [
      | inl none ↦
          let stop : (t == 0) ≡ true = ground arith in
          rw stop (at, [], stops now vp is same t refl (λ ne. absurd (ne none)))
      | inr ne ↦
          let on : (t == 0) ≡ false = ground arith in
          rw on (elim (Bool-cases (ltb now (vp.heap.due t))) [
            | inl late ↦ rw late (at, [], stops now vp is same t refl (λ _. ground (arith, same t)))
            | inr come ↦
                let (at₁, d) = heap_delete-IsHeap is t ne (1, sym is.lay.root) in
                let d' : Deleted vp.heap at t (expire t vp).heap at₁ = rw expire-heap d in
                let (at', woken, x) =
                  expire_loop-Expired {due = due} fuel now (expire t vp) at₁ d'.heap
                    (λ a. d'.same_due a ∙ same a) (omega (arith, d'.size)) in
                rw come
                  (at', t ∷ woken, steps now vp is same t refl ne (ground (arith, same t)) d' x)
          ])
    ])

abbrev with_clock : Vp → ℕ → ℕ → ℕ → Vp
with_clock vp now c l = record vp { last_clock = now; curr_time = c; last_tset = l }

tick_clock_cases :
    (now wall : ℕ) (vp : Vp) → (c l : ℕ) × (tick_clock now wall vp ≡ with_clock vp now c l)
unfolding tick_clock
tick_clock_cases now wall vp =
    elim (Bool-cases
      (not (vp.curr_time == 0) && ltb 999000 ((now + 2 ^ 64 - vp.last_tset) % 2 ^ 64))) [
        | inl stale ↦ (wall, now, rw stale)
        | inr fresh ↦ (vp.curr_time, vp.last_tset, rw fresh)
      ]

vp_check_clock_lem :
    (now wall : ℕ) (vp : Vp)
    → vp_check_clock now wall vp
      ≡ expire_loop (tick_clock now wall vp).heap.sleepq_size now (tick_clock now wall vp)
unfolding vp_check_clock
vp_check_clock_lem now wall vp = refl

-- On a well-formed timeout heap `_st_vp_check_clock` wakes exactly the threads that are due at
-- `now`: they leave the heap, which stays well formed, become runnable and go to the end of the run
-- queue in the order of their times, with the time-out flag if they waited on a condition variable;
-- the states and these flags of the other threads do not change.
pub vp_check_clock-Expired :
    (now wall : ℕ) (vp : Vp) (at : ℕ → Addr)
    → IsHeap vp.heap at
    → (at' : ℕ → Addr) × (woken : List Addr) × Expired vp.heap.due now vp at
        (vp_check_clock now wall vp)
        at'
        woken
vp_check_clock-Expired now wall vp at is =
    let (c, l, e) = tick_clock_cases now wall vp in
    let vp₁ = with_clock vp now c l in
    let (at', woken, x) =
      expire_loop-Expired {due = vp.heap.due} vp.heap.sleepq_size now vp₁ at is (λ a. refl)
        (omega arith) in
    rw (vp_check_clock_lem, e)
      (
        at',
        woken,
        record {
          heap = x.heap;
          asleep = x.asleep;
          awake = x.awake;
          real = x.real;
          sorted = x.sorted;
          queue = x.queue;
          states = x.states;
          on_sleepq = x.on_sleepq;
          timedout = x.timedout;
        },
      )

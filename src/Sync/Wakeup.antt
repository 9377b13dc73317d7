-- ===== src/Sync/Wakeup.antt =====
-- `st_cond_signal` and `st_cond_broadcast`: who is woken, and in which order.
use st_win.Prelude.{
  ℕ, ◌≡◌, ◌≢◌, ◌↔◌, ◌⊎◌, inl, inr, refl, sym, ap, ◌∙◌, ◌==◌, Bool, true, false, not, ◌&&◌, Option,
  none, some, Option-cases, List, [], ◌∷◌, ◌++◌, if◌then◌else◌, arith, eq-cases, Bool-cases,
  append-nil, append_assoc,
}
use st_win.TimeoutHeap.{Addr}
use st_win.Vp.{State, runnable, Vp, ok, is_cond_wait, make_runnable}
use st_win.Sched.{leave_sleep_q, del_sleep_q}
use st_win.Prelude.Members.{has, Distinct}
use st_win.TimeoutHeap.Carry.{In}
use st_win.Sched.Invariant.{Wf, leave_sleep_q-Wf, leave_sleep_q-In}
use st_win.Sync.{wake, signal_loop, cond_signal, cond_broadcast}

-- The first element that passes the test.
unfoldable pub first : (Addr → Bool) → List Addr → Option Addr
first test [] = none
first test (x ∷ q) = if test x then some x else first test q

-- The elements that pass it, in their order.
unfoldable pub all_that : (Addr → Bool) → List Addr → List Addr
all_that test [] = []
all_that test (x ∷ q) = if test x then x ∷ all_that test q else all_that test q

abbrev pub waits_in : Vp → Addr → Bool
waits_in vp a = is_cond_wait (vp.state a)

-- `r` is `vp` after `t` has been woken.
pub record Woken (vp : Vp) (t : Addr) (r : Vp) : Type 0 where
  pub states : (a : Addr) → r.state a ≡ (if t == a then runnable else vp.state a)
  pub queue : r.run_q ≡ vp.run_q ++ (t ∷ [])
  pub awake : r.fl_on_sleepq t ≡ false
  pub others : (a : Addr) → a ≢ t → r.fl_on_sleepq a ≡ vp.fl_on_sleepq a
  pub waiters : r.cond_q ≡ vp.cond_q

wake-Woken : (t : Addr) (vp : Vp) → Woken vp t (wake t vp)
unfolding wake leave_sleep_q del_sleep_q
wake-Woken t vp = record {
  states = λ a. ground arith;
  queue = ground arith;
  awake = ground arith;
  others = λ a ne. ground arith;
  waiters = ground arith;
}

signal_loop-first :
    (q : List Addr) (vp : Vp)
    → signal_loop false q vp ≡ elim (first (waits_in vp) q) [ none ↦ vp | some t ↦ wake t vp ]
unfolding signal_loop first
signal_loop-first [] vp = refl
signal_loop-first (t ∷ q) vp = elim (Bool-cases (waits_in vp t)) [
  | inl w ↦ rw w
  | inr n ↦ rw n (signal_loop-first q vp)
]

first-has : (test : Addr → Bool) (q : List Addr) (t : Addr) → first test q ≡ some t → has t q ≡ true
unfolding first has
first-has test [] t e = cc
first-has test (x ∷ q) t e = elim (Bool-cases (test x)) [
  | inl pass ↦ ground arith
  | inr not_it ↦ let m = first-has test q t (rw not_it at e) in ground arith
]

-- The sleep queue `r` is the one of threads `at`, well formed, without `t`.
pub record Left (at : ℕ → Addr) (t : Addr) (r : Vp) : Type 0 where
  pub at' : ℕ → Addr
  pub wf : Wf r at'
  pub gone : (a : Addr) → In at' a ↔ (In at a × (a ≢ t))

wake-Left : {vp : Vp} {at : ℕ → Addr} (t : Addr) → Wf vp at → t ≢ 0 → Left at t (wake t vp)
unfolding wake
wake-Left t wf ne =
    let (at', wf', m) = leave_sleep_q-In t wf ne in
    record { at' = at'; wf = record { heap = wf'.heap; flagged = wf'.flagged }; gone = m }

-- `st_cond_signal`, with a well-formed sleep queue and a wait queue that holds no null pointer,
-- wakes the thread that has waited longest among those still in the state COND_WAIT, and no other:
-- it becomes runnable at the end of the run queue and leaves the sleep queue, that is, exactly it
-- is taken out of the timeout heap, which stays well formed, and its flag is reset. If no thread
-- waits, nothing changes. It returns 0, and leaves the wait queues alone.
pub cond_signal-Woken :
    (cvar : Addr) (vp : Vp) (at : ℕ → Addr)
    → Wf vp at
    → has 0 (vp.cond_q cvar) ≡ false
    → ((first (waits_in vp) (vp.cond_q cvar) ≡ none) × (cond_signal cvar vp ≡ (vp, ok)))
      ⊎ ((t : Addr) × (first (waits_in vp) (vp.cond_q cvar) ≡ some t)
          × ((cond_signal cvar vp).1 ≡ ok)
          × Woken vp t (cond_signal cvar vp).0
          × Left at t (cond_signal cvar vp).0)
unfolding cond_signal
cond_signal-Woken cvar vp at wf real =
    let e = signal_loop-first (vp.cond_q cvar) vp in
    elim (Option-cases (first (waits_in vp) (vp.cond_q cvar))) [
      | inl nobody ↦ inl (nobody, rw (e, nobody) refl)
      | inr (t, found) ↦
          let m = first-has (waits_in vp) (vp.cond_q cvar) t found in
          let ne : t ≢ 0 = λ z. absurd (null_in t z m) in
          inr (t, found, refl, rw (e, found) (wake-Woken t vp), rw (e, found) (wake-Left t wf ne))
    ]
  where
    null_in : (t : Addr) → t ≡ 0 → has t (vp.cond_q cvar) ≡ true → ⊥
    null_in t z m = let m₀ = rw z at m in cc

broadcast-suc :
    (t : Addr) (q : List Addr) (vp : Vp)
    → signal_loop true (t ∷ q) vp ≡ signal_loop true q (if waits_in vp t then wake t vp else vp)
unfolding signal_loop
broadcast-suc t q vp = elim (Bool-cases (waits_in vp t)) [ inl w ↦ rw w | inr n ↦ rw n ]

wake_or :
    (t : Addr) (vp : Vp) (a : Addr)
    → (if waits_in vp t then wake t vp else vp).state a
      ≡ (if t == a then (if waits_in vp t then runnable else vp.state a) else vp.state a)
wake_or t vp a = ground (arith, (wake-Woken t vp).states a)

woken_state : Bool → State → State
woken_state listed s = if listed && is_cond_wait s then runnable else s

woken_twice : (b : Bool) (s : State) → woken_state b runnable ≡ runnable
unfolding woken_state
woken_twice true s = refl
woken_twice false s = refl

unwaiting : (b : Bool) (s : State) → is_cond_wait s ≡ false → woken_state b s ≡ s
unfolding woken_state
unwaiting true s e = rw e
unwaiting false s e = refl

woken_head :
    (t a : Addr) (b c : Bool) (s w : State)
    → (t ≡ a → w ≡ s)
    → (t ≡ a → c ≡ true)
    → (t ≢ a → c ≡ b)
    → woken_state b (if t == a then (if is_cond_wait w then runnable else s) else s)
      ≡ woken_state c s
woken_head t a b c s w same there other = elim (eq-cases t a) [
  | inl e ↦
      let here : (t == a) ≡ true = ground arith in
      rw (here, same e, there e)
        (elim (Bool-cases (is_cond_wait s)) [
          | inl waits ↦ rw waits (woken_twice b s ∙ unfold woken_state in rw waits refl)
          | inr not_w ↦ rw not_w (unwaiting b s not_w ∙ sym (unwaiting true s not_w))
        ])
  | inr d ↦ let off : (t == a) ≡ false = ground arith in rw (off, other d)
]

broadcast-state :
    (q : List Addr) (vp : Vp) (a : Addr)
    → (signal_loop true q vp).state a ≡ woken_state (has a q) (vp.state a)
broadcast-state [] vp a = unfold signal_loop has woken_state in refl
broadcast-state (t ∷ q) vp a =
    let vp₁ = if waits_in vp t then wake t vp else vp in
    rw broadcast-suc (
      broadcast-state q vp₁ a
      ∙ ap (woken_state (has a q)) (wake_or t vp a)
      ∙ woken_head t a (has a q) (has a (t ∷ q)) (vp.state a) (vp.state t) (λ e. ap vp.state e)
          (unfold has in ground arith) (unfold has in ground arith))

all_that-same :
    (f g : Addr → Bool) (q : List Addr)
    → ((a : Addr) → has a q ≡ true → f a ≡ g a)
    → all_that f q ≡ all_that g q
unfolding all_that has
all_that-same f g [] same = refl
all_that-same f g (x ∷ q) same =
    let e : f x ≡ g x = same x (ground arith) in
    rw (e, all_that-same f g q (λ a m. same a (ground arith)))

broadcast-run_q :
    (q : List Addr) (vp : Vp)
    → Distinct q
    → (signal_loop true q vp).run_q ≡ vp.run_q ++ all_that (waits_in vp) q
unfolding all_that
broadcast-run_q [] vp d = unfold signal_loop in sym (append-nil vp.run_q)
broadcast-run_q (t ∷ q) vp d =
    let vp₁ = if waits_in vp t then wake t vp else vp in
    let same : all_that (waits_in vp₁) q ≡ all_that (waits_in vp) q =
      all_that-same _ _ q (λ a m. ap is_cond_wait (other a m)) in
    rw broadcast-suc (broadcast-run_q q vp₁ d.1 ∙ ap (λ r. vp₁.run_q ++ r) same ∙ put_first)
  where
    other :
        (a : Addr) → has a q ≡ true → (if waits_in vp t then wake t vp else vp).state a ≡ vp.state a
    other a m = wake_or t vp a ∙ elim (eq-cases t a) [
      | inl e ↦ let no_dup : has a q ≡ false = rw (← e) d.0 in cc
      | inr ne ↦ let off : (t == a) ≡ false = ground arith in rw off
    ]

    put_first :
        (if waits_in vp t then wake t vp else vp).run_q ++ all_that (waits_in vp) q
        ≡ vp.run_q
          ++ (if waits_in vp t then t ∷ all_that (waits_in vp) q else all_that (waits_in vp) q)
    put_first = elim (Bool-cases (waits_in vp t)) [
      | inl w ↦ rw (w, (wake-Woken t vp).queue) (append_assoc vp.run_q (t ∷ []) _)
      | inr n ↦ rw n
    ]

-- `st_cond_broadcast` on a wait queue without repetition wakes every thread of it that is in the
-- state COND_WAIT, puts them at the end of the run queue in the order of the wait queue, changes
-- the state of no other thread and returns 0.
pub cond_broadcast-wakes_all :
    (cvar : Addr) (vp : Vp)
    → Distinct (vp.cond_q cvar)
    → ((a : Addr)
        → (cond_broadcast cvar vp).0.state a
          ≡ (if has a (vp.cond_q cvar) && waits_in vp a then runnable else vp.state a))
      × ((cond_broadcast cvar vp).0.run_q ≡ vp.run_q ++ all_that (waits_in vp) (vp.cond_q cvar))
      × ((cond_broadcast cvar vp).1 ≡ ok)
unfolding cond_broadcast woken_state
cond_broadcast-wakes_all cvar vp d =
    ((λ a. broadcast-state (vp.cond_q cvar) vp a), broadcast-run_q (vp.cond_q cvar) vp d, refl)

-- Waking the threads of a wait queue that holds no null pointer keeps the sleep queue invariant.
pub signal_loop-Wf :
    (broadcast : Bool) (q : List Addr) {vp : Vp} {at : ℕ → Addr}
    → Wf vp at
    → has 0 q ≡ false
    → (at' : ℕ → Addr) × Wf (signal_loop broadcast q vp) at'
unfolding signal_loop wake has
signal_loop-Wf broadcast [] {at} wf real = (at, wf)
signal_loop-Wf broadcast (t ∷ q) {vp} {at} wf real =
    let ne : t ≢ 0 = ground arith in
    let real' : has 0 q ≡ false = ground arith in
    let (at₁, wf₁) = leave_sleep_q-Wf t wf ne in
    let woken : Wf (make_runnable t (leave_sleep_q t vp)) at₁ = record {
      heap = wf₁.heap;
      flagged = wf₁.flagged;
    } in
    elim (Bool-cases (waits_in vp t)) [
      | inr idle ↦ rw idle (signal_loop-Wf broadcast q wf real')
      | inl waits ↦ rw waits (elim (Bool-cases (not broadcast)) [
        | inl one ↦ rw one (at₁, woken)
        | inr all ↦ rw all (signal_loop-Wf broadcast q woken real')
      ])
    ]

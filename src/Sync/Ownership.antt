-- ===== src/Sync/Ownership.antt =====
-- Mutexes: who owns one, and that a free mutex keeps nobody waiting, over every interleaving of the
-- mutex operations with scheduling and interruption.
use st_win.Prelude.{
  ◌≡◌, ◌≢◌, ◌⊎◌, inl, inr, refl, ap, ◌∙◌, ◌==◌, Bool, true, false, none, some, List, [], ◌∷◌, ◌++◌,
  update, update_self, arith, eq-cases, Bool-cases, Option-cases,
}
use st_win.TimeoutHeap.{Addr}
use st_win.Vp.{State, runnable, Vp, error, eperm, ok, fail, is_lock_wait, make_runnable}
use st_win.Clist.{append_link, remove_link}
use st_win.Sched.{Swap, vp_schedule, thread_interrupt, resume, leave_sleep_q, del_sleep_q}
use st_win.Prelude.Members.{has}
use st_win.Sync.{hand_over, mutex_unlock, mutex_lock, mutex_trylock, mutex_enqueue, mutex_leave}
use st_win.Sync.Wakeup.{first}

abbrev pub locks_in : Vp → Addr → Bool
locks_in vp a = is_lock_wait (vp.state a)

-- `st_mutex_lock` by a running thread that returns 0 leaves the caller the owner, and one that
-- returns -1 does so because the mutex is not the caller's, was the caller's already or the caller
-- had been interrupted, provided that whoever resumes the caller has made it the owner or has
-- interrupted it.
pub mutex_lock-owner :
    (swap : Swap) (lock : Addr) (vp : Vp)
    → vp.current ≢ 0
    → (let r = vp_schedule swap (mutex_enqueue lock vp.current vp) in
        (r.owner lock ≡ vp.current) ⊎ (r.fl_interrupt vp.current ≡ true))
    → (((mutex_lock swap lock vp).1 ≡ ok) × ((mutex_lock swap lock vp).0.owner lock ≡ vp.current))
      ⊎ (((mutex_lock swap lock vp).1 ≡ fail)
          × (((mutex_lock swap lock vp).0.owner lock ≢ vp.current)
              ⊎ (vp.owner lock ≡ vp.current)
              ⊎ (vp.fl_interrupt vp.current ≡ true)))
unfolding mutex_lock mutex_leave
mutex_lock-owner swap lock vp ne resumed = ground arith

-- The mutex goes to the first waiter.
hand_over-first :
    (lock : Addr) (q : List Addr) (vp : Vp)
    → hand_over lock q vp ≡ elim (first (locks_in vp) q) [
      | none ↦ record vp { owner = update vp.owner lock 0 }
      | some t ↦ make_runnable t (record vp { owner = update vp.owner lock t })
    ]
unfolding hand_over first
hand_over-first lock [] vp = refl
hand_over-first lock (t ∷ q) vp = elim (Bool-cases (locks_in vp t)) [
  | inl w ↦ rw w
  | inr n ↦ rw n (hand_over-first lock q vp)
]

-- Nobody waits for a free mutex.
pub record Served (lock : Addr) (vp : Vp) : Type 0 where
  pub real : has 0 (vp.mutex_q lock) ≡ false
  pub idle :
      vp.owner lock ≡ 0
      → (a : Addr) → has a (vp.mutex_q lock) ≡ true
      → is_lock_wait (vp.state a) ≡ false

-- A step that concerns the mutex: the calls of the running thread, an interruption by anybody, and
-- the scheduler's resumption of a thread.
pub data Step (lock : Addr) (vp : Vp) : Vp → Type 0 where
  trylock : vp.current ≢ 0 → Step lock vp (mutex_trylock lock vp).0
  enqueue :
      vp.current ≢ 0
      → vp.owner lock ≢ 0
      → vp.owner lock ≢ vp.current
      → Step lock vp (mutex_enqueue lock vp.current vp)
  leave : Step lock vp (mutex_leave lock vp.current vp).0
  unlock : Step lock vp (mutex_unlock lock vp).0
  interrupt : (x : Addr) → Step lock vp (thread_interrupt x vp)
  run : (x : Addr) → Step lock vp (resume x vp)

pub data Reach (lock : Addr) (vp : Vp) : Vp → Type 0 where
  here : Reach lock vp vp
  next : {u v : Vp} → Reach lock vp u → Step lock u v → Reach lock vp v

first-none :
    (test : Addr → Bool) (q : List Addr)
    → first test q ≡ none
    → (a : Addr) → has a q ≡ true
    → test a ≡ false
unfolding first has
first-none test [] e a m = cc
first-none test (x ∷ q) e a m = elim (Bool-cases (test x)) [
  | inl pass ↦ absurd (some_ne (rw pass at e))
  | inr stop ↦ elim (eq-cases x a) [
    | inl same ↦ ground arith
    | inr other ↦ first-none test q (ground arith) a (ground arith)
  ]
]
  where
    some_ne : some x ≡ none → ⊥
    some_ne h = cc

first-has : (test : Addr → Bool) (q : List Addr) (t : Addr) → first test q ≡ some t → has t q ≡ true
unfolding first has
first-has test [] t e = cc
first-has test (x ∷ q) t e = elim (Bool-cases (test x)) [
  | inl pass ↦ ground arith
  | inr stop ↦ let m = first-has test q t (ground arith) in ground arith
]

has-remove_link : (a e : Addr) (q : List Addr) → has a q ≡ false → has a (remove_link e q) ≡ false
unfolding has remove_link
has-remove_link a e [] m = m
has-remove_link a e (x ∷ q) m = ground (arith, has-remove_link a e q)

has-append :
    (a e : Addr) (q : List Addr) → has a q ≡ false → e ≢ a → has a (append_link e q) ≡ false
unfolding has
has-append a e [] m ne = ground arith
has-append a e (x ∷ q) m ne = ground (arith, has-append a e q)

-- A step that neither frees the mutex nor lets a thread wait keeps the invariant.
Served-step :
    {lock : Addr} {u v : Vp}
    → Served lock u
    → has 0 (v.mutex_q lock) ≡ false
    → (v.owner lock ≡ 0 → u.owner lock ≡ 0)
    → ((a : Addr) → has a (v.mutex_q lock) ≡ true → has a (u.mutex_q lock) ≡ true)
    → ((a : Addr) → (v.state a ≡ u.state a) ⊎ (is_lock_wait (v.state a) ≡ false))
    → Served lock v
Served-step s real free queued states = record {
  real = real;
  idle = λ none a m. elim (states a) [
    | inl same ↦ ap is_lock_wait same ∙ s.idle (free none) a (queued a m)
    | inr no_wait ↦ no_wait
  ];
}

Served-unlock : {lock : Addr} {u : Vp} → Served lock u → Served lock (mutex_unlock lock u).0
unfolding mutex_unlock
Served-unlock {lock} {u} s = elim (Bool-cases (u.owner lock == u.current)) [
  | inr other ↦ rw other (record { real = s.real; idle = s.idle })
  | inl mine ↦
      rw (mine, hand_over-first)
        (elim (Option-cases (first (locks_in u) (u.mutex_q lock))) [
          | inl nobody ↦ rw nobody (record {
            real = s.real;
            idle = λ none a m. first-none (locks_in u) (u.mutex_q lock) nobody a m;
          })
          | inr (t, found) ↦
              let m = first-has (locks_in u) (u.mutex_q lock) t found in
              rw found (record { real = s.real; idle = λ none. absurd (owned t m none) })
        ])
]
  where
    owned : (t : Addr) → has t (u.mutex_q lock) ≡ true → update u.owner lock t lock ≡ 0 → ⊥
    owned t m e = let z : t ≡ 0 = ground arith in absurd (absurd_bool (rw z at m))
      where
        absurd_bool : has 0 (u.mutex_q lock) ≡ true → ⊥
        absurd_bool m = let r = s.real in cc

interrupt-fields :
    (x : Addr) (u : Vp)
    → ((thread_interrupt x u).owner ≡ u.owner)
      × ((thread_interrupt x u).mutex_q ≡ u.mutex_q)
      × ((a : Addr)
          → ((thread_interrupt x u).state a ≡ u.state a)
            ⊎ (is_lock_wait ((thread_interrupt x u).state a) ≡ false))
unfolding thread_interrupt leave_sleep_q del_sleep_q
interrupt-fields x u = (ground arith, ground arith, λ a. ground arith)

trylock-fields :
    (lock : Addr) (u : Vp)
    → u.current ≢ 0
    → ((mutex_trylock lock u).0.mutex_q ≡ u.mutex_q)
      × ((mutex_trylock lock u).0.state ≡ u.state)
      × ((mutex_trylock lock u).0.owner lock ≢ 0)
unfolding mutex_trylock
trylock-fields lock u ne = (ground arith, ground arith, ground arith)

leave-fields :
    (lock : Addr) (u : Vp)
    → ((mutex_leave lock u.current u).0.mutex_q lock ≡ remove_link u.current (u.mutex_q lock))
      × ((mutex_leave lock u.current u).0.state ≡ u.state)
      × ((mutex_leave lock u.current u).0.owner ≡ u.owner)
unfolding mutex_leave
leave-fields lock u = (ground arith, ground arith, ground arith)

has-remove_link' : (a e : Addr) (q : List Addr) → has a (remove_link e q) ≡ true → has a q ≡ true
has-remove_link' a e q m = elim (Bool-cases (has a q)) [
  | inl on ↦ on
  | inr off ↦ let gone = has-remove_link a e q off in cc
]

Step-Served : {lock : Addr} {u v : Vp} → Step lock u v → Served lock u → Served lock v
unfolding mutex_enqueue resume
Step-Served {lock} {u} (trylock ne) s =
    let (q, st, o) = trylock-fields lock u ne in
    Served-step s (rw q s.real) (λ none. absurd (o none)) (λ a m. rw (← q) m)
      (λ a. inl (ap (λ (f : Addr → State). f a) st))
Step-Served {lock} {u} (enqueue ne full other) s = record {
  real = rw update_self (has-append 0 u.current (u.mutex_q lock) s.real ne);
  idle = λ none. absurd (full none);
}
Step-Served {lock} {u} leave s =
    let (q, st, o) = leave-fields lock u in
    Served-step s (rw q (has-remove_link 0 u.current (u.mutex_q lock) s.real)) (λ e. rw (← o) e)
      (λ a m. has-remove_link' a u.current (u.mutex_q lock) (rw (← q) m))
      (λ a. inl (ap (λ (f : Addr → State). f a) st))
Step-Served unlock s = Served-unlock s
Step-Served {lock} {u} (interrupt x) s =
    let (o, q, st) = interrupt-fields x u in
    Served-step s (rw q s.real) (λ e. rw (← o) e) (λ a m. rw (← q) m) st
Step-Served (run x) s = Served-step s s.real (λ e. e) (λ a m. m) (λ a. ground arith)

-- From a state in which nobody waits for a free mutex, no sequence of lock, trylock and unlock
-- calls, interruptions and scheduler steps leads to one where the mutex is free and a queued thread
-- still waits for it: no wake-up is lost.
pub Reach-Served : {lock : Addr} {u v : Vp} → Served lock u → Reach lock u v → Served lock v
Reach-Served s here = s
Reach-Served s (next r st) = Step-Served st (Reach-Served s r)

-- `st_mutex_unlock` by a thread that is not the owner changes nothing but `errno` and fails with
-- EPERM. By the owner it gives the mutex to the thread that has waited longest among those in the
-- state LOCK_WAIT, which becomes runnable at the end of the run queue; if none waits the mutex is
-- free.
pub mutex_unlock-hands_over :
    (lock : Addr) (vp : Vp)
    → ((vp.owner lock ≢ vp.current) × (mutex_unlock lock vp ≡ error eperm vp))
      ⊎ ((vp.owner lock ≡ vp.current)
          × (first (locks_in vp) (vp.mutex_q lock) ≡ none)
          × (mutex_unlock lock vp ≡ (record vp { owner = update vp.owner lock 0 }, ok)))
      ⊎ ((vp.owner lock ≡ vp.current)
          × ((t : Addr) × (first (locks_in vp) (vp.mutex_q lock) ≡ some t)
              × ((mutex_unlock lock vp).0.owner lock ≡ t)
              × ((mutex_unlock lock vp).0.state t ≡ runnable)
              × ((mutex_unlock lock vp).0.run_q ≡ vp.run_q ++ (t ∷ []))
              × ((mutex_unlock lock vp).1 ≡ ok)))
unfolding mutex_unlock
mutex_unlock-hands_over lock vp = elim (eq-cases (vp.owner lock) vp.current) [
  | inr other ↦ inl (other, ground arith)
  | inl mine ↦
      let m : (vp.owner lock == vp.current) ≡ true = ground arith in
      inr (elim (Option-cases (first (locks_in vp) (vp.mutex_q lock))) [
        | inl nobody ↦ inl (mine, nobody, rw (m, hand_over-first, nobody) refl)
        | inr (t, found) ↦ inr (
          mine,
          (
            t,
            found,
            rw (m, hand_over-first, found) (update_self vp.owner lock t),
            rw (m, hand_over-first, found) (update_self vp.state t runnable),
            rw (m, hand_over-first, found) refl,
            rw m refl,
          ),
        )
      ])
]

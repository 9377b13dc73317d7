-- ===== src/Sched/Invariant.antt =====
-- The sleep queue invariant: the timeout heap is well formed, and holds exactly the threads that are
-- flagged `_ST_FL_ON_SLEEPQ`.
use st_win.Prelude.{
  ℕ, ◌+◌, ◌≡◌, ◌≢◌, ◌↔◌, inl, inr, refl, sym, ◌∙◌, Bool, true, false, ◌||◌, if◌then◌else◌, update,
  update_self, update_ne, arith, eq-cases, lt-cases, Bool-cases, ◌%◌, ◌^◌, ◌/◌,
}
use st_win.TimeoutHeap.{Addr, Heap}
use st_win.TimeoutHeap.Layout.{Layout}
use st_win.TimeoutHeap.Carry.{In, Held, Ordered}
use st_win.TimeoutHeap.Insert.{IsHeap, heap_insert-IsHeap}
use st_win.TimeoutHeap.Delete.{heap_delete-IsHeap}
use st_win.Vp.{Vp, is_zombie, is_running, is_runnable}
use st_win.Sched.{
  enter_heap, add_sleep_q, del_sleep_q, leave_sleep_q, vp_check_clock, thread_interrupt,
}
use st_win.Sched.Clock.{vp_check_clock-Expired}
use st_win.Prelude.Members.{has}

pub record Wf (vp : Vp) (at : ℕ → Addr) : Type 0 where
  pub heap : IsHeap vp.heap at
  pub flagged : (a : Addr) → a ≢ 0 → (vp.fl_on_sleepq a ≡ true) ↔ In at a

-- Only the heap and the flag matter.
pub Wf-same :
    {vp vp' : Vp} {at : ℕ → Addr}
    → vp'.heap ≡ vp.heap
    → vp'.fl_on_sleepq ≡ vp.fl_on_sleepq
    → Wf vp at
    → Wf vp' at
Wf-same h f wf = record { heap = rw h wf.heap; flagged = λ a ne. rw f (wf.flagged a ne) }

-- The heap before the new thread is put in: its time and index are set, the size is counted up.
enter_heap-Layout :
    {h : Heap} {at : ℕ → Addr} (x : Addr) (due : ℕ)
    → IsHeap h at
    → ((i : ℕ) → at i ≢ x)
    → Layout (enter_heap h x due) at
unfolding enter_heap
enter_heap-Layout x due is fresh = record {
  root = is.lay.root;
  null = is.lay.null;
  left = is.lay.left;
  right = is.lay.right;
  index = λ i d. ground (arith, is.lay.index i d, fresh i);
}

enter_heap-Ordered :
    {h : Heap} {at : ℕ → Addr} (x : Addr) (due : ℕ)
    → IsHeap h at
    → ((i : ℕ) → at i ≢ x)
    → Ordered (enter_heap h x due).due at
unfolding enter_heap
enter_heap-Ordered x due is fresh i two d =
    ground (arith, is.ordered i two d, fresh i, fresh (i / 2))

-- A thread joins, and its flag is set; a thread leaves, and its flag is reset.
flagged_join :
    (f : Addr → Bool) {at at' : ℕ → Addr} (x a : Addr)
    → ((f a ≡ true) ↔ In at a)
    → (In at' a ↔ Held at x a)
    → (update f x true a ≡ true) ↔ In at' a
flagged_join f x a old new = (
  (λ e. elim (eq-cases x a) [
    | inl same ↦ new.1 (inr (sym same))
    | inr other ↦ new.1 (inl (old.0 (ground arith)))
  ]),
  (λ m. elim (eq-cases x a) [
    | inl same ↦ ground arith
    | inr other ↦
        rw update_ne (elim (new.0 m) [ inl old_in ↦ old.1 old_in | inr e ↦ absurd (other (sym e)) ])
  ]),
)

flagged_leave :
    (f : Addr → Bool) {at at' : ℕ → Addr} (x a : Addr)
    → ((f a ≡ true) ↔ In at a)
    → (In at' a ↔ (In at a × (a ≢ x)))
    → (update f x false a ≡ true) ↔ In at' a
flagged_leave f x a old new = (
  (λ e. new.1 (old.0 (ground arith), ground arith)),
  (λ m. let u = old.1 (new.0 m).0 in let d = (new.0 m).1 in ground arith),
)

-- `_st_add_sleep_q` of a thread that is not asleep puts it into the heap with its wake-up time, and
-- keeps the sleep queue invariant: the heap is well formed and holds exactly the flagged threads.
pub add_sleep_q-Wf :
    {vp : Vp} {at : ℕ → Addr} (x : Addr) (timeout : ℕ)
    → Wf vp at
    → x ≢ 0
    → vp.fl_on_sleepq x ≡ false
    → (at' : ℕ → Addr) × Wf (add_sleep_q x timeout vp) at'
      × In at' x
      × ((add_sleep_q x timeout vp).heap.due x ≡ (vp.last_clock + timeout) % 2 ^ 64)
unfolding add_sleep_q
add_sleep_q-Wf {vp} {at} x timeout wf ne off =
    let due = (vp.last_clock + timeout) % 2 ^ 64 in
    let fresh : (i : ℕ) → at i ≢ x = λ i e. ground (arith, (wf.flagged x ne).1 (i, e)) in
    let (at', ins) =
      heap_insert-IsHeap (enter_heap-Layout x due wf.heap fresh) wf.heap.sized
        (enter_heap-Ordered x due wf.heap fresh) fresh ne (unfold enter_heap in refl)
        (unfold enter_heap in update_self vp.heap.heap_index x _) in
    (
      at',
      record {
        heap = ins.heap;
        flagged = λ a a_ne. flagged_join vp.fl_on_sleepq x a (wf.flagged a a_ne) (ins.members a);
      },
      (ins.members x).1 (inr refl),
      ins.same_due x ∙ (unfold enter_heap in update_self vp.heap.due x _),
    )

-- `_st_del_sleep_q` of a thread that is asleep takes exactly it out of the heap and keeps the sleep
-- queue invariant.
pub del_sleep_q-Wf :
    {vp : Vp} {at : ℕ → Addr} (x : Addr)
    → Wf vp at
    → x ≢ 0
    → vp.fl_on_sleepq x ≡ true
    → (at' : ℕ → Addr) × Wf (del_sleep_q x vp) at' × ((a : Addr) → In at' a ↔ (In at a × (a ≢ x)))
unfolding del_sleep_q
del_sleep_q-Wf {vp} x wf ne on =
    let (at', d) = heap_delete-IsHeap wf.heap x ne ((wf.flagged x ne).0 on) in
    (
      at',
      record {
        heap = d.heap;
        flagged = λ a a_ne. flagged_leave vp.fl_on_sleepq x a (wf.flagged a a_ne) (d.members a);
      },
      d.members,
    )

still_on :
    (w b : Bool) {r : Bool} → r ≡ (if w then false else b) → r ≡ true → (w ≡ false) × (b ≡ true)
still_on w b e on = ground arith

-- `_st_vp_check_clock` keeps the sleep queue invariant.
pub vp_check_clock-Wf :
    (now wall : ℕ) {vp : Vp} {at : ℕ → Addr}
    → Wf vp at
    → (at' : ℕ → Addr) × Wf (vp_check_clock now wall vp) at'
vp_check_clock-Wf now wall {vp} {at} wf =
    let (at', woken, x) = vp_check_clock-Expired now wall vp at wf.heap in
    (
      at',
      record {
        heap = x.heap;
        flagged = λ a ne. (
          (λ e.
              let (off, on) = still_on (has a woken) _ (x.on_sleepq a) e in
              let m = (wf.flagged a ne).0 on in
              elim (lt-cases now (vp.heap.due a)) [
                | inl later ↦ (x.asleep a ne).1 (m, later)
                | inr come ↦ let got = (x.awake a ne).1 (m, come) in cc
              ]),
          (λ m.
              let (old, later) = (x.asleep a ne).0 m in
              let on = (wf.flagged a ne).1 old in
              elim (Bool-cases (has a woken)) [
                | inl woke ↦ absurd (omega (arith, ((x.awake a ne).0 woke).1))
                | inr slept ↦ x.on_sleepq a ∙ rw slept on
              ]),
        );
      },
    )

-- A thread that is not asleep is not in the heap.
not_in :
    {vp : Vp} {at : ℕ → Addr} (x a : Addr)
    → Wf vp at
    → x ≢ 0
    → vp.fl_on_sleepq x ≡ false
    → In at a ↔ (In at a × (a ≢ x))
not_in {at} x a wf ne off = ((λ m. (m, λ same. asleep (rw same at m))), λ m. m.0)
  where
    asleep : In at x → ⊥
    asleep m = let on = (wf.flagged x ne).1 m in cc

-- Afterwards the thread is not in the heap, and every other thread of it is.
pub leave_sleep_q-In :
    {vp : Vp} {at : ℕ → Addr} (x : Addr)
    → Wf vp at
    → x ≢ 0
    → (at' : ℕ → Addr) × Wf (leave_sleep_q x vp) at' × ((a : Addr) → In at' a ↔ (In at a × (a ≢ x)))
unfolding leave_sleep_q
leave_sleep_q-In {vp} {at} x wf ne = elim (Bool-cases (vp.fl_on_sleepq x)) [
  | inl on ↦ rw on (del_sleep_q-Wf x wf ne on)
  | inr off ↦ rw off (at, wf, λ a. not_in x a wf ne off)
]

pub leave_sleep_q-Wf :
    {vp : Vp} {at : ℕ → Addr} (x : Addr)
    → Wf vp at
    → x ≢ 0
    → (at' : ℕ → Addr) × Wf (leave_sleep_q x vp) at'
leave_sleep_q-Wf x wf ne = let (at', wf', m) = leave_sleep_q-In x wf ne in (at', wf')

-- `st_thread_interrupt` of a thread keeps the sleep queue invariant.
pub thread_interrupt-Wf :
    {vp : Vp} {at : ℕ → Addr} (x : Addr)
    → Wf vp at
    → x ≢ 0
    → (at' : ℕ → Addr) × Wf (thread_interrupt x vp) at'
unfolding thread_interrupt
thread_interrupt-Wf {vp} {at} x wf ne =
    let vp₁ = record vp { fl_interrupt = update vp.fl_interrupt x true } in
    let wf₁ : Wf vp₁ at = record { heap = wf.heap; flagged = wf.flagged } in
    let (at', wf') = leave_sleep_q-Wf x wf₁ ne in
    elim (Bool-cases (is_zombie (vp.state x))) [
      | inl dead ↦ rw dead (at, wf)
      | inr live ↦
          rw live (elim (Bool-cases (is_running (vp.state x) || is_runnable (vp.state x))) [
            | inl active ↦ rw active (at, wf₁)
            | inr blocked ↦ rw blocked (at', record { heap = wf'.heap; flagged = wf'.flagged })
          ])
    ]

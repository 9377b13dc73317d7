-- ===== src/Thread/Placement.antt =====
-- `st_thread_create`: where the thread object, its data and its stack lie, and what the new thread is.
use st_win.Prelude.{
  ℕ, ◌+◌, ◌*◌, ◌%◌, ◌≤◌, ◌<◌, ◌≡◌, ◌≢◌, ◌⊎◌, inl, inr, refl, ◌==◌, Bool, true, false, [], ◌∷◌, ◌++◌,
  update, update_self, arith, Bool-cases, lt-cases,
}
use st_win.Prelude.Int.{incr}
use st_win.TimeoutHeap.{Addr}
use st_win.Vp.{runnable}
use st_win.Prelude.Members.{has}
use st_win.Sync.{cond_new}
use st_win.Key.{keys_max}
use st_win.Stk.{Stacks, stack_new}
use st_win.Stk.Redzone.{Guarded, Sound, stack_new-Issued}
use st_win.Thread.{
  System, Abi, Alloc, stack_pad_size, stack_bytes, thread_at, sp_at, clear_thread, init_thread,
  launch, make_joinable, build_thread, thread_create,
}

-- `r` is `s` with a thread `t` created on the stack object `ts`.
pub record Created (abi : Abi) (start arg : Addr) (ts t : Addr) (s r : System) : Type 0 where
  pub place : t ≡ thread_at abi (s.stacks.stk_top ts)
  pub stacks :
      r.stacks ≡ record s.stacks { sp = update s.stacks.sp ts (sp_at abi (s.stacks.stk_top ts)) }
  pub stack : r.vp.stack t ≡ ts
  pub begins : r.vp.start t ≡ start
  pub given : r.vp.arg t ≡ arg
  pub state : r.vp.state t ≡ runnable
  pub calm : r.vp.fl_interrupt t ≡ false
  pub queue : r.vp.run_q ≡ s.vp.run_q ++ (t ∷ [])
  pub count : r.vp.active_count ≡ incr s.vp.active_count
  pub empty : (key : ℕ) → r.keys.private_data t key ≡ 0
  pub others : (a : Addr) → a ≢ t → r.vp.state a ≡ s.vp.state a

abbrev with_term : Addr → Addr → System → System
with_term cond thread s = record s {
  vp = record s.vp { cond_q = update s.vp.cond_q cond []; term = update s.vp.term thread cond };
}

make_joinable-cases :
    (cond thread : Addr) (s : System)
    → ((make_joinable cond thread s).1 ≡ 0)
      ⊎ (make_joinable cond thread s ≡ (launch thread (with_term cond thread s), thread))
unfolding make_joinable cond_new
make_joinable-cases cond thread s = elim (Bool-cases (cond == 0)) [
  | inl failed ↦ rw failed (inl refl)
  | inr made ↦ rw (made, made) (inr refl)
]

-- The thread object is set up, and not yet started.
abbrev set_up : Abi → Alloc → Addr → Addr → Addr → System → System
set_up abi alloc start arg ts s =
    let top = s.stacks.stk_top ts in
    let thread = thread_at abi top in
    record s {
      stacks = record s.stacks { sp = update s.stacks.sp ts (sp_at abi top) };
      keys = record s.keys { private_data = update s.keys.private_data thread (λ key. 0) };
      vp = init_thread thread ts start arg alloc.fiber s.vp;
    }

launch-Created :
    (abi : Abi) (alloc : Alloc) (start arg ts : Addr) (s : System)
    → (let t = thread_at abi (s.stacks.stk_top ts) in
        Created abi start arg ts t s (launch t (set_up abi alloc start arg ts s)))
unfolding launch init_thread clear_thread
launch-Created abi alloc start arg ts s = record {
  place = refl;
  stacks = refl;
  stack = ground arith;
  begins = ground arith;
  given = ground arith;
  state = ground arith;
  calm = ground arith;
  queue = refl;
  count = refl;
  empty = λ key. ground arith;
  others = λ a ne. ground arith;
}

launch-Created_term :
    (abi : Abi) (alloc : Alloc) (start arg ts : Addr) (s : System)
    → (let t = thread_at abi (s.stacks.stk_top ts) in
        Created abi start arg ts t s
          (launch t (with_term alloc.cond t (set_up abi alloc start arg ts s))))
unfolding launch
launch-Created_term abi alloc start arg ts s =
    let c = launch-Created abi alloc start arg ts s in
    record {
      place = c.place;
      stacks = c.stacks;
      stack = c.stack;
      begins = c.begins;
      given = c.given;
      state = c.state;
      calm = c.calm;
      queue = c.queue;
      count = c.count;
      empty = c.empty;
      others = c.others;
    }

build_thread-Created :
    (abi : Abi) (alloc : Alloc) (start arg : Addr) (joinable : Bool) (ts : Addr) (s : System)
    → (let r = build_thread abi alloc start arg joinable ts s in
        (r.1 ≡ 0) ⊎ Created abi start arg ts r.1 s r.0)
unfolding build_thread
build_thread-Created abi alloc start arg false ts s = inr (launch-Created abi alloc start arg ts s)
build_thread-Created abi alloc start arg true ts s =
    elim (make_joinable-cases alloc.cond _ (set_up abi alloc start arg ts s)) [
      | inl failed ↦ inl failed
      | inr e ↦ inr (rw e (launch-Created_term abi alloc start arg ts s))
    ]

-- What `st_thread_create` puts at the top of the stack, the alignment included.
abbrev pub overhead : Abi → ℕ
overhead abi = keys_max * abi.pointer_size + abi.thread_size + 63 + stack_pad_size

-- The private data, the thread object and the stack below it lie in the usable part of the stack `ts`,
-- in this order and apart from each other; the stack pointer is aligned.
pub record Placed (abi : Abi) (pagesize : ℕ) (ts t : Addr) (s : Stacks) : Type 0 where
  pub guard : s.vaddr ts + pagesize ≤ s.stk_bottom ts
  pub room : s.stk_bottom ts ≤ s.sp ts
  pub pad : s.sp ts + stack_pad_size ≤ t
  pub aligned : s.sp ts % 64 ≡ 0
  pub contents : t + abi.thread_size + keys_max * abi.pointer_size ≡ s.stk_top ts
  pub above : s.stk_top ts + pagesize ≤ s.vaddr ts + s.vaddr_size ts

sp_at_lem :
    (abi : Abi) (top room : ℕ)
    → overhead abi ≤ room
    → room ≤ top
    → (top ≤ sp_at abi top + room)
      × (sp_at abi top + stack_pad_size ≤ thread_at abi top)
      × (sp_at abi top % 64 ≡ 0)
      × (thread_at abi top + abi.thread_size + keys_max * abi.pointer_size ≡ top)
sp_at_lem abi top room enough fits = (ground arith, ground arith, ground arith, ground arith)

Created-Placed :
    {abi : Abi} {start arg ts t : Addr} {s r : System} (pagesize size : ℕ)
    → Created abi start arg ts t s r
    → Guarded pagesize s.stacks ts
    → size ≤ s.stacks.stk_size ts
    → overhead abi ≤ size
    → Placed abi pagesize ts t r.stacks
Created-Placed {abi} {ts} {s} pagesize size c g fits enough =
    let top = s.stacks.stk_top ts in
    let (room, pad, aligned, contents) =
      sp_at_lem abi top (s.stacks.stk_size ts) (omega (arith, fits, enough))
        (omega (arith, g.size)) in
    rw (c.stacks, c.place)
      (record {
        guard = g.below;
        room = rw update_self (omega (arith, g.size, room));
        pad = rw update_self pad;
        aligned = rw update_self aligned;
        contents = contents;
        above = g.above;
      })

-- The state in which `st_thread_create` has its stack.
abbrev pub with_stack : ℕ → Alloc → System → System
with_stack stk_size alloc s = record s {
  stacks =
      (stack_new s.vp.pagesize (stack_bytes s.vp.pagesize stk_size) alloc.object alloc.segment
        alloc.rand s.stacks).0;
}

-- `st_thread_create`, over sound free stacks and with a new stack object, returns null, or a new
-- thread that is runnable at the end of the run queue, counted, with null data for every key.
-- Unless the size of the stack is too small for them, the key data, the thread object and the stack
-- lie apart from each other between the red zones of the stack, and the stack pointer is aligned.
pub thread_create-Created :
    (abi : Abi) (alloc : Alloc) (start arg : Addr) (joinable : Bool) (stk_size : ℕ) (s : System)
    → Sound s.vp.pagesize s.stacks
    → has alloc.object s.stacks.free_stacks ≡ false
    → (let r = thread_create abi alloc start arg joinable stk_size s in
        (r.1 ≡ 0)
        ⊎ ((ts : Addr) × Created abi start arg ts r.1 (with_stack stk_size alloc s) r.0
            × ((stack_bytes s.vp.pagesize stk_size < overhead abi)
                ⊎ Placed abi s.vp.pagesize ts r.1 r.0.stacks)))
unfolding thread_create
thread_create-Created abi alloc start arg joinable stk_size s sound fresh =
    let size = stack_bytes s.vp.pagesize stk_size in
    let new = stack_new s.vp.pagesize size alloc.object alloc.segment alloc.rand s.stacks in
    let i =
      stack_new-Issued s.vp.pagesize size alloc.object alloc.segment alloc.rand s.stacks sound
        fresh in
    elim (Bool-cases (new.1 == 0)) [
      | inl none ↦ rw none (inl refl)
      | inr real ↦
          let (g, fits) = i.fits (ground arith) in
          rw real
            (elim (build_thread-Created abi alloc start arg joinable new.1
              (with_stack stk_size alloc s)) [
                | inl failed ↦ inl failed
                | inr c ↦ inr (
                  new.1,
                  c,
                  elim (lt-cases size (overhead abi)) [
                    | inl small ↦ inl small
                    | inr enough ↦ inr (Created-Placed s.vp.pagesize size c g fits enough)
                  ],
                )
              ])
    ]

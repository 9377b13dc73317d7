-- ===== src/Server/Serving.antt =====
-- The threads of a socket from the start of the process on: `start_threads`, and then any run of them.
use st_win.Prelude.{
  ℕ, zero, suc, ◌+◌, ◌≤◌, ◌<◌, ◌≡◌, ◌⊎◌, inl, inr, refl, ap, ◌∙◌, arith, Bool, true, false, none,
  some, List, [], ◌∷◌, length, lt-cases,
}
use st_win.Prelude.Int.{pos, incr, is_nonzero}
use st_win.Server.{Config, set_thread_throttling}
use st_win.Server.Throttling.{set_thread_throttling-shares}
use st_win.Server.Pool.{Counts, start_loop, start_threads, Pool, Reach, all_testing}
use st_win.Server.Counters.{waiting_of, serving_of, Counted, Counted-numbers, Reach-Counted}

start_loop-fields :
    (results : List Bool) (s : Counts) (w : ℕ)
    → s.wait_threads ≡ pos w
    → let r = start_loop results s in
      (r.wait_threads ≡ pos (w + length (all_testing results))) × (r.busy_threads ≡ s.busy_threads)
unfolding start_loop incr
start_loop-fields [] s w e = (e ∙ ap pos (omega arith), refl)
start_loop-fields (false ∷ results) s w e = start_loop-fields results s w e
start_loop-fields (true ∷ results) s w e =
    let more : incr s.wait_threads ≡ pos (suc w) = rw e refl in
    let (f, g) =
      start_loop-fields results (record s { wait_threads = incr s.wait_threads }) (suc w) more in
    (f ∙ ap pos (omega arith), g)

all_testing-counts :
    (results : List Bool)
    → (waiting_of (all_testing results) ≡ length (all_testing results))
      × (serving_of (all_testing results) ≡ 0)
      × (length (all_testing results) ≤ length results)
all_testing-counts [] = (refl, refl, omega arith)
all_testing-counts (true ∷ r) =
    let (w, b, le) = all_testing-counts r in (ap suc w, b, omega (arith, le))
all_testing-counts (false ∷ r) = let (w, b, le) = all_testing-counts r in (w, b, omega (arith, le))

abbrev zero_counts : Counts
zero_counts = record { wait_threads = pos 0; busy_threads = pos 0; rqst_count = 0 }

started-fields :
    (results : List Bool)
    → ((start_loop results zero_counts).wait_threads ≡ pos (length (all_testing results)))
      × ((start_loop results zero_counts).busy_threads ≡ pos 0)
started-fields results =
    let (f, g) = start_loop-fields results zero_counts 0 refl in (f ∙ ap pos (omega arith), g)

-- A process that does not exit has the counters of the loop, and a thread.
start_threads-lem :
    (results : List Bool) (s : Counts)
    → start_threads results ≡ some s
    → (start_loop results zero_counts ≡ s) × (1 ≤ length (all_testing results))
unfolding start_threads is_nonzero
start_threads-lem results s e =
    let (f, g) = started-fields results in
    elim (lt-cases 0 (length (all_testing results))) [
      | inl some_made ↦
          let on : is_nonzero (start_loop results zero_counts).wait_threads ≡ true =
            rw f (positive _ some_made) in
          (some_inj (rw on at e), some_made)
      | inr nothing ↦
          let z : (start_loop results zero_counts).wait_threads ≡ pos 0 =
            f ∙ ap pos (omega arith) in
          absurd (none_some (rw z at e))
    ]
  where
    none_some : none ≡ some s → ⊥
    none_some h = cc

    some_inj : {x : Counts} → some x ≡ some s → x ≡ s
    some_inj h = cc

    positive : (n : ℕ) → 0 < n → is_nonzero (pos n) ≡ true
    positive zero lt = absurd (omega (arith, lt))
    positive (suc n) lt = refl

-- For the threads that `start_threads` makes for a socket, with as many calls of `st_thread_create`
-- as the limit of spare threads of `set_thread_throttling`, all successful unless thread creation
-- may fail: whatever they do in `handle_connections`, in any order, `wait_threads` and
-- `busy_threads` are the numbers of the threads that wait and that serve, there are at most
-- `max_threads` of them, and `min_wait_threads` or more wait, unless there are `max_threads` or
-- thread creation may fail.
pub serving_pool-Counted :
    (fdlimit : ℕ) (c : Config) (fails : Bool) (results : List Bool) {s : Counts} {v : Pool}
    → 0 < c.vp_count
    → start_threads results ≡ some s
    → length results ≡ (set_thread_throttling fdlimit c).max_wait_threads
    → (fails ≡ true) ⊎ (length (all_testing results) ≡ length results)
    → Reach
        (set_thread_throttling fdlimit c)
        fails
        (record { counts = s; members = all_testing results })
        v
    → Counted (set_thread_throttling fdlimit c) fails v
serving_pool-Counted fdlimit c fails results {s} vps started len made reach =
    let (least, most, _, _) = set_thread_throttling-shares fdlimit c vps in
    let (is, pos_n) = start_threads-lem results s started in
    let (f, g) = started-fields results in
    let (ws, bs, le) = all_testing-counts results in
    let waits : s.wait_threads ≡ pos (length (all_testing results)) = rw (← is) f in
    let serves : s.busy_threads ≡ pos 0 = rw (← is) g in
    Reach-Counted least reach (
      Counted-numbers (length (all_testing results)) 0 ws bs waits serves (omega arith)
        (elim made [ inl fl ↦ inl fl | inr all_made ↦ inr (inl (omega arith)) ]))

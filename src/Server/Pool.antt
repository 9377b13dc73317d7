-- ===== src/Server/Pool.antt =====
-- examples/server.c: the threads that serve one listening socket (start_threads, handle_connections,
-- handle_session). `handle_connections` is cut where it waits: Phase says where a thread is, and Step
-- is what one thread does from there to the next such place.
use st_win.Prelude.{
  ℕ, zero, suc, ◌+◌, ◌≡◌, ◌⊎◌, ◌==◌, ltb, Bool, true, false, ◌&&◌, Option, none, some, List, [],
  ◌∷◌, ◌++◌, if◌then◌else◌,
}
use st_win.Prelude.Int.{ℤ, pos, negsuc, incr, decr, is_nonzero}
use st_win.Server.{Config}

-- The counters of a `struct socket_info`.
pub record Counts : Type 0 where
  pub wait_threads : ℤ
  pub busy_threads : ℤ
  pub rqst_count : ℕ

-- `z < n`
abbrev pub ltz : ℤ → ℕ → Bool
ltz (pos k) n = ltb k n
ltz (negsuc k) n = true

abbrev pub addz : ℤ → ℤ → ℤ
addz (pos a) (pos b) = pos (a + b)
addz (pos zero) z = z
addz z (pos zero) = z
addz (pos (suc a)) (negsuc zero) = pos a
addz (pos (suc a)) (negsuc (suc b)) = addz (pos a) (negsuc b)
addz (negsuc zero) (pos (suc b)) = pos b
addz (negsuc (suc a)) (pos (suc b)) = addz (negsuc a) (pos b)
addz (negsuc a) (negsuc b) = negsuc (suc (a + b))

-- `TOTAL_THREADS(i)`
abbrev pub total_threads : Counts → ℤ
total_threads s = addz s.wait_threads s.busy_threads

-- The loop of `start_threads` over the threads of one socket, with the results of `st_thread_create`.
unfoldable pub start_loop : List Bool → Counts → Counts
start_loop [] s = s
start_loop (made ∷ results) s =
    start_loop results (if made then record s { wait_threads = incr s.wait_threads } else s)

-- `start_threads` for one socket; `none` where the process exits because it has no thread.
unfoldable pub start_threads : List Bool → Option Counts
start_threads results =
    let s =
      start_loop results (record { wait_threads = pos 0; busy_threads = pos 0; rqst_count = 0 }) in
    if is_nonzero s.wait_threads then some s else none

-- `while (WAIT_THREADS(i) <= max_wait_threads)`
unfoldable pub goes_on : Config → Counts → Bool
goes_on c s = ltz s.wait_threads (suc c.max_wait_threads)

-- `WAIT_THREADS(i)--; BUSY_THREADS(i)++;`
unfoldable pub take_connection : Counts → Counts
take_connection s = record s {
  wait_threads = decr s.wait_threads;
  busy_threads = incr s.busy_threads;
}

-- The test for another spare thread.
unfoldable pub wants_spare : Config → Counts → Bool
wants_spare c s = ltz s.wait_threads c.min_wait_threads && ltz (total_threads s) c.max_threads

-- After `st_accept` has returned a descriptor, with the result of `st_thread_create`; the flag says
-- whether there is a new thread.
unfoldable pub accepted : Config → Bool → Counts → Counts × Bool
unfolding take_connection wants_spare
accepted c made s =
    let s₁ = take_connection s in
    if wants_spare c s₁ && made
    then (record s₁ { wait_threads = incr s₁.wait_threads }, true)
    else (s₁, false)

-- `handle_session`, with the results of `st_read` and `st_write` of a reply of `n` bytes
unfoldable pub handle_session : ℕ → ℤ → ℤ → Counts → Counts
handle_session n (negsuc e) written s = s
handle_session n (pos k) (negsuc e) s = s
handle_session n (pos k) (pos w) s =
    if w == n then record s { rqst_count = s.rqst_count + 1 } else s

-- After the session: `WAIT_THREADS(i)++; BUSY_THREADS(i)--;`
unfoldable pub end_session : Counts → Counts
end_session s = record s { wait_threads = incr s.wait_threads; busy_threads = decr s.busy_threads }

-- After the loop.
unfoldable pub retire : Counts → Counts
retire s = record s { wait_threads = decr s.wait_threads }

-- Where a thread is: before the test of the loop, in `st_accept`, or in `handle_session`.
pub data Phase : Type 0 where
  testing accepting serving : Phase

pub record Pool : Type 0 where
  pub counts : Counts
  pub members : List Phase

abbrev pub newcomer : Bool → List Phase
newcomer true = testing ∷ []
newcomer false = []

-- `fails` says whether `st_thread_create` may fail.
pub data Step (c : Config) (fails : Bool) : Pool → Pool → Type 0 where
  enter :
      {s : Counts} (p q : List Phase)
      → goes_on c s ≡ true
      → Step c fails
          (record { counts = s; members = p ++ (testing ∷ q) })
          (record { counts = s; members = p ++ (accepting ∷ q) })
  leave :
      {s : Counts} (p q : List Phase)
      → goes_on c s ≡ false
      → Step c fails
          (record { counts = s; members = p ++ (testing ∷ q) })
          (record { counts = retire s; members = p ++ q })
  accept_fails :
      {s : Counts} (p q : List Phase)
      → Step c fails
          (record { counts = s; members = p ++ (accepting ∷ q) })
          (record { counts = s; members = p ++ (testing ∷ q) })
  accept :
      {s : Counts} (p q : List Phase) (made : Bool)
      → (fails ≡ true) ⊎ (made ≡ true)
      → Step c fails
          (record { counts = s; members = p ++ (accepting ∷ q) })
          (record {
            counts = (accepted c made s).0;
            members = p ++ (serving ∷ (q ++ newcomer (accepted c made s).1));
          })
  serve :
      {s : Counts} (p q : List Phase) (n : ℕ) (got written : ℤ)
      → Step c fails
          (record { counts = s; members = p ++ (serving ∷ q) })
          (record {
            counts = end_session (handle_session n got written s);
            members = p ++ (testing ∷ q);
          })

pub data Reach (c : Config) (fails : Bool) (s : Pool) : Pool → Type 0 where
  here : Reach c fails s s
  next : {u v : Pool} → Reach c fails s u → Step c fails u v → Reach c fails s v

abbrev pub all_testing : List Bool → List Phase
all_testing [] = []
all_testing (true ∷ r) = testing ∷ all_testing r
all_testing (false ∷ r) = all_testing r

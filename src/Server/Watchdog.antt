-- ===== src/Server/Watchdog.antt =====
-- examples/server.c: the server processes and the watchdog that replaces them (start_processes).
use st_win.Prelude.{
  ℕ, zero, suc, ◌≡◌, ◌==◌, Bool, true, false, List, [], ◌∷◌, if◌then◌else◌, update,
}
use st_win.Prelude.Int.{ℤ, pos, negsuc}
use st_win.Prelude.Members.{has}
use st_win.Clist.{remove_link}

-- What `fork` returns: -1, 0 in the child, or the pid of the child in the parent.
pub data Fork : Type 0 where
  failed child : Fork
  parent : ℕ → Fork

-- `vp_count` and `vp_pids`, the elements of the array by their index.
pub record Watchdog : Type 0 where
  pub vp_count : ℕ
  pub vp_pids : ℕ → ℤ

-- A process after `start_processes`, or one that goes on in it: the server with the index `my_index`,
-- the watchdog, or one that has ended.
pub data Role : Type 0 where
  server : ℕ → Role
  watchdog : Watchdog → Role
  ended : Role

-- The first loop, from the index `i` on with `n` processes to start; `forks i` is the result of the
-- i-th `fork`.
unfoldable pub start_loop : ℕ → ℕ → (ℕ → Fork) → Watchdog → Role
start_loop zero i forks w = watchdog w
start_loop (suc n) i forks w = elim (forks i) [
  | failed ↦ if i == 0 then ended else watchdog (record w { vp_count = i })
  | child ↦ server i
  | parent pid ↦ start_loop n (suc i) forks (record w { vp_pids = update w.vp_pids i (pos pid) })
]

-- `start_processes` up to the loop of the watchdog; `vp_pids` is fresh from `calloc`.
unfoldable pub start_processes : Bool → ℕ → (ℕ → Fork) → Role
unfolding start_loop
start_processes interactive_mode vp_count forks =
    if interactive_mode
    then server 0
    else start_loop vp_count 0 forks (record { vp_count = vp_count; vp_pids = λ i. pos 0 })

-- `vp_pids[i] == pid`
abbrev pub is_pid : ℤ → ℕ → Bool
is_pid (pos k) pid = k == pid
is_pid (negsuc k) pid = false

-- `/* Find index of the exited child */`, from `i` on with `n` indices left
unfoldable pub find_child : ℕ → ℕ → ℕ → (ℕ → ℤ) → ℕ
find_child zero i pid pids = i
find_child (suc n) i pid pids =
    let later = find_child n (suc i) pid pids in if is_pid (pids i) pid then i else later

-- `vp_pids[i] = pid;` after `fork`
unfoldable pub refork : ℕ → Fork → Watchdog → Role
refork i failed w = watchdog (record w { vp_pids = update w.vp_pids i (negsuc 0) })
refork i child w = server i
refork i (parent pid) w = watchdog (record w { vp_pids = update w.vp_pids i (pos pid) })

-- One round of the watchdog, after `wait` has returned `pid`.
unfoldable pub watch : ℕ → Fork → Watchdog → Role
unfolding find_child refork
watch pid fork w = refork (find_child w.vp_count 0 pid w.vp_pids) fork w

-- `if (vp_pids[i] > 0) kill(vp_pids[i], signo);`
abbrev pub kill_one : ℤ → List ℕ → List ℕ
kill_one (pos zero) rest = rest
kill_one (pos (suc pid)) rest = suc pid ∷ rest
kill_one (negsuc k) rest = rest

-- The loop of `wdog_sighandler`: the processes that the signal goes to, in their order.
unfoldable pub forward : ℕ → ℕ → (ℕ → ℤ) → List ℕ
forward zero i pids = []
forward (suc n) i pids = kill_one (pids i) (forward n (suc i) pids)

-- A step is a whole round of the loop, from the return of `wait` to the store of the new pid; the signal
-- handlers do not run within it. `live` are the pids of the children that have not been waited for. A child ends and is replaced, or
-- `fork` fails; a new pid is positive and belongs to none of the others.
pub data Step : Watchdog → List ℕ → Watchdog → List ℕ → Type 0 where
  replaced :
      {w w' : Watchdog} {live : List ℕ} (old new : ℕ)
      → has (suc old) live ≡ true
      → has (suc new) (remove_link (suc old) live) ≡ false
      → watch (suc old) (parent (suc new)) w ≡ watchdog w'
      → Step w live w' (suc new ∷ remove_link (suc old) live)
  lost :
      {w w' : Watchdog} {live : List ℕ} (old : ℕ)
      → has (suc old) live ≡ true
      → watch (suc old) failed w ≡ watchdog w'
      → Step w live w' (remove_link (suc old) live)

pub data Reach (w : Watchdog) (live : List ℕ) : Watchdog → List ℕ → Type 0 where
  here : Reach w live w live
  next : {u v : Watchdog} {p q : List ℕ} → Reach w live u p → Step u p v q → Reach w live v q

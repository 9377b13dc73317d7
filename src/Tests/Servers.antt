-- ===== src/Tests/Servers.antt =====
-- The server, the proxy and the file reader at work.
use st_win.Prelude.{
  ◌+◌, ◌*◌, ◌≤◌, ◌<◌, ◌≡◌, inr, refl, arith, Bool, true, false, some, List, [], ◌∷◌, length,
}
use st_win.Prelude.Int.{pos, incr, decr, is_nonzero}
use st_win.Prelude.Members.{has}
use st_win.Server.{
  Config, Opt, bind, processes, log_dir, default_config, total_limits, set_thread_throttling,
  parse_arguments, parse_options, parse_option,
}
use st_win.Server.Throttling.{set_thread_throttling-shares}
use st_win.Server.Arguments.{Valid, parse_arguments-Valid, listen_addr-split}
use st_win.Server.{listen_addr}
use st_win.Server.Pool.{
  Counts, start_loop, start_threads, accepted, testing, serving, Reach, here, next, enter, accept,
  goes_on, all_testing,
}
use st_win.Server.Counters.{Counted}
use st_win.Server.Serving.{serving_pool-Counted}

-- Two processes, on two addresses.
abbrev two_options : List Opt
two_options = processes (pos 2) ∷ bind (65 ∷ []) ∷ bind (66 ∷ []) ∷ log_dir (47 ∷ []) ∷ []

abbrev two_config : Config
two_config = record default_config {
  vp_count = 2;
  addrs = (65 ∷ []) ∷ (66 ∷ []) ∷ [];
  logdir = some (47 ∷ []);
}

two_parsed : parse_arguments (pos 4) two_options ≡ some two_config
unfolding parse_arguments parse_options parse_option
two_parsed = refl

parse_arguments-Valid_example : Valid two_config
parse_arguments-Valid_example = parse_arguments-Valid (pos 4) two_options two_parsed

set_thread_throttling-shares_example :
    let t = total_limits 67 two_config in
    let r = set_thread_throttling 67 two_config in
    (r.min_wait_threads ≤ r.max_wait_threads)
    × (r.max_wait_threads ≤ r.max_threads)
    × (t.max_threads ≤ r.max_threads * 2)
    × (r.max_threads * 2 < t.max_threads + 2)
set_thread_throttling-shares_example = set_thread_throttling-shares 67 two_config (omega arith)

-- 67 descriptors: 33 threads over both processes for each socket, 17 for each process.
two_limits :
    ((set_thread_throttling 67 two_config).max_threads ≡ 17)
    × ((set_thread_throttling 67 two_config).max_wait_threads ≡ 8)
unfolding set_thread_throttling
two_limits = (refl, refl)

abbrev eight_made : List Bool
eight_made = true ∷ true ∷ true ∷ true ∷ true ∷ true ∷ true ∷ true ∷ []

abbrev eight_counts : Counts
eight_counts = record { wait_threads = pos 8; busy_threads = pos 0; rqst_count = 0 }

eight_started : start_threads eight_made ≡ some eight_counts
unfolding start_threads start_loop incr is_nonzero
eight_started = refl

eight_wanted : length eight_made ≡ (set_thread_throttling 67 two_config).max_wait_threads
unfolding set_thread_throttling
eight_wanted = refl

first_goes_on : goes_on (set_thread_throttling 67 two_config) eight_counts ≡ true
unfolding goes_on set_thread_throttling
first_goes_on = refl

-- The first thread enters `st_accept`, and takes a connection.
served_one :
    Reach
      (set_thread_throttling 67 two_config)
      false
      (record { counts = eight_counts; members = all_testing eight_made })
      (record {
        counts = (accepted (set_thread_throttling 67 two_config) true eight_counts).0;
        members =
            serving ∷ testing ∷ testing ∷ testing ∷ testing ∷ testing ∷ testing ∷ testing ∷ [];
      })
unfolding accepted set_thread_throttling decr
served_one =
    next
      (next here (
        enter [] (testing ∷ testing ∷ testing ∷ testing ∷ testing ∷ testing ∷ testing ∷ [])
          first_goes_on))
      (accept [] (testing ∷ testing ∷ testing ∷ testing ∷ testing ∷ testing ∷ testing ∷ []) true
        (inr refl))

serving_pool-Counted_example : Counted (set_thread_throttling 67 two_config) false (record {
  counts = (accepted (set_thread_throttling 67 two_config) true eight_counts).0;
  members = serving ∷ testing ∷ testing ∷ testing ∷ testing ∷ testing ∷ testing ∷ testing ∷ [];
})
serving_pool-Counted_example =
    serving_pool-Counted 67 two_config false eight_made (omega arith) eight_started eight_wanted
      (inr refl) served_one

-- "A:1" and "A", where every number is read as 80
host_and_port :
    (listen_addr (λ s. 80) (65 ∷ 58 ∷ 49 ∷ []) ≡ (65 ∷ [], 80))
    × (listen_addr (λ s. 80) (65 ∷ []) ≡ (65 ∷ [], 8000))
unfolding has
host_and_port = listen_addr-split (λ s. 80) (65 ∷ []) (49 ∷ []) refl

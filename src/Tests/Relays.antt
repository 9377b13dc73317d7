-- ===== src/Tests/Relays.antt =====
-- The watchdog, the file reader and the proxy at work.
use st_win.Prelude.{
  ℕ, suc, ◌+◌, ◌≡◌, ◌↔◌, refl, arith, true, false, none, some, List, [], ◌∷◌, length, update,
}
use st_win.Prelude.Int.{ℤ, pos, negsuc}
use st_win.Prelude.Members.{has, remove_link}
use st_win.Server.Watchdog.{
  Fork, parent, Watchdog, watchdog, start_processes, watch, forward, Reach, here, next, replaced,
}
use st_win.Server.Children.{Tracks}
use st_win.Server.Starting.{Fresh, started, watchdog-Tracks}
use st_win.Io.Transfer.{round, done, returned, take, drop, write, connect}
use st_win.Fileio.{Calls, Regular, Words, Faithful, Channel, file_read}
use st_win.Fileio.Answers.{Synced, section, file_read-section}
use st_win.Proxy.{Pump, PumpRound, Opening, netfd_closed, handle_request, pump_round, pass}
use st_win.Proxy.Relaying.{Begun, Tidy, handle_request-relays}

abbrev forks : ℕ → Fork
forks i = parent (suc i)

forks-Fresh : Fresh forks
forks-Fresh = record {
  real = λ i e. absurd (zero_suc i e);
  apart = λ i j p e_i e_j. same i j p e_i e_j;
}
  where
    zero_suc : (i : ℕ) → parent (suc i) ≡ parent 0 → ⊥
    zero_suc i e = cc

    same : (i j p : ℕ) → parent (suc i) ≡ parent p → parent (suc j) ≡ parent p → i ≡ j
    same i j p e_i e_j = let e : suc i ≡ suc j = cc in omega arith

-- The processes 1 and 2 are started, and 1 is replaced by 7.
abbrev two_children : Watchdog
two_children = record { vp_count = 2; vp_pids = update (update (λ i. pos 0) 0 (pos 1)) 1 (pos 2) }

abbrev new_children : Watchdog
new_children = record {
  vp_count = 2;
  vp_pids = update (update (update (λ i. pos 0) 0 (pos 1)) 1 (pos 2)) 0 (pos 7);
}

two_started : start_processes false 2 forks ≡ watchdog two_children
unfolding start_processes
two_started = refl

one_replaced : Reach two_children (started 2 0 forks []) new_children (7 ∷ 2 ∷ [])
unfolding started remove_link has watch
one_replaced = next here (replaced 0 6 refl refl refl)

watchdog-Tracks_example :
    Tracks new_children (7 ∷ 2 ∷ [])
    × ((p : ℕ)
        → (has (suc p) (forward 2 0 new_children.vp_pids) ≡ true)
          ↔ (has (suc p) (7 ∷ 2 ∷ []) ≡ true))
watchdog-Tracks_example = watchdog-Tracks 2 forks forks-Fresh two_started one_replaced

-- A file of four bytes, and descriptors that are their positions.
abbrev four : List ℕ
four = 10 ∷ 11 ∷ 12 ∷ 13 ∷ []

abbrev four_calls : Calls ℕ
four_calls = record {
  lseek = λ n f. some n;
  read = λ n f. some (f + length (take n (drop f four)), take n (drop f four));
}

four-Regular : Regular four_calls four (λ f. f)
four-Regular = record {
  seek = λ n f. (n, refl, refl);
  reads = λ n f. (f + length (take n (drop f four)), refl, refl);
}

-- A word is its number and seven more.
abbrev first_of : List ℕ → ℤ
first_of [] = negsuc 0
first_of (x ∷ q) = pos x

abbrev plain_words : Words
plain_words = record { encode = λ n. n ∷ 0 ∷ 0 ∷ 0 ∷ 0 ∷ 0 ∷ 0 ∷ 0 ∷ []; decode = first_of }

plain-Faithful : Faithful plain_words
plain-Faithful = record { size = λ n. refl; word = λ n lt. refl; untouched = refl }

no_channel : (c : Channel ℕ) → none ≡ some c → Synced (λ f. f) c
no_channel c e = absurd (none_some e)
  where
    none_some : none ≡ some c → ⊥
    none_some h = cc

file_read-section_example :
    (ch' : Channel ℕ) × Synced (λ f. f) ch'
    × (file_read four_calls plain_words 1 2 true true true 0 none
        ≡ (some ch', pos (length (section four 1 2)), section four 1 2))
file_read-section_example =
    file_read-section four-Regular plain-Faithful 1 2 0 none (omega arith) (omega arith) (λ e. refl)
      no_channel

middle_bytes : section four 1 2 ≡ 11 ∷ 12 ∷ []
unfolding take drop
middle_bytes = refl

-- The client sends two bytes, which are forwarded, and then ends the connection.
abbrev opening : Opening
opening = record { sock = some 4; rmt_nfd = 9; replies = done tt ∷ [] }

abbrev sends_two : PumpRound
sends_two = record {
  polled = some (true, false);
  cli_transfer = record { reading = returned (5 ∷ 6 ∷ []); rounds = round (done 2) none ∷ [] };
  rmt_transfer = record { reading = returned []; rounds = [] };
}

abbrev ends : PumpRound
ends = record {
  polled = some (true, false);
  cli_transfer = record { reading = returned []; rounds = [] };
  rmt_transfer = record { reading = returned []; rounds = [] };
}

abbrev two_sent : Pump
two_sent = record {
  cli = record { got = 5 ∷ 6 ∷ []; put = 5 ∷ 6 ∷ [] };
  rmt = record { got = []; put = [] };
}

two_relayed :
    handle_request 8 opening (sends_two ∷ ends ∷ [])
    ≡ some (two_sent, netfd_closed 9 ∷ netfd_closed 8 ∷ [])
unfolding handle_request pump_round pass write connect
two_relayed = refl

handle_request-relays_example :
    Begun two_sent.cli × Begun two_sent.rmt × Tidy 8 opening (netfd_closed 9 ∷ netfd_closed 8 ∷ [])
handle_request-relays_example =
    handle_request-relays 8 opening (sends_two ∷ ends ∷ []) (omega arith) two_relayed

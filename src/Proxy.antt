-- ===== src/Proxy.antt =====
-- examples/proxy.c: a connection is relayed to a remote address (pass, handle_request), and the
-- processes that do it (set_concurrency). `st_write` and `st_connect` are those of Io/Transfer; what
-- `st_poll` and `st_read` return is given.
pub mod Relaying
use st_win.Prelude.{
  ℕ, zero, suc, ◌+◌, ◌%◌, ◌==◌, leb, Bool, true, false, not, Option, none, some, List, [], ◌∷◌,
  ◌++◌, length, if◌then◌else◌,
}
use st_win.Prelude.Int.{ℤ, pos, negsuc}
use st_win.TimeoutHeap.{Addr}
use st_win.Io.Transfer.{Reply, Round, Outcome, returned, failed, write, connect}
use st_win.Server.{Text, split_addr}
use st_win.Server.Watchdog.{Fork, failed, child, parent}

-- One direction of a connection: what has been read from it and what has been sent on.
pub record Relay : Type 0 where
  pub got : List ℕ
  pub put : List ℕ

-- What a call of `pass` meets: the result of `st_read`, and the rounds of `st_write`.
pub record Transfer : Type 0 where
  pub reading : Outcome (List ℕ)
  pub rounds : List (Round ℕ)

abbrev pub is_whole : Outcome ℕ → ℕ → Bool
is_whole (Outcome.returned n) nr = n == nr
is_whole (Outcome.failed e) nr = false

-- The second half of `pass`, with the bytes read; `none` while `st_write` waits for more.
unfoldable pub pass_on : Addr → List ℕ → List (Round ℕ) → Relay → Option (Relay × Bool)
pass_on out buf rounds r = elim (write out rounds buf) [
  | none ↦ none
  | some (sent, nw) ↦
      some (record { got = r.got ++ buf; put = r.put ++ sent }, is_whole nw (length buf))
]

-- `pass`, the version without DEBUG
unfoldable pub pass : Addr → Transfer → Relay → Option (Relay × Bool)
unfolding pass_on
pass out t r = elim t.reading [
  | Outcome.failed e ↦ some (r, false)
  | Outcome.returned buf ↦ if length buf == 0 then some (r, false) else pass_on out buf t.rounds r
]

-- Both directions: from the client to the remote host, and back.
pub record Pump : Type 0 where
  pub cli : Relay
  pub rmt : Relay

-- A round of the loop of `handle_request`: which descriptors `st_poll` reports, or none if it fails or
-- times out, and what the two calls of `pass` would meet.
pub record PumpRound : Type 0 where
  pub polled : Option (Bool × Bool)
  pub cli_transfer : Transfer
  pub rmt_transfer : Transfer

-- `if (pds[0].revents & POLLIN) { if (!pass(cli_nfd, rmt_nfd)) break; }`
unfoldable pub pump_cli : Addr → Bool → Transfer → Pump → Option (Pump × Bool)
unfolding pass
pump_cli rmt_nfd is_in t p =
    if is_in
    then elim (pass rmt_nfd t p.cli) [
      | none ↦ none
      | some (r, goes_on) ↦ some (record { cli = r; rmt = p.rmt }, goes_on)
    ]
    else some (p, true)

unfoldable pub pump_rmt : Addr → Bool → Transfer → Pump → Option (Pump × Bool)
unfolding pass
pump_rmt cli_nfd is_in t p =
    if is_in
    then elim (pass cli_nfd t p.rmt) [
      | none ↦ none
      | some (r, goes_on) ↦ some (record { cli = p.cli; rmt = r }, goes_on)
    ]
    else some (p, true)

-- One round; the flag says whether the loop goes on.
unfoldable pub pump_round : Addr → Addr → PumpRound → Pump → Option (Pump × Bool)
unfolding pump_cli pump_rmt
pump_round cli_nfd rmt_nfd round p = elim round.polled [
  | none ↦ some (p, false)
  | some (cli_in, rmt_in) ↦ elim (pump_cli rmt_nfd cli_in round.cli_transfer p) [
    | none ↦ none
    | some (p₁, goes_on) ↦
        if goes_on then pump_rmt cli_nfd rmt_in round.rmt_transfer p₁ else some (p₁, false)
  ]
]

-- `/* Now just pump the data through. */`
unfoldable pub pump_loop : Addr → Addr → List PumpRound → Pump → Option Pump
pump_loop cli_nfd rmt_nfd [] p = none
pump_loop cli_nfd rmt_nfd (round ∷ rounds) p = elim (pump_round cli_nfd rmt_nfd round p) [
  | none ↦ none
  | some (p', goes_on) ↦ if goes_on then pump_loop cli_nfd rmt_nfd rounds p' else some p'
]

-- What `handle_request` closes at the end: a socket, or a descriptor object.
pub data Closed : Type 0 where
  sock_closed : ℕ → Closed
  netfd_closed : Addr → Closed

-- The results of `socket` and `st_netfd_open_socket`, 0 for a null pointer; the replies to `st_connect`.
pub record Opening : Type 0 where
  pub sock : Option ℕ
  pub rmt_nfd : Addr
  pub replies : List (Reply Unit)

abbrev pub empty_pump : Pump
empty_pump = record { cli = record { got = []; put = [] }; rmt = record { got = []; put = [] } }

-- From `st_connect` on.
unfoldable pub connected : Addr → Opening → List PumpRound → Option (Pump × List Closed)
unfolding pump_loop
connected cli_nfd o rounds = elim (connect o.rmt_nfd o.replies) [
  | none ↦ none
  | some (Outcome.failed e) ↦ some (empty_pump, netfd_closed o.rmt_nfd ∷ netfd_closed cli_nfd ∷ [])
  | some (Outcome.returned ok) ↦ elim (pump_loop cli_nfd o.rmt_nfd rounds empty_pump) [
    | none ↦ none
    | some p ↦ some (p, netfd_closed o.rmt_nfd ∷ netfd_closed cli_nfd ∷ [])
  ]
]

-- `handle_request`
unfoldable pub handle_request : Addr → Opening → List PumpRound → Option (Pump × List Closed)
unfolding connected
handle_request cli_nfd o rounds = elim o.sock [
  | none ↦ some (empty_pump, netfd_closed cli_nfd ∷ [])
  | some sock ↦
      if o.rmt_nfd == 0
      then some (empty_pump, sock_closed sock ∷ netfd_closed cli_nfd ∷ [])
      else connected cli_nfd o rounds
]

-- The loop of `set_concurrency`: the index of the child that returns, or none for a process that ends.
unfoldable pub fork_loop : ℕ → ℕ → (ℕ → Fork) → Option ℕ
fork_loop zero i forks = none
fork_loop (suc n) i forks = elim (forks i) [
  | Fork.failed ↦ none
  | Fork.child ↦ some i
  | Fork.parent pid ↦ fork_loop n (suc i) forks
]

-- `set_concurrency`; `nproc` below 1 counts as 1.
unfoldable pub set_concurrency : ℤ → (ℕ → Fork) → Option ℕ
unfolding fork_loop
set_concurrency (pos zero) forks = fork_loop 1 0 forks
set_concurrency (pos (suc n)) forks = fork_loop (suc n) 0 forks
set_concurrency (negsuc n) forks = fork_loop 1 0 forks

-- `read_address` up to the name lookup: the host and the port, or none where the program ends.
unfoldable pub read_address : (Text → ℕ) → Text → Option (Text × ℕ)
read_address atoi str = elim (split_addr str).1 [
  | none ↦ none
  | some p ↦ if atoi p % 65536 == 0 then none else some ((split_addr str).0, atoi p % 65536)
]

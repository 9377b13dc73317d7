-- ===== src/Proxy/Relaying.antt =====
-- The proxy forwards the bytes of both directions in their order, and closes what it has opened.
use st_win.Prelude.{
  ℕ, ◌≡◌, ◌≢◌, ◌⊎◌, inl, inr, refl, ap, ◌∙◌, ◌==◌, Bool, true, false, Option, none, some, List, [],
  ◌∷◌, ◌++◌, length, append-nil, append_assoc, arith, Bool-cases, Option-cases, if◌then◌else◌,
  eq-cases,
}
use st_win.TimeoutHeap.{Addr}
use st_win.Io.{Code}
use st_win.Io.Transfer.{Round, Outcome, returned, failed, write, connect}
use st_win.Io.Delivery.{write-Begins}
use st_win.Proxy.{
  Relay, Transfer, is_whole, pass_on, pass, Pump, PumpRound, pump_cli, pump_rmt, pump_round,
  pump_loop, Closed, sock_closed, netfd_closed, Opening, empty_pump, connected, handle_request,
}

-- What has been sent on is a beginning of what has been read.
pub record Begun (r : Relay) : Type 0 where
  pub rest : List ℕ
  pub begins : r.put ++ rest ≡ r.got

-- All of it has been sent on.
abbrev Relayed : Relay → Type 0
Relayed r = r.put ≡ r.got

-- After a call of `pass`: everything is sent on if the loop goes on.
abbrev PassedIf : Option (Relay × Bool) → Type 0
PassedIf none = Unit
PassedIf (some (r, true)) = Relayed r
PassedIf (some (r, false)) = Begun r

all-Begun : (r : Relay) → Relayed r → Begun r
all-Begun r e = record { rest = []; begins = append-nil r.put ∙ e }

passed : (r : Relay) (b : Bool) → Relayed r → PassedIf (some (r, b))
passed r true e = e
passed r false e = all-Begun r e

pass_on-PassedIf :
    (out : Addr) (buf : List ℕ) (rounds : List (Round ℕ)) (r : Relay)
    → out ≢ 0
    → Relayed r
    → PassedIf (pass_on out buf rounds r)
unfolding pass_on
pass_on-PassedIf out buf rounds r ne e = elim (Option-cases (write out rounds buf)) [
  | inl waits ↦ rw (PassedIf, waits) tt
  | inr (res, w) ↦ rw (PassedIf, w) (go (write-Begins out rounds buf res.0 res.1 ne w))
]
  where
    go :
        {sent : List ℕ} {nw : Outcome ℕ}
        → ((nw ≡ returned (length buf)) × (sent ≡ buf))
          ⊎ ((e : Code) × (rest : List ℕ) × (nw ≡ failed e) × (sent ++ rest ≡ buf))
        → PassedIf
            (some (record { got = r.got ++ buf; put = r.put ++ sent }, is_whole nw (length buf)))
    go {sent} {nw} (inl (n, s)) =
        passed _ (is_whole nw (length buf)) (ap (λ q. q ++ sent) e ∙ ap (λ q. r.got ++ q) s)
    go {sent} {nw} (inr (c, rest, n, s)) = rw n (record {
      rest = rest;
      begins = append_assoc r.put sent rest ∙ ap (λ q. r.put ++ q) s ∙ ap (λ q. q ++ buf) e;
    })

pass-PassedIf :
    (out : Addr) (t : Transfer) (r : Relay) → out ≢ 0 → Relayed r → PassedIf (pass out t r)
unfolding pass
pass-PassedIf out t r ne e = go t.reading
  where
    go :
        (reading : Outcome (List ℕ))
        → PassedIf (elim reading [
          | failed c ↦ some (r, false)
          | returned buf ↦ if length buf == 0 then some (r, false) else pass_on out buf t.rounds r
        ])
    go (failed c) = all-Begun r e
    go (returned buf) = elim (Bool-cases (length buf == 0)) [
      | inl nothing ↦ rw (PassedIf, nothing) (all-Begun r e)
      | inr more ↦ rw (PassedIf, more) (pass_on-PassedIf out buf t.rounds r ne e)
    ]

-- Both directions: everything is sent on while the loop goes on, and a beginning when it stops.
abbrev AllRelayed : Pump → Type 0
AllRelayed p = Relayed p.cli × Relayed p.rmt

abbrev AllBegun : Pump → Type 0
AllBegun p = Begun p.cli × Begun p.rmt

abbrev PumpedIf : Option (Pump × Bool) → Type 0
PumpedIf none = Unit
PumpedIf (some (p, true)) = AllRelayed p
PumpedIf (some (p, false)) = AllBegun p

all-AllBegun : (p : Pump) → AllRelayed p → AllBegun p
all-AllBegun p (c, r) = (all-Begun p.cli c, all-Begun p.rmt r)

pump_cli-PumpedIf :
    (rmt_nfd : Addr) (is_in : Bool) (t : Transfer) (p : Pump)
    → rmt_nfd ≢ 0
    → AllRelayed p
    → PumpedIf (pump_cli rmt_nfd is_in t p)
unfolding pump_cli
pump_cli-PumpedIf rmt_nfd false t p ne e = e
pump_cli-PumpedIf rmt_nfd true t p ne e =
    go (pass rmt_nfd t p.cli) (pass-PassedIf rmt_nfd t p.cli ne e.0)
  where
    go :
        (o : Option (Relay × Bool))
        → PassedIf o
        → PumpedIf (elim o [
          | none ↦ none
          | some (r, goes_on) ↦ some (record { cli = r; rmt = p.rmt }, goes_on)
        ])
    go none d = tt
    go (some (r, true)) d = (d, e.1)
    go (some (r, false)) d = (d, all-Begun p.rmt e.1)

pump_rmt-PumpedIf :
    (cli_nfd : Addr) (is_in : Bool) (t : Transfer) (p : Pump)
    → cli_nfd ≢ 0
    → AllRelayed p
    → PumpedIf (pump_rmt cli_nfd is_in t p)
unfolding pump_rmt
pump_rmt-PumpedIf cli_nfd false t p ne e = e
pump_rmt-PumpedIf cli_nfd true t p ne e =
    go (pass cli_nfd t p.rmt) (pass-PassedIf cli_nfd t p.rmt ne e.1)
  where
    go :
        (o : Option (Relay × Bool))
        → PassedIf o
        → PumpedIf (elim o [
          | none ↦ none
          | some (r, goes_on) ↦ some (record { cli = p.cli; rmt = r }, goes_on)
        ])
    go none d = tt
    go (some (r, true)) d = (e.0, d)
    go (some (r, false)) d = (all-Begun p.cli e.0, d)

module _ (cli_nfd rmt_nfd : Addr) (cli : cli_nfd ≢ 0) (rmt : rmt_nfd ≢ 0) where
  pump_round-PumpedIf :
      (round : PumpRound) (p : Pump) → AllRelayed p → PumpedIf (pump_round cli_nfd rmt_nfd round p)
  unfolding pump_round
  pump_round-PumpedIf round p e = polls round.polled
    where
      second :
          (rmt_in : Bool) (o : Option (Pump × Bool))
          → PumpedIf o
          → PumpedIf (elim o [
            | none ↦ none
            | some (p₁, goes_on) ↦
                if goes_on then pump_rmt cli_nfd rmt_in round.rmt_transfer p₁ else some (p₁, false)
          ])
      second rmt_in none d = tt
      second rmt_in (some (p₁, true)) d =
          pump_rmt-PumpedIf cli_nfd rmt_in round.rmt_transfer p₁ cli d
      second rmt_in (some (p₁, false)) d = d

      polls :
          (polled : Option (Bool × Bool))
          → PumpedIf (elim polled [
            | none ↦ some (p, false)
            | some (cli_in, rmt_in) ↦ elim (pump_cli rmt_nfd cli_in round.cli_transfer p) [
              | none ↦ none
              | some (p₁, goes_on) ↦
                  if goes_on
                  then pump_rmt cli_nfd rmt_in round.rmt_transfer p₁
                  else some (p₁, false)
            ]
          ])
      polls none = all-AllBegun p e
      polls (some (cli_in, rmt_in)) =
          second rmt_in (pump_cli rmt_nfd cli_in round.cli_transfer p)
            (pump_cli-PumpedIf rmt_nfd cli_in round.cli_transfer p rmt e)

  abbrev EndedIf : Option Pump → Type 0
  EndedIf none = Unit
  EndedIf (some p) = AllBegun p

  pumped :
      (rounds : List PumpRound) (o : Option (Pump × Bool))
      → PumpedIf o
      → ((p' : Pump) → AllRelayed p' → EndedIf (pump_loop cli_nfd rmt_nfd rounds p'))
      → EndedIf (elim o [
        | none ↦ none
        | some (p', goes_on) ↦ if goes_on then pump_loop cli_nfd rmt_nfd rounds p' else some p'
      ])
  pumped rounds none d later = tt
  pumped rounds (some (p', true)) d later = later p' d
  pumped rounds (some (p', false)) d later = d

  pump_loop-EndedIf :
      (rounds : List PumpRound) (p : Pump)
      → AllRelayed p
      → EndedIf (pump_loop cli_nfd rmt_nfd rounds p)
  unfolding pump_loop
  pump_loop-EndedIf [] p e = tt
  pump_loop-EndedIf (round ∷ rounds) p e =
      pumped rounds (pump_round cli_nfd rmt_nfd round p) (pump_round-PumpedIf round p e)
        (λ p' d. pump_loop-EndedIf rounds p' d)

-- What has been opened and is closed at the end: the client's descriptor, and the socket or the
-- descriptor object of the remote host.
abbrev pub Tidy : Addr → Opening → List Closed → Type 0
Tidy cli_nfd o closed =
    ((o.sock ≡ none) × (closed ≡ netfd_closed cli_nfd ∷ []))
    ⊎ ((sock : ℕ) × (o.sock ≡ some sock)
        × (o.rmt_nfd ≡ 0)
        × (closed ≡ sock_closed sock ∷ netfd_closed cli_nfd ∷ []))
    ⊎ ((o.rmt_nfd ≢ 0) × (closed ≡ netfd_closed o.rmt_nfd ∷ netfd_closed cli_nfd ∷ []))

abbrev HandledIf : Addr → Opening → Option (Pump × List Closed) → Type 0
HandledIf cli_nfd o none = Unit
HandledIf cli_nfd o (some (p, closed)) = AllBegun p × Tidy cli_nfd o closed

connected-HandledIf :
    (cli_nfd : Addr) (o : Opening) (rounds : List PumpRound)
    → cli_nfd ≢ 0
    → o.rmt_nfd ≢ 0
    → HandledIf cli_nfd o (connected cli_nfd o rounds)
unfolding connected
connected-HandledIf cli_nfd o rounds cli rmt = elim (Option-cases (connect o.rmt_nfd o.replies)) [
  | inl waits ↦ rw (HandledIf, waits) tt
  | inr (returned done, e) ↦ elim (Option-cases (pump_loop cli_nfd o.rmt_nfd rounds empty_pump)) [
    | inl waits ↦ rw (HandledIf, e, waits) tt
    | inr (p, e') ↦
        let ends = pump_loop-EndedIf cli_nfd o.rmt_nfd cli rmt rounds empty_pump (refl, refl) in
        let b : AllBegun p = rw e' at ends in rw (HandledIf, e, e') (b, inr (inr (rmt, refl)))
  ]
  | inr (failed c, e) ↦
      rw (HandledIf, e) (all-AllBegun empty_pump (refl, refl), inr (inr (rmt, refl)))
]

-- When `handle_request` for a client returns, what it has sent to either side is a beginning of
-- what it has read from the other, in the order of the bytes. It has closed the client's
-- descriptor; the socket for the remote host if there is one without a descriptor object, and that
-- object if there is one.
pub handle_request-relays :
    (cli_nfd : Addr) (o : Opening) (rounds : List PumpRound) {p : Pump} {closed : List Closed}
    → cli_nfd ≢ 0
    → handle_request cli_nfd o rounds ≡ some (p, closed)
    → Begun p.cli × Begun p.rmt × Tidy cli_nfd o closed
handle_request-relays cli_nfd o rounds {p} {closed} cli e =
    let d : HandledIf cli_nfd o (some (p, closed)) = rw e at handled in (d.0.0, d.0.1, d.1)
  where
    handled : HandledIf cli_nfd o (handle_request cli_nfd o rounds)
    handled =
        unfold handle_request in
        elim (Option-cases o.sock) [
          | inl no_sock ↦
              rw (HandledIf, no_sock) (all-AllBegun empty_pump (refl, refl), inl (no_sock, refl))
          | inr (sock, s) ↦ elim (eq-cases o.rmt_nfd 0) [
            | inl null ↦
                let z : (o.rmt_nfd == 0) ≡ true = ground arith in
                rw (HandledIf, s, z)
                  (all-AllBegun empty_pump (refl, refl), inr (inl (sock, s, null, refl)))
            | inr rmt ↦
                let z : (o.rmt_nfd == 0) ≡ false = ground arith in
                rw (HandledIf, s, z) (connected-HandledIf cli_nfd o rounds cli rmt)
          ]
        ]

-- ===== src/Tests/Transfers.antt =====
-- `st_write` at work, with two calls of `send` and a wait between them, and a descriptor object.
use st_win.Prelude.{
  ℕ, ◌≡◌, ◌⊎◌, ◌==◌, not, ◌&&◌, refl, arith, none, some, List, [], ◌∷◌, ◌++◌, if◌then◌else◌, update,
  true, false,
}
use st_win.Io.{
  Code, get_error, Netfds, netfd_free, netfd_new, netfd_getspecific, netfd_fileno, wsaewouldblock,
  wsaeconnreset,
}
use st_win.Io.Transfer.{Round, round, done, error, Outcome, returned, failed, write}
use st_win.Io.Descriptors.{netfd_free-netfd_new}
use st_win.Io.Delivery.{write-Begins, write-returns, AllMove, moves}

abbrev three_rounds : List (Round ℕ)
three_rounds = round (done 2) none ∷ round (error wsaewouldblock) none ∷ round (done 1) none ∷ []

written : write 9 three_rounds (10 ∷ 11 ∷ 12 ∷ []) ≡ some (10 ∷ 11 ∷ 12 ∷ [], returned 3)
unfolding write get_error
written = refl

reset :
    write 9 (round (done 1) none ∷ round (error wsaeconnreset) none ∷ []) (10 ∷ 11 ∷ [])
    ≡ some (10 ∷ [], failed Code.econnreset)
unfolding write get_error
reset = refl

abbrev bytes : List ℕ
bytes = 10 ∷ 11 ∷ 12 ∷ []

abbrev three : Outcome ℕ
three = returned 3

write-Begins_example :
    ((three ≡ returned 3) × (bytes ≡ bytes))
    ⊎ ((e : Code) × (rest : List ℕ) × (three ≡ failed e) × (bytes ++ rest ≡ bytes))
write-Begins_example = write-Begins 9 three_rounds bytes bytes three (ground arith) written

moving : AllMove (round (done 1) none ∷ round (done 3) none ∷ [])
unfolding moves
moving = (refl, (refl, tt))

write-returns_example :
    write 9 (round (done 1) none ∷ round (done 3) none ∷ []) (10 ∷ 11 ∷ [])
    ≡ some (10 ∷ 11 ∷ [], returned 2)
write-returns_example =
    write-returns 9 (round (done 1) none ∷ round (done 3) none ∷ []) (10 ∷ 11 ∷ []) (ground arith)
      moving (ground arith)

-- The object 8 is in use for the descriptor 5, with the data 600 and the destructor 700.
abbrev one_netfd : Netfds
one_netfd = record {
  freelist = 9 ∷ [];
  osfd = update (λ fd. 0) 8 5;
  inuse = update (λ fd. false) 8 true;
  private_data = update (λ fd. 0) 8 600;
  destructor = update (λ fd. 0) 8 700;
  aux_data = λ fd. 0;
  calls = [];
  closed = [];
}

netfd_free-netfd_new_example :
    (let r = netfd_new true 0 6 (netfd_free 8 one_netfd) in
      (r.1 ≡ 8)
      × (netfd_getspecific 8 r.0 ≡ 0)
      × (netfd_fileno 8 r.0 ≡ 6)
      × (r.0.inuse 8 ≡ true)
      × (r.0.freelist ≡ one_netfd.freelist)
      × (r.0.calls ≡ (
          if not (one_netfd.private_data 8 == 0) && not (one_netfd.destructor 8 == 0)
          then one_netfd.calls ++ ((one_netfd.destructor 8, one_netfd.private_data 8) ∷ [])
          else one_netfd.calls))
      × (netfd_free 8 (netfd_free 8 one_netfd) ≡ netfd_free 8 one_netfd))
netfd_free-netfd_new_example = netfd_free-netfd_new 8 0 6 one_netfd (ground arith) refl

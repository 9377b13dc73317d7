-- ===== src/Io/Files.antt =====
-- io_win.c: the calls that make a descriptor object for a new socket or file, and `st_writev`.
use st_win.Prelude.{
  ℕ, ◌+◌, ◌-◌, ◌==◌, leb, Bool, List, [], ◌∷◌, ◌++◌, Option, none, some, if◌then◌else◌,
}
use st_win.Prelude.Int.{ℤ, pos, negsuc, decr}
use st_win.TimeoutHeap.{Addr}
use st_win.Io.{Netfds, is_eintr, get_error, netfd_new}
use st_win.Io.Transfer.{Reply, done, error, Round, Outcome, returned, failed, accept_loop, write}

-- The end of `st_accept` and `st_open`: an object for the descriptor, which is closed if there is none.
unfoldable pub adopt_osfd : Bool → Addr → ℕ → Netfds → Netfds × Addr
adopt_osfd allowed object osfd s =
    let r = netfd_new allowed object osfd s in
    if r.1 == 0 then (record r.0 { closed = r.0.closed ++ (osfd ∷ []) }, 0) else r

-- `st_accept`, with the replies of `accept`
unfoldable pub accept : Addr → List (Reply ℕ) → Bool → Addr → Netfds → Option (Netfds × Addr)
accept fd replies allowed object s = if fd == 0 then some (s, 0) else elim (accept_loop replies) [
  | none ↦ none
  | some (failed e) ↦ some (s, 0)
  | some (returned osfd) ↦ some (adopt_osfd allowed object osfd s)
]

-- The loop of `st_open`, with the replies of `_open`
unfoldable pub open_loop : List (Reply ℕ) → Option (Outcome ℕ)
open_loop [] = none
open_loop (reply ∷ replies) =
    let rest = open_loop replies in
    elim reply [
      | done osfd ↦ some (returned osfd)
      | error w ↦ if is_eintr (get_error w) then rest else some (failed (get_error w))
    ]

-- `st_open`
unfoldable pub open_file : List (Reply ℕ) → Bool → Addr → Netfds → Option (Netfds × Addr)
open_file replies allowed object s = elim (open_loop replies) [
  | none ↦ none
  | some (failed e) ↦ some (s, 0)
  | some (returned osfd) ↦ some (adopt_osfd allowed object osfd s)
]

-- `rv += st_write(...)`
unfoldable pub add_result : ℤ → Outcome ℕ → ℤ
add_result rv (failed e) = decr rv
add_result (pos m) (returned n) = pos (m + n)
add_result (negsuc m) (returned n) = if leb n m then negsuc (m - n) else pos (n - m - 1)

-- The for loop of `st_writev`, over the buffers with the rounds of their calls of `send`: what is on the
-- wire, and the sum.
unfoldable pub writev_loop :
    Addr → List (List (Round ℕ) × List ℕ) → List ℕ → ℤ → Option (List ℕ × ℤ)
writev_loop fd [] wire rv = some (wire, rv)
writev_loop fd ((rounds, buf) ∷ iov) wire rv = elim (write fd rounds buf) [
  | none ↦ none
  | some (sent, outcome) ↦ writev_loop fd iov (wire ++ sent) (add_result rv outcome)
]

-- `st_writev`
unfoldable pub writev : Addr → List (List (Round ℕ) × List ℕ) → Option (List ℕ × ℤ)
writev fd iov = if fd == 0 then some ([], pos 0) else writev_loop fd iov [] (pos 0)

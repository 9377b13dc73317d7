-- ===== src/Io/Transfer.antt =====
-- io_win.c: the calls that move data. A round is what one call of the system returns, and what
-- `st_netfd_poll` returns if the round waits; a function that needs more rounds has not returned.
use st_win.Prelude.{
  ℕ, zero, suc, ◌-◌, ◌==◌, Bool, true, false, not, ◌||◌, Option, none, some, List, [], ◌∷◌, ◌++◌,
  length, if◌then◌else◌,
}
use st_win.TimeoutHeap.{Addr}
use st_win.Io.{Wsa, Code, raw, get_error, is_eintr, is_not_ready, etime, eagain, eisconn, ebadf}

-- What a system call returns: a result, or -1 with an error.
pub data Reply (A : Type 0) : Type 0 where
  done : A → Reply A
  error : Wsa → Reply A

-- The reply, and `errno` if the `st_netfd_poll` after it returns -1.
pub data Round (A : Type 0) : Type 0 where
  round : Reply A → Option Code → Round A

-- What a function returns: a result, or -1 with `errno`.
pub data Outcome (A : Type 0) : Type 0 where
  returned : A → Outcome A
  failed : Code → Outcome A

-- `st_netfd_poll` for a descriptor that is not null, given the result of `st_poll` and POLLNVAL.
unfoldable pub netfd_poll : Outcome ℕ → Bool → Option Code
netfd_poll (failed e) nval = some e
netfd_poll (returned zero) nval = none
netfd_poll (returned (suc n)) nval = if nval then some ebadf else none

-- The end of a round that has failed with `e`: go on, or return.
unfoldable pub retry : {A : Type 0} → Code → Option Code → Option (Outcome A) → Option (Outcome A)
retry e polled rest =
    if is_eintr e
    then rest
    else if not (is_not_ready e)
    then some (failed e)
    else elim polled [ some e' ↦ some (failed e') | none ↦ rest ]

-- The loop of `st_read`, `st_recvfrom` and `st_sendto`.
unfoldable pub transfer_loop : {A : Type 0} → List (Round A) → Option (Outcome A)
unfolding retry
transfer_loop [] = none
transfer_loop (round reply polled ∷ rounds) =
    let rest = transfer_loop rounds in
    elim reply [ done n ↦ some (returned n) | error w ↦ retry (get_error w) polled rest ]

-- `st_read` of the bytes that arrive; a null descriptor reads nothing.
unfoldable pub read : Addr → List (Round (List ℕ)) → Option (Outcome (List ℕ))
unfolding transfer_loop
read fd rounds = if fd == 0 then some (returned []) else transfer_loop rounds

-- `st_recvfrom`
unfoldable pub recvfrom : Addr → List (Round (List ℕ)) → Option (Outcome (List ℕ))
unfolding transfer_loop
recvfrom fd rounds = if fd == 0 then some (returned []) else transfer_loop rounds

-- `st_sendto`
unfoldable pub sendto : Addr → List (Round ℕ) → Option (Outcome ℕ)
unfolding transfer_loop
sendto fd rounds = if fd == 0 then some (returned 0) else transfer_loop rounds

-- The wait of a round that has moved data, before the next round.
unfoldable pub wait : {A : Type 0} → Option Code → A → A × Option Code → A × Option Code
wait (some e) moved rest = (moved, some e)
wait none moved rest = rest

-- The loop of `st_read_fully`: the bytes read so far, with `errno` if it returns -1.
unfoldable pub read_fully_loop : List (Round (List ℕ)) → ℕ → List ℕ → Option (List ℕ × Option Code)
read_fully_loop rounds zero buf = some (buf, none)
read_fully_loop [] (suc nleft) buf = none
read_fully_loop (round reply polled ∷ rounds) (suc nleft) buf = elim reply [
  | error w ↦
      let rest = read_fully_loop rounds (suc nleft) buf in
      let e = get_error w in
      if is_eintr e
      then rest
      else if not (is_not_ready e)
      then some (buf, some e)
      else elim polled [ some e' ↦ some (buf, some e') | none ↦ rest ]
  | done bytes ↦
      let left = suc nleft - length bytes in
      let rest = read_fully_loop rounds left (buf ++ bytes) in
      if left == 0 || length bytes == 0
      then some (buf ++ bytes, none)
      else elim polled [ some e' ↦ some (buf ++ bytes, some e') | none ↦ rest ]
]

-- `st_read_fully`
unfoldable pub read_fully : Addr → List (Round (List ℕ)) → ℕ → Option (List ℕ × Option Code)
unfolding read_fully_loop
read_fully fd rounds nbyte = if fd == 0 then some ([], none) else read_fully_loop rounds nbyte []

unfoldable pub take : ℕ → List ℕ → List ℕ
take zero xs = []
take (suc n) [] = []
take (suc n) (x ∷ xs) = x ∷ take n xs

unfoldable pub drop : ℕ → List ℕ → List ℕ
drop zero xs = xs
drop (suc n) [] = []
drop (suc n) (x ∷ xs) = drop n xs

-- The loop of `st_write`: `buf` is what is left, `sent` what the system has taken.
unfoldable pub write_loop : List (Round ℕ) → List ℕ → List ℕ → Option (List ℕ × Option Code)
unfolding take drop
write_loop rounds [] sent = some (sent, none)
write_loop [] (b ∷ buf) sent = none
write_loop (round reply polled ∷ rounds) (b ∷ buf) sent = elim reply [
  | error w ↦
      let rest = write_loop rounds (b ∷ buf) sent in
      let e = get_error w in
      if is_eintr e
      then rest
      else if not (is_not_ready e)
      then some (sent, some e)
      else elim polled [ some e' ↦ some (sent, some e') | none ↦ rest ]
  | done n ↦
      let sent' = sent ++ take n (b ∷ buf) in
      let rest = write_loop rounds (drop n (b ∷ buf)) sent' in
      if n == length (b ∷ buf)
      then some (sent', none)
      else elim polled [ some e' ↦ some (sent', some e') | none ↦ rest ]
]

-- `return (ssize_t)nbyte;`, or -1
unfoldable pub write_end : List ℕ → Option (List ℕ × Option Code) → Option (List ℕ × Outcome ℕ)
write_end buf none = none
write_end buf (some (sent, none)) = some (sent, returned (length buf))
write_end buf (some (sent, some e)) = some (sent, failed e)

-- `st_write`
unfoldable pub write : Addr → List (Round ℕ) → List ℕ → Option (List ℕ × Outcome ℕ)
unfolding write_loop write_end
write fd rounds buf =
    if fd == 0 then some ([], returned 0) else write_end buf (write_loop rounds buf [])

-- The loop of `st_accept` on Windows: the descriptor of the new socket, or `errno`.
unfoldable pub accept_loop : List (Reply ℕ) → Option (Outcome ℕ)
accept_loop [] = none
accept_loop (reply ∷ rounds) =
    let rest = accept_loop rounds in
    elim reply [
      | done osfd ↦ some (returned osfd)
      | error w ↦
          if is_eintr (get_error w)
          then rest
          else some (failed (if is_not_ready (get_error w) then etime else get_error w))
    ]

abbrev pub is_eagain : Code → Bool
is_eagain eagain = true
is_eagain _ = false

-- EISCONN, in the C library of Windows
abbrev eisconn_number : ℕ
eisconn_number = 113

abbrev pub is_eisconn : Code → Bool
is_eisconn eisconn = true
is_eisconn (raw n) = n == eisconn_number
is_eisconn _ = false

-- `st_connect`, with the replies of `connect`: EAGAIN and EINTR are tried again, EISCONN is success.
unfoldable pub connect_loop : List (Reply Unit) → Option (Outcome Unit)
connect_loop [] = none
connect_loop (reply ∷ rounds) =
    let rest = connect_loop rounds in
    elim reply [
      | done _ ↦ some (returned tt)
      | error w ↦
          if is_eagain (get_error w)
          then rest
          else if is_eisconn (get_error w)
          then some (returned tt)
          else if is_eintr (get_error w)
          then rest
          else some (failed (get_error w))
    ]

unfoldable pub connect : Addr → List (Reply Unit) → Option (Outcome Unit)
unfolding connect_loop
connect fd rounds = if fd == 0 then some (returned tt) else connect_loop rounds

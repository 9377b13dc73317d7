-- ===== src/Io.antt =====
-- io_win.c: the translation of error codes and the descriptor objects. What the system's calls return are
-- arguments. A call of a destructor is recorded with the value that it is given.
pub mod Transfer
pub mod Files
pub mod Delivery
pub mod Descriptors
use st_win.Prelude.{
  ℕ, ◌==◌, Bool, true, false, not, ◌&&◌, ◌||◌, List, [], ◌∷◌, ◌++◌, if◌then◌else◌, update,
}
use st_win.TimeoutHeap.{Addr}
use st_win.Vp.{Rc, ok, fail}

-- What `GetLastError` returns: a code below WSABASEERR, a socket error, or another code.
pub data Wsa : Type 0 where
  low : ℕ → Wsa
  wsaeintr wsaebadf wsaeacces wsaefault wsaeinval wsaemfile wsaewouldblock wsaeinprogress : Wsa
  wsaealready wsaenotsock wsaedestaddrreq wsaemsgsize wsaeprototype wsaenoprotoopt : Wsa
  wsaeopnotsupp wsaeaddrinuse wsaeaddrnotavail wsaeconnaborted wsaeconnreset wsaeisconn : Wsa
  wsaenotconn wsaetimedout wsaeconnrefused wsaehostunreach : Wsa
  high : ℕ → Wsa

-- The values of `errno`: by their names, or the number of a code that has not been translated.
pub data Code : Type 0 where
  raw : ℕ → Code
  eintr ebadf eacces efault einval emfile eagain enotsock edestaddrreq emsgsize eprototype : Code
  enoprotoopt eopnotsupp eaddrinuse eaddrnotavail econnaborted econnreset eisconn enotconn : Code
  etimedout econnrefused ehostunreach etime ewouldblock : Code

-- `_st_GetError(0)`
unfoldable pub get_error : Wsa → Code
get_error (low n) = raw n
get_error wsaeintr = eintr
get_error wsaebadf = ebadf
get_error wsaeacces = eacces
get_error wsaefault = efault
get_error wsaeinval = einval
get_error wsaemfile = emfile
get_error wsaewouldblock = eagain
get_error wsaeinprogress = eintr
get_error wsaealready = eintr
get_error wsaenotsock = enotsock
get_error wsaedestaddrreq = edestaddrreq
get_error wsaemsgsize = emsgsize
get_error wsaeprototype = eprototype
get_error wsaenoprotoopt = enoprotoopt
get_error wsaeopnotsupp = eopnotsupp
get_error wsaeaddrinuse = eaddrinuse
get_error wsaeaddrnotavail = eaddrnotavail
get_error wsaeconnaborted = econnaborted
get_error wsaeconnreset = econnreset
get_error wsaeisconn = eisconn
get_error wsaenotconn = enotconn
get_error wsaetimedout = etimedout
get_error wsaeconnrefused = econnrefused
get_error wsaehostunreach = ehostunreach
get_error (high n) = raw n

-- EINTR, EAGAIN and EWOULDBLOCK as numbers, in the C library of Windows
abbrev eintr_number : ℕ
eintr_number = 4

abbrev eagain_number : ℕ
eagain_number = 11

abbrev ewouldblock_number : ℕ
ewouldblock_number = 140

abbrev pub is_eintr : Code → Bool
is_eintr eintr = true
is_eintr (raw n) = n == eintr_number
is_eintr _ = false

-- `_IO_NOT_READY_ERROR`, where EAGAIN and EWOULDBLOCK differ
abbrev pub is_not_ready : Code → Bool
is_not_ready eagain = true
is_not_ready ewouldblock = true
is_not_ready (raw n) = (n == eagain_number) || (n == ewouldblock_number)
is_not_ready _ = false

-- `_st_netfd_freelist` along `next`, the fields of `struct _st_netfd`, and the destructor calls.
pub record Netfds : Type 0 where
  pub freelist : List Addr
  pub osfd : Addr → ℕ
  pub inuse : Addr → Bool
  pub private_data : Addr → Addr
  pub destructor : Addr → Addr
  pub aux_data : Addr → Addr
  pub calls : List (Addr × Addr)
  pub closed : List ℕ

-- `private_data && destructor`
abbrev pub has_destructor : Addr → Netfds → Bool
has_destructor fd s = not (s.private_data fd == 0) && not (s.destructor fd == 0)

unfoldable pub call_destructor : Addr → Netfds → Netfds
call_destructor fd s = record s { calls = s.calls ++ ((s.destructor fd, s.private_data fd) ∷ []) }

-- `_st_netfd_free_aux_data`
unfoldable pub free_aux_data : Addr → Netfds → Netfds
free_aux_data fd s = if fd == 0 then s else record s { aux_data = update s.aux_data fd 0 }

-- `st_netfd_free`
unfoldable pub netfd_free : Addr → Netfds → Netfds
unfolding free_aux_data call_destructor
netfd_free fd s =
    let s₁ = record s { inuse = update s.inuse fd false } in
    let s₂ = if s₁.aux_data fd == 0 then s₁ else free_aux_data fd s₁ in
    let s₃ = if has_destructor fd s₂ then call_destructor fd s₂ else s₂ in
    if fd == 0 || not (s.inuse fd) then s else record s₃ {
      private_data = update s₃.private_data fd 0;
      destructor = update s₃.destructor fd 0;
      freelist = fd ∷ s₃.freelist;
    }

-- The object for a new descriptor: one of the free list, or the `object` that `calloc` returns.
unfoldable pub take_netfd : Addr → Netfds → Addr × Netfds
take_netfd object s = elim s.freelist [
  | fd ∷ rest ↦ (fd, record s { freelist = rest })
  | [] ↦ (
    object,
    record s {
      private_data = update s.private_data object 0;
      destructor = update s.destructor object 0;
      aux_data = update s.aux_data object 0;
    },
  )
]

-- `_st_netfd_new`, without the call of `ioctlsocket`; `allowed` says that the event system's `fd_new`
-- has not failed.
unfoldable pub netfd_new : Bool → Addr → ℕ → Netfds → Netfds × Addr
unfolding take_netfd
netfd_new allowed object osfd s =
    let (fd, s₁) = take_netfd object s in
    if not allowed
    then (s, 0)
    else if fd == 0
    then (s, 0)
    else (record s₁ { osfd = update s₁.osfd fd osfd; inuse = update s₁.inuse fd true }, fd)

-- `st_netfd_open`, `st_netfd_open_socket`
unfoldable pub netfd_open : Bool → Addr → ℕ → Netfds → Netfds × Addr
unfolding netfd_new
netfd_open allowed object osfd s = if osfd == 0 then (s, 0) else netfd_new allowed object osfd s

-- `st_netfd_close`; `closable` is what the event system's `fd_close` says, `last` what
-- `_st_GetError(0)` returns after `closesocket`.
unfoldable pub netfd_close : Bool → Code → Addr → Netfds → Netfds × Code × Rc
unfolding netfd_free
netfd_close closable last fd s =
    let s₁ = netfd_free fd s in
    if fd == 0
    then (s, raw 0, ok)
    else if not closable
    then (s, raw 0, fail)
    else if s₁.osfd fd == 0
    then (s₁, raw 0, ok)
    else (record s₁ { closed = s₁.closed ++ (s₁.osfd fd ∷ []) }, last, ok)

-- `st_netfd_fileno`
unfoldable pub netfd_fileno : Addr → Netfds → ℕ
netfd_fileno fd s = if fd == 0 then 0 else s.osfd fd

-- `st_netfd_setspecific`
unfoldable pub netfd_setspecific : Addr → Addr → Addr → Netfds → Netfds
unfolding call_destructor
netfd_setspecific fd value destructor s =
    let s₁ =
      if not (value == s.private_data fd) && has_destructor fd s then call_destructor fd s else s in
    if fd == 0 then s else record s₁ {
      private_data = update s₁.private_data fd value;
      destructor = update s₁.destructor fd destructor;
    }

-- `st_netfd_getspecific`
unfoldable pub netfd_getspecific : Addr → Netfds → Addr
netfd_getspecific fd s = if fd == 0 then 0 else s.private_data fd

-- `st_netfd_serialize_accept`
unfoldable pub serialize_accept : Addr → Netfds → Netfds
unfolding free_aux_data
serialize_accept fd s = free_aux_data fd s

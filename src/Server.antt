-- ===== src/Server.antt =====
-- examples/server.c: the configuration of the server, the limits of its thread pools and the addresses
-- that it listens on. Pool has the threads of one listening socket, Watchdog the server processes,
-- Signals what the processes do on a signal; Throttling, Counters and Arguments have the proofs.
pub mod Throttling
pub mod Arguments
pub mod Pool
pub mod Counters
pub mod Serving
pub mod Watchdog
pub mod Children
pub mod Starting
pub mod Signals
use st_win.Prelude.{
  ℕ, zero, suc, ◌+◌, ◌*◌, ◌/◌, ◌%◌, ◌==◌, ltb, leb, Bool, true, false, not, ◌&&◌, ◌||◌, Option,
  none, some, List, [], ◌∷◌, ◌++◌, if◌then◌else◌,
}
use st_win.Prelude.Int.{ℤ, pos, negsuc}

-- A string is the list of its characters.
abbrev pub Text : Type 0
Text = List ℕ

-- The configuration flags and parameters. The numbers of threads are not negative once the arguments
-- have been read.
pub record Config : Type 0 where
  pub addrs : List Text
  pub vp_count : ℕ
  pub interactive_mode : Bool
  pub serialize_accept : Bool
  pub log_access : Bool
  pub logdir : Option Text
  pub username : Option Text
  pub listenq_size : ℕ
  pub max_threads : ℕ
  pub max_wait_threads : ℕ
  pub min_wait_threads : ℕ

-- `MAX_BIND_ADDRS`, `SERV_PORT_DEFAULT`, `MAX_WAIT_THREADS_DEFAULT`, `FD_PER_THREAD`
abbrev pub max_bind_addrs : ℕ
max_bind_addrs = 16

abbrev pub serv_port_default : ℕ
serv_port_default = 8000

abbrev pub max_wait_threads_default : ℕ
max_wait_threads_default = 8

abbrev pub fd_per_thread : ℕ
fd_per_thread = 2

-- `"0.0.0.0"`
abbrev pub any_addr : Text
any_addr = 48 ∷ 46 ∷ 48 ∷ 46 ∷ 48 ∷ 46 ∷ 48 ∷ []

abbrev pub default_config : Config
default_config = record {
  addrs = [];
  vp_count = 0;
  interactive_mode = false;
  serialize_accept = false;
  log_access = false;
  logdir = none;
  username = none;
  listenq_size = 256;
  max_threads = 0;
  max_wait_threads = 0;
  min_wait_threads = 2;
}

-- An option as `getopt` gives it. A number is what `atoi` or `strtol` reads from the argument; the
-- second one of `-t` is there if a colon follows the first.
pub data Opt : Type 0 where
  bind : Text → Opt
  processes : ℤ → Opt
  log_dir : Text → Opt
  threads : ℤ → Option ℤ → Opt
  user : Text → Opt
  backlog : ℤ → Opt
  access_log interactive serialize help : Opt

-- `n < 1`
abbrev pub at_least_one : ℤ → Option ℕ
at_least_one (pos zero) = none
at_least_one (pos (suc n)) = some (suc n)
at_least_one (negsuc n) = none

abbrev pub not_negative : ℤ → Option ℕ
not_negative (pos n) = some n
not_negative (negsuc n) = none

-- `max_threads = atoi(c);` where a colon stands
abbrev pub second_limit : Option ℤ → Config → Option ℕ
second_limit none c = some c.max_threads
second_limit (some z) c = not_negative z

abbrev pub count_addrs : List Text → ℕ
count_addrs [] = 0
count_addrs (a ∷ q) = suc (count_addrs q)

-- One option of `parse_arguments`; `none` where the program ends.
unfoldable pub parse_option : Opt → Config → Option Config
parse_option (bind a) c =
    if leb max_bind_addrs (count_addrs c.addrs)
    then none
    else some (record c { addrs = c.addrs ++ (a ∷ []) })
parse_option (processes z) c = elim (at_least_one z) [
  | none ↦ none
  | some n ↦ some (record c { vp_count = n })
]
parse_option (log_dir d) c = some (record c { logdir = some d })
parse_option (threads w m) c = elim (not_negative w) [
  | none ↦ none
  | some n ↦ elim (second_limit m c) [
    | none ↦ none
    | some k ↦ some (record c { max_wait_threads = n; max_threads = k })
  ]
]
parse_option (user u) c = some (record c { username = some u })
parse_option (backlog z) c = elim (at_least_one z) [
  | none ↦ none
  | some n ↦ some (record c { listenq_size = n })
]
parse_option access_log c = some (record c { log_access = true })
parse_option interactive c = some (record c { interactive_mode = true })
parse_option serialize c = some (record c { serialize_accept = true })
parse_option help c = none

-- The loop over the options.
unfoldable pub parse_options : List Opt → Config → Option Config
parse_options [] c = some c
parse_options (o ∷ opts) c = elim (parse_option o c) [
  | none ↦ none
  | some c' ↦ parse_options opts c'
]

-- `logdir == NULL && !interactive_mode`
abbrev pub lacks_logdir : Option Text → Bool → Bool
lacks_logdir none b = not b
lacks_logdir (some d) b = false

-- `if (vp_count == 0 && (vp_count = cpu_count()) < 1) vp_count = 1;`
abbrev pub choose_vp_count : ℤ → ℕ → ℕ
choose_vp_count cpus zero = elim (at_least_one cpus) [ none ↦ 1 | some n ↦ n ]
choose_vp_count cpus (suc n) = suc n

abbrev pub choose_addrs : List Text → List Text
choose_addrs [] = any_addr ∷ []
choose_addrs (a ∷ q) = a ∷ q

-- `parse_arguments`, with the result of `cpu_count`
unfoldable pub parse_arguments : ℤ → List Opt → Option Config
parse_arguments cpus opts = elim (parse_options opts default_config) [
  | none ↦ none
  | some c ↦
      if lacks_logdir c.logdir c.interactive_mode
      then none
      else some
          (record c { vp_count = choose_vp_count cpus c.vp_count; addrs = choose_addrs c.addrs })
]

-- The share of one process, rounded up.
unfoldable pub share : ℕ → ℕ → ℕ
share n vps = if n % vps == 0 then n / vps else n / vps + 1

-- The totals over all processes: the first part of `set_thread_throttling`, with the result of
-- `st_getfdlimit`.
unfoldable pub total_limits : ℕ → Config → Config
total_limits fdlimit c =
    let sk_count = count_addrs c.addrs in
    let w =
      if c.max_wait_threads == 0
      then max_wait_threads_default * c.vp_count
      else c.max_wait_threads in
    let m =
      if c.max_threads == 0
      then fdlimit * c.vp_count / fd_per_thread / sk_count
      else c.max_threads in
    record c { max_wait_threads = if ltb m w then m else w; max_threads = m }

-- `set_thread_throttling`
unfoldable pub set_thread_throttling : ℕ → Config → Config
unfolding total_limits share
set_thread_throttling fdlimit c =
    let c₁ = total_limits fdlimit c in
    let w = share c₁.max_wait_threads c₁.vp_count in
    record c₁ {
      max_wait_threads = w;
      max_threads = share c₁.max_threads c₁.vp_count;
      min_wait_threads = if ltb w c₁.min_wait_threads then w else c₁.min_wait_threads;
    }

-- `strchr(addr, ':')` splits the address; what stands behind the colon is read as the port.
unfoldable pub split_addr : Text → Text × Option Text
split_addr [] = ([], none)
split_addr (c ∷ s) =
    let (host, port) = split_addr s in if c == 58 then ([], some s) else (c ∷ host, port)

-- `if ((c = strchr(...)) != NULL) port = (unsigned short) atoi(c);`
abbrev pub read_port : (Text → ℕ) → Option Text → ℕ
read_port atoi none = 0
read_port atoi (some s) = atoi s % 65536

abbrev pub read_host : Text → Text
read_host [] = any_addr
read_host (c ∷ s) = c ∷ s

-- The address and the port of a listening socket in `create_listeners`; `atoi` is the C library's.
unfoldable pub listen_addr : (Text → ℕ) → Text → Text × ℕ
listen_addr atoi addr =
    let (host, c) = split_addr addr in
    let port = read_port atoi c in (read_host host, if port == 0 then serv_port_default else port)

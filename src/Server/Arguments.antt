-- ===== src/Server/Arguments.antt =====
-- `parse_arguments` and the addresses of `create_listeners`.
use st_win.Prelude.{
  ℕ, zero, suc, ◌%◌, ◌≤◌, ◌≡◌, ◌≢◌, ◌⊎◌, Bool, true, inl, inr, refl, arith, ◌==◌, leb, false,
  Option, none, some, List, [], ◌∷◌, ◌++◌, Bool-cases, Option-cases, if◌then◌else◌, ap,
}
use st_win.Prelude.Int.{ℤ, pos, negsuc}
use st_win.Prelude.Members.{has}
use st_win.Server.{
  Text, Config, Opt, bind, processes, log_dir, threads, user, backlog, access_log, interactive,
  serialize, help, count_addrs, default_config, max_bind_addrs, at_least_one, not_negative,
  second_limit, lacks_logdir, choose_vp_count, choose_addrs, parse_option, parse_options,
  parse_arguments, split_addr, listen_addr, read_host, serv_port_default,
}

-- What holds between two options.
record Sound (c : Config) : Type 0 where
  pub few : count_addrs c.addrs ≤ max_bind_addrs
  pub queue : 1 ≤ c.listenq_size

-- The configuration that the server starts with.
pub record Valid (c : Config) : Type 0 where
  pub processes : 1 ≤ c.vp_count
  pub addresses : (1 ≤ count_addrs c.addrs) × (count_addrs c.addrs ≤ max_bind_addrs)
  pub backlog : 1 ≤ c.listenq_size
  pub logs : (c.logdir ≢ none) ⊎ (c.interactive_mode ≡ true)

logdir_given :
    (logdir : Option Text) (b : Bool) → lacks_logdir logdir b ≡ false → (logdir ≢ none) ⊎ (b ≡ true)
logdir_given none true e = inr refl
logdir_given none false e = cc
logdir_given (some path) b e = inl (λ h. cc)

abbrev SoundIf : Option Config → Type 0
SoundIf none = Unit
SoundIf (some c) = Sound c

count-append : (q : List Text) (a : Text) → count_addrs (q ++ (a ∷ [])) ≡ suc (count_addrs q)
count-append [] a = refl
count-append (x ∷ q) a = ap suc (count-append q a)

at_least_one-le : (z : ℤ) (n : ℕ) → at_least_one z ≡ some n → 1 ≤ n
at_least_one-le (pos zero) n e = absurd (none_some e)
  where
    none_some : none ≡ some n → ⊥
    none_some h = cc
at_least_one-le (pos (suc k)) n e = ground arith
at_least_one-le (negsuc k) n e = absurd (none_some e)
  where
    none_some : none ≡ some n → ⊥
    none_some h = cc

parse_option-Sound : (o : Opt) {c : Config} → Sound c → SoundIf (parse_option o c)
unfolding parse_option
parse_option-Sound (bind a) {c} s = elim (Bool-cases (leb max_bind_addrs (count_addrs c.addrs))) [
  | inl full ↦ rw (SoundIf, full) tt
  | inr room ↦ rw (SoundIf, room) (record { few = rw count-append (ground arith); queue = s.queue })
]
parse_option-Sound (processes z) s = elim (Option-cases (at_least_one z)) [
  | inl bad ↦ rw (SoundIf, bad) tt
  | inr (n, e) ↦ rw (SoundIf, e) (record { few = s.few; queue = s.queue })
]
parse_option-Sound (log_dir d) s = record { few = s.few; queue = s.queue }
parse_option-Sound (threads w m) {c} s = elim (Option-cases (not_negative w)) [
  | inl bad ↦ rw (SoundIf, bad) tt
  | inr (n, e) ↦ elim (Option-cases (second_limit m c)) [
    | inl bad ↦ rw (SoundIf, e, bad) tt
    | inr (k, e') ↦ rw (SoundIf, e, e') (record { few = s.few; queue = s.queue })
  ]
]
parse_option-Sound (user u) s = record { few = s.few; queue = s.queue }
parse_option-Sound (backlog z) s = elim (Option-cases (at_least_one z)) [
  | inl bad ↦ rw (SoundIf, bad) tt
  | inr (n, e) ↦ rw (SoundIf, e) (record { few = s.few; queue = at_least_one-le z n e })
]
parse_option-Sound access_log s = record { few = s.few; queue = s.queue }
parse_option-Sound interactive s = record { few = s.few; queue = s.queue }
parse_option-Sound serialize s = record { few = s.few; queue = s.queue }
parse_option-Sound help s = tt

parse_options-Sound : (opts : List Opt) {c : Config} → Sound c → SoundIf (parse_options opts c)
unfolding parse_options
parse_options-Sound [] s = s
parse_options-Sound (o ∷ opts) {c} s = elim (Option-cases (parse_option o c)) [
  | inl bad ↦ rw (SoundIf, bad) tt
  | inr (c', e) ↦
      let s' : Sound c' = rw (SoundIf, e) at (parse_option-Sound o s) in
      rw (SoundIf, e) (parse_options-Sound opts s')
]

choose_vp_count-le : (cpus : ℤ) (n : ℕ) → 1 ≤ choose_vp_count cpus n
choose_vp_count-le (pos zero) zero = omega arith
choose_vp_count-le (pos (suc k)) zero = omega arith
choose_vp_count-le (negsuc k) zero = omega arith
choose_vp_count-le cpus (suc n) = omega arith

choose_addrs-count :
    (q : List Text)
    → count_addrs q ≤ max_bind_addrs
    → (1 ≤ count_addrs (choose_addrs q)) × (count_addrs (choose_addrs q) ≤ max_bind_addrs)
choose_addrs-count [] few = (omega arith, omega arith)
choose_addrs-count (a ∷ q) few = (omega arith, few)

abbrev ValidIf : Option Config → Type 0
ValidIf none = Unit
ValidIf (some c) = Valid c

Valid-arguments : (cpus : ℤ) (opts : List Opt) → ValidIf (parse_arguments cpus opts)
unfolding parse_arguments
Valid-arguments cpus opts =
    let start : Sound default_config = record { few = omega arith; queue = omega arith } in
    let ends = parse_options-Sound opts start in
    elim (Option-cases (parse_options opts default_config)) [
      | inl bad ↦ rw (ValidIf, bad) tt
      | inr (c, e) ↦
          let s : Sound c = rw e at ends in
          elim (Bool-cases (lacks_logdir c.logdir c.interactive_mode)) [
            | inl lacks ↦ rw (ValidIf, e, lacks) tt
            | inr has_one ↦
                rw (ValidIf, e, has_one)
                  (record {
                    processes = choose_vp_count-le cpus c.vp_count;
                    addresses = choose_addrs-count c.addrs s.few;
                    backlog = s.queue;
                    logs = logdir_given c.logdir c.interactive_mode has_one;
                  })
          ]
    ]

-- A configuration that `parse_arguments` accepts has one process or more, 1 to 16 addresses, a
-- listen queue of 1 or more, and a log directory unless the server is interactive.
pub parse_arguments-Valid :
    (cpus : ℤ) (opts : List Opt) {c : Config} → parse_arguments cpus opts ≡ some c → Valid c
parse_arguments-Valid cpus opts e = rw e at (Valid-arguments cpus opts)

split-colon : (host s : Text) → has 58 host ≡ false → split_addr (host ++ (58 ∷ s)) ≡ (host, some s)
unfolding split_addr has
split-colon [] s off = refl
split-colon (c ∷ host) s off =
    let d : (c == 58) ≡ false = ground arith in rw (split-colon host s (ground arith), d) refl

split-plain : (host : Text) → has 58 host ≡ false → split_addr host ≡ (host, none)
unfolding split_addr has
split-plain [] off = refl
split-plain (c ∷ host) off =
    let d : (c == 58) ≡ false = ground arith in rw (split-plain host (ground arith), d) refl

-- `create_listeners` splits an address at its first colon: what stands before it is the host, and what
-- stands behind it, modulo 2^16, the port, where an empty host is 0.0.0.0 and no port or 0 is 8000.
pub listen_addr-split :
    (atoi : Text → ℕ) (host s : Text)
    → has 58 host ≡ false
    → (listen_addr atoi (host ++ (58 ∷ s))
        ≡ (read_host host, if atoi s % 65536 == 0 then serv_port_default else atoi s % 65536))
      × (listen_addr atoi host ≡ (read_host host, serv_port_default))
unfolding listen_addr
listen_addr-split atoi host s off =
    (rw (split-colon host s off) refl, rw (split-plain host off) refl)

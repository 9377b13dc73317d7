-- ===== src/Dns/Search.antt =====
-- extensions/dnsres.c, `_stx_dns_getaddrlist`: under which names a host is searched.
use st_win.Prelude.{
  ℕ, suc, ◌+◌, ◌==◌, ltb, leb, Bool, true, false, not, ◌&&◌, ◌||◌, List, [], ◌∷◌, ◌++◌, length,
  Option, none, some, if◌then◌else◌,
}
use st_win.Vp.{Rc, ok, fail}
use st_win.Dns.{take}
use st_win.Dns.Resolver.{Res, HErrno, netdb_internal, host_not_found}

-- `_res`: its options RES_DEFNAMES, RES_DNSRCH and RES_USEVC, its `ndots` and its `dnsrch`; and whether
-- `res_init`, `socket` and `st_netfd_open_socket` succeed.
pub record Config : Type 0 where
  pub ready : Bool
  pub usevc : Bool
  pub socket : Bool
  pub defnames : Bool
  pub dnsrch : Bool
  pub ndots : ℕ
  pub domains : List (List ℕ)

-- '.'
abbrev pub dot : ℕ
dot = 46

unfoldable pub count_dots : List ℕ → ℕ
count_dots [] = 0
count_dots (c ∷ name) = if c == dot then suc (count_dots name) else count_dots name

unfoldable pub ends_in_dot : List ℕ → Bool
ends_in_dot [] = false
ends_in_dot (c ∷ []) = c == dot
ends_in_dot (c ∷ d ∷ name) = ends_in_dot (d ∷ name)

-- `h_errno == NETDB_INTERNAL && errno == EINTR`
abbrev pub is_internal : HErrno → Bool
is_internal netdb_internal = true
is_internal _ = false

abbrev pub broken_off : Res → Bool
broken_off s = is_internal s.h_errno && s.was_interrupted

-- The size of the buffer `name` less one, and `query_domain` with what the servers say.
module _ (maxlen : ℕ) (query : List ℕ → Res → Res × Rc) where
  -- `name[n++] = '.'; strncpy(name + n, *domain, maxlen - n)`; none where this leaves the buffer, or
  -- no room for the end of the string.
  unfoldable pub name_in : List ℕ → List ℕ → Option (List ℕ)
  name_in name domain =
      if ltb (length name + 1 + length domain) maxlen then some (name ++ (dot ∷ domain)) else none

  -- `for (domain = _res.dnsrch; *domain; domain++)`; the Boolean says that the function returns.
  unfoldable pub domain_loop : Bool → List ℕ → List (List ℕ) → Res → Option (Res × Rc × Bool)
  domain_loop all name [] s = some (s, fail, false)
  domain_loop all name (domain ∷ domains) s = elim (name_in name domain) [
    | none ↦ none
    | some full ↦
        let r = query full s in
        let rest = domain_loop all name domains r.0 in
        elim r.1 [
          | ok ↦ some (r.0, ok, true)
          | fail ↦
              if broken_off r.0
              then some (r.0, fail, true)
              else if all
              then rest
              else some (r.0, fail, false)
        ]
  ]

  -- The end of the function: `host` as it is, if it has not been tried so.
  abbrev pub finish : Bool → List ℕ → Option (Res × Rc × Bool) → Option (Res × Rc)
  finish tried_as_is host none = none
  finish tried_as_is host (some (s, rc, returns)) =
      if returns then some (s, rc) else if tried_as_is then some (s, fail) else some (query host s)

  -- Whether the domains are searched.
  abbrev pub searches : Config → List ℕ → Bool
  searches cfg name =
      (count_dots name == 0 && cfg.defnames)
      || (not (count_dots name == 0) && not (ends_in_dot name) && cfg.dnsrch)

  -- From the loop over the characters of the host on
  unfoldable pub search : Config → List ℕ → Res → Option (Res × Rc)
  search cfg host s =
      let name = take maxlen host in
      let early = leb cfg.ndots (count_dots name) in
      let first = query host s in
      let s₁ = if early then first.0 else s in
      let searched =
        if searches cfg name
        then domain_loop cfg.dnsrch name cfg.domains s₁
        else some (s₁, fail, false) in
      let later = finish early host searched in
      if early
      then (elim first.1 [
        | ok ↦ some (first.0, ok)
        | fail ↦ if broken_off first.0 then some (first.0, fail) else later
      ])
      else later

  -- `_stx_dns_getaddrlist`
  unfoldable pub dns_getaddrlist : Config → List ℕ → Res → Option (Res × Rc)
  dns_getaddrlist cfg host s =
      if not cfg.ready
      then some (record s { h_errno = netdb_internal }, fail)
      else if cfg.usevc
      then some (record s { h_errno = netdb_internal; was_interrupted = false }, fail)
      else if length host == 0
      then some (record s { h_errno = host_not_found }, fail)
      else if not cfg.socket
      then some (record s { h_errno = netdb_internal }, fail)
      else search cfg host s

-- ===== src/Dns/Candidates.antt =====
-- extensions/dnsres.c, `_stx_dns_getaddrlist`: the names that it tries, as a list.
use st_win.Prelude.{ℕ, ◌+◌, ◌<◌, leb, Bool, true, false, List, [], ◌∷◌, ◌++◌, length, if◌then◌else◌}
use st_win.Vp.{Rc, ok, fail}
use st_win.Dns.Resolver.{Res}
use st_win.Dns.Search.{Config, dot, count_dots, broken_off, searches}

module _ (maxlen : ℕ) (query : List ℕ → Res → Res × Rc) where
  -- One name after the other, until a query succeeds or is was_interrupted; the Boolean says that this
  -- has happened.
  abbrev try_some : List (List ℕ) → Res → Res × Rc × Bool
  try_some [] s = (s, fail, false)
  try_some (name ∷ names) s =
      let r = query name s in
      let rest = try_some names r.0 in
      elim r.1 [ ok ↦ (r.0, ok, true) | fail ↦ if broken_off r.0 then (r.0, fail, true) else rest ]

  abbrev pub try_all : List (List ℕ) → Res → Res × Rc
  try_all names s = let r = try_some names s in (r.0, r.1)

  abbrev pub in_domains : Bool → List ℕ → List (List ℕ) → List (List ℕ)
  in_domains all name [] = []
  in_domains all name (domain ∷ domains) =
      (name ++ (dot ∷ domain)) ∷ (if all then in_domains all name domains else [])

  -- The end of the function is a try of the host, unless it has been tried.
  abbrev pub last : Bool → List ℕ → List (List ℕ)
  last tried_as_is host = if tried_as_is then [] else host ∷ []

  -- The names to try, in their order.
  abbrev pub candidates : Config → List ℕ → List (List ℕ)
  candidates cfg host =
      let early = leb cfg.ndots (count_dots host) in
      (if early then host ∷ [] else [])
      ++ ((if searches maxlen query cfg host then in_domains cfg.dnsrch host cfg.domains else [])
          ++ last early host)

  -- The domains leave room in the buffer.
  abbrev pub Room : List ℕ → List (List ℕ) → Type 0
  Room name [] = Unit
  Room name (domain ∷ domains) = (length name + 1 + length domain < maxlen) × Room name domains

  -- What is left after a part of the names.
  abbrev and_then : List (List ℕ) → Res × Rc × Bool → Res × Rc × Bool
  and_then names r = if r.2 then r else try_some names r.0

  -- The names in the domains.
  abbrev middle : Config → List ℕ → List (List ℕ)
  middle cfg host =
      if searches maxlen query cfg host then in_domains cfg.dnsrch host cfg.domains else []

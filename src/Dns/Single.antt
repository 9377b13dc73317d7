-- ===== src/Dns/Single.antt =====
-- examples/res.c: the address of a host, without a cache. It is an older form of dnsres.c, from which the
-- reply, the dialogue with a server and the search are taken; the memory from `addr` on is `bytes` of Res,
-- and its other fields `ttl` and `num_addrs` are not used.
use st_win.Prelude.{
  ℕ, zero, suc, ◌+◌, ◌==◌, ltb, true, false, not, ◌||◌, List, [], ◌∷◌, Option, none, some,
  if◌then◌else◌,
}
use st_win.Vp.{Rc, ok, fail}
use st_win.Dns.Resolver.{
  netdb_internal, try_again, no_recovery, Reply, questions_loop, Res, sent, not_sent,
  send_interrupted, reply, closed, timed_out, recv_interrupted, Dialogue, recv_loop, rcode_error,
  Next, give_up, next_server, done,
}
use st_win.Dns.Search.{Config, dns_getaddrlist}

-- `memcpy(addr, cp, n)`
abbrev pub copy_bytes : ℕ → ℕ → Reply → (ℕ → ℕ) → ℕ → ℕ
copy_bytes cp n r bytes k = if ltb k n then r.byte (cp + k) else bytes k

-- `while (ahp->ancount > 0 && cp < eoa)`: the memory after the first record that is not a CNAME (5)
unfoldable pub first_answer : ℕ → ℕ → Reply → (ℕ → ℕ) → Option (ℕ → ℕ)
first_answer zero cp r bytes = none
first_answer (suc ancount) cp r bytes =
    let name_end = cp + elim (r.expand cp) [ none ↦ 0 | some n ↦ n ] in
    let n = r.getshort (name_end + 8) in
    let rest = first_answer ancount (name_end + 10 + n) r bytes in
    if not (ltb cp r.len) then none else elim (r.expand cp) [
      | none ↦ none
      | some _ ↦
          if r.getshort name_end == 5 then rest else some (copy_bytes (name_end + 10) n r bytes)
    ]

-- `parse_answer`
unfoldable pub parse_first : Reply → Res → Res × Rc
unfolding first_answer
parse_first r s = elim (first_answer r.ancount (questions_loop r.qdcount 12 r) r s.bytes) [
  | none ↦ (record s { h_errno = try_again }, fail)
  | some bytes ↦ (record s { bytes = bytes }, ok)
]

-- `query_domain` after a reply of the right id
unfoldable pub take_first : Reply → Res → Res × Next
unfolding parse_first
take_first r s =
    let p = parse_first r s in
    if ltb r.len 12
    then (record s { h_errno = netdb_internal; was_interrupted = false }, next_server)
    else if not (r.rcode == 0) || r.ancount == 0
    then (record s { h_errno = rcode_error r.rcode }, next_server)
    else elim p.1 [ ok ↦ (p.0, done) | fail ↦ (p.0, next_server) ]

-- One round of the for loop of `query_domain`
unfoldable pub ask_once : Dialogue → Res → Res × Next
unfolding take_first
ask_once q s =
    let failed = record s { h_errno = netdb_internal; was_interrupted = false } in
    let broken = record s { h_errno = netdb_internal; was_interrupted = true } in
    if not q.makes_query then (record s { h_errno = no_recovery }, give_up) else elim q.sending [
      | send_interrupted ↦ (broken, give_up)
      | not_sent ↦ (failed, next_server)
      | sent ↦ elim (recv_loop q.id q.arrivals) [
        | closed ↦ (failed, next_server)
        | timed_out ↦ (failed, next_server)
        | recv_interrupted ↦ (broken, give_up)
        | reply r ↦ take_first r s
      ]
    ]

-- `query_domain`
unfoldable pub query_first : List Dialogue → Res → Res × Rc
unfolding ask_once
query_first [] s = (s, fail)
query_first (q ∷ servers) s =
    let r = ask_once q s in
    let rest = query_first servers r.0 in
    elim r.1 [ give_up ↦ (r.0, fail) | done ↦ (r.0, ok) | next_server ↦ rest ]

-- `dns_getaddr`, with the size of the buffer `name` less one and what the servers say for each name
unfoldable pub dns_getaddr :
    ℕ → (List ℕ → List Dialogue) → Config → List ℕ → Res → Option (Res × Rc)
unfolding query_first
dns_getaddr maxlen servers = dns_getaddrlist maxlen (λ name. query_first (servers name))

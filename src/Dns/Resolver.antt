-- ===== src/Dns/Resolver.antt =====
-- extensions/dnsres.c: the parser of an answer, the dialogue with the name servers, and the list of
-- names that are tried.
use st_win.Prelude.{
  ℕ, zero, suc, ◌+◌, ◌-◌, ◌*◌, ◌^◌, ◌==◌, ltb, leb, Bool, true, false, not, ◌&&◌, ◌||◌, List, [],
  ◌∷◌, Option, none, some, if◌then◌else◌,
}
use st_win.Prelude.Int.{ℤ, pos, negsuc}
use st_win.Vp.{Rc, ok, fail}

pub data HErrno : Type 0 where
  netdb_internal host_not_found try_again no_recovery no_data : HErrno

-- A reply: its length, the counts of its header, and what the resolver library reads in it: the length
-- of a name that `dn_skipname` and `dn_expand` find at an offset (none for -1), the numbers that
-- `_getshort` and `_getlong` read there, and the bytes.
pub record Reply : Type 0 where
  pub len : ℕ
  pub id : ℕ
  pub rcode : ℕ
  pub qdcount : ℕ
  pub ancount : ℕ
  pub skipname : ℕ → Option ℕ
  pub expand : ℕ → Option ℕ
  pub getshort : ℕ → ℕ
  pub getlong : ℕ → ℕ
  pub byte : ℕ → ℕ

-- The locals of `parse_answer`, `_stx_dns_ttl`, the bytes of the array of addresses, and the parts of
-- the reply that have been read, each with its offset and length.
pub record Parse : Type 0 where
  pub cp : ℕ
  pub i : ℕ
  pub ttl : ℤ
  pub bytes : ℕ → ℕ
  pub seen : List (ℕ × ℕ)

-- 32 bits as an `int`
abbrev pub as_int : ℕ → ℤ
as_int n = if ltb n (2 ^ 31) then pos n else negsuc (2 ^ 32 - 1 - n)

-- `while (ahp->qdcount > 0)`; a name that cannot be skipped counts for -1
unfoldable pub questions_loop : ℕ → ℕ → Reply → ℕ
questions_loop zero cp r = cp
questions_loop (suc qdcount) cp r =
    questions_loop qdcount (cp + elim (r.skipname cp) [ none ↦ 3 | some n ↦ n + 4 ]) r

-- `memcpy(&addrs[i], cp, n)`
abbrev pub copy_addr : ℕ → ℕ → ℕ → Reply → (ℕ → ℕ) → ℕ → ℕ
copy_addr i cp n r bytes k =
    if leb (i * 4) k && ltb k (i * 4 + n) then r.byte (cp + (k - i * 4)) else bytes k

-- An answer whose name ends at `s.cp`
unfoldable pub parse_record : Reply → Parse → Parse × Rc
parse_record r s =
    let is_a = r.getshort s.cp == 1 in
    let n = r.getshort (s.cp + 8) in
    let s₁ = record s {
      ttl = if is_a then as_int (r.getlong (s.cp + 4)) else s.ttl;
      cp = s.cp + 10;
      seen = (s.cp, 2) ∷ (s.cp + 8, 2) ∷ (if is_a then (s.cp + 4, 4) ∷ s.seen else s.seen);
    } in
    let s₂ = record s₁ {
      bytes = copy_addr s₁.i s₁.cp n r s₁.bytes;
      i = s₁.i + 1;
      seen = (s₁.cp, n) ∷ s₁.seen;
      cp = s₁.cp + n;
    } in
    if leb r.len (s.cp + 10)
    then (s, fail)
    else if not is_a
    then (record s₁ { cp = s₁.cp + n }, ok)
    else if ltb 4 n || ltb r.len (s₁.cp + n)
    then (s₁, fail)
    else (s₂, ok)

-- `while (ahp->ancount > 0 && cp < eoa && i < *num_addrs)`
unfoldable pub answers_loop : ℕ → ℕ → Reply → Parse → Parse × Rc
answers_loop zero num r s = (s, ok)
answers_loop (suc ancount) num r s =
    let named =
      parse_record r (record s { cp = s.cp + elim (r.expand s.cp) [ none ↦ 0 | some n ↦ n ] }) in
    let rest = answers_loop ancount num r named.0 in
    if not (ltb s.cp r.len && ltb s.i num) then (s, ok) else elim (r.expand s.cp) [
      | none ↦ (s, fail)
      | some n ↦ elim named.1 [ fail ↦ named | ok ↦ rest ]
    ]

-- What the functions of dnsres.c change.
pub record Res : Type 0 where
  pub h_errno : HErrno
  pub was_interrupted : Bool
  pub ttl : ℤ
  pub bytes : ℕ → ℕ
  pub num_addrs : ℕ

-- `parse_answer`; the header is 12 bytes long
abbrev pub start_parse : Reply → Res → Parse
start_parse r s = record {
  cp = questions_loop r.qdcount 12 r;
  i = 0;
  ttl = negsuc 0;
  bytes = s.bytes;
  seen = [];
}

abbrev pub parsed : Reply → Res → Parse × Rc
parsed r s = answers_loop r.ancount s.num_addrs r (start_parse r s)

unfoldable pub parse_answer : Reply → Res → Res × Rc
parse_answer r s =
    let p = parsed r s in
    let s₁ = record s { h_errno = try_again; ttl = p.0.ttl; bytes = p.0.bytes } in
    elim p.1 [ fail ↦ (s₁, fail) | ok ↦ (record s₁ { num_addrs = p.0.i }, ok) ]

-- The dialogue with one server: whether `res_mkquery` makes a query, of which id, what `st_sendto`
-- returns, and what `st_recvfrom` does then, until its time-out.
pub data Sending : Type 0 where
  sent not_sent send_interrupted : Sending

pub data Arrival : Type 0 where
  reply : Reply → Arrival
  closed timed_out recv_interrupted : Arrival

pub record Dialogue : Type 0 where
  pub makes_query : Bool
  pub id : ℕ
  pub sending : Sending
  pub arrivals : List Arrival

-- `do ... while (id != hp->id)`
unfoldable pub recv_loop : ℕ → List Arrival → Arrival
recv_loop id [] = timed_out
recv_loop id (closed ∷ q) = closed
recv_loop id (timed_out ∷ q) = timed_out
recv_loop id (recv_interrupted ∷ q) = recv_interrupted
recv_loop id (reply r ∷ q) = if r.id == id then reply r else recv_loop id q

-- `switch (hp->rcode)`: NXDOMAIN, SERVFAIL, NOERROR
abbrev pub rcode_error : ℕ → HErrno
rcode_error rcode =
    if rcode == 3
    then host_not_found
    else if rcode == 2
    then try_again
    else if rcode == 0
    then no_data
    else no_recovery

-- `return` of `query_domain`, or `continue`
pub data Next : Type 0 where
  give_up next_server done : Next

unfoldable pub take_reply : Reply → Res → Res × Next
take_reply r s =
    let p = parse_answer r s in
    if ltb r.len 12
    then (record s { h_errno = netdb_internal; was_interrupted = false }, next_server)
    else if not (r.rcode == 0) || r.ancount == 0
    then (record s { h_errno = rcode_error r.rcode }, next_server)
    else elim p.1 [ ok ↦ (p.0, done) | fail ↦ (p.0, next_server) ]

-- One round of the for loop
unfoldable pub ask_server : Dialogue → Res → Res × Next
ask_server q s =
    let failed = record s { h_errno = netdb_internal; was_interrupted = false } in
    let broken = record s { h_errno = netdb_internal; was_interrupted = true } in
    if not q.makes_query then (record s { h_errno = no_recovery }, give_up) else elim q.sending [
      | send_interrupted ↦ (broken, give_up)
      | not_sent ↦ (failed, next_server)
      | sent ↦ elim (recv_loop q.id q.arrivals) [
        | closed ↦ (failed, next_server)
        | timed_out ↦ (failed, next_server)
        | recv_interrupted ↦ (broken, give_up)
        | reply r ↦ take_reply r s
      ]
    ]

-- `query_domain`, with the dialogues with the servers
unfoldable pub query_domain : List Dialogue → Res → Res × Rc
query_domain [] s = (s, fail)
query_domain (q ∷ servers) s =
    let r = ask_server q s in
    let rest = query_domain servers r.0 in
    elim r.1 [ give_up ↦ (r.0, fail) | done ↦ (r.0, ok) | next_server ↦ rest ]

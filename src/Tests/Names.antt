-- ===== src/Tests/Names.antt =====
-- The DNS cache and the resolver at work.
use st_win.Prelude.{
  ℕ, ◌%◌, ◌^◌, ◌≤◌, ◌<◌, ◌≡◌, ◌⊎◌, refl, ◌==◌, arith, true, false, List, [], ◌∷◌, none, some,
  if◌then◌else◌,
}
use st_win.Prelude.Int.{pos, negsuc}
use st_win.Prelude.Members.{has, remove_link}
use st_win.TimeoutHeap.{Addr}
use st_win.Prelude.Words.{add64}
use st_win.Lru.{entry_insert, evict_loop, evict_one, Cache, cache_create, entry_create, enter_cache}
use st_win.Lru.Entries.{Good}
use st_win.Lru.Create.{cache_create-Good, entry_create-Good}
use st_win.Lru.Insert.{enter_cache-Good}
use st_win.Dns.{Dns, lookup_entry, hash_hostname, hash_loop, same_text}
use st_win.Dns.Single.{first_answer, parse_first}
use st_win.Dns.Hash.{polynomial, hash_hostname-polynomial}
use st_win.Dns.Answers.{Answers, Filled, NotOf, Latest, lookup_entry-Answers}
use st_win.Dns.Resolver.{
  Reply, Res, try_again, parse_answer, parsed, Dialogue, sent, reply, answers_loop, questions_loop,
  parse_record,
}
use st_win.Dns.Packet.{Within, parse_answer-bounded}
use st_win.Dns.Search.{Config}
use st_win.Dns.Stored.{Fresh, lookup_entry-insert_entry}
use st_win.Dns.{Blocks, before_insert, insert_entry}
use st_win.Tests.Caches.{blank}

-- "ab" has the hash value 97 * 15 + 98.
hashed : hash_hostname (97 ∷ 98 ∷ []) ≡ 1553
unfolding hash_hostname hash_loop
hashed = refl

hash_of_two_characters : hash_hostname (97 ∷ 98 ∷ []) ≡ polynomial 0 (97 ∷ 98 ∷ []) % 2 ^ 32
hash_of_two_characters = hash_hostname-polynomial (97 ∷ 98 ∷ [])

-- A reply to a query without questions: one address record of 4 bytes, whose name takes 2 bytes.
abbrev one_record : Reply
one_record = record {
  len = 40;
  id = 7;
  rcode = 0;
  qdcount = 0;
  ancount = 1;
  skipname = λ cp. none;
  expand = λ cp. some 2;
  getshort = λ cp. if cp == 14 then 1 else 4;
  getlong = λ cp. 300;
  byte = λ k. k;
}

abbrev idle_res : Res
idle_res = record {
  h_errno = try_again;
  was_interrupted = false;
  ttl = negsuc 0;
  bytes = λ k. 0;
  num_addrs = 8;
}

parse_answer-bounded_example :
    ((parse_answer one_record idle_res).0.num_addrs ≤ 8)
    × ((k : ℕ) → 32 ≤ k → (parse_answer one_record idle_res).0.bytes k ≡ 0)
    × Within 40 (parsed one_record idle_res).0.seen
parse_answer-bounded_example = parse_answer-bounded one_record idle_res

parses : (parse_answer one_record idle_res).0.num_addrs ≡ 1
unfolding parse_answer answers_loop questions_loop parse_record
parses = refl

expires_in : (parse_answer one_record idle_res).0.ttl ≡ pos 300
unfolding parse_answer answers_loop questions_loop parse_record
expires_in = refl

copies : (parse_answer one_record idle_res).0.bytes 3 ≡ 27
unfolding parse_answer answers_loop questions_loop parse_record
copies = refl

-- "a" is searched in the domains "b.c" and "d"; the server answers the query for "a.d" only.
abbrev two_domains : Config
two_domains = record {
  ready = true;
  usevc = false;
  socket = true;
  defnames = true;
  dnsrch = true;
  ndots = 1;
  domains = (98 ∷ 46 ∷ 99 ∷ []) ∷ (100 ∷ []) ∷ [];
}

abbrev network : List ℕ → List Dialogue
network name =
    if same_text name (97 ∷ 46 ∷ 100 ∷ [])
    then record { makes_query = true; id = 7; sending = sent; arrivals = reply one_record ∷ [] }
      ∷ []
    else []

-- The entry 20 with the data 50 is of the host "a", until the time 500; the name is asked for at 9.
abbrev text : Addr → List ℕ
text a = if a == 5 then 97 ∷ [] else if a == 9 then 97 ∷ [] else []

abbrev text_hash : Addr → ℕ
text_hash a = hash_hostname (text a)

abbrev one_host : Cache
one_host =
    enter_cache text_hash (λ a b. a == b) 20
      (entry_create 20 5 50 60 (cache_create 11 12 2 100 4 true blank).0).0

abbrev one_dns : Dns
one_dns = record {
  cache_at = 11;
  cache = one_host;
  text = text;
  dns_data = λ a. record {
    addrs_at = 70;
    addrs = 1001 ∷ 1002 ∷ [];
    num_addrs = 2;
    cur = 0;
    expires = 500;
  };
  now = 400;
  ttl = 300;
  released = [];
}

one_host-Good : Good text_hash one_host (20 ∷ [])
unfolding has entry_create cache_create
one_host-Good =
    enter_cache-Good text_hash (λ a b. a == b) 20
      (entry_create 20 5 50 60 (cache_create 11 12 2 100 4 true blank).0).0 []
      (entry_create-Good text_hash 20 5 50 60 (cache_create 11 12 2 100 4 true blank).0 []
        (cache_create-Good text_hash 11 12 2 100 4 true blank (ground arith) (ground arith)
          (omega arith) (omega arith) (λ e. refl))
        refl)
      (ground arith) refl (ground arith) (ground arith) (ground arith)

two_addresses : (e : Addr) → has e (20 ∷ []) ≡ true → Filled (one_dns.dns_data (one_host.value e))
two_addresses e m = record { size = refl; cur = ground arith }

lookup_entry-Answers_example :
    (((x : Addr) → has x (20 ∷ []) ≡ true → NotOf 9 one_dns x)
      × ((lookup_entry 9 1 true one_dns).1 ≡ none)
      × Good text_hash (lookup_entry 9 1 true one_dns).0.cache (20 ∷ []))
    ⊎ ((e : Addr) × Latest 9 one_dns (20 ∷ []) e
        × (((400 ≤ 500)
              × ((r : List ℕ × ℕ) × ((lookup_entry 9 1 true one_dns).1 ≡ some r)
                  × Answers (1001 ∷ 1002 ∷ []) 0 1 r)
              × (((lookup_entry 9 1 true one_dns).0.dns_data (one_host.value e)).cur ≡ 1)
              × Good text_hash (lookup_entry 9 1 true one_dns).0.cache (20 ∷ []))
            ⊎ ((500 < 400)
                × ((lookup_entry 9 1 true one_dns).1 ≡ none)
                × Good text_hash
                    (lookup_entry 9 1 true one_dns).0.cache
                    (if one_host.ref_count e == 0 then remove_link e (20 ∷ []) else 20 ∷ []))))
unfolding enter_cache entry_create cache_create
lookup_entry-Answers_example =
    lookup_entry-Answers 9 one_dns (20 ∷ []) 1 true one_host-Good (ground arith) two_addresses

-- A cache without entries, and what is allocated for the host "a", whose name is at 9.
abbrev no_hosts : Dns
no_hosts = record one_dns { cache = (cache_create 11 12 2 100 4 true blank).0 }

abbrev blocks : Blocks
blocks = record { key = 5; dns_data = 50; addrs = 70; entry = 20 }

blocks-Fresh : Fresh blocks no_hosts []
unfolding has
blocks-Fresh = record {
  some_key = ground arith;
  some_info = ground arith;
  some_addrs = ground arith;
  some_entry = ground arith;
  new_key = λ x m. cc;
  new_entry = refl;
}

no_hosts-Good : Good text_hash no_hosts.cache []
no_hosts-Good =
    cache_create-Good text_hash 11 12 2 100 4 true blank (ground arith) (ground arith) (omega arith)
      (omega arith) (λ e. refl)

lookup_entry-insert_entry_example :
    ((insert_entry 9 (1001 ∷ 1002 ∷ []) 2 blocks no_hosts).cache.ref_count 20 ≡ 0)
    × ((r : List ℕ × ℕ) × ((lookup_entry 9 1 true
            (insert_entry 9 (1001 ∷ 1002 ∷ []) 2 blocks no_hosts)).1
          ≡ some r)
        × Answers (1001 ∷ 1002 ∷ []) 0 1 r)
unfolding cache_create entry_create entry_insert evict_loop evict_one add64 before_insert
lookup_entry-insert_entry_example =
    lookup_entry-insert_entry 9 (1001 ∷ 1002 ∷ []) 2 blocks no_hosts [] blocks-Fresh 1 true
      no_hosts-Good (ground arith) (ground arith) (ground arith) refl refl (ground arith)

-- A record of 16 bytes: `parse_answer` of res.c writes behind the four bytes of the address.
overrun : (parse_first (record one_record { getshort = λ cp. 16 }) idle_res).0.bytes 15 ≡ 39
unfolding parse_first first_answer questions_loop
overrun = refl

-- ===== src/Dns.antt =====
-- extensions/dnscache.c: the addresses of hosts, kept in a cache of lrucache.c until they expire.
pub mod Hash
pub mod Expiry
pub mod Settle
pub mod Answers
pub mod Stored
pub mod Resolver
pub mod Packet
pub mod Search
pub mod Candidates
pub mod Single
use st_win.Prelude.{
  ℕ, zero, suc, ◌+◌, ◌-◌, ◌*◌, ◌%◌, ◌^◌, ◌==◌, ltb, leb, Bool, true, false, not, ◌&&◌, List, [],
  ◌∷◌, ◌++◌, length, Option, none, some, if◌then◌else◌, update, map,
}
use st_win.Prelude.Words.{add64}
use st_win.TimeoutHeap.{Addr}
use st_win.Vp.{Rc, ok, fail}
use st_win.Lru.{
  Cache, cache_create, entry_create, entry_delete, entry_insert, entry_lookup, entry_release,
}
use st_win.Lru.Contents.{Info, cache_getinfo, entry_getdata}

-- `stx_dns_data_t`; `addrs` is the array at `addrs_at`.
pub record Data : Type 0 where
  pub addrs_at : Addr
  pub addrs : List ℕ
  pub num_addrs : ℕ
  pub cur : ℕ
  pub expires : ℕ

-- `_stx_dns_cache`, what its entries point at, `st_time()`, `_stx_dns_ttl` (0 if it is not positive),
-- and the calls of `free`.
pub record Dns : Type 0 where
  pub cache_at : Addr
  pub cache : Cache
  pub text : Addr → List ℕ
  pub dns_data : Addr → Data
  pub now : ℕ
  pub ttl : ℕ
  pub released : List Addr

-- A `char` is signed; as an `unsigned long` of 32 bits it is
abbrev pub char_value : ℕ → ℕ
char_value c = if ltb c 128 then c else c + 2 ^ 32 - 256

unfoldable pub hash_loop : ℕ → List ℕ → ℕ
hash_loop hash [] = hash
hash_loop hash (c ∷ name) =
    hash_loop ((hash * 16 % 2 ^ 32 + 2 ^ 32 - hash + char_value c) % 2 ^ 32) name

-- `hash_hostname`
unfoldable pub hash_hostname : List ℕ → ℕ
hash_hostname name = hash_loop 0 name

-- `strcmp(a, b) == 0`
unfoldable pub same_text : List ℕ → List ℕ → Bool
same_text [] [] = true
same_text [] (b ∷ y) = false
same_text (a ∷ x) [] = false
same_text (a ∷ x) (b ∷ y) = if a == b then same_text x y else false

-- The functions that the cache is made with.
abbrev pub host_hash : Dns → Addr → ℕ
host_hash d key = hash_hostname (d.text key)

abbrev pub same_host : Dns → Addr → Addr → Bool
same_host d a b = same_text (d.text a) (d.text b)

-- `cleanup_entry`
unfoldable pub cleanup_entry : Addr → Addr → Dns → Dns
cleanup_entry key dns_data d =
    let d₁ = if key == 0 then d else record d { released = d.released ++ (key ∷ []) } in
    let d₂ =
      if (d₁.dns_data dns_data).addrs_at == 0
      then d₁
      else record d₁ { released = d₁.released ++ ((d₁.dns_data dns_data).addrs_at ∷ []) } in
    if dns_data == 0 then d₁ else record d₂ { released = d₂.released ++ (dns_data ∷ []) }

abbrev pub cleanup_all : List (Addr × Addr) → Dns → Dns
cleanup_all [] d = d
cleanup_all ((key, dns_data) ∷ calls) d = cleanup_all calls (cleanup_entry key dns_data d)

-- The cache after an operation, and the calls of `cleanup_entry` that it has made.
abbrev pub after_cleanup : Cache → Dns → Dns
after_cleanup c d = cleanup_all c.cleaned (record d { cache = record c { cleaned = [] } })

abbrev pub at_index : ℕ → List ℕ → ℕ
at_index i [] = 0
at_index zero (a ∷ q) = a
at_index (suc i) (a ∷ q) = at_index i q

abbrev pub take : ℕ → List ℕ → List ℕ
take zero q = []
take (suc n) [] = []
take (suc n) (a ∷ q) = a ∷ take n q

abbrev pub stx_min : ℕ → ℕ → ℕ
stx_min a b = if ltb a b then a else b

-- `data->addrs[data->cur++]; if (data->cur >= data->num_addrs) data->cur = 0;`
unfoldable pub rotate_cur : Data → Data
rotate_cur dns_data =
    let cur = dns_data.cur + 1 in
    record dns_data { cur = if leb dns_data.num_addrs cur then 0 else cur }

-- What `lookup_entry` writes at `addrs` and `num_addrs`
abbrev pub answer : Data → ℕ → Bool → List ℕ × ℕ
answer dns_data num rotate =
    if num == 1
    then (at_index (if rotate then dns_data.cur else 0) dns_data.addrs ∷ [], 1)
    else (take (stx_min num dns_data.num_addrs) dns_data.addrs, stx_min num dns_data.num_addrs)

-- `lookup_entry`; none for 0
unfoldable pub lookup_entry : Addr → ℕ → Bool → Dns → Dns × Option (List ℕ × ℕ)
lookup_entry host num rotate d =
    let r = entry_lookup (host_hash d) (same_host d) host d.cache in
    let at = entry_getdata r.1 r.0 in
    let found = d.dns_data at in
    let used = record d {
      dns_data = if num == 1 && rotate then update d.dns_data at (rotate_cur found) else d.dns_data;
    } in
    if r.1 == 0
    then (record d { cache = r.0 }, none)
    else if leb d.now found.expires
    then (after_cleanup (entry_release r.1 r.0) used, some (answer found num rotate))
    else (after_cleanup (entry_delete r.1 (entry_release r.1 r.0)) d, none)

-- The results of the allocations of `insert_entry`.
pub record Blocks : Type 0 where
  pub key : Addr
  pub dns_data : Addr
  pub addrs : Addr
  pub entry : Addr

-- `sizeof(stx_dns_data_t)` and `sizeof(stx_cache_entry_t)` with pointers of 64 bits
abbrev pub sizeof_data : ℕ
sizeof_data = 24

abbrev pub sizeof_entry : ℕ
sizeof_entry = 64

-- The data that `insert_entry` stores, and what it takes the entry to weigh.
abbrev pub stored : List ℕ → ℕ → Blocks → Dns → Data
stored addrs count b d = record {
  addrs_at = b.addrs;
  addrs = if b.addrs == 0 then [] else take count addrs;
  num_addrs = count;
  cur = 0;
  expires = d.now + d.ttl;
}

abbrev pub host_weight : List ℕ → ℕ → ℕ
host_weight name count = (length name + 1 + sizeof_data + count * 4 + sizeof_entry) % 2 ^ 64

-- `strdup`, the `malloc`s and `stx_cache_entry_create`
abbrev pub made_entry : Addr → ℕ → Blocks → Dns → Cache × Addr
made_entry host count b d =
    entry_create b.entry b.key b.dns_data (host_weight (d.text host) count) d.cache

unfoldable pub before_insert : Addr → List ℕ → ℕ → Blocks → Dns → Dns
before_insert host addrs count b d = record d {
  text = if b.key == 0 then d.text else update d.text b.key (d.text host);
  dns_data =
      if b.dns_data == 0 then d.dns_data else update d.dns_data b.dns_data (stored addrs count b d);
  cache = (made_entry host count b d).0;
}

-- The call of `stx_cache_entry_insert`
abbrev pub insertion : Addr → Dns → Cache × Rc
insertion entry d = entry_insert (host_hash d) (same_host d) entry d.cache

-- What follows it
unfoldable pub settle : Addr → Cache × Rc → Dns → Dns
settle entry r d =
    let d₁ = after_cleanup r.0 d in
    elim r.1 [
      | ok ↦ after_cleanup (entry_release entry d₁.cache) d₁
      | fail ↦ after_cleanup (entry_delete entry d₁.cache) d₁
    ]

-- `insert_entry`
unfoldable pub insert_entry : Addr → List ℕ → ℕ → Blocks → Dns → Dns
insert_entry host addrs count b d =
    let entry = (made_entry host count b d).1 in
    let d₁ = before_insert host addrs count b d in
    let discard =
      if entry == 0
      then cleanup_entry b.key b.dns_data d₁
      else after_cleanup (entry_delete entry d₁.cache) d₁ in
    if d.ttl == 0
    then d
    else if not (b.key == 0) && not (b.dns_data == 0) && not (b.addrs == 0) && not (entry == 0)
    then settle entry (insertion entry d₁) d₁
    else discard

-- `tolower` of the C library
module _ (tolower : ℕ → ℕ) where
  -- The first 127 characters, in lower case
  abbrev pub lower : List ℕ → List ℕ
  lower name = map tolower (take 127 name)

  -- `_stx_dns_getaddrlist` with its limit; none if it fails. Other threads run while it waits.
  module _ (resolve : List ℕ → ℕ → Dns → Dns × Option (List ℕ)) where
    -- `_stx_dns_cache_getaddrlist` with its local buffer at `host`
    unfoldable pub cache_getaddrlist :
        Addr → Blocks → List ℕ → ℕ → Bool → Dns → Dns × Option (List ℕ × ℕ)
    cache_getaddrlist host b hostname num rotate d =
        let direct = resolve hostname num d in
        let d₁ = record d { text = update d.text host (lower hostname) } in
        let found = lookup_entry host num rotate d₁ in
        let asked = resolve (lower hostname) 1024 found.0 in
        let d₂ = record asked.0 { text = update asked.0.text host (lower hostname) } in
        if d.cache_at == 0
        then (direct.0, elim direct.1 [ none ↦ none | some addrs ↦ some (addrs, length addrs) ])
        else elim found.1 [
          | some a ↦ found
          | none ↦ elim asked.1 [
            | none ↦ (asked.0, none)
            | some addrs ↦
                let n = stx_min num (length addrs) in
                (insert_entry host addrs (length addrs) b d₂, some (take n addrs, n))
          ]
        ]

    -- `stx_dns_getaddrlist`, `stx_dns_getaddr`
    unfoldable pub getaddrlist : Addr → Blocks → List ℕ → ℕ → Dns → Dns × Option (List ℕ × ℕ)
    getaddrlist host b hostname num d = cache_getaddrlist host b hostname num false d

    unfoldable pub getaddr : Addr → Blocks → List ℕ → Dns → Dns × Option (List ℕ × ℕ)
    getaddr host b hostname d = cache_getaddrlist host b hostname 1 true d

-- `stx_dns_cache_init` with the results of the allocations of `stx_cache_create`
unfoldable pub cache_init : Addr → Addr → ℕ → ℕ → ℕ → Dns → Dns × Rc
cache_init newcache table max_size max_bytes hash_size d =
    let c = cache_create newcache table max_size max_bytes hash_size true d.cache in
    let d₁ = record d { cache = c.0; cache_at = c.1 } in if c.1 == 0 then (d₁, fail) else (d₁, ok)

-- `stx_dns_cache_getinfo`
unfoldable pub dns_cache_getinfo : Dns → Info
dns_cache_getinfo d =
    if d.cache_at == 0
    then record {
      max_size = 0;
      max_weight = 0;
      hash_size = 0;
      cur_size = 0;
      cur_weight = 0;
      hits = 0;
      lookups = 0;
      inserts = 0;
      deletes = 0;
    }
    else cache_getinfo d.cache

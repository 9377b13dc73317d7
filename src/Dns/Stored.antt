-- ===== src/Dns/Stored.antt =====
-- What `insert_entry` has put into the cache is what `lookup_entry` finds.
use st_win.Prelude.{
  ℕ, ◌+◌, ◌^◌, ◌≤◌, ◌<◌, ◌≡◌, ◌≢◌, inl, inr, refl, sym, ap, subst, ◌∙◌, ◌==◌, Bool, true, false,
  List, [], ◌∷◌, length, if◌then◌else◌, some, arith,
}
use st_win.Prelude.Members.{has}
use st_win.TimeoutHeap.{Addr}
use st_win.Vp.{ok}
use st_win.Lru.{Cache, entry_create, entry_release}
use st_win.Lru.Entries.{Good}
use st_win.Lru.Create.{entry_create-Good}
use st_win.Lru.Lookup.{first, matches}
use st_win.Dns.{
  Dns, Blocks, host_hash, same_host, same_text, hash_hostname, answer, insert_entry, lookup_entry,
  take, stored, host_weight, made_entry, before_insert, insertion, settle,
}
use st_win.Dns.Expiry.{lookup_entry-expires, entry_of, data_of}
use st_win.Dns.Answers.{Answers, Filled, answer-Answers}
use st_win.Dns.Settle.{
  Good-hash, same_text_refl, quiet, Entered, with_cache, settle-cache, settle-Entered,
  insert_entry-settle,
}

first_here :
    (test : Addr → Bool) (e : Addr) (rest : List Addr) → test e ≡ true → first test (e ∷ rest) ≡ e
unfolding first
first_here test e rest pass = rw pass

-- A lookup after it.
lookup_entry-Entered :
    (d : Dns) (host e : Addr) (rest : List Addr) (c : Cache) (freed : List Addr) (num : ℕ)
    (rotate : Bool)
    → Entered d e rest c
    → e ≢ 0
    → 0 < d.cache.hash_size
    → d.text host ≡ d.text (d.cache.key e)
    → d.now ≤ (d.dns_data (d.cache.value e)).expires
    → (lookup_entry host num rotate (with_cache c freed d)).1
      ≡ some (answer (d.dns_data (d.cache.value e)) num rotate)
lookup_entry-Entered d host e rest c freed num rotate entered ne buckets same fresh =
    let d' = with_cache c freed d in
    let text = same ∙ ap d.text (sym entered.key) in
    let equal : same_host d host (c.key e) ≡ true =
      ap (λ t. same_text t (d.text (c.key e))) text ∙ same_text_refl (d.text (c.key e)) in
    let here : entry_of host d' (e ∷ rest) ≡ e =
      first_here (matches (host_hash d') (same_host d') host c) e rest
        (ground (arith, entered.live, equal)) in
    let info : data_of host d' (e ∷ rest) ≡ d.dns_data (d.cache.value e) =
      ap (λ x. d.dns_data (c.value x)) here ∙ ap d.dns_data entered.value in
    elim (lookup_entry-expires host d' (e ∷ rest) entered.good (omega (arith, entered.buckets)) num
      rotate) [
        | inl (nobody, nothing, good) ↦ absurd (ne (sym here ∙ nobody))
        | inr (inl (there, time, found, good)) ↦ found ∙ ap (λ i. some (answer i num rotate)) info
        | inr (inr (there, time, nothing, good)) ↦
            let at = ap (λ i. i.expires) info in absurd (omega (arith, at, time, fresh))
      ]

-- The memory is there, and new: no entry of the cache has it.
pub record Fresh (b : Blocks) (d : Dns) (entries : List Addr) : Type 0 where
  pub some_key : b.key ≢ 0
  pub some_info : b.dns_data ≢ 0
  pub some_addrs : b.addrs ≢ 0
  pub some_entry : b.entry ≢ 0
  pub new_key : (x : Addr) → has x entries ≡ true → d.cache.key x ≢ b.key
  pub new_entry : has b.entry entries ≡ false

take-length : (q : List ℕ) → take (length q) q ≡ q
take-length [] = refl
take-length (a ∷ q) = ap (λ p. a ∷ p) (take-length q)

if-same : (t : Bool) (n : ℕ) → (if t then n else n) ≡ n
if-same true n = refl
if-same false n = refl

-- What `stx_cache_entry_create` sets.
created_entry :
    (e key value weight : Addr) (c : Cache)
    → e ≢ 0
    → (let c' = (entry_create e key value weight c).0 in
        (c'.key e ≡ key)
        × (c'.value e ≡ value)
        × (c'.weight e ≡ weight)
        × (c'.ref_count e ≡ 0)
        × (c'.delete_pending e ≡ false)
        × (c'.hash_size ≡ c.hash_size)
        × (c'.max_weight ≡ c.max_weight))
unfolding entry_create
created_entry e key value weight c ne =
    let z : (e == 0) ≡ false = ground arith in
    rw z (ground arith, ground arith, ground arith, ground arith, ground arith, refl, refl)

module _ (host : Addr) (addrs : List ℕ) (count : ℕ) (b : Blocks) (d : Dns) (entries : List Addr)
    (fresh : Fresh b d entries) where
  -- The name and the data are where the entry points.
  memory :
      ((x : Addr) → x ≢ b.key → (before_insert host addrs count b d).text x ≡ d.text x)
      × ((before_insert host addrs count b d).text b.key ≡ d.text host)
      × ((before_insert host addrs count b d).text host ≡ d.text host)
      × ((before_insert host addrs count b d).dns_data b.dns_data ≡ stored addrs count b d)
      × ((before_insert host addrs count b d).now ≡ d.now)
      × ((before_insert host addrs count b d).cache ≡ (made_entry host count b d).0)
  unfolding before_insert
  memory =
      let k : (b.key == 0) ≡ false = ground (arith, fresh.some_key) in
      let i : (b.dns_data == 0) ≡ false = ground (arith, fresh.some_info) in
      rw (k, i) (λ x ne. ground arith, ground arith, ground arith, ground arith, refl, refl)

  before_insert-Good :
      Good (host_hash d) d.cache entries
      → Good
          (host_hash (before_insert host addrs count b d))
          (before_insert host addrs count b d).cache
          entries
  before_insert-Good good =
      subst (λ c. Good (host_hash (before_insert host addrs count b d)) c entries) (sym memory.5)
        (entry_create-Good (host_hash (before_insert host addrs count b d)) b.entry b.key b.dns_data
          (host_weight (d.text host) count) d.cache entries
          (Good-hash (λ x m. ap hash_hostname (memory.0 (d.cache.key x) (fresh.new_key x m))) good)
          fresh.new_entry)

  stored-addrs : length addrs ≡ count → (stored addrs count b d).addrs ≡ addrs
  stored-addrs size =
      let a : (b.addrs == 0) ≡ false = ground (arith, fresh.some_addrs) in
      rw (a, ← size) (take-length addrs)

  stored-Filled : length addrs ≡ count → 0 < count → Filled (stored addrs count b d)
  stored-Filled size some_addr = record {
    size = ap length (stored-addrs size) ∙ size;
    cur = some_addr;
  }

  -- After `insert_entry` of one or more addresses of a host into a good cache with some buckets,
  -- with a positive time to live, new memory for the entry, no overflow of the weights and an
  -- insertion that succeeds, nobody uses the entry, and `lookup_entry` of the host answers with
  -- these addresses: the first one to a request for one address, and else the first ones, as many
  -- as are asked for or there are.
  pub lookup_entry-insert_entry :
      (num : ℕ) (rotate : Bool)
      → Good (host_hash d) d.cache entries
      → 0 < d.cache.hash_size
      → d.cache.max_weight + host_weight (d.text host) count < 2 ^ 64
      → d.ttl ≢ 0
      → (insertion b.entry (before_insert host addrs count b d)).1 ≡ ok
      → length addrs ≡ count
      → 0 < count
      → ((insert_entry host addrs count b d).cache.ref_count b.entry ≡ 0)
        × ((r : List ℕ × ℕ) × ((lookup_entry host num rotate (insert_entry host addrs count b d)).1
              ≡ some r)
            × Answers addrs 0 num r)
  lookup_entry-insert_entry num rotate good buckets fits ttl done size some_addr =
      let p = before_insert host addrs count b d in
      let made =
        subst
          (λ c.
            (c.key b.entry ≡ b.key)
            × (c.value b.entry ≡ b.dns_data)
            × (c.weight b.entry ≡ host_weight (d.text host) count)
            × (c.ref_count b.entry ≡ 0)
            × (c.delete_pending b.entry ≡ false)
            × (c.hash_size ≡ d.cache.hash_size)
            × (c.max_weight ≡ d.cache.max_weight))
          (sym memory.5)
          (created_entry b.entry b.key b.dns_data (host_weight (d.text host) count) d.cache
            fresh.some_entry) in
      let (rest, entered, unused) =
        settle-Entered p entries b.entry (before_insert-Good good) fresh.some_entry fresh.new_entry
          (omega (arith, made.5, buckets)) (omega (arith, made.6, made.2, fits)) made.3 made.4
          done in
      let all =
        insert_entry-settle host addrs count b d ttl fresh.some_key fresh.some_info fresh.some_addrs
          fresh.some_entry
        ∙ settle-cache b.entry (insertion b.entry p) p done in
      let info : p.dns_data (p.cache.value b.entry) ≡ stored addrs count b d =
        ap p.dns_data made.1 ∙ memory.3 in
      let until = ap (λ i. i.expires) info in
      let answered =
        answer-Answers (stored addrs count b d) num rotate (stored-Filled size some_addr) in
      let found =
        lookup_entry-Entered p host b.entry rest
          (quiet (entry_release b.entry (quiet (insertion b.entry p).0)))
          (settle b.entry (insertion b.entry p) p).released num rotate entered fresh.some_entry
          (omega (arith, made.5, buckets)) (memory.2 ∙ sym memory.1 ∙ ap p.text (sym made.0))
          (omega (arith, until, memory.4))
        ∙ ap (λ i. some (answer i num rotate)) info in
      (
        ap (λ x. x.cache.ref_count b.entry) all ∙ unused,
        (
          answer (stored addrs count b d) num rotate,
          rw all found,
          subst (λ q. Answers q 0 num (answer (stored addrs count b d) num rotate))
              (stored-addrs size)
              (subst
                (λ i.
                  Answers (stored addrs count b d).addrs i num
                    (answer (stored addrs count b d) num rotate))
                (if-same rotate 0) answered),
        ),
      )

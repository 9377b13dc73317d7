-- ===== src/Dns/Expiry.antt =====
-- What `lookup_entry` answers, and what becomes of an entry that has expired.
use st_win.Prelude.{
  ℕ, ◌+◌, ltb, ◌≤◌, ◌<◌, ◌≡◌, ◌≢◌, ◌⊎◌, inl, inr, refl, sym, ap, subst, ◌∙◌, ◌==◌, leb, Bool, true,
  false, ◌&&◌, List, [], ◌∷◌, none, some, if◌then◌else◌, update, arith, eq-cases, Bool-cases,
}
use st_win.Prelude.Members.{has, remove_link}
use st_win.TimeoutHeap.{Addr}
use st_win.Lru.{Cache, count32, entry_delete, entry_lookup, entry_release}
use st_win.Lru.Contents.{entry_getdata}
use st_win.Lru.Entries.{Good, delete_unused-Good, delete_used-Good}
use st_win.Lru.Release.{entry_release-Good, release_refs}
use st_win.Lru.Lookup.{
  first, first-found, matches, find_entry-first, lookup_miss, lookup_hit, taken, taken-Good,
  counted-Good,
}
use st_win.Dns.{
  Dns, Data, rotate_cur, host_hash, same_host, answer, after_cleanup, cleanup_all, cleanup_entry,
  lookup_entry,
}
use st_win.Dns.Hash.{hash-same_text}

-- `cleanup_entry` does not use the cache.
cleanup_entry-cache : (key data' : Addr) (d : Dns) → (cleanup_entry key data' d).cache ≡ d.cache
unfolding cleanup_entry
cleanup_entry-cache key data' d = ground arith

cleanup_all-cache : (calls : List (Addr × Addr)) (d : Dns) → (cleanup_all calls d).cache ≡ d.cache
cleanup_all-cache [] d = refl
cleanup_all-cache ((key, data') ∷ calls) d =
    cleanup_all-cache calls (cleanup_entry key data' d) ∙ cleanup_entry-cache key data' d

cleanup_all-dns_data :
    (calls : List (Addr × Addr)) (d : Dns) → (cleanup_all calls d).dns_data ≡ d.dns_data
unfolding cleanup_entry
cleanup_all-dns_data [] d = refl
cleanup_all-dns_data ((key, data') ∷ calls) d =
    cleanup_all-dns_data calls (cleanup_entry key data' d) ∙ ground arith

after_cleanup-Good :
    (hash : Addr → ℕ) (c : Cache) (entries : List Addr) (d : Dns)
    → Good hash c entries
    → Good hash (after_cleanup c d).cache entries
after_cleanup-Good hash c entries d good =
    rw (cleanup_all-cache c.cleaned (record d { cache = record c { cleaned = [] } })) (record {
      hashed = good.hashed;
      size = good.size;
      weight = good.weight;
      unused = good.unused;
      lru_distinct = good.lru_distinct;
      pending = good.pending;
      size_bound = good.size_bound;
      weight_bound = good.weight_bound;
      max_size_fits = good.max_size_fits;
      max_weight_fits = good.max_weight_fits;
    })

-- The latest live entry of the host, or 0, and its data.
abbrev pub entry_of : Addr → Dns → List Addr → Addr
entry_of host d entries = first (matches (host_hash d) (same_host d) host d.cache) entries

abbrev pub data_of : Addr → Dns → List Addr → Data
data_of host d entries = d.dns_data (d.cache.value (entry_of host d entries))

module _ (host : Addr) (d : Dns) (entries : List Addr) (good : Good (host_hash d) d.cache entries)
    (some_buckets : 0 < d.cache.hash_size) where
  agree : (a b : Addr) → same_host d a b ≡ true → host_hash d a ≡ host_hash d b
  agree a b same = hash-same_text (d.text a) (d.text b) same

  module _ (there : (entry_of host d entries) ≢ 0) where
    on :
        (has (entry_of host d entries) entries ≡ true)
        × (matches (host_hash d) (same_host d) host d.cache (entry_of host d entries) ≡ true)
    on = first-found (matches (host_hash d) (same_host d) host d.cache) entries there

    live : d.cache.delete_pending (entry_of host d entries) ≡ false
    live = let m = on.1 in ground arith

    abbrev given : Cache
    given = taken (host_hash d) (same_host d) (entry_of host d entries) d.cache

    given_back : Good (host_hash d) (entry_release (entry_of host d entries) given) entries
    given_back =
        let r =
          entry_release-Good (host_hash d) given entries (entry_of host d entries)
            (taken-Good (host_hash d) (same_host d) (entry_of host d entries) d.cache entries good
              on.0)
            there on.0 in
        let no : (given.ref_count (entry_of host d entries) == 1
              && given.delete_pending (entry_of host d entries))
            ≡ false =
          ground (arith, live) in
        subst
          (λ b.
            Good (host_hash d) (entry_release (entry_of host d entries) given)
              (if b then remove_link (entry_of host d entries) entries else entries))
          no r

    refs :
        (entry_release (entry_of host d entries) given).ref_count (entry_of host d entries)
        ≡ d.cache.ref_count (entry_of host d entries)
    refs = release_refs (entry_of host d entries) given (ground arith) live ∙ ground arith

    -- An expired entry goes, or is marked where others use it.
    abbrev KeptIfUsed : Bool → Type 0
    KeptIfUsed unused =
        Good (host_hash d)
          (entry_delete (entry_of host d entries) (entry_release (entry_of host d entries) given))
          (if unused then remove_link (entry_of host d entries) entries else entries)

    purged : KeptIfUsed (d.cache.ref_count (entry_of host d entries) == 0)
    purged = elim (eq-cases (d.cache.ref_count (entry_of host d entries)) 0) [
      | inl free ↦
          let z : true ≡ (d.cache.ref_count (entry_of host d entries) == 0) = ground arith in
          subst KeptIfUsed z
            (delete_unused-Good (host_hash d) (entry_release (entry_of host d entries) given)
              entries (entry_of host d entries) given_back there on.0 (refs ∙ free)).0
      | inr used ↦
          let z : false ≡ (d.cache.ref_count (entry_of host d entries) == 0) = ground arith in
          subst KeptIfUsed z (
            delete_used-Good (host_hash d) (entry_release (entry_of host d entries) given) entries
              (entry_of host d entries) given_back there on.0 (ground (arith, refs)))
    ]

    found :
        entry_lookup (host_hash d) (same_host d) host d.cache ≡ (given, (entry_of host d entries))
    found =
        lookup_hit (host_hash d) (same_host d) host (entry_of host d entries) d.cache
          (find_entry-first (host_hash d) (same_host d) host d.cache entries good some_buckets
            agree)
          there

    -- The branches of `lookup_entry` that find the host.
    abbrev rotated : ℕ → Bool → Dns
    rotated num rotate = record d {
      dns_data =
          if num == 1 && rotate
          then update d.dns_data (d.cache.value (entry_of host d entries))
              (rotate_cur (data_of host d entries))
          else d.dns_data;
    }

    lookup_fresh :
        (num : ℕ) (rotate : Bool)
        → leb d.now (data_of host d entries).expires ≡ true
        → lookup_entry host num rotate d ≡ (
          after_cleanup (entry_release (entry_of host d entries) given) (rotated num rotate),
          some (answer (data_of host d entries) num rotate),
        )
    unfolding lookup_entry entry_getdata
    lookup_fresh num rotate fresh =
        let real : ((entry_of host d entries) == 0) ≡ false = ground arith in
        rw (found, real, fresh)

    -- The index moves to the next address, or back to the first one.
    pub lookup_fresh-cur :
        (num : ℕ) (rotate : Bool)
        → d.now ≤ (data_of host d entries).expires
        → ((lookup_entry host num rotate d).0.dns_data
            (d.cache.value (entry_of host d entries))).cur
          ≡ (if num == 1 && rotate
              then (if ltb ((data_of host d entries).cur + 1) (data_of host d entries).num_addrs
                  then (data_of host d entries).cur + 1
                  else 0)
              else (data_of host d entries).cur)
    unfolding rotate_cur
    lookup_fresh-cur num rotate time =
        let at = d.cache.value (entry_of host d entries) in
        let fresh : leb d.now (data_of host d entries).expires ≡ true = ground arith in
        ap (λ r. (r.0.dns_data at).cur) (lookup_fresh num rotate fresh)
        ∙ ap (λ f. (f at).cur)
            (cleanup_all-dns_data (entry_release (entry_of host d entries) given).cleaned _)
        ∙ ground arith

    lookup_expired :
        (num : ℕ) (rotate : Bool)
        → leb d.now (data_of host d entries).expires ≡ false
        → lookup_entry host num rotate d ≡ (
          after_cleanup
              (entry_delete
                (entry_of host d entries)
                (entry_release (entry_of host d entries) given))
              d,
          none,
        )
    unfolding lookup_entry entry_getdata
    lookup_expired num rotate expired =
        let real : ((entry_of host d entries) == 0) ≡ false = ground arith in
        rw (found, real, expired)

  lookup_nobody :
      (num : ℕ) (rotate : Bool)
      → (entry_of host d entries) ≡ 0
      → lookup_entry host num rotate d
        ≡ (record d { cache = record d.cache { lookups = count32 d.cache.lookups } }, none)
  unfolding lookup_entry
  lookup_nobody num rotate nobody =
      let missed = lookup_miss (host_hash d) (same_host d) host d.cache (
        find_entry-first (host_hash d) (same_host d) host d.cache entries good some_buckets agree
        ∙ nobody) in
      rw missed

  -- `lookup_entry` of a host, over a good cache with some buckets: where the cache has no live
  -- entry of the name, it finds nothing and the entries stay. Where the latest such entry has not
  -- expired, it answers with its data, and the entries stay. Where it has expired, it finds
  -- nothing, and the entry is out of the cache, unless it was in use. The cache is good in each
  -- case.
  pub lookup_entry-expires :
      (num : ℕ) (rotate : Bool)
      → (((entry_of host d entries) ≡ 0)
          × ((lookup_entry host num rotate d).1 ≡ none)
          × Good (host_hash d) (lookup_entry host num rotate d).0.cache entries)
        ⊎ ((((entry_of host d entries) ≢ 0)
              × (d.now ≤ (data_of host d entries).expires)
              × ((lookup_entry host num rotate d).1
                  ≡ some (answer (data_of host d entries) num rotate))
              × Good (host_hash d) (lookup_entry host num rotate d).0.cache entries)
            ⊎ (((entry_of host d entries) ≢ 0)
                × ((data_of host d entries).expires < d.now)
                × ((lookup_entry host num rotate d).1 ≡ none)
                × Good (host_hash d) (lookup_entry host num rotate d).0.cache (
                    if d.cache.ref_count (entry_of host d entries) == 0
                    then remove_link (entry_of host d entries) entries
                    else entries)))
  lookup_entry-expires num rotate = elim (eq-cases (entry_of host d entries) 0) [
    | inl nobody ↦ inl (
      nobody,
      ap (λ r. r.1) (lookup_nobody num rotate nobody),
      subst (λ r. Good (host_hash d) r.0.cache entries) (sym (lookup_nobody num rotate nobody))
          (counted-Good (host_hash d) (same_host d) d.cache entries good),
    )
    | inr there ↦ elim (Bool-cases (leb d.now (data_of host d entries).expires)) [
      | inl fresh ↦ inr (
          inl (
            there,
            ground arith,
            ap (λ r. r.1) (lookup_fresh there num rotate fresh),
            subst (λ r. Good (host_hash d) r.0.cache entries)
                (sym (lookup_fresh there num rotate fresh))
                (after_cleanup-Good (host_hash d)
                  (entry_release (entry_of host d entries) (given there)) entries
                  (rotated there num rotate) (given_back there)),
          ))
      | inr expired ↦ inr (
          inr (
            there,
            ground arith,
            ap (λ r. r.1) (lookup_expired there num rotate expired),
            subst
                (λ r. Good (host_hash d) r.0.cache (
                  if d.cache.ref_count (entry_of host d entries) == 0
                  then remove_link (entry_of host d entries) entries
                  else entries))
                (sym (lookup_expired there num rotate expired))
                (after_cleanup-Good (host_hash d)
                  (entry_delete (entry_of host d entries)
                    (entry_release (entry_of host d entries) (given there)))
                  (if d.cache.ref_count (entry_of host d entries) == 0
                    then remove_link (entry_of host d entries) entries
                    else entries)
                  d (purged there)),
          ))
    ]
  ]

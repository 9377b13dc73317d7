-- ===== src/Dns/Settle.antt =====
-- What the cache is after an entry has been inserted and released, and what has been freed.
use st_win.Prelude.{
  ℕ, ◌+◌, ◌%◌, ◌^◌, ◌<◌, ◌≡◌, ◌≢◌, inl, inr, refl, sym, ap, subst, ◌∙◌, ◌==◌, true, false, ◌&&◌,
  List, [], ◌∷◌, if◌then◌else◌, arith, Bool-cases,
}
use st_win.Prelude.Members.{has, remove_link}
use st_win.TimeoutHeap.{Addr}
use st_win.Vp.{Rc, ok, fail}
use st_win.Lru.{Cache, entry_create, entry_release, enter_cache}
use st_win.Lru.Hashed.{Hashed-bucket}
use st_win.Lru.Entries.{Good}
use st_win.Lru.Release.{entry_release-Good, release_idle, release_refs}
use st_win.Lru.Insert.{entry_insert-Good}
use st_win.Dns.{
  Dns, Blocks, host_hash, same_host, same_text, after_cleanup, cleanup_all, cleanup_entry,
  insert_entry, host_weight, before_insert, insertion, settle,
}
use st_win.Dns.Hash.{hash-same_text}

-- `cleanup_entry` only frees.
cleanup_entry-released :
    (key info : Addr) (d : Dns)
    → cleanup_entry key info d ≡ record d { released = (cleanup_entry key info d).released }
unfolding cleanup_entry
cleanup_entry-released key info d = elim (Bool-cases (key == 0)) [
  | inl no_key ↦ elim (Bool-cases (info == 0)) [
    | inl no_info ↦ rw (no_key, no_info)
    | inr an_info ↦ elim (Bool-cases ((d.dns_data info).addrs_at == 0)) [
      | inl bare ↦ rw (no_key, an_info, bare)
      | inr full ↦ rw (no_key, an_info, full)
    ]
  ]
  | inr a_key ↦ elim (Bool-cases (info == 0)) [
    | inl no_info ↦ rw (a_key, no_info)
    | inr an_info ↦ elim (Bool-cases ((d.dns_data info).addrs_at == 0)) [
      | inl bare ↦ rw (a_key, an_info, bare)
      | inr full ↦ rw (a_key, an_info, full)
    ]
  ]
]

abbrev freeing : List Addr → Dns → Dns
freeing addresses d = record d { released = addresses }

cleanup_all-released :
    (calls : List (Addr × Addr)) (d : Dns)
    → cleanup_all calls d ≡ record d { released = (cleanup_all calls d).released }
cleanup_all-released [] d = refl
cleanup_all-released ((key, info) ∷ calls) d =
    let one = cleanup_entry-released key info d in
    let rest = cleanup_all-released calls (cleanup_entry key info d) in
    rest ∙ ap (freeing (cleanup_all calls (cleanup_entry key info d)).released) one

-- The cache without the record of the calls of `cleanup_fn`.
abbrev pub quiet : Cache → Cache
quiet c = record c { cleaned = [] }

quiet-Good :
    {hash : Addr → ℕ} {c : Cache} {entries : List Addr}
    → Good hash c entries
    → Good hash (quiet c) entries
quiet-Good good = record {
  hashed = good.hashed;
  size = good.size;
  weight = good.weight;
  unused = good.unused;
  lru_distinct = good.lru_distinct;
  pending = good.pending;
  size_bound = good.size_bound;
  weight_bound = good.weight_bound;
  max_size_fits = good.max_size_fits;
  max_weight_fits = good.max_weight_fits;
}

-- Only the keys of the entries matter to the invariant.
pub Good-hash :
    {hash hash' : Addr → ℕ} {c : Cache} {entries : List Addr}
    → ((x : Addr) → has x entries ≡ true → hash' (c.key x) ≡ hash (c.key x))
    → Good hash c entries
    → Good hash' c entries
Good-hash {hash} {hash'} {c} same good = record {
  hashed = Hashed-bucket (λ x m. ap (λ n. n % c.hash_size) (same x m)) good.hashed;
  size = good.size;
  weight = good.weight;
  unused = good.unused;
  lru_distinct = good.lru_distinct;
  pending = good.pending;
  size_bound = good.size_bound;
  weight_bound = good.weight_bound;
  max_size_fits = good.max_size_fits;
  max_weight_fits = good.max_weight_fits;
}

pub same_text_refl : (a : List ℕ) → same_text a a ≡ true
unfolding same_text
same_text_refl [] = refl
same_text_refl (x ∷ a) = ground (arith, same_text_refl a)

-- What `stx_cache_entry_create` makes, with its memory.
entry_create-entry :
    (e key value weight : Addr) (c : Cache) → (entry_create e key value weight c).1 ≡ e
unfolding entry_create
entry_create-entry e key value weight c = ground arith

settle_ok :
    (e : Addr) (r : Cache × Rc) (d : Dns)
    → r.1 ≡ ok
    → settle e r d ≡ (let d₁ = after_cleanup r.0 d in after_cleanup (entry_release e d₁.cache) d₁)
unfolding settle
settle_ok e r d done = rw done

pub insert_entry-settle :
    (host : Addr) (addrs : List ℕ) (count : ℕ) (b : Blocks) (d : Dns)
    → d.ttl ≢ 0
    → b.key ≢ 0
    → b.dns_data ≢ 0
    → b.addrs ≢ 0
    → b.entry ≢ 0
    → insert_entry host addrs count b d
      ≡ settle b.entry
          (insertion b.entry (before_insert host addrs count b d))
          (before_insert host addrs count b d)
unfolding insert_entry
insert_entry-settle host addrs count b d ttl key info at entry =
    let made =
      entry_create-entry b.entry b.key b.dns_data (host_weight (d.text host) count) d.cache in
    let z : (d.ttl == 0) ≡ false = ground arith in
    let k : (b.key == 0) ≡ false = ground arith in
    let i : (b.dns_data == 0) ≡ false = ground arith in
    let a : (b.addrs == 0) ≡ false = ground arith in
    let e : (b.entry == 0) ≡ false = ground arith in rw (z, k, i, a, made, e)

-- The entry as it is in the cache afterwards.
pub record Entered (d : Dns) (e : Addr) (rest : List Addr) (c : Cache) : Type 0 where
  pub good : Good (host_hash d) c (e ∷ rest)
  pub key : c.key e ≡ d.cache.key e
  pub value : c.value e ≡ d.cache.value e
  pub live : c.delete_pending e ≡ false
  pub buckets : c.hash_size ≡ d.cache.hash_size

released-Entered :
    (d : Dns) (e : Addr) (rest : List Addr) (c : Cache)
    → Entered d e rest c
    → c.ref_count e ≡ 1
    → e ≢ 0
    → Entered d e rest (quiet (entry_release e (quiet c)))
unfolding has
released-Entered d e rest c entered last ne =
    let good =
      entry_release-Good (host_hash d) (quiet c) (e ∷ rest) e (quiet-Good entered.good) ne
        (ground arith) in
    let sole : ((quiet c).ref_count e == 1 && (quiet c).delete_pending e) ≡ false =
      ground (arith, entered.live) in
    let good' =
      subst
        (λ t.
          Good (host_hash d) (entry_release e (quiet c))
            (if t then remove_link e (e ∷ rest) else e ∷ rest))
        sole good in
    let eq = release_idle e (quiet c) last entered.live in
    record {
      good = quiet-Good good';
      key = ap (λ c. c.key e) eq ∙ entered.key;
      value = ap (λ c. c.value e) eq ∙ entered.value;
      live = ap (λ c. c.delete_pending e) eq ∙ entered.live;
      buckets = ap (λ c. c.hash_size) eq ∙ entered.buckets;
    }

-- A state with another cache, in which some memory has been freed.
abbrev pub with_cache : Cache → List Addr → Dns → Dns
with_cache c addresses d = record d { cache = c; released = addresses }

after_cleanup-cache :
    (c : Cache) (d : Dns) → after_cleanup c d ≡ with_cache (quiet c) (after_cleanup c d).released d
after_cleanup-cache c d = cleanup_all-released c.cleaned (record d { cache = quiet c })

pub settle-cache :
    (e : Addr) (r : Cache × Rc) (d : Dns)
    → r.1 ≡ ok
    → settle e r d ≡ with_cache (quiet (entry_release e (quiet r.0))) (settle e r d).released d
settle-cache e r d done =
    let end : Dns → Dns = λ x. after_cleanup (entry_release e x.cache) x in
    let freed = (after_cleanup r.0 d).released in
    let eq : settle e r d ≡ end (with_cache (quiet r.0) freed d) =
      settle_ok e r d done ∙ ap end (after_cleanup-cache r.0 d) in
    let eq' =
      eq ∙ after_cleanup-cache (entry_release e (quiet r.0)) (with_cache (quiet r.0) freed d) in
    eq'
    ∙ ap (λ l. with_cache (quiet (entry_release e (quiet r.0))) l d) (sym (ap (λ x. x.released) eq))

pub settle-Entered :
    (d : Dns) (entries : List Addr) (e : Addr)
    → Good (host_hash d) d.cache entries
    → e ≢ 0
    → has e entries ≡ false
    → 0 < d.cache.hash_size
    → d.cache.max_weight + d.cache.weight e < 2 ^ 64
    → d.cache.ref_count e ≡ 0
    → d.cache.delete_pending e ≡ false
    → (insertion e d).1 ≡ ok
    → (rest : List Addr) × Entered d e rest (quiet (entry_release e (quiet (insertion e d).0)))
      × ((entry_release e (quiet (insertion e d).0)).ref_count e ≡ 0)
unfolding enter_cache
settle-Entered d entries e good ne new buckets fits unused live done =
    let (s, rest, good', shrunk, end) =
      entry_insert-Good (host_hash d) (same_host d) e d.cache entries good ne new buckets
        (λ a b same. hash-same_text (d.text a) (d.text b) same) fits in
    elim end [
      | inr (failed, nobody, why) ↦ absurd (ok_not_fail (sym done ∙ ap (λ r. r.1) failed))
      | inl (entered, good'') ↦ (
        rest,
        subst (λ r. Entered d e rest (quiet (entry_release e (quiet r.0)))) (sym entered)
            (released-Entered d e rest (enter_cache (host_hash d) (same_host d) e s)
              (record {
                good = good'';
                key = shrunk.keys e new;
                value = shrunk.values e new;
                live = shrunk.marks e new ∙ live;
                buckets = shrunk.hash_size;
              })
              (let refs = ap (λ f. f e) shrunk.refs in ground (arith, refs, unused)) ne),
        subst (λ r. (entry_release e (quiet r.0)).ref_count e ≡ 0) (sym entered)
            (let refs = ap (λ f. f e) shrunk.refs in
              let marked = shrunk.marks e new in
              release_refs e (quiet (enter_cache (host_hash d) (same_host d) e s))
                (ground (arith, refs, unused)) (ground (arith, marked, live))
              ∙ ground (arith, refs, unused)),
      )
    ]
  where
    ok_not_fail : ok ≡ fail → ⊥
    ok_not_fail eq = cc

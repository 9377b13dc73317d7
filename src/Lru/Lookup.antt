-- ===== src/Lru/Lookup.antt =====
-- What the search in a chain of the table finds, and that a lookup keeps the invariant of the cache.
use st_win.Prelude.{
  ℕ, zero, suc, ◌+◌, ◌≤◌, ◌<◌, ◌≡◌, ◌≢◌, inl, inr, refl, ◌∙◌, ◌==◌, Bool, true, false, not, ◌&&◌,
  List, [], ◌∷◌, length, if◌then◌else◌, update, arith, eq-cases, Bool-cases,
}
use st_win.Prelude.Members.{has, filter, remove_link, has-remove_link, Distinct-remove_link}
use st_win.TimeoutHeap.{Addr}
use st_win.Lru.Buckets.{Link, follow, head_of, next_of}
use st_win.Lru.Chain.{Chain}
use st_win.Lru.Hashed.{in_bucket}
use st_win.Lru.Entries.{Good, bucket_in}
use st_win.Lru.{Cache, count32, find, find_entry, entry_lookup, bucket_of}

-- The first element that passes the test, or 0.
unfoldable pub first : (Addr → Bool) → List Addr → Addr
first test [] = 0
first test (x ∷ q) = if test x then x else first test q

pub first-filter :
    (test keep : Addr → Bool) (q : List Addr)
    → ((x : Addr) → has x q ≡ true → test x ≡ true → keep x ≡ true)
    → first test (filter keep q) ≡ first test q
unfolding first filter has
first-filter test keep [] kept = refl
first-filter test keep (x ∷ q) kept =
    let rest = first-filter test keep q (λ y m. kept y (ground arith)) in
    let here : test x ≡ true → keep x ≡ true = kept x (ground arith) in ground (arith, rest)

pub first-found :
    (test : Addr → Bool) (q : List Addr)
    → first test q ≢ 0
    → (has (first test q) q ≡ true) × (test (first test q) ≡ true)
unfolding first has
first-found test [] ne = (ground arith, ground arith)
first-found test (x ∷ q) ne = elim (Bool-cases (test x)) [
  | inl pass ↦ rw pass (ground arith, pass)
  | inr stop ↦
      let rest = first-found test q (ground arith) in
      (ground (arith, rest.0), ground (arith, rest.1))
]

length-filter : (test : ℕ → Bool) (q : List ℕ) → length (filter test q) ≤ length q
unfolding filter
length-filter test [] = omega arith
length-filter test (x ∷ q) = ground (arith, length-filter test q)

module _ (hash : Addr → ℕ) (same_key : Addr → Addr → Bool) where
  -- What a lookup of `key` stops at.
  abbrev pub matches : Addr → Cache → Addr → Bool
  matches key c x = not (c.delete_pending x) && same_key key (c.key x)

  find-first :
      (fuel : ℕ) (key : Addr) (p : Link) (q : List Addr) (c : Cache)
      → Chain c.table p q
      → length q ≤ fuel
      → find hash same_key fuel key (follow c.table p) c ≡ first (matches key c) q
  unfolding find first
  find-first zero key p [] c chain enough = refl
  find-first zero key p (x ∷ q) c chain enough = omega arith
  find-first (suc fuel) key p [] c chain enough = rw chain
  find-first (suc fuel) key p (x ∷ q) c chain enough =
      let rest = find-first fuel key (next_of x) q c chain.3 (omega arith) in
      let start = chain.0 in let real = chain.1 in rw start (ground (arith, rest))

  -- The search of `stx_cache_entry_lookup` in a good cache with some buckets, where keys that compare
  -- equal have equal hash values, finds the latest entry that it may stop at, or none.
  pub find_entry-first :
      (key : Addr) (c : Cache) (entries : List Addr)
      → Good hash c entries
      → 0 < c.hash_size
      → ((a b : Addr) → same_key a b ≡ true → hash a ≡ hash b)
      → find_entry hash same_key key c ≡ first (matches key c) entries
  find_entry-first key c entries good some_buckets agree =
      let b = bucket_of hash same_key key c in
      let lt : b < c.hash_size = omega arith in
      find-first c.cur_size key (head_of b) (in_bucket (bucket_in hash c) b entries) c
        (good.hashed.chains b lt)
        (omega (arith, length-filter (λ x. bucket_in hash c x == b) entries, good.size))
      ∙ first-filter (matches key c) (λ x. bucket_in hash c x == b) entries
          (λ x m t. ground (arith, agree key (c.key x)))

  -- What `stx_cache_entry_lookup` does to an entry it finds.
  abbrev pub taken : Addr → Cache → Cache
  taken e c = record c {
    lookups = count32 c.lookups;
    hits = count32 c.hits;
    lru_list = if c.ref_count e == 0 then remove_link e c.lru_list else c.lru_list;
    ref_count = update c.ref_count e (c.ref_count e + 1);
  }

  pub taken-Good :
      (e : Addr) (c : Cache) (entries : List Addr)
      → Good hash c entries
      → has e entries ≡ true
      → Good hash (taken e c) entries
  taken-Good e c entries good on = record {
    hashed = good.hashed;
    size = good.size;
    weight = good.weight;
    unused = λ x. ground (arith, has-remove_link x e c.lru_list good.lru_distinct, good.unused x);
    lru_distinct =
        ground (arith, good.lru_distinct, Distinct-remove_link e c.lru_list good.lru_distinct);
    pending = λ x m p. ground (arith, good.pending x);
    size_bound = good.size_bound;
    weight_bound = good.weight_bound;
    max_size_fits = good.max_size_fits;
    max_weight_fits = good.max_weight_fits;
  }

  pub lookup_miss :
      (key : Addr) (c : Cache)
      → find_entry hash same_key key c ≡ 0
      → entry_lookup hash same_key key c ≡ (record c { lookups = count32 c.lookups }, 0)
  unfolding entry_lookup
  lookup_miss key c none = rw none

  pub lookup_hit :
      (key : Addr) (e : Addr) (c : Cache)
      → find_entry hash same_key key c ≡ e
      → e ≢ 0
      → entry_lookup hash same_key key c ≡ (taken e c, e)
  unfolding entry_lookup
  lookup_hit key e c found ne = let z : (e == 0) ≡ false = ground arith in rw (found, z)

  pub counted-Good :
      (c : Cache) (entries : List Addr)
      → Good hash c entries
      → Good hash (record c { lookups = count32 c.lookups }) entries
  counted-Good c entries good = record {
    hashed = good.hashed;
    size = good.size;
    weight = good.weight;
    unused = good.unused;
    lru_distinct = good.lru_distinct;
    pending = good.pending;
    size_bound = good.size_bound;
    weight_bound = good.weight_bound;
    max_size_fits = good.max_size_fits;
    max_weight_fits = good.max_weight_fits;
  }

  -- `stx_cache_entry_lookup` on a good cache with some buckets, where keys that compare equal have
  -- equal hash values, leaves a good cache with the same entries and returns the latest entry that
  -- is not marked for deletion and has the key, whose uses it counts, or null if there is none.
  pub entry_lookup-Good :
      (key : Addr) (c : Cache) (entries : List Addr)
      → Good hash c entries
      → 0 < c.hash_size
      → ((a b : Addr) → same_key a b ≡ true → hash a ≡ hash b)
      → Good hash (entry_lookup hash same_key key c).0 entries
        × ((entry_lookup hash same_key key c).1 ≡ first (matches key c) entries)
        × ((entry_lookup hash same_key key c).0.ref_count ≡ (
            if first (matches key c) entries == 0
            then c.ref_count
            else update c.ref_count
                (first (matches key c) entries)
                (c.ref_count (first (matches key c) entries) + 1)))
  entry_lookup-Good key c entries good some agree =
      let found = find_entry-first key c entries good some agree in
      elim (eq-cases (first (matches key c) entries) 0) [
        | inl none ↦
            rw (lookup_miss key c (found ∙ none), none) (counted-Good c entries good, refl, refl)
        | inr one ↦
            let on = first-found (matches key c) entries one in
            let real : (first (matches key c) entries == 0) ≡ false = ground arith in
            rw (lookup_hit key (first (matches key c) entries) c found one, real)
              (taken-Good (first (matches key c) entries) c entries good on.0, refl, refl)
      ]

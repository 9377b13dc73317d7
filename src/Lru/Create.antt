-- ===== src/Lru/Create.antt =====
-- New caches and new entries.
use st_win.Prelude.{
  ℕ, ◌^◌, ◌<◌, ◌≡◌, ◌≢◌, inl, inr, refl, sym, ◌∙◌, ◌==◌, Bool, true, false, List, [], ◌∷◌, update,
  arith, eq-cases,
}
use st_win.Prelude.Members.{has, filter, has-filter}
use st_win.TimeoutHeap.{Addr}
use st_win.Lru.Buckets.{Table, is_null, head_of, null}
use st_win.Lru.Chain.{Chain-same}
use st_win.Lru.Hashed.{Hashed, Hashed-bucket, in_bucket}
use st_win.Lru.Entries.{Good, weigh}
use st_win.Lru.{Cache, cache_create, entry_create}

-- `stx_cache_create` that gets its memory makes a good cache without entries, if no entry is in a table
-- and the limits are 64-bit numbers.
pub cache_create-Good :
    (hash : Addr → ℕ) (newcache table max_size max_weight hash_size : ℕ) (cleanup : Bool)
    (c : Cache)
    → newcache ≢ 0
    → table ≢ 0
    → max_size < 2 ^ 64
    → max_weight < 2 ^ 64
    → ((e : Addr) → is_null (c.table.pthis e) ≡ true)
    → Good hash (cache_create newcache table max_size max_weight hash_size cleanup c).0 []
unfolding cache_create has filter
cache_create-Good hash newcache table max_size max_weight hash_size cleanup c made got size weight
      free =
    let z : (newcache == 0) ≡ false = ground arith in
    let z' : (table == 0) ≡ false = ground arith in
    rw (z, z')
      (record {
        hashed = record {
          chains = λ b lt. refl;
          inside = λ e m. cc;
          distinct = tt;
          real = refl;
          linked = λ e ne. free e;
        };
        size = refl;
        weight = refl;
        unused = λ e. refl;
        lru_distinct = tt;
        pending = λ e m. cc;
        size_bound = omega arith;
        weight_bound = omega arith;
        max_size_fits = size;
        max_weight_fits = weight;
      })

weigh-update :
    (w : Addr → ℕ) (e : Addr) (n : ℕ) (q : List Addr)
    → has e q ≡ false
    → weigh (update w e n) q ≡ weigh w q
unfolding has
weigh-update w e n [] m = refl
weigh-update w e n (x ∷ q) m = ground (arith, weigh-update w e n q)

-- An entry outside the table forgets its links.
fresh-Hashed :
    {t : Table} {bucket : Addr → ℕ} {size : ℕ} {entries : List Addr} (e : Addr)
    → Hashed t bucket size entries
    → has e entries ≡ false
    → Hashed
        (record t { next = update t.next e 0; pthis = update t.pthis e null })
        bucket
        size
        entries
fresh-Hashed {t} {bucket} {entries} e h new = record {
  chains = λ b lt.
      Chain-same t (record t { next = update t.next e 0; pthis = update t.pthis e null })
        (head_of b) (in_bucket bucket b entries) refl
        (λ x m. ground (arith, has-filter x (λ x. bucket x == b) entries))
        (λ x m. ground (arith, has-filter x (λ x. bucket x == b) entries)) (h.chains b lt);
  inside = h.inside;
  distinct = h.distinct;
  real = h.real;
  linked = λ x ne. ground (arith, h.linked x ne);
}

-- `stx_cache_entry_create` keeps a good cache good, if the memory of the new entry is not in its table.
pub entry_create-Good :
    (hash : Addr → ℕ) (e key value weight : Addr) (c : Cache) (entries : List Addr)
    → Good hash c entries
    → has e entries ≡ false
    → Good hash (entry_create e key value weight c).0 entries
unfolding entry_create
entry_create-Good hash e key value weight c entries good new = elim (eq-cases e 0) [
  | inl none ↦ let z : (e == 0) ≡ true = ground arith in rw z good
  | inr some ↦
      let z : (e == 0) ≡ false = ground arith in
      rw z (record {
        hashed = Hashed-bucket (λ x m. ground arith) (fresh-Hashed e good.hashed new);
        size = good.size;
        weight = good.weight ∙ sym (weigh-update c.weight e weight entries new);
        unused = λ x. ground (arith, good.unused x);
        lru_distinct = good.lru_distinct;
        pending = λ x m p. ground (arith, good.pending x);
        size_bound = good.size_bound;
        weight_bound = good.weight_bound;
        max_size_fits = good.max_size_fits;
        max_weight_fits = good.max_weight_fits;
      })
]

-- ===== src/Lru/Entries.antt =====
-- The invariant of the cache: what its counters, its LRU list and its marks say of the entries that are
-- in its table. Deleting, releasing and looking an entry up keep it.
use st_win.Prelude.{
  ℕ, ◌+◌, ◌%◌, ◌^◌, ◌≤◌, ◌<◌, ◌≡◌, ◌≢◌, ◌⊎◌, inl, inr, refl, ◌==◌, ltb, Bool, true, false, ◌&&◌,
  List, [], ◌∷◌, ◌++◌, length, update, arith, eq-cases,
}
use st_win.Prelude.Words.{sub64_exact}
use st_win.Prelude.Members.{
  has, Distinct, remove_link, has-remove_link, Distinct-remove_link, length-remove_link,
}
use st_win.TimeoutHeap.{Addr}
use st_win.Lru.Buckets.{is_null}
use st_win.Lru.Hashed.{Hashed, Hashed-bucket, unlink-Hashed}
use st_win.Lru.{Cache, leave_cache, dispose, entry_delete}

-- The sum of the weights.
abbrev pub weigh : (Addr → ℕ) → List Addr → ℕ
weigh w [] = 0
weigh w (x ∷ q) = w x + weigh w q

-- The bucket of an entry.
abbrev pub bucket_in : (Addr → ℕ) → Cache → Addr → ℕ
bucket_in hash c e = hash (c.key e) % c.hash_size

-- `entries` are the entries in the table, the latest first.
pub record Good (hash : Addr → ℕ) (c : Cache) (entries : List Addr) : Type 0 where
  pub hashed : Hashed c.table (bucket_in hash c) c.hash_size entries
  pub size : c.cur_size ≡ length entries
  pub weight : c.cur_weight ≡ weigh c.weight entries
  pub unused : (e : Addr) → has e c.lru_list ≡ (has e entries && c.ref_count e == 0)
  pub lru_distinct : Distinct c.lru_list
  pub pending : (e : Addr) → has e entries ≡ true → c.delete_pending e ≡ true → c.ref_count e ≢ 0
  pub size_bound : c.cur_size ≤ c.max_size
  pub weight_bound : c.cur_weight ≤ c.max_weight
  pub max_size_fits : c.max_size < 2 ^ 64
  pub max_weight_fits : c.max_weight < 2 ^ 64

pub weigh-remove_link :
    (w : Addr → ℕ) (e : Addr) (q : List Addr)
    → has e q ≡ true
    → w e + weigh w (remove_link e q) ≡ weigh w q
unfolding has remove_link
weigh-remove_link w e [] m = cc
weigh-remove_link w e (x ∷ q) m = ground (arith, weigh-remove_link w e q)

-- What a deletion of an unused entry leaves: the cache without it.
pub record Without (e : Addr) (c r : Cache) : Type 0 where
  pub lru_list : r.lru_list ≡ remove_link e c.lru_list
  pub ref_count : r.ref_count ≡ c.ref_count
  pub weight : r.weight ≡ c.weight
  pub keys : (x : Addr) → x ≢ e → (r.key x ≡ c.key x) × (r.value x ≡ c.value x)
  pub marks : (x : Addr) → x ≢ e → r.delete_pending x ≡ c.delete_pending x
  pub freed : r.freed ≡ c.freed ++ (e ∷ [])
  pub sizes :
      (r.max_size ≡ c.max_size) × (r.max_weight ≡ c.max_weight) × (r.hash_size ≡ c.hash_size)

module _ {hash : Addr → ℕ} {c : Cache} {entries : List Addr} (good : Good hash c entries) (e : Addr)
    (ne : e ≢ 0) (on : has e entries ≡ true) (marks : Addr → Bool)
    (same_marks : (x : Addr) → x ≢ e → marks x ≡ c.delete_pending x) where
  abbrev pub marked : Cache
  marked = record c { delete_pending = marks }

  abbrev pub gone : Cache
  gone = dispose e (leave_cache e marked)

  in_table : is_null (c.table.pthis e) ≡ false
  in_table = ground (arith, good.hashed.linked e ne)

  pub gone-Good : Good hash gone (remove_link e entries)
  unfolding dispose leave_cache
  gone-Good =
      let d = good.hashed.distinct in
      let l = length-remove_link e entries on in
      let w = weigh-remove_link c.weight e entries on in
      let size =
        sub64_exact c.cur_size 1 (omega (arith, good.size, l))
          (omega (arith, good.size_bound, good.max_size_fits)) in
      let weight =
        sub64_exact c.cur_weight (c.weight e) (omega (arith, good.weight, w))
          (omega (arith, good.weight_bound, good.max_weight_fits)) in
      rw in_table (record {
        hashed =
            Hashed-bucket (λ x m. ground (arith, has-remove_link x e entries d))
              (unlink-Hashed good.hashed e on);
        size = omega (arith, size, good.size, l);
        weight = omega (arith, weight, good.weight, w);
        unused = λ x. ground (
          arith,
          has-remove_link x e c.lru_list good.lru_distinct,
          has-remove_link x e entries d,
          good.unused x,
        );
        lru_distinct = Distinct-remove_link e c.lru_list good.lru_distinct;
        pending =
            λ x m p. ground (arith, has-remove_link x e entries d, good.pending x, same_marks x);
        size_bound = omega (arith, size, good.size_bound);
        weight_bound = omega (arith, weight, good.weight_bound);
        max_size_fits = good.max_size_fits;
        max_weight_fits = good.max_weight_fits;
      })

  gone-Without : Without e c gone
  unfolding dispose leave_cache
  gone-Without = rw in_table (record {
    lru_list = refl;
    ref_count = refl;
    weight = refl;
    keys = λ x d. (ground arith, ground arith);
    marks = same_marks;
    freed = refl;
    sizes = (refl, refl, refl);
  })

  marked-Good : c.ref_count e ≢ 0 → Good hash marked entries
  marked-Good used = record {
    hashed = good.hashed;
    size = good.size;
    weight = good.weight;
    unused = good.unused;
    lru_distinct = good.lru_distinct;
    pending = λ x m p. ground (arith, good.pending x, same_marks x);
    size_bound = good.size_bound;
    weight_bound = good.weight_bound;
    max_size_fits = good.max_size_fits;
    max_weight_fits = good.max_weight_fits;
  }

-- The marks that `stx_cache_entry_delete` sets.
abbrev pub pending_too : Addr → Cache → Cache
pending_too e c = record c { delete_pending = update c.delete_pending e true }

pub delete_unused :
    (e : Addr) (c : Cache)
    → c.ref_count e ≡ 0
    → entry_delete e c ≡ dispose e (leave_cache e (pending_too e c))
unfolding entry_delete
delete_unused e c free = let z : ltb 0 (c.ref_count e) ≡ false = ground arith in rw z

pub delete_used : (e : Addr) (c : Cache) → c.ref_count e ≢ 0 → entry_delete e c ≡ pending_too e c
unfolding entry_delete
delete_used e c used = let z : ltb 0 (c.ref_count e) ≡ true = ground arith in rw z

-- An unused entry of the table leaves it.
pub delete_unused-Good :
    (hash : Addr → ℕ) (c : Cache) (entries : List Addr) (e : Addr)
    → Good hash c entries
    → e ≢ 0
    → has e entries ≡ true
    → c.ref_count e ≡ 0
    → Good hash (entry_delete e c) (remove_link e entries) × Without e c (entry_delete e c)
delete_unused-Good hash c entries e good ne on free =
    let marks = update c.delete_pending e true in
    let same : (x : Addr) → x ≢ e → marks x ≡ c.delete_pending x = λ x d. ground arith in
    rw (delete_unused e c free)
      (gone-Good good e ne on marks same, gone-Without good e ne on marks same)

-- An entry in use is marked.
pub delete_used-Good :
    (hash : Addr → ℕ) (c : Cache) (entries : List Addr) (e : Addr)
    → Good hash c entries
    → e ≢ 0
    → has e entries ≡ true
    → c.ref_count e ≢ 0
    → Good hash (entry_delete e c) entries
delete_used-Good hash c entries e good ne on used =
    rw (delete_used e c used)
      (marked-Good good e ne on (update c.delete_pending e true) (λ x d. ground arith) used)

-- `stx_cache_entry_delete` of an entry of a good cache takes it out and frees it, and nothing else,
-- if nobody uses it; if it is in use it stays in the cache, marked for deletion. The cache stays
-- good.
pub entry_delete-Good :
    (hash : Addr → ℕ) (c : Cache) (entries : List Addr) (e : Addr)
    → Good hash c entries
    → e ≢ 0
    → has e entries ≡ true
    → ((c.ref_count e ≡ 0)
        × Good hash (entry_delete e c) (remove_link e entries)
        × Without e c (entry_delete e c))
      ⊎ ((c.ref_count e ≢ 0)
          × Good hash (entry_delete e c) entries
          × ((entry_delete e c).delete_pending e ≡ true))
entry_delete-Good hash c entries e good ne on = elim (eq-cases (c.ref_count e) 0) [
  | inl free ↦
      let left = delete_unused-Good hash c entries e good ne on free in inl (free, left.0, left.1)
  | inr used ↦ inr (
    used,
    delete_used-Good hash c entries e good ne on used,
    rw (delete_used e c used) (ground arith),
  )
]

-- ===== src/Lru/Insert.antt =====
-- The whole of `stx_cache_entry_insert`, and a lookup after it.
use st_win.Prelude.{
  ℕ, ◌+◌, ◌^◌, ◌≤◌, ◌<◌, ◌≡◌, ◌≢◌, ◌⊎◌, inl, inr, ap, ◌∙◌, ◌==◌, Bool, true, false, List, [], ◌∷◌,
  length, arith, eq-cases,
}
use st_win.Prelude.Words.{add64_exact}
use st_win.Prelude.Members.{has, remove_link}
use st_win.TimeoutHeap.{Addr}
use st_win.Vp.{ok, fail}
use st_win.Lru.{
  Cache, entry_delete, evict_loop, evict_one, enter_cache, drop_duplicate, entry_insert,
}
use st_win.Lru.Hashed.{push-Hashed}
use st_win.Lru.Entries.{Good, delete_unused-Good, delete_used-Good}
use st_win.Lru.Shrink.{Shrunk, Shrunk-refl, Shrunk-trans, unused-Shrunk, used-Shrunk}
use st_win.Lru.Evict.{evict_loop-Evicted, evict_one-Shrunk}
use st_win.Lru.Lookup.{first, first-found, matches, find_entry-first}

module _ (hash : Addr → ℕ) (same_key : Addr → Addr → Bool) where
  -- There is room for one more entry, which is not in the table.
  pub enter_cache-Good :
      (e : Addr) (c : Cache) (entries : List Addr)
      → Good hash c entries
      → e ≢ 0
      → has e entries ≡ false
      → 0 < c.hash_size
      → c.cur_size < c.max_size
      → c.cur_weight + c.weight e ≤ c.max_weight
      → Good hash (enter_cache hash same_key e c) (e ∷ entries)
  unfolding enter_cache has
  enter_cache-Good e c entries good ne new some room light =
      let size = add64_exact c.cur_size 1 (omega (arith, good.max_size_fits)) in
      let weight = add64_exact c.cur_weight (c.weight e) (omega (arith, good.max_weight_fits)) in
      record {
        hashed = push-Hashed good.hashed e ne new (omega arith);
        size = omega (arith, size, good.size);
        weight = omega (arith, weight, good.weight);
        unused = λ x. ground (arith, good.unused x);
        lru_distinct = good.lru_distinct;
        pending = λ x m p. ground (arith, good.pending x);
        size_bound = omega (arith, size);
        weight_bound = omega (arith, weight);
        max_size_fits = good.max_size_fits;
        max_weight_fits = good.max_weight_fits;
      }

  dropped :
      (key : Addr) (c : Cache) (entries : List Addr) (old : Addr)
      → Good hash c entries
      → old ≢ 0
      → has old entries ≡ true
      → (rest : List Addr) × Good hash (entry_delete old c) rest
        × Shrunk c (entry_delete old c) entries rest
  dropped key c entries old good ne on = elim (eq-cases (c.ref_count old) 0) [
    | inl free ↦ (
      remove_link old entries,
      (delete_unused-Good hash c entries old good ne on free).0,
      unused-Shrunk hash c entries old good ne on free,
    )
    | inr used ↦ (
      entries,
      delete_used-Good hash c entries old good ne on used,
      used-Shrunk c entries old on used,
    )
  ]

  drop_duplicate-Shrunk :
      (e : Addr) (c : Cache) (entries : List Addr)
      → Good hash c entries
      → 0 < c.hash_size
      → ((a b : Addr) → same_key a b ≡ true → hash a ≡ hash b)
      → (rest : List Addr) × Good hash (drop_duplicate hash same_key e c) rest
        × Shrunk c (drop_duplicate hash same_key e c) entries rest
  unfolding drop_duplicate
  drop_duplicate-Shrunk e c entries good some agree =
      let key = c.key e in
      let at = find_entry-first hash same_key key c entries good some agree in
      let old = first (matches hash same_key key c) entries in
      elim (eq-cases old 0) [
        | inl none ↦ let z = at ∙ none in rw z (entries, good, Shrunk-refl c entries)
        | inr one ↦
            let z : (old == 0) ≡ false = ground arith in
            rw (at, z)
              (dropped key c entries old good one
                (first-found (matches hash same_key key c) entries one).0)
      ]

  -- The branches of `stx_cache_entry_insert`.
  insert_heavy :
      (e : Addr) (c : Cache)
      → (evict_loop (length c.lru_list) (c.weight e) c).1 ≡ false
      → entry_insert hash same_key e c ≡ ((evict_loop (length c.lru_list) (c.weight e) c).0, fail)
  unfolding entry_insert
  insert_heavy e c heavy = rw heavy

  insert_full :
      (e : Addr) (c : Cache)
      → (evict_loop (length c.lru_list) (c.weight e) c).1 ≡ true
      → evict_one (evict_loop (length c.lru_list) (c.weight e) c).0
        ≡ ((evict_loop (length c.lru_list) (c.weight e) c).0, false)
      → entry_insert hash same_key e c ≡ ((evict_loop (length c.lru_list) (c.weight e) c).0, fail)
  unfolding entry_insert
  insert_full e c light full = rw (light, full)

  insert_done :
      (e : Addr) (c : Cache)
      → (evict_loop (length c.lru_list) (c.weight e) c).1 ≡ true
      → (evict_one (evict_loop (length c.lru_list) (c.weight e) c).0).1 ≡ true
      → entry_insert hash same_key e c ≡ (
        enter_cache hash same_key e (
            drop_duplicate hash same_key e
              (evict_one (evict_loop (length c.lru_list) (c.weight e) c).0).0),
        ok,
      )
  unfolding entry_insert
  insert_done e c light room = rw (light, room)

  -- What an insertion does: it makes room in the cache, which is `s` then, and enters the entry, or
  -- gives up, because all the entries are in use.
  abbrev pub Inserts : Addr → Cache → List Addr → Type 0
  Inserts e c entries =
      (s : Cache) × (rest : List Addr) × Good hash s rest
      × Shrunk c s entries rest
      × (((entry_insert hash same_key e c ≡ (enter_cache hash same_key e s, ok))
            × Good hash (enter_cache hash same_key e s) (e ∷ rest))
          ⊎ ((entry_insert hash same_key e c ≡ (s, fail))
              × (s.lru_list ≡ [])
              × ((c.max_weight < s.cur_weight + c.weight e) ⊎ (s.cur_size ≡ c.max_size))))

  enters :
      (e : Addr) (c d : Cache) (entries rest : List Addr)
      → Good hash d rest
      → Shrunk c d entries rest
      → e ≢ 0
      → has e entries ≡ false
      → 0 < c.hash_size
      → ((a b : Addr) → same_key a b ≡ true → hash a ≡ hash b)
      → d.cur_size < c.max_size
      → d.cur_weight + c.weight e ≤ c.max_weight
      → entry_insert hash same_key e c
        ≡ (enter_cache hash same_key e (drop_duplicate hash same_key e d), ok)
      → Inserts e c entries
  enters e c d entries rest good shrunk ne new some agree room light eq =
      let (left, good', shrunk') =
        drop_duplicate-Shrunk e d rest good (omega (arith, shrunk.hash_size)) agree in
      let all = Shrunk-trans shrunk shrunk' in
      let s = drop_duplicate hash same_key e d in
      let weight : s.weight e ≡ c.weight e = ap (λ f. f e) all.weights in
      (
        s,
        left,
        good',
        all,
        inl (
          eq,
          enter_cache-Good e s left good' ne (ground (arith, all.inside e))
              (omega (arith, all.hash_size)) (omega (arith, shrunk'.fewer, all.max_size))
              (omega (arith, shrunk'.lighter, weight, all.max_weight)),
        ),
      )

  -- `stx_cache_entry_insert` of an entry that is not in the table, into a good cache with some
  -- buckets, where keys that compare equal have equal hash values and the weights do not overflow,
  -- first makes room: it takes out entries that nobody uses, and no other, and leaves a good cache
  -- `s`. Then it returns 0 with a good cache, which has the entry before what is left, or it
  -- returns -1 with `s`, because nobody unused is left and the entry is too heavy or the number of
  -- entries is at its limit.
  pub entry_insert-Good :
      (e : Addr) (c : Cache) (entries : List Addr)
      → Good hash c entries
      → e ≢ 0
      → has e entries ≡ false
      → 0 < c.hash_size
      → ((a b : Addr) → same_key a b ≡ true → hash a ≡ hash b)
      → c.max_weight + c.weight e < 2 ^ 64
      → Inserts e c entries
  entry_insert-Good e c entries good ne new some agree fits =
      let r = evict_loop (length c.lru_list) (c.weight e) c in
      let (gone, end) =
        evict_loop-Evicted hash (length c.lru_list) (c.weight e) c entries good fits
          (omega arith) in
      elim end [
        | inr (heavy, none, over) ↦
            (r.0, _, gone.good, gone.shrunk, inr (insert_heavy e c heavy, none, inl over))
        | inl (light, le) ↦
            let (rest, good', shrunk', one) = evict_one-Shrunk hash r.0 _ gone.good in
            let all = Shrunk-trans gone.shrunk shrunk' in
            elim one [
              | inr (full, none, at) ↦ (
                r.0,
                _,
                gone.good,
                gone.shrunk,
                inr (
                  insert_full e c light full,
                  none,
                  inr (omega (arith, at, gone.shrunk.max_size)),
                ),
              )
              | inl (room, lt) ↦
                  enters e c (evict_one r.0).0 entries rest good' all ne new some agree
                    (omega (arith, lt, gone.shrunk.max_size)) (omega (arith, le, shrunk'.lighter))
                    (insert_done e c light room)
            ]
      ]

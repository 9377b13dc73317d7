-- ===== src/Lru/Outcome.antt =====
-- What a caller sees after an insertion: what a lookup finds, how full the cache is, and what a failed
-- insertion has done.
use st_win.Prelude.{
  ℕ, ◌+◌, ◌^◌, ◌≤◌, ◌<◌, ◌≡◌, ◌≢◌, inl, inr, refl, sym, ap, ◌∙◌, ◌==◌, Bool, true, false, List, ◌∷◌,
  arith,
}
use st_win.Prelude.Members.{has}
use st_win.TimeoutHeap.{Addr}
use st_win.Vp.{ok, fail}
use st_win.Lru.{Cache, enter_cache, entry_insert, entry_lookup}
use st_win.Lru.Buckets.{is_null}
use st_win.Lru.Entries.{Good}
use st_win.Lru.Lookup.{first, matches, entry_lookup-Good}
use st_win.Lru.Insert.{entry_insert-Good}

module _ (hash : Addr → ℕ) (same_key : Addr → Addr → Bool) where
  -- A lookup finds what has just been entered.
  entered-first :
      (e : Addr) (key : Addr) (s : Cache) (rest : List Addr)
      → s.key e ≡ key
      → s.delete_pending e ≡ false
      → same_key key key ≡ true
      → first (matches hash same_key key (enter_cache hash same_key e s)) (e ∷ rest) ≡ e
  unfolding enter_cache first
  entered-first e key s rest at live same = rw (live, at, same)

  buckets_entered : (e : Addr) (s : Cache) → (enter_cache hash same_key e s).hash_size ≡ s.hash_size
  unfolding enter_cache
  buckets_entered e s = refl

  -- After `stx_cache_entry_insert` has returned 0 for a new entry that is not marked for deletion,
  -- on a good cache and under the conditions of the insertion, `stx_cache_entry_lookup` of its key
  -- returns that entry.
  pub entry_lookup-entry_insert :
      (e : Addr) (c : Cache) (entries : List Addr)
      → Good hash c entries
      → e ≢ 0
      → has e entries ≡ false
      → 0 < c.hash_size
      → ((a b : Addr) → same_key a b ≡ true → hash a ≡ hash b)
      → c.max_weight + c.weight e < 2 ^ 64
      → c.delete_pending e ≡ false
      → same_key (c.key e) (c.key e) ≡ true
      → (entry_insert hash same_key e c).1 ≡ ok
      → (entry_lookup hash same_key (c.key e) (entry_insert hash same_key e c).0).1 ≡ e
  entry_lookup-entry_insert e c entries good ne new some agree fits live same done =
      let (s, rest, good', shrunk, end) =
        entry_insert-Good hash same_key e c entries good ne new some agree fits in
      elim end [
        | inr (failed, none, why) ↦ absurd (ok_not_fail (sym done ∙ ap (λ r. r.1) failed))
        | inl (entered, good'') ↦
            let found =
              entry_lookup-Good hash same_key (c.key e) (enter_cache hash same_key e s) (e ∷ rest)
                good'' (omega (arith, buckets_entered e s, shrunk.hash_size)) agree in
            rw entered (
              found.1
              ∙ entered-first e (c.key e) s rest (shrunk.keys e new) (shrunk.marks e new ∙ live)
                  same)
      ]
    where
      ok_not_fail : ok ≡ fail → ⊥
      ok_not_fail eq = cc

  module _ (e : Addr) (c : Cache) (entries : List Addr) (good : Good hash c entries) (ne : e ≢ 0)
      (new : has e entries ≡ false) (some : 0 < c.hash_size)
      (agree : (a b : Addr) → same_key a b ≡ true → hash a ≡ hash b)
      (fits : c.max_weight + c.weight e < 2 ^ 64) where
    -- After `stx_cache_entry_insert` into a good cache, under the conditions of the insertion, the
    -- number of entries and their weight are at most the limits of the cache, whatever it has
    -- returned.
    pub entry_insert-bounded :
        ((entry_insert hash same_key e c).0.cur_size ≤ c.max_size)
        × ((entry_insert hash same_key e c).0.cur_weight ≤ c.max_weight)
    unfolding enter_cache
    entry_insert-bounded =
        let (s, rest, good', shrunk, end) =
          entry_insert-Good hash same_key e c entries good ne new some agree fits in
        elim end [
          | inl (entered, good'') ↦ rw entered (
            omega (arith, good''.size_bound, shrunk.max_size),
            omega (arith, good''.weight_bound, shrunk.max_weight),
          )
          | inr (failed, none, why) ↦ rw failed (
            omega (arith, good'.size_bound, shrunk.max_size),
            omega (arith, good'.weight_bound, shrunk.max_weight),
          )
        ]

    -- When `stx_cache_entry_insert` into a good cache, under the conditions of the insertion,
    -- returns -1, an entry that was in the table is out of it exactly if nobody used it: all the
    -- unused entries are gone, and those in use have stayed.
    pub entry_insert-failed :
        (x : Addr)
        → (entry_insert hash same_key e c).1 ≡ fail
        → x ≢ 0
        → has x entries ≡ true
        → is_null ((entry_insert hash same_key e c).0.table.pthis x) ≡ (c.ref_count x == 0)
    unfolding has
    entry_insert-failed x gave_up real on =
        let (s, rest, good', shrunk, end) =
          entry_insert-Good hash same_key e c entries good ne new some agree fits in
        elim end [
          | inl (entered, good'') ↦ absurd (fail_not_ok (sym gave_up ∙ ap (λ r. r.1) entered))
          | inr (failed, none, why) ↦
              let off = ap (has x) (sym none) ∙ good'.unused x in
              let refs = ap (λ f. f x) shrunk.refs in
              rw failed (ground (arith, off, refs, good'.hashed.linked x real, shrunk.left x on))
        ]
      where
        fail_not_ok : fail ≡ ok → ⊥
        fail_not_ok eq = cc

-- ===== src/Tests/Caches.antt =====
-- A cache at work: two entries at most, of weight 100 in all, with the entries 20 and 21.
use st_win.Prelude.{
  ℕ, ◌≡◌, ◌≢◌, ◌+◌, ◌≤◌, ◌⊎◌, ◌&&◌, refl, ◌==◌, arith, true, false, [], ◌∷◌, if◌then◌else◌, update,
}
use st_win.Prelude.Members.{has, remove_link}
use st_win.TimeoutHeap.{Addr}
use st_win.Lru.{
  Cache, cache_create, entry_create, entry_insert, entry_lookup, entry_release, entry_delete,
  enter_cache, evict_loop, evict_one, entry_getlru, dispose, leave_cache,
}
use st_win.Lru.Buckets.{null}
use st_win.Lru.Entries.{Good, entry_delete-Good}
use st_win.Lru.Release.{entry_release-Good}
use st_win.Lru.Create.{cache_create-Good, entry_create-Good}
use st_win.Lru.Insert.{Inserts, entry_insert-Good, enter_cache-Good}
use st_win.Lru.Outcome.{entry_lookup-entry_insert, entry_insert-failed, entry_insert-bounded}
use st_win.Lru.Evict.{Evicts, evict_loop-Evicted}
use st_win.Lru.Lookup.{first, matches, entry_lookup-Good}
use st_win.Lru.Entries.{Without}
use st_win.Lru.Buckets.{is_null, push_entry}
use st_win.Prelude.Words.{add64, sub64}

abbrev pub blank : Cache
blank = record {
  max_size = 0;
  cur_size = 0;
  max_weight = 0;
  cur_weight = 0;
  hash_size = 0;
  table = record { heads = λ b. 0; next = λ e. 0; pthis = λ e. null };
  lru_list = [];
  hits = 0;
  lookups = 0;
  inserts = 0;
  deletes = 0;
  has_cleanup = true;
  cleaned = [];
  freed = [];
  key = λ e. 0;
  value = λ e. 0;
  weight = λ e. 0;
  ref_count = λ e. 0;
  delete_pending = λ e. false;
}

-- Keys are their own hash values.
abbrev key_hash : Addr → ℕ
key_hash a = a

abbrev created : Cache
created = (cache_create 11 12 2 100 4 true blank).0

abbrev first_entry : Cache
first_entry = (entry_create 20 5 50 60 created).0

first_entry-Good : Good key_hash first_entry []
unfolding has
first_entry-Good =
    entry_create-Good key_hash 20 5 50 60 created []
      (cache_create-Good key_hash 11 12 2 100 4 true blank (ground arith) (ground arith)
        (omega arith) (omega arith) (λ e. refl))
      refl

agrees : (a b : Addr) → (a == b) ≡ true → key_hash a ≡ key_hash b
agrees a b same = ground arith

entry_insert-Good_example : Inserts key_hash (λ a b. a == b) 20 first_entry []
unfolding has entry_create cache_create
entry_insert-Good_example =
    entry_insert-Good key_hash (λ a b. a == b) 20 first_entry [] first_entry-Good (ground arith)
      refl (ground arith) agrees (ground arith)

entry_lookup-entry_insert_example :
    (entry_lookup key_hash
      (λ a b. a == b)
      (first_entry.key 20)
      (entry_insert key_hash (λ a b. a == b) 20 first_entry).0).1
    ≡ 20
unfolding has entry_create cache_create entry_insert evict_loop evict_one add64
entry_lookup-entry_insert_example =
    entry_lookup-entry_insert key_hash (λ a b. a == b) 20 first_entry [] first_entry-Good
      (ground arith) refl (ground arith) agrees (ground arith) refl refl refl

entry_insert-bounded_example :
    ((entry_insert key_hash (λ a b. a == b) 20 first_entry).0.cur_size ≤ 2)
    × ((entry_insert key_hash (λ a b. a == b) 20 first_entry).0.cur_weight ≤ 100)
unfolding has entry_create cache_create
entry_insert-bounded_example =
    entry_insert-bounded key_hash (λ a b. a == b) 20 first_entry [] first_entry-Good (ground arith)
      refl (ground arith) agrees (ground arith)

-- The entry 20 is in the cache, and in use.
abbrev one_used : Cache
one_used = enter_cache key_hash (λ a b. a == b) 20 first_entry

one_used-Good : Good key_hash one_used (20 ∷ [])
unfolding has entry_create cache_create
one_used-Good =
    enter_cache-Good key_hash (λ a b. a == b) 20 first_entry [] first_entry-Good (ground arith) refl
      (ground arith) (ground arith) (ground arith)

entry_lookup-Good_example :
    Good key_hash (entry_lookup key_hash (λ a b. a == b) 5 one_used).0 (20 ∷ [])
    × ((entry_lookup key_hash (λ a b. a == b) 5 one_used).1
        ≡ first (matches key_hash (λ a b. a == b) 5 one_used) (20 ∷ []))
    × ((entry_lookup key_hash (λ a b. a == b) 5 one_used).0.ref_count ≡ (
        if first (matches key_hash (λ a b. a == b) 5 one_used) (20 ∷ []) == 0
        then one_used.ref_count
        else update one_used.ref_count
            (first (matches key_hash (λ a b. a == b) 5 one_used) (20 ∷ []))
            (one_used.ref_count (first (matches key_hash (λ a b. a == b) 5 one_used) (20 ∷ []))
              + 1)))
unfolding enter_cache entry_create cache_create
entry_lookup-Good_example =
    entry_lookup-Good key_hash (λ a b. a == b) 5 one_used (20 ∷ []) one_used-Good (ground arith)
      agrees

entry_delete-Good_example :
    ((one_used.ref_count 20 ≡ 0)
      × Good key_hash (entry_delete 20 one_used) (remove_link 20 (20 ∷ []))
      × Without 20 one_used (entry_delete 20 one_used))
    ⊎ ((one_used.ref_count 20 ≢ 0)
        × Good key_hash (entry_delete 20 one_used) (20 ∷ [])
        × ((entry_delete 20 one_used).delete_pending 20 ≡ true))
unfolding has
entry_delete-Good_example =
    entry_delete-Good key_hash one_used (20 ∷ []) 20 one_used-Good (ground arith) (ground arith)

entry_release-Good_example : Good key_hash (entry_release 20 one_used) (
    if one_used.ref_count 20 == 1 && one_used.delete_pending 20
    then remove_link 20 (20 ∷ [])
    else 20 ∷ [])
unfolding has
entry_release-Good_example =
    entry_release-Good key_hash one_used (20 ∷ []) 20 one_used-Good (ground arith) (ground arith)

-- And now nobody uses it.
abbrev one_idle : Cache
one_idle = entry_release 20 one_used

one_idle-Good : Good key_hash one_idle (20 ∷ [])
unfolding has enter_cache entry_create cache_create
one_idle-Good =
    entry_release-Good key_hash one_used (20 ∷ []) 20 one_used-Good (ground arith) (ground arith)

evict_loop-Evicted_example : Evicts key_hash one_idle (20 ∷ []) 50 (evict_loop 1 50 one_idle)
unfolding enter_cache entry_create cache_create entry_release
evict_loop-Evicted_example =
    evict_loop-Evicted key_hash 1 50 one_idle (20 ∷ []) one_idle-Good (ground arith) (ground arith)

-- The entry 21 weighs more than the whole cache may.
abbrev too_heavy : Cache
too_heavy = (entry_create 21 6 51 200 one_idle).0

too_heavy-Good : Good key_hash too_heavy (20 ∷ [])
unfolding has
too_heavy-Good =
    entry_create-Good key_hash 21 6 51 200 one_idle (20 ∷ []) one_idle-Good (ground arith)

entry_insert-failed_example :
    is_null ((entry_insert key_hash (λ a b. a == b) 21 too_heavy).0.table.pthis 20)
    ≡ (too_heavy.ref_count 20 == 0)
unfolding has enter_cache entry_create cache_create entry_release entry_insert evict_loop evict_one
    entry_getlru add64 entry_delete dispose leave_cache push_entry sub64
entry_insert-failed_example =
    entry_insert-failed key_hash (λ a b. a == b) 21 too_heavy (20 ∷ []) too_heavy-Good
      (ground arith) (ground arith) (ground arith) agrees (ground arith) 20 refl (ground arith)
      (ground arith)

-- ===== src/Lru.antt =====
-- extensions/lrucache.c: a cache with a hash table, entries in use counted, and the unused ones in the
-- order of their last use. A call of `cleanup_fn` is recorded with its arguments, and so is `free`.
pub mod Buckets
pub mod Chain
pub mod Push
pub mod Hashed
pub mod Entries
pub mod Release
pub mod Lookup
pub mod Shrink
pub mod Evict
pub mod Insert
pub mod Outcome
pub mod Create
pub mod Contents
use st_win.Prelude.{
  ℕ, zero, suc, ◌+◌, ◌-◌, ◌%◌, ◌^◌, ◌==◌, ltb, leb, Bool, true, false, not, ◌&&◌, List, [], ◌∷◌,
  ◌++◌, length, if◌then◌else◌, update,
}
use st_win.Prelude.Words.{add64, sub64}
use st_win.Prelude.Members.{remove_link}
use st_win.Clist.{append_link}
use st_win.TimeoutHeap.{Addr}
use st_win.Vp.{Rc, ok, fail}
use st_win.Lru.Buckets.{Table, Link, null, is_null, head_of, push_entry, unlink_entry}

-- `struct _stx_cache` and the fields of its entries, but for the links of the hash table.
pub record Cache : Type 0 where
  pub max_size : ℕ
  pub cur_size : ℕ
  pub max_weight : ℕ
  pub cur_weight : ℕ
  pub hash_size : ℕ
  pub table : Table
  pub lru_list : List Addr
  pub hits : ℕ
  pub lookups : ℕ
  pub inserts : ℕ
  pub deletes : ℕ
  pub has_cleanup : Bool
  pub cleaned : List (Addr × Addr)
  pub freed : List Addr
  -- struct _stx_centry
  pub key : Addr → Addr
  pub value : Addr → Addr
  pub weight : Addr → ℕ
  pub ref_count : Addr → ℕ
  pub delete_pending : Addr → Bool

-- `unsigned long` counters have 32 bits.
abbrev pub count32 : ℕ → ℕ
count32 n = (n + 1) % 2 ^ 32

-- `stx_cache_create` with the results of its two `calloc`s; none for NULL.
unfoldable pub cache_create : Addr → Addr → ℕ → ℕ → ℕ → Bool → Cache → Cache × Addr
cache_create newcache table max_size max_weight hash_size cleanup c =
    if newcache == 0 then (c, 0) else if table == 0 then (c, 0) else (
      record c {
        max_size = max_size;
        cur_size = 0;
        max_weight = max_weight;
        cur_weight = 0;
        hash_size = hash_size;
        table = record c.table { heads = λ bucket. 0 };
        lru_list = [];
        hits = 0;
        lookups = 0;
        inserts = 0;
        deletes = 0;
        has_cleanup = cleanup;
      },
      newcache,
    )

-- `stx_cache_entry_create` with the result of its `calloc`
unfoldable pub entry_create : Addr → Addr → Addr → ℕ → Cache → Cache × Addr
entry_create newentry key value weight c = if newentry == 0 then (c, 0) else (
  record c {
    table = record c.table {
      next = update c.table.next newentry 0;
      pthis = update c.table.pthis newentry null;
    };
    key = update c.key newentry key;
    value = update c.value newentry value;
    weight = update c.weight newentry weight;
    ref_count = update c.ref_count newentry 0;
    delete_pending = update c.delete_pending newentry false;
  },
  newentry,
)

-- `if (entry->pthis)` of `stx_cache_entry_delete`: the entry leaves the table and the LRU list.
unfoldable pub leave_cache : Addr → Cache → Cache
leave_cache entry c = if is_null (c.table.pthis entry) then c else record c {
  table = unlink_entry entry c.table;
  cur_size = sub64 c.cur_size 1;
  cur_weight = sub64 c.cur_weight (c.weight entry);
  deletes = count32 c.deletes;
  lru_list = remove_link entry c.lru_list;
}

-- The end of `stx_cache_entry_delete`: `cleanup_fn` and `free`.
unfoldable pub dispose : Addr → Cache → Cache
dispose entry c = record c {
  cleaned = if c.has_cleanup then c.cleaned ++ ((c.key entry, c.value entry) ∷ []) else c.cleaned;
  table = record c.table { pthis = update c.table.pthis entry null };
  key = update c.key entry 0;
  value = update c.value entry 0;
  freed = c.freed ++ (entry ∷ []);
}

-- `stx_cache_entry_delete`
unfoldable pub entry_delete : Addr → Cache → Cache
entry_delete entry c =
    let c₁ = record c { delete_pending = update c.delete_pending entry true } in
    if ltb 0 (c.ref_count entry) then c₁ else dispose entry (leave_cache entry c₁)

-- `stx_cache_entry_getlru`
unfoldable pub entry_getlru : Cache → Addr
entry_getlru c = elim c.lru_list [ [] ↦ 0 | entry ∷ q ↦ entry ]

-- `stx_cache_entry_release`
unfoldable pub entry_release : Addr → Cache → Cache
entry_release entry c =
    let c₁ = record c { ref_count = update c.ref_count entry (c.ref_count entry - 1) } in
    let c₂ = record c₁ { lru_list = append_link entry c₁.lru_list } in
    if c.ref_count entry == 0
    then c
    else if c₁.ref_count entry == 0
    then (if c₂.delete_pending entry then entry_delete entry c₂ else c₂)
    else c₁

-- `while (cache->cur_weight + entry->weight > cache->max_weight)` of `stx_cache_entry_insert`; it
-- returns false if the LRU list is empty too early. A round takes one entry off that list.
unfoldable pub evict_loop : ℕ → ℕ → Cache → Cache × Bool
evict_loop zero weight c = (c, leb (add64 c.cur_weight weight) c.max_weight)
evict_loop (suc fuel) weight c =
    let rest = evict_loop fuel weight (entry_delete (entry_getlru c) c) in
    if leb (add64 c.cur_weight weight) c.max_weight
    then (c, true)
    else if entry_getlru c == 0
    then (c, false)
    else rest

-- `if (cache->cur_size >= cache->max_size)`
unfoldable pub evict_one : Cache → Cache × Bool
evict_one c =
    if ltb c.cur_size c.max_size
    then (c, true)
    else if entry_getlru c == 0
    then (c, false)
    else (entry_delete (entry_getlru c) c, true)

-- `key_hash_fn`, and `key_cmp_fn(a, b) == 0`
module _ (hash : Addr → ℕ) (same_key : Addr → Addr → Bool) where
  abbrev pub bucket_of : Addr → Cache → ℕ
  bucket_of key c = hash key % c.hash_size

  -- The loop over a chain of the table, which is no longer than the number of entries.
  unfoldable pub find : ℕ → Addr → Addr → Cache → Addr
  find zero key entry c = 0
  find (suc fuel) key entry c =
      let rest = find fuel key (c.table.next entry) c in
      if entry == 0
      then 0
      else if not (c.delete_pending entry) && same_key key (c.key entry)
      then entry
      else rest

  abbrev pub find_entry : Addr → Cache → Addr
  find_entry key c = find c.cur_size key (c.table.heads (bucket_of key c)) c

  -- `stx_cache_entry_lookup`
  unfoldable pub entry_lookup : Addr → Cache → Cache × Addr
  entry_lookup key c =
      let entry = find_entry key c in
      let c₁ = record c { lookups = count32 c.lookups } in
      let c₂ = record c₁ {
        hits = count32 c₁.hits;
        lru_list = if c₁.ref_count entry == 0 then remove_link entry c₁.lru_list else c₁.lru_list;
        ref_count = update c₁.ref_count entry (c₁.ref_count entry + 1);
      } in
      if entry == 0 then (c₁, 0) else (c₂, entry)

  -- `// Insert in the hash table`
  unfoldable pub enter_cache : Addr → Cache → Cache
  enter_cache entry c = record c {
    table = push_entry entry (bucket_of (c.key entry) c) c.table;
    ref_count = update c.ref_count entry (c.ref_count entry + 1);
    inserts = count32 c.inserts;
    cur_size = add64 c.cur_size 1;
    cur_weight = add64 c.cur_weight (c.weight entry);
  }

  -- `// Don't add duplicate entries in the cache`
  unfoldable pub drop_duplicate : Addr → Cache → Cache
  drop_duplicate entry c =
      let old_entry = find_entry (c.key entry) c in
      if old_entry == 0 then c else entry_delete old_entry c

  -- `stx_cache_entry_insert`
  unfoldable pub entry_insert : Addr → Cache → Cache × Rc
  entry_insert entry c =
      let r = evict_loop (length c.lru_list) (c.weight entry) c in
      let s = evict_one r.0 in
      if not r.1
      then (r.0, fail)
      else if not s.1
      then (s.0, fail)
      else (enter_cache entry (drop_duplicate entry s.0), ok)

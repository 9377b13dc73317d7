-- ===== src/Lru/Contents.antt =====
-- extensions/lrucache.c: the functions that empty a cache, walk through it, or report on it.
use st_win.Prelude.{ℕ, zero, suc, ◌+◌, ◌==◌, List, [], ◌∷◌, ◌++◌, if◌then◌else◌}
use st_win.TimeoutHeap.{Addr}
use st_win.Lru.{Cache, entry_delete}

-- `while (entry)` of `stx_cache_empty`, which reads the next entry before the deletion.
unfoldable pub empty_chain : ℕ → Addr → Cache → Cache
empty_chain zero entry c = c
empty_chain (suc fuel) entry c =
    let rest = empty_chain fuel (c.table.next entry) (entry_delete entry c) in
    if entry == 0 then c else rest

unfoldable pub empty_loop : ℕ → ℕ → Cache → Cache
empty_loop zero bucket c = c
empty_loop (suc rounds) bucket c =
    empty_loop rounds (bucket + 1) (empty_chain c.cur_size (c.table.heads bucket) c)

-- `stx_cache_empty`
unfoldable pub cache_empty : Cache → Cache
cache_empty c = empty_loop c.hash_size 0 c

-- The calls of `callback` for the entries of a chain.
unfoldable pub traverse_chain : ℕ → Addr → Cache → List (Addr × Addr)
traverse_chain zero entry c = []
traverse_chain (suc fuel) entry c =
    let rest = traverse_chain fuel (c.table.next entry) c in
    if entry == 0
    then []
    else if c.delete_pending entry
    then rest
    else (c.key entry, c.value entry) ∷ rest

unfoldable pub traverse_loop : ℕ → ℕ → Cache → List (Addr × Addr)
traverse_loop zero bucket c = []
traverse_loop (suc rounds) bucket c =
    traverse_chain c.cur_size (c.table.heads bucket) c ++ traverse_loop rounds (bucket + 1) c

-- `stx_cache_traverse`, for a callback that does not change the cache
unfoldable pub cache_traverse : Cache → List (Addr × Addr)
cache_traverse c = traverse_loop c.hash_size 0 c

-- The first `n` calls of a walk along the LRU list.
unfoldable pub traverse_list : ℕ → List Addr → Cache → List (Addr × Addr)
traverse_list zero q c = []
traverse_list (suc n) [] c = []
traverse_list (suc n) (entry ∷ q) c = (c.key entry, c.value entry) ∷ traverse_list n q c

abbrev pub reversed : List Addr → List Addr
reversed [] = []
reversed (x ∷ q) = reversed q ++ (x ∷ [])

-- `stx_cache_traverse_lru`, `stx_cache_traverse_mru`
unfoldable pub traverse_lru : ℕ → Cache → List (Addr × Addr)
traverse_lru n c = traverse_list n c.lru_list c

unfoldable pub traverse_mru : ℕ → Cache → List (Addr × Addr)
traverse_mru n c = traverse_list n (reversed c.lru_list) c

-- `stx_cache_info_t`
pub record Info : Type 0 where
  pub max_size : ℕ
  pub max_weight : ℕ
  pub hash_size : ℕ
  pub cur_size : ℕ
  pub cur_weight : ℕ
  pub hits : ℕ
  pub lookups : ℕ
  pub inserts : ℕ
  pub deletes : ℕ

-- `stx_cache_getinfo`
unfoldable pub cache_getinfo : Cache → Info
cache_getinfo c = record {
  max_size = c.max_size;
  max_weight = c.max_weight;
  hash_size = c.hash_size;
  cur_size = c.cur_size;
  cur_weight = c.cur_weight;
  hits = c.hits;
  lookups = c.lookups;
  inserts = c.inserts;
  deletes = c.deletes;
}

-- `stx_cache_getsize`, `stx_cache_getweight`
unfoldable pub cache_getsize : Cache → ℕ
cache_getsize c = c.cur_size

unfoldable pub cache_getweight : Cache → ℕ
cache_getweight c = c.cur_weight

-- `stx_cache_entry_getdata`, `stx_cache_entry_getkey`, `stx_cache_entry_getweight`
unfoldable pub entry_getdata : Addr → Cache → Addr
entry_getdata entry c = c.value entry

unfoldable pub entry_getkey : Addr → Cache → Addr
entry_getkey entry c = c.key entry

unfoldable pub entry_getweight : Addr → Cache → ℕ
entry_getweight entry c = c.weight entry

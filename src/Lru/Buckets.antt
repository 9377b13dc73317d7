-- ===== src/Lru/Buckets.antt =====
-- The links of the hash table of lrucache.c. An entry knows by `pthis` the pointer that leads to it, so
-- that it is taken out of its chain without a search.
use st_win.Prelude.{ℕ, ◌==◌, Bool, true, false, if◌then◌else◌, update}
use st_win.TimeoutHeap.{Addr}

-- What `pthis` points at: nothing, `&table[bucket]`, or `&entry->next`.
pub data Link : Type 0 where
  null : Link
  head_of : ℕ → Link
  next_of : Addr → Link

pub record Table : Type 0 where
  pub heads : ℕ → Addr
  pub next : Addr → Addr
  pub pthis : Addr → Link

abbrev pub is_null : Link → Bool
is_null null = true
is_null _ = false

-- `*p`
abbrev pub follow : Table → Link → Addr
follow t null = 0
follow t (head_of bucket) = t.heads bucket
follow t (next_of entry) = t.next entry

-- `*p = entry`
unfoldable pub point : Link → Addr → Table → Table
point null entry t = t
point (head_of bucket) entry t = record t { heads = update t.heads bucket entry }
point (next_of x) entry t = record t { next = update t.next x entry }

-- `*entry->pthis = entry->next; if (entry->next) entry->next->pthis = entry->pthis;`
unfoldable pub unlink_entry : Addr → Table → Table
unlink_entry entry t =
    let t₁ = point (t.pthis entry) (t.next entry) t in
    if t₁.next entry == 0
    then t₁
    else record t₁ { pthis = update t₁.pthis (t₁.next entry) (t₁.pthis entry) }

-- `// Insert in the hash table`
unfoldable pub push_entry : Addr → ℕ → Table → Table
push_entry entry bucket t =
    let t₁ = record t {
      next = update t.next entry (t.heads bucket);
      heads = update t.heads bucket entry;
      pthis = update t.pthis entry (head_of bucket);
    } in
    if t₁.next entry == 0
    then t₁
    else record t₁ { pthis = update t₁.pthis (t₁.next entry) (next_of entry) }

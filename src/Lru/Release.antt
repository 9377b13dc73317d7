-- ===== src/Lru/Release.antt =====
-- The end of a use of an entry keeps the invariant of the cache.
use st_win.Prelude.{
  ◌∙◌, ℕ, ◌-◌, ◌≡◌, ◌≢◌, inl, inr, refl, ◌==◌, Bool, true, false, ◌&&◌, List, if◌then◌else◌, update,
  arith, eq-cases, Bool-cases,
}
use st_win.Prelude.Members.{has, remove_link, has-append_link, Distinct-append_link}
use st_win.Clist.{append_link}
use st_win.TimeoutHeap.{Addr}
use st_win.Lru.{Cache, entry_delete, entry_release}
use st_win.Lru.Entries.{Good, gone-Good, delete_unused}

-- The last use of an entry is over; `marks` says what is to be deleted.
abbrev pub idle : Addr → (Addr → Bool) → Cache → Cache
idle e marks c = record c {
  ref_count = update c.ref_count e (c.ref_count e - 1);
  lru_list = append_link e c.lru_list;
  delete_pending = marks;
}

idle-Good :
    (hash : Addr → ℕ) (c : Cache) (entries : List Addr) (e : Addr) (marks : Addr → Bool)
    → Good hash c entries
    → has e entries ≡ true
    → c.ref_count e ≡ 1
    → marks e ≡ false
    → ((x : Addr) → x ≢ e → marks x ≡ c.delete_pending x)
    → Good hash (idle e marks c) entries
idle-Good hash c entries e marks good on last unmarked same = record {
  hashed = good.hashed;
  size = good.size;
  weight = good.weight;
  unused = λ x. ground (arith, has-append_link x e c.lru_list, good.unused x);
  lru_distinct =
      Distinct-append_link e c.lru_list good.lru_distinct (ground (arith, good.unused e));
  pending = λ x m p. ground (arith, good.pending x, same x);
  size_bound = good.size_bound;
  weight_bound = good.weight_bound;
  max_size_fits = good.max_size_fits;
  max_weight_fits = good.max_weight_fits;
}

-- An entry that is in use elsewhere stays in use.
abbrev less_used : Addr → Cache → Cache
less_used e c = record c { ref_count = update c.ref_count e (c.ref_count e - 1) }

less_used-Good :
    (hash : Addr → ℕ) (c : Cache) (entries : List Addr) (e : Addr)
    → Good hash c entries
    → c.ref_count e ≢ 0
    → c.ref_count e ≢ 1
    → Good hash (less_used e c) entries
less_used-Good hash c entries e good used more = record {
  hashed = good.hashed;
  size = good.size;
  weight = good.weight;
  unused = λ x. ground (arith, good.unused x);
  lru_distinct = good.lru_distinct;
  pending = λ x m p. ground (arith, good.pending x);
  size_bound = good.size_bound;
  weight_bound = good.weight_bound;
  max_size_fits = good.max_size_fits;
  max_weight_fits = good.max_weight_fits;
}

-- The branches of `stx_cache_entry_release`.
release_more :
    (e : Addr) (c : Cache)
    → c.ref_count e ≢ 0
    → c.ref_count e ≢ 1
    → entry_release e c ≡ less_used e c
unfolding entry_release
release_more e c used more =
    let some_refs : (c.ref_count e == 0) ≡ false = ground arith in
    let left : (update c.ref_count e (c.ref_count e - 1) e == 0) ≡ false = ground arith in
    rw (some_refs, left)

release_unused : (e : Addr) (c : Cache) → c.ref_count e ≡ 0 → entry_release e c ≡ c
unfolding entry_release
release_unused e c none = rw none

release_last :
    (e : Addr) (c : Cache)
    → c.ref_count e ≡ 1
    → entry_release e c ≡ (
        if c.delete_pending e
        then entry_delete e (idle e c.delete_pending c)
        else idle e c.delete_pending c)
unfolding entry_release
release_last e c last =
    let some_refs : (c.ref_count e == 0) ≡ false = ground arith in
    let left : (update c.ref_count e (c.ref_count e - 1) e == 0) ≡ true = ground arith in
    rw (some_refs, left)

-- `stx_cache_entry_release` of an entry of a good cache leaves a good cache; the entry is out of it
-- exactly if this was its last use and it was marked for deletion.
pub entry_release-Good :
    (hash : Addr → ℕ) (c : Cache) (entries : List Addr) (e : Addr)
    → Good hash c entries
    → e ≢ 0
    → has e entries ≡ true
    → Good hash
        (entry_release e c)
        (if c.ref_count e == 1 && c.delete_pending e then remove_link e entries else entries)
entry_release-Good hash c entries e good ne on = elim (eq-cases (c.ref_count e) 1) [
  | inr more ↦
      let sole : (c.ref_count e == 1) ≡ false = ground arith in
      elim (eq-cases (c.ref_count e) 0) [
        | inl none ↦ rw (sole, release_unused e c none) good
        | inr used ↦
            rw (sole, release_more e c used more) (less_used-Good hash c entries e good used more)
      ]
  | inl last ↦
      let sole : (c.ref_count e == 1) ≡ true = ground arith in
      elim (Bool-cases (c.delete_pending e)) [
        | inr kept ↦
            rw (sole, release_last e c last, kept)
              (idle-Good hash c entries e c.delete_pending good on last kept (λ x d. refl))
        | inl doomed ↦
            let kept = update c.delete_pending e false in
            let base =
              idle-Good hash c entries e kept good on last (ground arith) (λ x d. ground arith) in
            let free : update c.ref_count e (c.ref_count e - 1) e ≡ 0 = ground arith in
            rw
              (
                sole,
                release_last e c last,
                doomed,
                delete_unused e (idle e c.delete_pending c) free,
              )
              (gone-Good base e ne on (update c.delete_pending e true) (λ x d. ground arith))
      ]
]

-- A release takes one use away.
pub release_refs :
    (e : Addr) (c : Cache)
    → c.ref_count e ≢ 0
    → c.delete_pending e ≡ false
    → (entry_release e c).ref_count e ≡ c.ref_count e - 1
release_refs e c used kept = elim (eq-cases (c.ref_count e) 1) [
  | inl last ↦ rw (release_last e c last, kept) (ground arith)
  | inr more ↦ rw (release_more e c used more) (ground arith)
]

-- The last release of an entry that is to stay.
pub release_idle :
    (e : Addr) (c : Cache)
    → c.ref_count e ≡ 1
    → c.delete_pending e ≡ false
    → entry_release e c ≡ idle e c.delete_pending c
release_idle e c last kept = release_last e c last ∙ rw kept refl

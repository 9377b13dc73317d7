-- ===== src/Lru/Shrink.antt =====
-- What an insertion may take from the cache to make room: entries that nobody uses, and no more.
use st_win.Prelude.{ℕ, ◌≤◌, ◌≡◌, ◌≢◌, inl, inr, refl, ◌∙◌, true, false, List, arith, ap, Bool-cases}
use st_win.Prelude.Members.{has, remove_link, has-remove_link, length-remove_link}
use st_win.TimeoutHeap.{Addr}
use st_win.Lru.{Cache, entry_delete}
use st_win.Lru.Entries.{Good, weigh, weigh-remove_link, delete_unused-Good, delete_used}

pub record Shrunk (c c' : Cache) (entries entries' : List Addr) : Type 0 where
  pub inside : (x : Addr) → has x entries' ≡ true → has x entries ≡ true
  pub left : (x : Addr) → has x entries ≡ true → has x entries' ≡ false → c.ref_count x ≡ 0
  pub refs : c'.ref_count ≡ c.ref_count
  pub weights : c'.weight ≡ c.weight
  pub keys : (x : Addr) → has x entries ≡ false → c'.key x ≡ c.key x
  pub values : (x : Addr) → has x entries ≡ false → c'.value x ≡ c.value x
  pub marks : (x : Addr) → has x entries ≡ false → c'.delete_pending x ≡ c.delete_pending x
  pub hash_size : c'.hash_size ≡ c.hash_size
  pub max_size : c'.max_size ≡ c.max_size
  pub max_weight : c'.max_weight ≡ c.max_weight
  pub fewer : c'.cur_size ≤ c.cur_size
  pub lighter : c'.cur_weight ≤ c.cur_weight

pub Shrunk-refl : (c : Cache) (entries : List Addr) → Shrunk c c entries entries
Shrunk-refl c entries = record {
  inside = λ x m. m;
  left = λ x m n. ground arith;
  refs = refl;
  weights = refl;
  keys = λ x m. refl;
  values = λ x m. refl;
  marks = λ x m. refl;
  hash_size = refl;
  max_size = refl;
  max_weight = refl;
  fewer = omega arith;
  lighter = omega arith;
}

pub Shrunk-trans :
    {a b c : Cache} {p q r : List Addr} → Shrunk a b p q → Shrunk b c q r → Shrunk a c p r
Shrunk-trans {a} {b} {c} {p} {q} {r} s t = record {
  inside = λ x m. s.inside x (t.inside x m);
  left = λ x m n. elim (Bool-cases (has x q)) [
    | inl on ↦ ground (arith, t.left x on n, s.refs)
    | inr off ↦ s.left x m off
  ];
  refs = t.refs ∙ s.refs;
  weights = t.weights ∙ s.weights;
  keys = λ x m. t.keys x (ground (arith, s.inside x)) ∙ s.keys x m;
  values = λ x m. t.values x (ground (arith, s.inside x)) ∙ s.values x m;
  marks = λ x m. t.marks x (ground (arith, s.inside x)) ∙ s.marks x m;
  hash_size = t.hash_size ∙ s.hash_size;
  max_size = t.max_size ∙ s.max_size;
  max_weight = t.max_weight ∙ s.max_weight;
  fewer = omega (arith, s.fewer, t.fewer);
  lighter = omega (arith, s.lighter, t.lighter);
}

-- Deleting an unused entry.
pub unused-Shrunk :
    (hash : Addr → ℕ) (c : Cache) (entries : List Addr) (e : Addr)
    → Good hash c entries
    → e ≢ 0
    → has e entries ≡ true
    → c.ref_count e ≡ 0
    → Shrunk c (entry_delete e c) entries (remove_link e entries)
unused-Shrunk hash c entries e good ne on free =
    let d = good.hashed.distinct in
    let r = delete_unused-Good hash c entries e good ne on free in
    let w = r.1 in
    let lighter = weigh-remove_link c.weight e entries on in
    let light = r.0.weight ∙ ap (λ f. weigh f (remove_link e entries)) w.weight in
    record {
      inside = λ x m. ground (arith, has-remove_link x e entries d);
      left = λ x m n. ground (arith, has-remove_link x e entries d);
      refs = w.ref_count;
      weights = w.weight;
      keys = λ x m. ground (arith, w.keys x);
      values = λ x m. ground (arith, w.keys x);
      marks = λ x m. ground (arith, w.marks x);
      hash_size = w.sizes.2;
      max_size = w.sizes.0;
      max_weight = w.sizes.1;
      fewer = omega (arith, length-remove_link e entries on, good.size, r.0.size);
      lighter = omega (arith, lighter, good.weight, light);
    }

-- Deleting an entry in use.
pub used-Shrunk :
    (c : Cache) (entries : List Addr) (e : Addr)
    → has e entries ≡ true
    → c.ref_count e ≢ 0
    → Shrunk c (entry_delete e c) entries entries
used-Shrunk c entries e on used = rw (delete_used e c used) (record {
  inside = λ x m. m;
  left = λ x m n. ground arith;
  refs = refl;
  weights = refl;
  keys = λ x m. refl;
  values = λ x m. refl;
  marks = λ x m. ground arith;
  hash_size = refl;
  max_size = refl;
  max_weight = refl;
  fewer = omega arith;
  lighter = omega arith;
})

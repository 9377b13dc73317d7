-- ===== src/Lru/Hashed.antt =====
-- The whole hash table against one list of entries, the latest first: bucket by bucket, its chains are
-- what is in that list.
use st_win.Prelude.{
  ℕ, ◌<◌, ◌≡◌, ◌≢◌, inl, inr, refl, sym, ap, subst, ◌==◌, Bool, true, false, not, List, [], ◌∷◌,
  update, arith, eq-cases,
}
use st_win.Prelude.Members.{
  has, Distinct, filter, remove_link, has-filter, Distinct-filter, has-remove_link,
  Distinct-remove_link, filter-remove_link,
}
use st_win.TimeoutHeap.{Addr}
use st_win.Lru.Buckets.{Table, null, is_null, head_of, unlink_entry, push_entry}
use st_win.Lru.Chain.{Chain, Chain-same, unlink-Chain, unlink-others}
use st_win.Lru.Push.{push-Chain, push-others, unlink_linked, push_linked}

-- The entries of a bucket.
abbrev pub in_bucket : (Addr → ℕ) → ℕ → List Addr → List Addr
in_bucket bucket b = filter (λ e. bucket e == b)

pub record Hashed (t : Table) (bucket : Addr → ℕ) (size : ℕ) (entries : List Addr) : Type 0 where
  pub chains : (b : ℕ) → b < size → Chain t (head_of b) (in_bucket bucket b entries)
  pub inside : (e : Addr) → has e entries ≡ true → bucket e < size
  pub distinct : Distinct entries
  pub real : has 0 entries ≡ false
  pub linked : (e : Addr) → e ≢ 0 → is_null (t.pthis e) ≡ not (has e entries)

filter-same :
    (f g : ℕ → Bool) (q : List ℕ) → ((x : ℕ) → has x q ≡ true → f x ≡ g x) → filter f q ≡ filter g q
unfolding filter has
filter-same f g [] same = refl
filter-same f g (x ∷ q) same =
    rw (same x (ground arith), filter-same f g q (λ y m. same y (ground arith)))

-- Only the buckets of the entries matter.
pub Hashed-bucket :
    {t : Table} {bucket bucket' : Addr → ℕ} {size : ℕ} {entries : List Addr}
    → ((e : Addr) → has e entries ≡ true → bucket' e ≡ bucket e)
    → Hashed t bucket size entries
    → Hashed t bucket' size entries
Hashed-bucket {t} {bucket} {bucket'} {size} {entries} same h = record {
  chains = λ b lt.
      subst (Chain t (head_of b))
        (filter-same (λ e. bucket e == b) (λ e. bucket' e == b) entries
          (λ e m. ap (λ n. n == b) (sym (same e m))))
        (h.chains b lt);
  inside = λ e m. ground (arith, same e m, h.inside e m);
  distinct = h.distinct;
  real = h.real;
  linked = h.linked;
}

module _ {t : Table} {bucket : Addr → ℕ} {size : ℕ} {entries : List Addr}
    (h : Hashed t bucket size entries) where
  -- Two buckets have no entry in common.
  apart :
      (b b₂ : ℕ)
      → b ≢ b₂
      → (x : Addr) → has x (in_bucket bucket b entries) ≡ true
      → has x (in_bucket bucket b₂ entries) ≡ false
  apart b b₂ ne x m =
      ground (
        arith,
        has-filter x (λ e. bucket e == b) entries,
        has-filter x (λ e. bucket e == b₂) entries,
      )

  unlink-chains :
      (e : Addr)
      → has e entries ≡ true
      → (b : ℕ) → b < size
      → Chain (unlink_entry e t) (head_of b) (in_bucket bucket b (remove_link e entries))
  unlink-chains e on b lt = elim (eq-cases (bucket e) b) [
    | inl same ↦
        let is : (bucket e == b) ≡ true = ground arith in
        rw (filter-remove_link, is)
          (unlink-Chain t (head_of b) e (in_bucket bucket b entries) (h.chains b lt) tt
            (Distinct-filter (λ e. bucket e == b) entries h.distinct)
            (ground (arith, has-filter e (λ e. bucket e == b) entries)))
    | inr other ↦
        let is : (bucket e == b) ≡ false = ground arith in
        rw (filter-remove_link, is)
          (unlink-others t (bucket e) b e (in_bucket bucket (bucket e) entries)
            (in_bucket bucket b entries) (h.chains (bucket e) (h.inside e on))
            (ground (arith, has-filter e (λ x. bucket x == bucket e) entries))
            (Distinct-filter (λ x. bucket x == bucket e) entries h.distinct) other
            (apart (bucket e) b other)
            (ground (arith, has-filter 0 (λ x. bucket x == b) entries, h.real)) (h.chains b lt))
  ]

  -- An entry that is unlinked and forgets its place.
  abbrev pub forgotten : Addr → Table
  forgotten e = let t' = unlink_entry e t in record t' { pthis = update t'.pthis e null }

  pub unlink-Hashed :
      (e : Addr) → has e entries ≡ true → Hashed (forgotten e) bucket size (remove_link e entries)
  unlink-Hashed e on = record {
    chains = λ b lt.
        Chain-same (unlink_entry e t) (forgotten e) (head_of b)
          (in_bucket bucket b (remove_link e entries)) refl (λ x m. refl)
          (λ x m. ground (
            arith,
            has-filter x (λ x. bucket x == b) (remove_link e entries),
            has-remove_link x e entries h.distinct,
          ))
          (unlink-chains e on b lt);
    inside = λ x m. h.inside x (ground (arith, has-remove_link x e entries h.distinct));
    distinct = Distinct-remove_link e entries h.distinct;
    real = ground (arith, has-remove_link 0 e entries h.distinct, h.real);
    linked = λ x ne.
        let same =
          unlink_linked t (bucket e) e (in_bucket bucket (bucket e) entries) x
            (h.chains (bucket e) (h.inside e on))
            (ground (arith, has-filter e (λ x. bucket x == bucket e) entries))
            (Distinct-filter (λ x. bucket x == bucket e) entries h.distinct) in
        ground (arith, same, h.linked x ne, has-remove_link x e entries h.distinct);
  }

  -- An entry that is pushed comes first.
  pub push-Hashed :
      (e : Addr)
      → e ≢ 0
      → has e entries ≡ false
      → bucket e < size
      → Hashed (push_entry e (bucket e) t) bucket size (e ∷ entries)
  unfolding has filter
  push-Hashed e ne new lt = record {
    chains = λ b b_lt. elim (eq-cases (bucket e) b) [
      | inl same ↦
          let is : (bucket e == b) ≡ true = ground arith in
          rw is (
            subst (λ k. Chain (push_entry e k t) (head_of b) (e ∷ in_bucket bucket b entries))
              (sym same)
              (push-Chain t e b (in_bucket bucket b entries) (h.chains b b_lt) ne
                (ground (arith, has-filter e (λ x. bucket x == b) entries))
                (Distinct-filter (λ x. bucket x == b) entries h.distinct)))
      | inr other ↦
          let is : (bucket e == b) ≡ false = ground arith in
          rw is (
            push-others t e (bucket e) b (in_bucket bucket (bucket e) entries)
              (in_bucket bucket b entries) (h.chains (bucket e) lt) other (apart (bucket e) b other)
              (ground (arith, has-filter e (λ x. bucket x == b) entries)) (h.chains b b_lt))
    ];
    inside = λ x m. elim (eq-cases e x) [
      | inl same ↦ ground arith
      | inr other ↦ h.inside x (ground arith)
    ];
    distinct = (new, h.distinct);
    real = ground (arith, h.real);
    linked = λ x x_ne. ground (
      arith,
      push_linked t e (bucket e) (in_bucket bucket (bucket e) entries) x (h.chains (bucket e) lt),
      h.linked x x_ne,
    );
  }

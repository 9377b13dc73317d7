-- ===== src/Clist/Links.antt =====
-- The link macros of common.h on `next` and `prev`, which do what Clist and Stk do on lists.
use st_win.Prelude.{
  ◌≡◌, ◌≢◌, ◌↔◌, inl, inr, refl, ◌∙◌, ◌==◌, Bool, true, false, List, [], ◌∷◌, ◌++◌, if◌then◌else◌,
  update, arith, eq-cases,
}
use st_win.Prelude.Members.{
  has, Distinct, remove_link, has-remove_link, Distinct-remove_link, has-append_link,
  Distinct-append_link,
}
use st_win.Clist.{append_link}
use st_win.TimeoutHeap.{Addr}

-- `struct _st_clist`
pub record Links : Type 0 where
  pub next : Addr → Addr
  pub prev : Addr → Addr

abbrev pub set_next : Addr → Addr → Links → Links
set_next p v m = record m { next = update m.next p v }

abbrev pub set_prev : Addr → Addr → Links → Links
set_prev p v m = record m { prev = update m.prev p v }

-- `ST_INSERT_BEFORE(e, l)`
unfoldable pub insert_before : Addr → Addr → Links → Links
insert_before e l m =
    let m₁ = set_next e l m in
    let m₂ = set_prev e (m₁.prev l) m₁ in
    let m₃ = if m₂.prev l == 0 then m₂ else set_next (m₂.prev l) e m₂ in set_prev l e m₃

-- `ST_INSERT_AFTER(e, l)`
unfoldable pub insert_after : Addr → Addr → Links → Links
insert_after e l m =
    let m₁ = set_next e (m.next l) m in
    let m₂ = set_prev e l m₁ in
    let m₃ = if m₂.next l == 0 then m₂ else set_prev (m₂.next l) e m₂ in set_next l e m₃

-- `ST_REMOVE_LINK(e)`
unfoldable pub unlink : Addr → Links → Links
unlink e m =
    let m₁ = if m.prev e == 0 then m else set_next (m.prev e) (m.next e) m in
    if m₁.next e == 0 then m₁ else set_prev (m₁.next e) (m₁.prev e) m₁

-- `ST_INIT_CLIST(l)`
unfoldable pub init_clist : Addr → Links → Links
init_clist l m = set_prev l l (set_next l l m)

-- `ST_CLIST_IS_EMPTY(l)`
unfoldable pub clist_is_empty : Addr → Links → Bool
clist_is_empty l m = m.next l == l

-- From `a` the links lead through `q` to `b`, and back.
abbrev pub Segment : Links → Addr → List Addr → Addr → Type 0
Segment m a [] b = (m.next a ≡ b) × (m.prev b ≡ a)
Segment m a (x ∷ q) b = (m.next a ≡ x) × (m.prev x ≡ a) × Segment m x q b

-- The circular list with the head `l` and the elements `q`.
pub record Ring (m : Links) (l : Addr) (q : List Addr) : Type 0 where
  pub links : Segment m l q l
  pub distinct : Distinct (l ∷ q)
  pub real : has 0 (l ∷ q) ≡ false

Segment-same :
    (m m' : Links) (a : Addr) (q : List Addr) (b : Addr)
    → ((y : Addr) → has y (a ∷ q) ≡ true → m'.next y ≡ m.next y)
    → ((y : Addr) → has y (b ∷ q) ≡ true → m'.prev y ≡ m.prev y)
    → Segment m a q b
    → Segment m' a q b
unfolding has
Segment-same m m' a [] b n p s = (n a (ground arith) ∙ s.0, p b (ground arith) ∙ s.1)
Segment-same m m' a (x ∷ q) b n p s = (
  n a (ground arith) ∙ s.0,
  p x (ground arith) ∙ s.1,
  Segment-same m m' x q b (λ y on. n y (ground arith)) (λ y on. p y (ground arith)) s.2,
)

-- The last element before `b`.
prev-has :
    (m : Links) (a x : Addr) (q : List Addr) (b : Addr)
    → Segment m a (x ∷ q) b
    → has (m.prev b) (x ∷ q) ≡ true
unfolding has
prev-has m a x [] b s = ground (arith, s.2)
prev-has m a x (y ∷ q) b s = ground (arith, prev-has m x y q b s.2)

insert_before-Segment :
    (m : Links) (e a : Addr) (q : List Addr) (b : Addr)
    → Segment m a q b
    → Distinct (a ∷ q)
    → has b q ≡ false
    → has e (a ∷ b ∷ q) ≡ false
    → has 0 (a ∷ q) ≡ false
    → Segment (insert_before e b m) a (q ++ (e ∷ [])) b
unfolding insert_before has
insert_before-Segment m e a [] b s d far new real =
    (ground arith, ground arith, (ground arith, ground arith))
insert_before-Segment m e a (x ∷ q) b s d far new real =
    let p = prev-has m a x q b s in
    (
      ground (arith, p, d.0),
      ground arith,
      insert_before-Segment m e x q b s.2 d.1 (ground arith) (ground arith) (ground arith),
    )

-- Where `e` stands its neighbours are in the list or are its ends.
neighbours :
    (m : Links) (e a : Addr) (q : List Addr) (b : Addr)
    → Segment m a q b
    → has e q ≡ true
    → (has (m.prev e) (a ∷ q) ≡ true) × (has (m.next e) (b ∷ q) ≡ true)
unfolding has
neighbours m e a [] b s on = (cc, cc)
neighbours m e a (x ∷ []) b s on = (ground (arith, s.0, s.1), ground (arith, s.2))
neighbours m e a (x ∷ y ∷ q) b s on = elim (eq-cases x e) [
  | inl here ↦ (ground (arith, s.0, s.1), ground (arith, s.2))
  | inr there ↦
      let (p, n) = neighbours m e x (y ∷ q) b s.2 (ground arith) in (ground arith, ground arith)
]

-- The neighbours inside the list: past the first element the one before is in the list.
prev-inside :
    (m : Links) (e a x : Addr) (q : List Addr) (b : Addr)
    → Segment m a (x ∷ q) b
    → has e q ≡ true
    → has (m.prev e) (x ∷ q) ≡ true
prev-inside m e a x q b s on = (neighbours m e x q b s.2 on).0

unlink-Segment :
    (m : Links) (e a : Addr) (q : List Addr) (b : Addr)
    → Segment m a q b
    → Distinct (a ∷ q)
    → has b q ≡ false
    → has 0 (b ∷ a ∷ q) ≡ false
    → has e q ≡ true
    → Segment (unlink e m) a (remove_link e q) b
unfolding has remove_link
unlink-Segment m e a [] b s d far real on = cc
unlink-Segment m e a (x ∷ q) b s d far real on = elim (eq-cases x e) [
  | inl here ↦ let t : (x == e) ≡ true = ground arith in rw t (first q s d far real here)
  | inr there ↦
      let f : (x == e) ≡ false = ground arith in
      let on' : has e q ≡ true = ground arith in
      let p = prev-inside m e a x q b s on' in
      let n = (neighbours m e x q b s.2 on').1 in
      rw f (
        unfold unlink in ground (arith, p, d.0),
        unfold unlink in ground (arith, n, d.1),
        unlink-Segment m e x q b s.2 d.1 (ground arith) (ground arith) on',
      )
]
  where
    first :
        (q : List Addr)
        → Segment m a (x ∷ q) b
        → Distinct (a ∷ x ∷ q)
        → has b (x ∷ q) ≡ false
        → has 0 (b ∷ a ∷ x ∷ q) ≡ false
        → x ≡ e
        → Segment (unlink e m) a q b
    first [] s d far real here = (
      unfold unlink in ground (arith, s.0, s.1, s.2),
      unfold unlink in ground (arith, s.0, s.1, s.2),
    )
    first (y ∷ r) s d far real here = (
      unfold unlink in ground (arith, s.0, s.1, s.2),
      unfold unlink in ground (arith, s.0, s.1, s.2),
      Segment-same m (unlink e m) y r b
          (λ z on. unfold unlink in ground (arith, s.0, s.1, s.2, d.0))
          (λ z on. unfold unlink in ground (arith, s.0, s.1, s.2, d.1)) s.2.2,
    )

insert_after-Segment :
    (m : Links) (e a : Addr) (q : List Addr) (b : Addr)
    → Segment m a q b
    → Distinct (a ∷ q)
    → has b q ≡ false
    → has e (a ∷ b ∷ q) ≡ false
    → has 0 (b ∷ a ∷ q) ≡ false
    → Segment (insert_after e a m) a (e ∷ q) b
unfolding insert_after has
insert_after-Segment m e a [] b s d far new real =
    (ground arith, ground arith, (ground arith, ground arith))
insert_after-Segment m e a (x ∷ q) b s d far new real = (
  ground arith,
  ground arith,
  (
    ground arith,
    ground arith,
    Segment-same m (insert_after e a m) x q b (λ z on. ground (arith, d.0))
        (λ z on. ground (arith, s.0, d.1)) s.2,
  ),
)

pub init_clist-Ring : (l : Addr) (m : Links) → l ≢ 0 → Ring (init_clist l m) l []
unfolding init_clist has
init_clist-Ring l m real = record {
  links = (ground arith, ground arith);
  distinct = (refl, tt);
  real = ground arith;
}

module _ {m : Links} {l : Addr} {q : List Addr} (ring : Ring m l q) where
  head_new : has l q ≡ false
  head_new = ring.distinct.0

  -- On links that are a circular list with the elements `q`, `ST_INSERT_BEFORE` of a new element
  -- before the head makes a circular list with this element after the others.
  pub insert_before-Ring :
      (e : Addr) → e ≢ 0 → has e (l ∷ q) ≡ false → Ring (insert_before e l m) l (append_link e q)
  unfolding has
  insert_before-Ring e real new = record {
    links =
        insert_before-Segment m e l q l ring.links ring.distinct head_new (ground arith)
          (ground (arith, ring.real));
    distinct = (
      ground (arith, has-append_link l e q, head_new),
      Distinct-append_link e q ring.distinct.1 (ground arith),
    );
    real = ground (arith, has-append_link 0 e q, ring.real);
  }

  -- On links that are a circular list with the elements `q`, `ST_REMOVE_LINK` of one of the
  -- elements leaves a circular list with the other elements in their order.
  pub unlink-Ring : (e : Addr) → has e q ≡ true → Ring (unlink e m) l (remove_link e q)
  unfolding has
  unlink-Ring e on = record {
    links =
        unlink-Segment m e l q l ring.links ring.distinct head_new (ground (arith, ring.real)) on;
    distinct = (
      ground (arith, has-remove_link l e q ring.distinct.1, head_new),
      Distinct-remove_link e q ring.distinct.1,
    );
    real = ground (arith, has-remove_link 0 e q ring.distinct.1, ring.real);
  }

  -- `ST_INSERT_AFTER` of a new element after the head of a circular list makes it the first element.
  pub insert_after-Ring :
      (e : Addr) → e ≢ 0 → has e (l ∷ q) ≡ false → Ring (insert_after e l m) l (e ∷ q)
  unfolding has
  insert_after-Ring e real new = record {
    links =
        insert_after-Segment m e l q l ring.links ring.distinct head_new (ground arith)
          (ground (arith, ring.real));
    distinct = (ground (arith, head_new), (ground arith, ring.distinct.1));
    real = ground (arith, ring.real);
  }

-- `ST_CLIST_IS_EMPTY` of a circular list says that there are no elements.
pub clist_is_empty-Ring :
    (m : Links) (l : Addr) (q : List Addr) → Ring m l q → (clist_is_empty l m ≡ true) ↔ (q ≡ [])
unfolding clist_is_empty has
clist_is_empty-Ring m l [] ring = ((λ e. refl), λ e. ground (arith, ring.links.0))
clist_is_empty-Ring m l (x ∷ q) ring = ((λ e. absurd (apart e)), λ e. cc)
  where
    apart : (m.next l == l) ≡ true → ⊥
    apart e = ground (arith, ring.links.0, ring.distinct.0)

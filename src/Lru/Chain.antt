-- ===== src/Lru/Chain.antt =====
-- A chain of the hash table as a list: what unlinking and pushing an entry do to it.
use st_win.Prelude.{
  ℕ, ◌≡◌, ◌≢◌, ◌⊎◌, inl, inr, sym, ap, subst, ◌∙◌, ◌==◌, true, false, not, ◌&&◌, List, [], ◌∷◌,
  if◌then◌else◌, arith, eq-cases,
}
use st_win.Prelude.Members.{has, Distinct, remove_link}
use st_win.TimeoutHeap.{Addr}
use st_win.Lru.Buckets.{Table, Link, null, head_of, next_of, follow, point, unlink_entry}

-- The entries from the pointer `p` on, each of which knows the pointer that leads to it.
abbrev pub Chain : Table → Link → List Addr → Type 0
Chain t p [] = follow t p ≡ 0
Chain t p (e ∷ q) = (follow t p ≡ e) × (e ≢ 0) × (t.pthis e ≡ p) × Chain t (next_of e) q

-- `p` is the head of a bucket or a field of an entry outside the list.
abbrev pub Outside : Link → List Addr → Type 0
Outside null q = ⊥
Outside (head_of bucket) q = Unit
Outside (next_of x) q = has x q ≡ false

pub Chain-same :
    (t t' : Table) (p : Link) (q : List Addr)
    → follow t' p ≡ follow t p
    → ((x : Addr) → has x q ≡ true → t'.next x ≡ t.next x)
    → ((x : Addr) → has x q ≡ true → t'.pthis x ≡ t.pthis x)
    → Chain t p q
    → Chain t' p q
unfolding has
Chain-same t t' p [] same n h c = same ∙ c
Chain-same t t' p (e ∷ q) same n h c = (
  same ∙ c.0,
  c.1,
  h e (ground arith) ∙ c.2,
  Chain-same t t' (next_of e) q (n e (ground arith)) (λ x on. n x (ground arith))
      (λ x on. h x (ground arith)) c.3,
)

-- What unlinking changes, when `pthis` is the head of a bucket, and when it is a field of an entry.
pub unlink_head :
    (t : Table) (e bucket : Addr)
    → t.pthis e ≡ head_of bucket
    → ((b : ℕ) → (unlink_entry e t).heads b ≡ (if bucket == b then t.next e else t.heads b))
      × ((x : Addr) → (unlink_entry e t).next x ≡ t.next x)
      × ((x : Addr)
          → (unlink_entry e t).pthis x
            ≡ (if not (t.next e == 0) && t.next e == x then head_of bucket else t.pthis x))
unfolding unlink_entry point
unlink_head t e bucket at = (λ b. ground arith, λ x. ground arith, λ x. ground arith)

pub unlink_next :
    (t : Table) (e y : Addr)
    → t.pthis e ≡ next_of y
    → y ≢ e
    → ((b : ℕ) → (unlink_entry e t).heads b ≡ t.heads b)
      × ((x : Addr) → (unlink_entry e t).next x ≡ (if y == x then t.next e else t.next x))
      × ((x : Addr)
          → (unlink_entry e t).pthis x
            ≡ (if not (t.next e == 0) && t.next e == x then next_of y else t.pthis x))
unfolding unlink_entry point
unlink_next t e y at ne = (λ b. ground arith, λ x. ground arith, λ x. ground arith)

pthis-inside :
    (t : Table) (x e : Addr) (q : List Addr)
    → Chain t (next_of x) q
    → has e q ≡ true
    → Distinct (x ∷ q)
    → (y : Addr) × (t.pthis e ≡ next_of y) × (has y (x ∷ q) ≡ true) × (y ≢ e)
unfolding has
pthis-inside t x e [] c on d = cc
pthis-inside t x e (z ∷ q) c on d = elim (eq-cases z e) [
  | inl here ↦ (x, ground (arith, c.2), ground arith, ground (arith, d.0))
  | inr there ↦
      let (y, at, m, ne) = pthis-inside t z e q c.3 (ground arith) d.1 in (y, at, ground arith, ne)
]

-- What follows an entry of the chain is in the chain, or nothing.
pub next-inside :
    (t : Table) (p : Link) (e : Addr) (q : List Addr)
    → Chain t p q
    → has e q ≡ true
    → (t.next e ≡ 0) ⊎ (has (t.next e) q ≡ true)
unfolding has
next-inside t p e [] c on = cc
next-inside t p e (z ∷ []) c on = inl (ground (arith, c.3))
next-inside t p e (z ∷ w ∷ q) c on = elim (eq-cases z e) [
  | inl here ↦ inr (ground (arith, c.3))
  | inr there ↦ elim (next-inside t (next_of z) e (w ∷ q) c.3 (ground arith)) [
    | inl none ↦ inl none
    | inr some_next ↦ inr (ground arith)
  ]
]

unlink-first :
    (t : Table) (p : Link) (e : Addr) (q : List Addr)
    → Chain t p (e ∷ q)
    → Outside p (e ∷ q)
    → Distinct (e ∷ q)
    → Chain (unlink_entry e t) p q
unfolding has
unlink-first t null e q c out d = absurd out
unlink-first t (head_of b) e [] c out d =
    let (h, n, k) = unlink_head t e b c.2 in ground (arith, h b, c.3)
unlink-first t (head_of b) e (z ∷ r) c out d =
    let (h, n, k) = unlink_head t e b c.2 in
    let next : t.next e ≡ z = c.3.0 in
    (
      ground (arith, h b),
      c.3.1,
      ground (arith, k z, c.3.1),
      Chain-same t (unlink_entry e t) (next_of z) r (n z) (λ x on. n x)
          (λ x on. ground (arith, k x, d.1.0)) c.3.3,
    )
unlink-first t (next_of y) e [] c out d =
    let (h, n, k) = unlink_next t e y c.2 (ground arith) in ground (arith, n y, c.3)
unlink-first t (next_of y) e (z ∷ r) c out d =
    let (h, n, k) = unlink_next t e y c.2 (ground arith) in
    let next : t.next e ≡ z = c.3.0 in
    (
      ground (arith, n y),
      c.3.1,
      ground (arith, k z, c.3.1),
      Chain-same t (unlink_entry e t) (next_of z) r (ground (arith, n z))
          (λ x on. ground (arith, n x)) (λ x on. ground (arith, k x, d.1.0)) c.3.3,
    )

follow-Outside :
    (t : Table) (p : Link) (e y : Addr) (q : List Addr)
    → t.pthis e ≡ next_of y
    → y ≢ e
    → has y q ≡ true
    → Outside p q
    → follow (unlink_entry e t) p ≡ follow t p
follow-Outside t null e y q at ne on out = absurd out
follow-Outside t (head_of b) e y q at ne on out = (unlink_next t e y at ne).0 b
follow-Outside t (next_of x) e y q at ne on out =
    let (h, n, k) = unlink_next t e y at ne in ground (arith, n x)

-- Unlinking an entry takes it out of its chain, and nothing else.
pub unlink-Chain :
    (t : Table) (p : Link) (e : Addr) (q : List Addr)
    → Chain t p q
    → Outside p q
    → Distinct q
    → has e q ≡ true
    → Chain (unlink_entry e t) p (remove_link e q)
unfolding has remove_link
unlink-Chain t p e [] c out d on = cc
unlink-Chain t p e (z ∷ r) c out d on = elim (eq-cases z e) [
  | inl here ↦
      let is : (z == e) ≡ true = ground arith in
      rw is (subst (λ e. Chain (unlink_entry e t) p r) here (unlink-first t p z r c out d))
  | inr there ↦
      let is : (z == e) ≡ false = ground arith in
      let on' : has e r ≡ true = ground arith in
      let (y, at, m, ne) = pthis-inside t z e r c.3 on' d in
      let (h, n, k) = unlink_next t e y at ne in
      let same : (unlink_entry e t).pthis z ≡ t.pthis z =
        elim (next-inside t (next_of z) e r c.3 on') [
          | inl none ↦ ground (arith, k z)
          | inr inside ↦ ground (arith, k z, d.0)
        ] in
      rw is (
        follow-Outside t p e y (z ∷ r) at ne m out ∙ c.0,
        c.1,
        same ∙ c.2,
        unlink-Chain t (next_of z) e r c.3 d.0 d.1 on',
      )
]

-- The entry is the first of its bucket, or follows an entry of it.
pub pthis-where :
    (t : Table) (b e : ℕ) (q : List Addr)
    → Chain t (head_of b) q
    → has e q ≡ true
    → Distinct q
    → (t.pthis e ≡ head_of b) ⊎ ((y : Addr) × (t.pthis e ≡ next_of y) × (has y q ≡ true) × (y ≢ e))
unfolding has
pthis-where t b e [] c on d = cc
pthis-where t b e (z ∷ r) c on d = elim (eq-cases z e) [
  | inl here ↦ inl (ground (arith, c.2))
  | inr there ↦ inr (pthis-inside t z e r c.3 (ground arith) d)
]

-- Unlinking an entry of bucket `b` leaves another bucket alone.
pub unlink-others :
    (t : Table) (b b₂ e : ℕ) (q q₂ : List Addr)
    → Chain t (head_of b) q
    → has e q ≡ true
    → Distinct q
    → b ≢ b₂
    → ((x : Addr) → has x q ≡ true → has x q₂ ≡ false)
    → has 0 q₂ ≡ false
    → Chain t (head_of b₂) q₂
    → Chain (unlink_entry e t) (head_of b₂) q₂
unlink-others t b b₂ e q q₂ c on d ne apart real c₂ =
    let other : (x : Addr) → has x q₂ ≡ true → (t.next e ≡ 0) ⊎ (t.next e ≢ x) = λ x m.
      elim (next-inside t (head_of b) e q c on) [
        | inl none ↦ inl none
        | inr inside ↦ inr (λ same. absurd (clash x m (ap (λ y. has y q) (sym same) ∙ inside)))
      ] in
    elim (pthis-where t b e q c on d) [
      | inl at ↦
          let (h, n, k) = unlink_head t e b at in
          Chain-same t (unlink_entry e t) (head_of b₂) q₂ (ground (arith, h b₂)) (λ x m. n x)
            (λ x m. ground (arith, k x, other x m)) c₂
      | inr (y, at, m, y_ne) ↦
          let (h, n, k) = unlink_next t e y at y_ne in
          Chain-same t (unlink_entry e t) (head_of b₂) q₂ (h b₂)
            (λ x on₂. ground (arith, n x, apart y m)) (λ x on₂. ground (arith, k x, other x on₂)) c₂
    ]
  where
    clash : (x : Addr) → has x q₂ ≡ true → has x q ≡ true → ⊥
    clash x m m' = let no_x = apart x m' in cc

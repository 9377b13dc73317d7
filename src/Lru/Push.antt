-- ===== src/Lru/Push.antt =====
-- Lists of links that grow at their head, and what is linked in them.
use st_win.Prelude.{
  ℕ, ◌≡◌, ◌≢◌, ◌⊎◌, inl, inr, refl, sym, ap, ◌∙◌, ◌==◌, true, false, not, ◌&&◌, List, [], ◌∷◌,
  if◌then◌else◌, arith, eq-cases,
}
use st_win.Prelude.Members.{has, Distinct}
use st_win.TimeoutHeap.{Addr}
use st_win.Lru.Buckets.{Table, Link, head_of, next_of, is_null, follow, unlink_entry, push_entry}
use st_win.Lru.Chain.{Chain, Chain-same, next-inside, pthis-where, unlink_head, unlink_next}

push_lem :
    (t : Table) (e b : ℕ)
    → ((b' : ℕ) → (push_entry e b t).heads b' ≡ (if b == b' then e else t.heads b'))
      × ((x : Addr) → (push_entry e b t).next x ≡ (if e == x then t.heads b else t.next x))
      × ((x : Addr)
          → (push_entry e b t).pthis x ≡ (
              if not (t.heads b == 0) && t.heads b == x
              then next_of e
              else if e == x
              then head_of b
              else t.pthis x))
unfolding push_entry
push_lem t e b = (λ b'. ground arith, λ x. ground arith, λ x. ground arith)

first-has :
    (t : Table) (p : Link) (q : List Addr)
    → Chain t p q
    → (follow t p ≡ 0) ⊎ (has (follow t p) q ≡ true)
unfolding has
first-has t p [] c = inl c
first-has t p (z ∷ r) c = inr (ground (arith, c.0))

-- Pushing an entry puts it at the head of its bucket.
pub push-Chain :
    (t : Table) (e b : ℕ) (q : List Addr)
    → Chain t (head_of b) q
    → e ≢ 0
    → has e q ≡ false
    → Distinct q
    → Chain (push_entry e b t) (head_of b) (e ∷ q)
unfolding has
push-Chain t e b [] c real new d =
    let (h, n, k) = push_lem t e b in
    (ground (arith, h b), real, ground (arith, k e, c), ground (arith, n e, c))
push-Chain t e b (z ∷ r) c real new d =
    let (h, n, k) = push_lem t e b in
    let first : t.heads b ≡ z = c.0 in
    (
      ground (arith, h b),
      real,
      ground (arith, k e, c.1),
      (
        ground (arith, n e),
        c.1,
        ground (arith, k z, c.1),
        Chain-same t (push_entry e b t) (next_of z) r (ground (arith, n z))
            (λ x m. ground (arith, n x)) (λ x m. ground (arith, k x, d.0)) c.3,
      ),
    )

pub push-others :
    (t : Table) (e b b₂ : ℕ) (q q₂ : List Addr)
    → Chain t (head_of b) q
    → b ≢ b₂
    → ((x : Addr) → has x q ≡ true → has x q₂ ≡ false)
    → has e q₂ ≡ false
    → Chain t (head_of b₂) q₂
    → Chain (push_entry e b t) (head_of b₂) q₂
push-others t e b b₂ q q₂ c ne apart new c₂ =
    let (h, n, k) = push_lem t e b in
    Chain-same t (push_entry e b t) (head_of b₂) q₂ (ground (arith, h b₂))
      (λ x m. ground (arith, n x))
      (λ x m. elim (first-has t (head_of b) q c) [
        | inl none ↦ ground (arith, k x)
        | inr inside ↦ ground (arith, k x, apart (t.heads b))
      ])
      c₂

-- Who is in a chain has a pointer that leads to it.
members_linked :
    (t : Table) (p : Link) (q : List Addr) (x : Addr)
    → Chain t p q
    → is_null p ≡ false
    → has x q ≡ true
    → is_null (t.pthis x) ≡ false
unfolding has
members_linked t p [] x c link on = cc
members_linked t p (z ∷ r) x c link on = elim (eq-cases z x) [
  | inl here ↦ ap is_null (ap t.pthis (sym here) ∙ c.2) ∙ link
  | inr there ↦ members_linked t (next_of z) r x c.3 refl (ground arith)
]

pub unlink_linked :
    (t : Table) (b e : ℕ) (q : List Addr) (x : Addr)
    → Chain t (head_of b) q
    → has e q ≡ true
    → Distinct q
    → is_null ((unlink_entry e t).pthis x) ≡ is_null (t.pthis x)
unlink_linked t b e q x c on d =
    let next : (t.next e ≡ 0) ⊎ (t.next e ≢ x) ⊎ (is_null (t.pthis x) ≡ false) =
      elim (next-inside t (head_of b) e q c on) [
        | inl none ↦ inl none
        | inr inside ↦ elim (eq-cases (t.next e) x) [
          | inl same ↦ inr (
              inr (members_linked t (head_of b) q x c refl (ap (λ y. has y q) (sym same) ∙ inside)))
          | inr other ↦ inr (inl other)
        ]
      ] in
    elim (pthis-where t b e q c on d) [
      | inl at ↦ let (h, n, k) = unlink_head t e b at in ground (arith, k x, next)
      | inr (y, at, m, ne) ↦ let (h, n, k) = unlink_next t e y at ne in ground (arith, k x, next)
    ]

pub push_linked :
    (t : Table) (e b : ℕ) (q : List Addr) (x : Addr)
    → Chain t (head_of b) q
    → is_null ((push_entry e b t).pthis x) ≡ (if e == x then false else is_null (t.pthis x))
push_linked t e b q x c =
    let (h, n, k) = push_lem t e b in
    elim (first-has t (head_of b) q c) [
      | inl none ↦ ground (arith, k x)
      | inr inside ↦ elim (eq-cases (t.heads b) x) [
        | inl same ↦
            let on =
              members_linked t (head_of b) q x c refl (ap (λ y. has y q) (sym same) ∙ inside) in
            ground (arith, k x)
        | inr other ↦ ground (arith, k x)
      ]
    ]

-- ===== src/Prelude/Members.antt =====
-- Membership in lists of numbers, as a test, and lists without repetition.
use Prim.Native.Nat.{ℕ, suc}
use mathlib.Core.Path.{◌≡◌, refl}
use mathlib.Core.Logic.{inl, inr}
use mathlib.Core.Bool.{Bool, true, false}
use mathlib.Core.List.{List, [], ◌∷◌, ◌++◌}
use native.Mathlib.Omega.{arith}
use st_win.Prelude.Tests.{◌==◌, if◌then◌else◌, Bool-cases}
use st_win.Prelude.Lists.{length}

unfoldable pub has : ℕ → List ℕ → Bool
has a [] = false
has a (x ∷ q) = if x == a then true else has a q

-- No element occurs twice.
abbrev pub Distinct : List ℕ → Type 0
Distinct [] = Unit
Distinct (x ∷ q) = (has x q ≡ false) × Distinct q

-- The elements that pass the test, in their order.
unfoldable pub filter : (ℕ → Bool) → List ℕ → List ℕ
filter test [] = []
filter test (x ∷ q) = if test x then x ∷ filter test q else filter test q

-- `ST_REMOVE_LINK(e)`: the list without the first occurrence of an element.
unfoldable pub remove_link : ℕ → List ℕ → List ℕ
remove_link e [] = []
remove_link e (x ∷ q) = if x == e then q else x ∷ remove_link e q

pub has-++ : (a : ℕ) (p q : List ℕ) → has a (p ++ q) ≡ (if has a p then true else has a q)
unfolding has
has-++ a [] q = refl
has-++ a (x ∷ p) q = ground (arith, has-++ a p q)

pub has-filter :
    (a : ℕ) (test : ℕ → Bool) (q : List ℕ)
    → has a (filter test q) ≡ (if test a then has a q else false)
unfolding has filter
has-filter a test [] = ground arith
has-filter a test (x ∷ q) = ground (arith, has-filter a test q)

pub Distinct-filter : (test : ℕ → Bool) (q : List ℕ) → Distinct q → Distinct (filter test q)
unfolding filter
Distinct-filter test [] d = tt
Distinct-filter test (x ∷ q) d = elim (Bool-cases (test x)) [
  | inl pass ↦ rw pass (ground (arith, has-filter x test q), Distinct-filter test q d.1)
  | inr stop ↦ rw stop (Distinct-filter test q d.1)
]

pub has-remove_link :
    (a e : ℕ) (q : List ℕ)
    → Distinct q
    → has a (remove_link e q) ≡ (if e == a then false else has a q)
unfolding has remove_link
has-remove_link a e [] d = ground arith
has-remove_link a e (x ∷ q) d = ground (arith, has-remove_link a e q d.1)

pub Distinct-remove_link : (e : ℕ) (q : List ℕ) → Distinct q → Distinct (remove_link e q)
unfolding remove_link
Distinct-remove_link e [] d = tt
Distinct-remove_link e (x ∷ q) d = elim (Bool-cases (x == e)) [
  | inl here ↦ rw here d.1
  | inr there ↦ rw there (ground (arith, has-remove_link x e q d.1), Distinct-remove_link e q d.1)
]

-- Filtering and taking out commute.
pub filter-remove_link :
    (test : ℕ → Bool) (e : ℕ) (q : List ℕ)
    → filter test (remove_link e q)
      ≡ (if test e then remove_link e (filter test q) else filter test q)
unfolding filter remove_link
filter-remove_link test e [] = ground arith
filter-remove_link test e (x ∷ q) = ground (arith, filter-remove_link test e q)

pub remove_link_absent : (e : ℕ) (q : List ℕ) → has e q ≡ false → remove_link e q ≡ q
unfolding has remove_link
remove_link_absent e [] m = refl
remove_link_absent e (x ∷ q) m = ground (arith, remove_link_absent e q)

pub length-remove_link :
    (e : ℕ) (q : List ℕ) → has e q ≡ true → suc (length (remove_link e q)) ≡ length q
unfolding has remove_link
length-remove_link e [] m = cc
length-remove_link e (x ∷ q) m = ground (arith, length-remove_link e q)

pub has-append_link :
    (a e : ℕ) (q : List ℕ) → has a (q ++ (e ∷ [])) ≡ (if has a q then true else e == a)
unfolding has
has-append_link a e [] = ground arith
has-append_link a e (x ∷ q) = ground (arith, has-append_link a e q)

pub Distinct-append_link :
    (e : ℕ) (q : List ℕ) → Distinct q → has e q ≡ false → Distinct (q ++ (e ∷ []))
unfolding has
Distinct-append_link e [] d new = (refl, tt)
Distinct-append_link e (x ∷ q) d new =
    (ground (arith, has-append_link x e q, d.0), Distinct-append_link e q d.1 (ground arith))

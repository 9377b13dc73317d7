-- ===== src/Dns/Hash.antt =====
-- The hash of a host's name against the polynomial that its comment names.
use st_win.Prelude.{
  ℕ, ◌+◌, ◌-◌, ◌*◌, ◌%◌, ◌^◌, ◌≡◌, refl, ap, true, List, [], ◌∷◌, arith, eq-cases, inl, inr,
}
use st_win.Dns.{char_value, hash_loop, hash_hostname, same_text}

-- `hash = hash * 15 + *name++`, without a bound
abbrev pub polynomial : ℕ → List ℕ → ℕ
polynomial hash [] = hash
polynomial hash (c ∷ name) = polynomial (hash * 15 + char_value c) name

hash_step :
    (h v : ℕ)
    → (h % 2 ^ 32 * 16 % 2 ^ 32 + 2 ^ 32 - h % 2 ^ 32 + v) % 2 ^ 32 ≡ (h * 15 + v) % 2 ^ 32
hash_step h v = omega arith

hash_loop-polynomial :
    (h : ℕ) (name : List ℕ) → hash_loop (h % 2 ^ 32) name ≡ polynomial h name % 2 ^ 32
unfolding hash_loop
hash_loop-polynomial h [] = refl
hash_loop-polynomial h (c ∷ name) =
    rw (hash_step h (char_value c)) (hash_loop-polynomial (h * 15 + char_value c) name)

-- `hash_hostname` is the polynomial in 15 whose coefficients are the characters, as signed numbers,
-- modulo 2^32.
pub hash_hostname-polynomial : (name : List ℕ) → hash_hostname name ≡ polynomial 0 name % 2 ^ 32
unfolding hash_hostname
hash_hostname-polynomial name = hash_loop-polynomial 0 name

pub same_text-equal : (a b : List ℕ) → same_text a b ≡ true → a ≡ b
unfolding same_text
same_text-equal [] [] same = refl
same_text-equal [] (y ∷ b) same = cc
same_text-equal (x ∷ a) [] same = cc
same_text-equal (x ∷ a) (y ∷ b) same = elim (eq-cases x y) [
  | inl eq ↦ let rest = same_text-equal a b (ground arith) in cc
  | inr ne ↦ ground arith
]

-- Equal names have equal hash values.
pub hash-same_text : (a b : List ℕ) → same_text a b ≡ true → hash_hostname a ≡ hash_hostname b
hash-same_text a b same = ap hash_hostname (same_text-equal a b same)

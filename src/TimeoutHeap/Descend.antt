-- ===== src/TimeoutHeap/Descend.antt =====
-- `heap_insert`: the descent, and the walk to an index.
use st_win.Prelude.{
  ℕ, zero, suc, ◌+◌, ◌/◌, ◌≤◌, ◌<◌, ◌≡◌, ◌≢◌, inl, inr, refl, ap, ◌∙◌, true, arith, ◌==◌,
  if◌then◌else◌, eq-cases, Bool-cases,
}
use st_win.TimeoutHeap.{
  Addr, Heap, Walk, read, shift_right, test_bit, insert_swap, insert_descend, insert_walk,
  bits_loop,
}
use st_win.TimeoutHeap.Layout.{slot, read-slot}
use st_win.TimeoutHeap.Carry.{Walking, Swapped, insert_swap-Swapped}

module _ {h₀ : Heap} {n : ℕ} {at₀ : ℕ → Addr} {x₀ : Addr} {w : Walk} {at : ℕ → Addr}
    (s : Swapped h₀ n at₀ x₀ w at) (ne : at w.index ≢ 0) where
  abbrev k : ℕ
  k = w.index

  found : read w.heap w.p ≡ at k
  found = ground (arith, s.here, read-slot s.lay k s.hangs)

  insert_descend-Walking :
      (target bit : ℕ)
      → k ≡ shift_right target bit / 2
      → Walking h₀ n at₀ x₀ (insert_descend target bit w) at
        × ((insert_descend target bit w).index ≡ shift_right target bit)
  unfolding insert_descend slot
  insert_descend-Walking target bit e = elim (Bool-cases (test_bit target bit)) [
    | inl odd ↦
        rw (found, odd)
          (
            record {
              lay = s.lay;
              sized = s.sized;
              carried = s.carried;
              fresh = s.fresh;
              here = ground (arith, s.hangs);
              hangs = inr (ground (arith, s.hangs), ground arith);
              same_due = s.same_due;
              same_size = s.same_size;
              ordered = s.ordered;
              below = ground (arith, s.after);
              kept = λ i le. s.kept i (ground (arith, s.hangs));
              held = s.held;
            },
            ground arith,
          )
    | inr even ↦
        rw (found, even)
          (
            record {
              lay = s.lay;
              sized = s.sized;
              carried = s.carried;
              fresh = s.fresh;
              here = ground (arith, s.hangs);
              hangs = inr (ground (arith, s.hangs), ground arith);
              same_due = s.same_due;
              same_size = s.same_size;
              ordered = s.ordered;
              below = ground (arith, s.after);
              kept = λ i le. s.kept i (ground (arith, s.hangs));
              held = s.held;
            },
            ground arith,
          )
  ]

insert_swap-index : (w : Walk) → (insert_swap w).index ≡ w.index
unfolding insert_swap
insert_swap-index w = ground arith

pub shift_right-le : (s k : ℕ) → shift_right s k ≤ s
unfolding shift_right
shift_right-le s zero = omega arith
shift_right-le s (suc k) = omega (arith, shift_right-le s k)

shift_right-suc : (s k : ℕ) → shift_right s (suc k) ≡ shift_right (s / 2) k
unfolding shift_right
shift_right-suc s zero = refl
shift_right-suc s (suc k) = ap (λ n. n / 2) (shift_right-suc s k)

bits_loop-add : (fuel s b : ℕ) → bits_loop fuel s b ≡ b + bits_loop fuel s 0
unfolding bits_loop
bits_loop-add zero s b = omega arith
bits_loop-add (suc fuel) s b =
    ground (arith, bits_loop-add fuel (s / 2) (b + 1), bits_loop-add fuel (s / 2) 1)

bits_loop-zero : (fuel : ℕ) → bits_loop fuel 0 0 ≡ 0
unfolding bits_loop
bits_loop-zero zero = refl
bits_loop-zero (suc fuel) = refl

bits_loop-suc : (fuel s : ℕ) → 0 < s → bits_loop (suc fuel) s 0 ≡ suc (bits_loop fuel (s / 2) 0)
unfolding bits_loop
bits_loop-suc fuel s pos = ground (arith, bits_loop-add fuel (s / 2) 1)

-- With enough fuel the loop counts the binary digits: what is left of the highest one is 1.
pub bits_loop-top :
    (fuel s : ℕ) → 0 < s → s ≤ fuel → (b : ℕ) × (bits_loop fuel s 0 ≡ suc b) × (shift_right s b ≡ 1)
unfolding shift_right
bits_loop-top zero s pos le = absurd (omega arith)
bits_loop-top (suc fuel) s pos le = elim (eq-cases (s / 2) 0) [
  | inl last ↦ (0, rw (bits_loop-suc fuel s pos, last, bits_loop-zero fuel), omega arith)
  | inr more ↦
      let (b, e, one) = bits_loop-top fuel (s / 2) (omega arith) (omega arith) in
      (suc b, rw (bits_loop-suc fuel s pos, e), shift_right-suc s b ∙ one)
]

insert_walk-suc :
    (bit target : ℕ) (w : Walk)
    → insert_walk (suc bit) target w ≡ (
        let w' = insert_descend target bit (insert_swap w) in
        if read w'.heap w'.p == 0 then w' else insert_walk bit target w')
unfolding insert_walk
insert_walk-suc bit target w = refl

module _ {h₀ : Heap} {n : ℕ} {at₀ : ℕ → Addr} {x₀ : Addr} (target : ℕ) (fits : target ≤ n + 1)
    (pos : 0 < target) where
  pub insert_walk-Walking :
      (r : ℕ) (w : Walk) (at : ℕ → Addr)
      → Walking h₀ n at₀ x₀ w at
      → w.index ≡ shift_right target r
      → (at' : ℕ → Addr) × Walking h₀ n at₀ x₀ (insert_walk r target w) at'
        × ((insert_walk r target w).index ≡ target)
  unfolding shift_right
  insert_walk-Walking zero w at s e = unfold insert_walk in (at, s, e)
  insert_walk-Walking (suc bit) w at s e =
      let inside : w.index ≤ n = omega (arith, shift_right-le target bit) in
      let up : 0 < w.index = ground (arith, s.hangs) in
      let (at₁, sw) = insert_swap-Swapped s (s.sized.filled w.index up inside) in
      let ne₁ : at₁ (insert_swap w).index ≢ 0 =
        sw.sized.filled _ (rw insert_swap-index up) (rw insert_swap-index inside) in
      let (d, e') = insert_descend-Walking sw ne₁ target bit (insert_swap-index w ∙ e) in
      let w' = insert_descend target bit (insert_swap w) in
      let rest = insert_walk-Walking bit w' at₁ d e' in
      elim (Bool-cases (read w'.heap w'.p == 0)) [
        | inl stop ↦
            (at₁, rw (insert_walk-suc, stop) d, rw (insert_walk-suc, stop) (broke d stop e'))
        | inr on ↦ (rest.0, rw (insert_walk-suc, on) rest.1, rw (insert_walk-suc, on) rest.2)
      ]
    where
      broke :
          {w' : Walk} {at₁ : ℕ → Addr}
          → Walking h₀ n at₀ x₀ w' at₁
          → (read w'.heap w'.p == 0) ≡ true
          → w'.index ≡ shift_right target bit
          → w'.index ≡ target
      broke {w'} d stop e' =
          let up : 0 < w'.index = ground (arith, d.hangs) in
          ground (
            arith,
            d.here,
            read-slot d.lay w'.index d.hangs,
            d.sized.filled w'.index,
            shift_right-le target bit,
          )

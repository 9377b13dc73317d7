-- ===== src/Stk/Redzone.antt =====
-- A stack has an untouched page at each end of its segment, and the free list is counted.
use st_win.Prelude.{
  ℕ, suc, ◌+◌, ◌≤◌, ◌<◌, ◌≡◌, ◌≢◌, ◌↔◌, ◌⊎◌, inl, inr, refl, ap, ◌==◌, leb, true, false, ◌&&◌, not,
  none, some, Option-cases, List, [], ◌∷◌, length, if◌then◌else◌, arith, eq-cases, Bool-cases,
}
use st_win.Prelude.Int.{pos, incr, decr}
use st_win.TimeoutHeap.{Addr}
use st_win.Clist.{remove_link}
use st_win.Prelude.Members.{has}
use st_win.Stk.{
  Stacks, find_stack, make_stack, stack_new, stack_free, insert_before_last, random_offset,
}

-- The usable part of a stack lies in its segment with a page at least on either side.
pub record Guarded (pagesize : ℕ) (s : Stacks) (ts : Addr) : Type 0 where
  pub real : ts ≢ 0
  pub below : s.vaddr ts + pagesize ≤ s.stk_bottom ts
  pub size : s.stk_top ts ≡ s.stk_bottom ts + s.stk_size ts
  pub above : s.stk_top ts + pagesize ≤ s.vaddr ts + s.vaddr_size ts

-- The free list holds guarded stacks, and their number is right.
pub record Sound (pagesize : ℕ) (s : Stacks) : Type 0 where
  pub guarded : (ts : Addr) → has ts s.free_stacks ≡ true → Guarded pagesize s ts
  pub counted : s.num_free_stacks ≡ pos (length s.free_stacks)

-- One of the stacks is big enough.
abbrev pub BigEnough : ℕ → List Addr → Stacks → Type 0
BigEnough size q s = (x : Addr) × (has x q ≡ true) × (size ≤ s.stk_size x)

find_stack-none :
    (size : ℕ) (q : List Addr) (s : Stacks) → find_stack size q s ≡ none → ¬ BigEnough size q s
unfolding find_stack has
find_stack-none size [] s e (x, m, le) = cc
find_stack-none size (y ∷ q) s e (x, m, le) = elim (Bool-cases (leb size (s.stk_size y))) [
  | inl fits ↦ let found = rw fits at e in absurd (some_none found)
  | inr small ↦
      let other : y ≢ x = λ same. ground arith in
      find_stack-none size q s (rw small at e) (x, ground arith, le)
]
  where
    some_none : some y ≡ none → ⊥
    some_none h = cc

find_stack-found :
    (size : ℕ) (q : List Addr) (s : Stacks) (ts : Addr)
    → find_stack size q s ≡ some ts
    → (has ts q ≡ true) × (size ≤ s.stk_size ts) × (length q ≡ suc (length (remove_link ts q)))
unfolding find_stack has remove_link
find_stack-found size [] s ts e = cc
find_stack-found size (x ∷ q) s ts e = elim (Bool-cases (leb size (s.stk_size x))) [
  | inl fits ↦ (ground arith, ground arith, ground arith)
  | inr small ↦
      let (m, le, n) = find_stack-found size q s ts (rw small at e) in
      (ground arith, le, ground arith)
]

has-remove : (a e : Addr) (q : List Addr) → has a (remove_link e q) ≡ true → has a q ≡ true
unfolding has remove_link
has-remove a e [] m = m
has-remove a e (x ∷ q) m = ground (arith, has-remove a e q)

has-remove_ne : (a e : Addr) (q : List Addr) → a ≢ e → has a (remove_link e q) ≡ has a q
unfolding has remove_link
has-remove_ne a e [] ne = refl
has-remove_ne a e (x ∷ q) ne = ground (arith, has-remove_ne a e q ne)

has-insert :
    (a e : Addr) (q : List Addr)
    → has a (insert_before_last e q) ≡ (if e == a then true else has a q)
unfolding has insert_before_last
has-insert a e [] = refl
has-insert a e (x ∷ []) = ground arith
has-insert a e (x ∷ y ∷ q) = ground (arith, has-insert a e (y ∷ q))

length-insert : (e : Addr) (q : List Addr) → length (insert_before_last e q) ≡ suc (length q)
unfolding insert_before_last
length-insert e [] = refl
length-insert e (x ∷ []) = refl
length-insert e (x ∷ y ∷ q) = ap suc (length-insert e (y ∷ q))

random_offset-lt : (extra rand : ℕ) → extra ≢ 0 → random_offset extra rand < extra
random_offset-lt extra rand ne = omega arith

make_stack-Guarded :
    (pagesize size : ℕ) (ts segment : Addr) (rand : ℕ) (s : Stacks)
    → ts ≢ 0
    → Guarded pagesize (make_stack pagesize size ts segment rand s) ts
unfolding make_stack
make_stack-Guarded pagesize size ts segment rand s ne = record {
  real = ne;
  below = ground arith;
  size = ground arith;
  above = ground (arith, random_offset-lt pagesize rand);
}

make_stack-others :
    (pagesize size : ℕ) (ts segment : Addr) (rand : ℕ) (s : Stacks) (a : Addr)
    → a ≢ ts
    → Guarded pagesize s a
    → Guarded pagesize (make_stack pagesize size ts segment rand s) a
unfolding make_stack
make_stack-others pagesize size ts segment rand s a ne g = record {
  real = g.real;
  below = ground (arith, g.below);
  size = ground (arith, g.size);
  above = ground (arith, g.above);
}

-- What `_st_stack_new` promises.
pub record Issued (pagesize size : ℕ) (ts segment : Addr) (s : Stacks) (r : Stacks × Addr)
    : Type 0 where
  pub sound : Sound pagesize r.0
  pub fits : r.1 ≢ 0 → Guarded pagesize r.0 r.1 × (size ≤ r.0.stk_size r.1)
  pub reused : BigEnough size s.free_stacks s ↔ (has r.1 s.free_stacks ≡ true)
  pub null : (r.1 ≢ 0) ⊎ ((ts ≡ 0) ⊎ (segment ≡ 0))
  pub others : (a : Addr) → a ≢ r.1 → has a r.0.free_stacks ≡ has a s.free_stacks

no_null : {pagesize : ℕ} {s : Stacks} → Sound pagesize s → has 0 s.free_stacks ≡ false
no_null {s} sound = elim (Bool-cases (has 0 s.free_stacks)) [
  | inl on ↦ absurd ((sound.guarded 0 on).real refl)
  | inr off ↦ off
]

reused_none :
    (size : ℕ) (s : Stacks) (a : Addr)
    → find_stack size s.free_stacks s ≡ none
    → has a s.free_stacks ≡ false
    → BigEnough size s.free_stacks s ↔ (has a s.free_stacks ≡ true)
reused_none size s a none_fits off =
    ((λ big. absurd (find_stack-none size s.free_stacks s none_fits big)), λ on. cc)

made :
    (pagesize size : ℕ) (ts segment : Addr) (rand : ℕ) (s : Stacks)
    → Sound pagesize s
    → has ts s.free_stacks ≡ false
    → Sound pagesize (make_stack pagesize size ts segment rand s)
unfolding make_stack
made pagesize size ts segment rand s sound fresh = record {
  guarded = λ a m.
      make_stack-others pagesize size ts segment rand s a
        (λ e. let off : has a s.free_stacks ≡ false = rw e fresh in cc) (sound.guarded a m);
  counted = sound.counted;
}

make_stack-size :
    (pagesize size : ℕ) (ts segment : Addr) (rand : ℕ) (s : Stacks)
    → size ≤ (make_stack pagesize size ts segment rand s).stk_size ts
unfolding make_stack
make_stack-size pagesize size ts segment rand s = ground arith

taken :
    {pagesize size : ℕ} {object segment : Addr} {s : Stacks} {ts : Addr}
    → Sound pagesize s
    → find_stack size s.free_stacks s ≡ some ts
    → Issued pagesize size object segment s (
      record s {
        free_stacks = remove_link ts s.free_stacks;
        num_free_stacks = decr s.num_free_stacks;
      },
      ts,
    )
unfolding decr
taken {size} {s} {ts} sound found =
    let (m, le, n) = find_stack-found size s.free_stacks s ts found in
    let g = sound.guarded ts m in
    record {
      sound = record {
        guarded = λ a on.
            let k = sound.guarded a (has-remove a ts s.free_stacks on) in
            record { real = k.real; below = k.below; size = k.size; above = k.above };
        counted = rw (sound.counted, n) refl;
      };
      fits = λ ne. (record { real = g.real; below = g.below; size = g.size; above = g.above }, le);
      reused = ((λ big. m), λ on. (ts, m, le));
      null = inl g.real;
      others = λ a ne. has-remove_ne a ts s.free_stacks ne;
    }

pub stack_new-Issued :
    (pagesize size : ℕ) (ts segment : Addr) (rand : ℕ) (s : Stacks)
    → Sound pagesize s
    → has ts s.free_stacks ≡ false
    → Issued pagesize size ts segment s (stack_new pagesize size ts segment rand s)
unfolding stack_new
stack_new-Issued pagesize size ts segment rand s sound fresh =
    elim (Option-cases (find_stack size s.free_stacks s)) [
      | inr (found, e) ↦ rw (stack_new, e) (taken sound e)
      | inl none_fits ↦
          rw (stack_new, none_fits)
            (elim (eq-cases ts 0) [
              | inl no_object ↦
                  let z : (ts == 0) ≡ true = ground arith in
                  rw z (nothing none_fits (inl no_object))
              | inr ne ↦
                  let real : (ts == 0) ≡ false = ground arith in
                  rw real (elim (Bool-cases (segment == 0)) [
                    | inl no_segment ↦ rw no_segment (nothing none_fits (inr (ground arith)))
                    | inr allocated ↦ rw allocated (record {
                      sound = made pagesize size ts segment rand s sound fresh;
                      fits = λ _. (
                        make_stack-Guarded pagesize size ts segment rand s ne,
                        make_stack-size pagesize size ts segment rand s,
                      );
                      reused = reused_none size s ts none_fits fresh;
                      null = inl ne;
                      others = λ a other. unfold make_stack in refl;
                    })
                  ])
            ])
    ]
  where
    nothing :
        find_stack size s.free_stacks s ≡ none
        → (ts ≡ 0) ⊎ (segment ≡ 0)
        → Issued pagesize size ts segment s (s, 0)
    nothing none_fits why = record {
      sound = sound;
      fits = λ ne. absurd (ne refl);
      reused = reused_none size s 0 none_fits (no_null sound);
      null = inr why;
      others = λ a other. refl;
    }

-- `_st_stack_free` of a null pointer or a guarded stack keeps the free list sound and counted, and
-- puts the stack on it, if it is not null, and nothing else.
pub stack_free-Sound :
    (pagesize : ℕ) (ts : Addr) (s : Stacks)
    → Sound pagesize s
    → (ts ≡ 0) ⊎ Guarded pagesize s ts
    → Sound pagesize (stack_free ts s)
      × ((a : Addr)
          → has a (stack_free ts s).free_stacks
            ≡ (if not (ts == 0) && (ts == a) then true else has a s.free_stacks))
unfolding stack_free
stack_free-Sound pagesize ts s sound (inl null) =
    let z : (ts == 0) ≡ true = ground arith in rw z (sound, λ a. refl)
stack_free-Sound pagesize ts s sound (inr g) =
    let real : (ts == 0) ≡ false = ground (arith, g.real) in
    rw real (
      record {
        guarded = λ a on. elim (eq-cases ts a) [
          | inl same ↦ record {
            real = rw (← same) g.real;
            below = rw (← same) g.below;
            size = rw (← same) g.size;
            above = rw (← same) g.above;
          }
          | inr other ↦
              let k = sound.guarded a (ground (arith, has-insert a ts s.free_stacks)) in
              record { real = k.real; below = k.below; size = k.size; above = k.above }
        ];
        counted = rw (sound.counted, length-insert) (unfold incr in refl);
      },
      λ a. has-insert a ts s.free_stacks,
    )

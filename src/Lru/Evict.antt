-- ===== src/Lru/Evict.antt =====
-- The eviction of an insertion: the loop on the weight and the test of the size.
use st_win.Prelude.{
  ℕ, zero, suc, ◌+◌, ◌-◌, ◌^◌, ◌≤◌, ◌<◌, ◌≡◌, ◌≢◌, ◌⊎◌, inl, inr, refl, sym, ap, ◌∙◌, ◌==◌, ltb,
  leb, Bool, true, false, List, [], ◌∷◌, ◌++◌, length, append-nil, append_assoc, if◌then◌else◌,
  arith, Bool-cases,
}
use st_win.Prelude.Words.{add64, add64_exact}
use st_win.Prelude.Members.{has, remove_link, length-remove_link}
use st_win.TimeoutHeap.{Addr}
use st_win.Lru.{Cache, entry_delete, entry_getlru, evict_loop, evict_one}
use st_win.Lru.Entries.{Good, delete_unused-Good, weigh, weigh-remove_link}
use st_win.Lru.Shrink.{Shrunk, Shrunk-refl, Shrunk-trans, unused-Shrunk}

-- Which of the unused entries, the least recently used first, have to go, when the cache weighs
-- `total` with the new entry.
abbrev pub victims : (Addr → ℕ) → ℕ → ℕ → List Addr → List Addr
victims w total max [] = []
victims w total max (x ∷ q) = if leb total max then [] else x ∷ victims w (total - w x) max q

abbrev pub without : List Addr → List Addr → List Addr
without [] q = q
without (x ∷ gone) q = without gone (remove_link x q)

-- The least recently used entry is in the table, and nobody uses it.
oldest :
    (hash : Addr → ℕ) (c : Cache) (entries : List Addr) (e : Addr) (q : List Addr)
    → Good hash c entries
    → c.lru_list ≡ e ∷ q
    → (e ≢ 0) × (has e entries ≡ true) × (c.ref_count e ≡ 0)
unfolding has
oldest hash c entries e q good at =
    let on : has e c.lru_list ≡ true = rw at (ground arith) in
    let u = good.unused e in
    let m : has e entries ≡ true = ground (arith, u) in
    (ground (arith, good.hashed.real), m, ground (arith, u))

-- `gone` are evicted, in this order, and nothing else.
pub record Evicted (hash : Addr → ℕ) (c : Cache) (entries gone : List Addr) (c' : Cache)
    : Type 0 where
  pub good : Good hash c' (without gone entries)
  pub shrunk : Shrunk c c' entries (without gone entries)
  pub freed : c'.freed ≡ c.freed ++ gone
  pub order : c.lru_list ≡ gone ++ c'.lru_list

Evicted-none :
    (hash : Addr → ℕ) (c : Cache) (entries : List Addr)
    → Good hash c entries
    → Evicted hash c entries [] c
Evicted-none hash c entries good = record {
  good = good;
  shrunk = Shrunk-refl c entries;
  freed = sym (append-nil c.freed);
  order = refl;
}

lru-cases : (q : List Addr) → (q ≡ []) ⊎ ((e : Addr) × (rest : List Addr) × (q ≡ e ∷ rest))
lru-cases [] = inl refl
lru-cases (e ∷ q) = inr (e, q, refl)

-- The branches of the loop.
evict_fits :
    (fuel weight : ℕ) (c : Cache)
    → leb (add64 c.cur_weight weight) c.max_weight ≡ true
    → evict_loop fuel weight c ≡ (c, true)
unfolding evict_loop
evict_fits zero weight c fits = rw fits
evict_fits (suc fuel) weight c fits = rw fits

evict_stuck :
    (fuel weight : ℕ) (c : Cache)
    → leb (add64 c.cur_weight weight) c.max_weight ≡ false
    → c.lru_list ≡ []
    → evict_loop fuel weight c ≡ (c, false)
unfolding evict_loop entry_getlru
evict_stuck zero weight c heavy none = rw heavy
evict_stuck (suc fuel) weight c heavy none = rw (heavy, none)

evict_more :
    (fuel weight : ℕ) (c : Cache) (e : Addr) (q : List Addr)
    → leb (add64 c.cur_weight weight) c.max_weight ≡ false
    → c.lru_list ≡ e ∷ q
    → e ≢ 0
    → evict_loop (suc fuel) weight c ≡ evict_loop fuel weight (entry_delete e c)
unfolding evict_loop entry_getlru
evict_more fuel weight c e q heavy at ne =
    let real : (e == 0) ≡ false = ground arith in rw (heavy, at, real)

victims_none :
    (w : Addr → ℕ) (total max : ℕ) (q : List Addr)
    → leb total max ≡ true
    → victims w total max q ≡ []
victims_none w total max [] le = refl
victims_none w total max (x ∷ q) le = rw le

-- One eviction.
record Step (hash : Addr → ℕ) (c : Cache) (entries : List Addr) (e : Addr) (q : List Addr)
    : Type 0 where
  pub good : Good hash (entry_delete e c) (remove_link e entries)
  pub shrunk : Shrunk c (entry_delete e c) entries (remove_link e entries)
  pub freed : (entry_delete e c).freed ≡ c.freed ++ (e ∷ [])
  pub rest : (entry_delete e c).lru_list ≡ q
  pub fewer : suc (entry_delete e c).cur_size ≡ c.cur_size
  pub lighter : c.weight e + (entry_delete e c).cur_weight ≡ c.cur_weight
  pub real : e ≢ 0

evict-Step :
    (hash : Addr → ℕ) (c : Cache) (entries : List Addr) (e : Addr) (q : List Addr)
    → Good hash c entries
    → c.lru_list ≡ e ∷ q
    → Step hash c entries e q
unfolding remove_link
evict-Step hash c entries e q good at =
    let (ne, on, free) = oldest hash c entries e q good at in
    let (good', w) = delete_unused-Good hash c entries e good ne on free in
    let light = good'.weight ∙ ap (λ f. weigh f (remove_link e entries)) w.weight in
    record {
      good = good';
      shrunk = unused-Shrunk hash c entries e good ne on free;
      freed = w.freed;
      fewer = omega (arith, length-remove_link e entries on, good.size, good'.size);
      rest = w.lru_list ∙ ap (remove_link e) at ∙ ground arith;
      lighter = omega (arith, light, good.weight, weigh-remove_link c.weight e entries on);
      real = ne;
    }

Evicted-Step :
    {hash : Addr → ℕ} {c c' : Cache} {entries gone : List Addr} {e : Addr} {q : List Addr}
    → c.lru_list ≡ e ∷ q
    → Step hash c entries e q
    → Evicted hash (entry_delete e c) (remove_link e entries) gone c'
    → Evicted hash c entries (e ∷ gone) c'
Evicted-Step {c} {gone} {e} at step more = record {
  good = more.good;
  shrunk = Shrunk-trans step.shrunk more.shrunk;
  freed = more.freed ∙ ap (λ l. l ++ gone) step.freed ∙ append_assoc c.freed (e ∷ []) gone;
  order = at ∙ ap (λ l. e ∷ l) (sym step.rest ∙ more.order);
}

-- What the loop does: it evicts the victims, and there is room then, or nobody is left to evict.
abbrev pub Evicts : (Addr → ℕ) → Cache → List Addr → ℕ → Cache × Bool → Type 0
Evicts hash c entries weight r =
    Evicted hash c entries (victims c.weight (c.cur_weight + weight) c.max_weight c.lru_list) r.0
    × (((r.1 ≡ true) × (r.0.cur_weight + weight ≤ c.max_weight))
        ⊎ ((r.1 ≡ false) × (r.0.lru_list ≡ []) × (c.max_weight < r.0.cur_weight + weight)))

Evicts-Step :
    (hash : Addr → ℕ) (weight : ℕ) (c : Cache) (entries : List Addr) (e : Addr) (q : List Addr)
    (r : Cache × Bool)
    → c.lru_list ≡ e ∷ q
    → leb (c.cur_weight + weight) c.max_weight ≡ false
    → Step hash c entries e q
    → Evicts hash (entry_delete e c) (remove_link e entries) weight r
    → Evicts hash c entries weight r
Evicts-Step hash weight c entries e q r at heavy step more =
    let c' = entry_delete e c in
    let total : c'.cur_weight + weight ≡ c.cur_weight + weight - c.weight e =
      omega (arith, step.lighter) in
    let chosen : victims c'.weight (c'.cur_weight + weight) c'.max_weight c'.lru_list
        ≡ victims c.weight (c.cur_weight + weight - c.weight e) c.max_weight q =
      rw (total, step.shrunk.weights, step.shrunk.max_weight, step.rest) in
    let all : victims c.weight (c.cur_weight + weight) c.max_weight c.lru_list
        ≡ e ∷ victims c'.weight (c'.cur_weight + weight) c'.max_weight c'.lru_list =
      rw (chosen, at, heavy) in
    (
      rw all (Evicted-Step at step more.0),
      elim more.1 [
        | inl (t, le) ↦ inl (t, omega (arith, le, step.shrunk.max_weight))
        | inr (f, none, over) ↦ inr (f, none, omega (arith, over, step.shrunk.max_weight))
      ],
    )

-- The three branches, the last with what its rest does.
Evicts-branches :
    (hash : Addr → ℕ) (fuel weight : ℕ) (c : Cache) (entries : List Addr)
    → Good hash c entries
    → c.max_weight + weight < 2 ^ 64
    → ((e : Addr) (q : List Addr)
        → leb (add64 c.cur_weight weight) c.max_weight ≡ false
        → leb (c.cur_weight + weight) c.max_weight ≡ false
        → c.lru_list ≡ e ∷ q
        → Evicts hash c entries weight (evict_loop fuel weight c))
    → Evicts hash c entries weight (evict_loop fuel weight c)
Evicts-branches hash fuel weight c entries good fits more =
    let exact = add64_exact c.cur_weight weight (omega (arith, good.weight_bound)) in
    let test : leb (add64 c.cur_weight weight) c.max_weight
        ≡ leb (c.cur_weight + weight) c.max_weight =
      ap (λ n. leb n c.max_weight) exact in
    elim (Bool-cases (leb (c.cur_weight + weight) c.max_weight)) [
      | inl fit ↦
          rw
            (
              evict_fits fuel weight c (test ∙ fit),
              victims_none c.weight (c.cur_weight + weight) c.max_weight c.lru_list fit,
            )
            (Evicted-none hash c entries good, inl (refl, ground arith))
      | inr heavy ↦ elim (lru-cases c.lru_list) [
        | inl none ↦
            let nobody : victims c.weight (c.cur_weight + weight) c.max_weight c.lru_list ≡ [] =
              ap (victims c.weight (c.cur_weight + weight) c.max_weight) none in
            rw (evict_stuck fuel weight c (test ∙ heavy) none, nobody)
              (Evicted-none hash c entries good, inr (refl, none, ground arith))
        | inr (e, q, at) ↦ more e q (test ∙ heavy) heavy at
      ]
    ]

-- The loop of `stx_cache_entry_insert` that makes room for a weight, on a good cache, with as many
-- rounds as there are entries on the LRU list: it evicts the least recently used entries one by
-- one, until the weight fits or none is left, frees them in this order and leaves the others, in a
-- good cache. It ends with room for the weight, or with an empty LRU list and no room.
pub evict_loop-Evicted :
    (hash : Addr → ℕ) (fuel weight : ℕ) (c : Cache) (entries : List Addr)
    → Good hash c entries
    → c.max_weight + weight < 2 ^ 64
    → length c.lru_list ≤ fuel
    → Evicts hash c entries weight (evict_loop fuel weight c)
evict_loop-Evicted hash zero weight c entries good fits enough =
    Evicts-branches hash zero weight c entries good fits
      (λ e q test heavy at. let l = ap length at in absurd (omega (arith, l)))
evict_loop-Evicted hash (suc fuel) weight c entries good fits enough =
    Evicts-branches hash (suc fuel) weight c entries good fits (λ e q test heavy at.
      let step = evict-Step hash c entries e q good at in
      let l = ap length at in
      let l' = ap length step.rest in
      rw (evict_more fuel weight c e q test at step.real) (
        Evicts-Step hash weight c entries e q (evict_loop fuel weight (entry_delete e c)) at heavy
          step
          (evict_loop-Evicted hash fuel weight (entry_delete e c) (remove_link e entries) step.good
            (omega (arith, step.shrunk.max_weight)) (omega (arith, l, l')))))

-- The branches of the test of the size.
one_room : (c : Cache) → ltb c.cur_size c.max_size ≡ true → evict_one c ≡ (c, true)
unfolding evict_one
one_room c room = rw room

one_stuck :
    (c : Cache) → ltb c.cur_size c.max_size ≡ false → c.lru_list ≡ [] → evict_one c ≡ (c, false)
unfolding evict_one entry_getlru
one_stuck c full none = rw (full, none)

one_evicted :
    (c : Cache) (e : Addr) (q : List Addr)
    → ltb c.cur_size c.max_size ≡ false
    → c.lru_list ≡ e ∷ q
    → e ≢ 0
    → evict_one c ≡ (entry_delete e c, true)
unfolding evict_one entry_getlru
one_evicted c e q full at ne = let real : (e == 0) ≡ false = ground arith in rw (full, at, real)

-- What the test of the size does: it evicts at most the oldest entry, and there is room for one more
-- then, or nobody is left to evict.
pub evict_one-Shrunk :
    (hash : Addr → ℕ) (c : Cache) (entries : List Addr)
    → Good hash c entries
    → (rest : List Addr) × Good hash (evict_one c).0 rest
      × Shrunk c (evict_one c).0 entries rest
      × ((((evict_one c).1 ≡ true) × ((evict_one c).0.cur_size < c.max_size))
          ⊎ ((evict_one c ≡ (c, false)) × (c.lru_list ≡ []) × (c.cur_size ≡ c.max_size)))
evict_one-Shrunk hash c entries good = elim (Bool-cases (ltb c.cur_size c.max_size)) [
  | inl room ↦ rw (one_room c room) (entries, good, Shrunk-refl c entries, inl (refl, ground arith))
  | inr full ↦ elim (lru-cases c.lru_list) [
    | inl none ↦
        rw (one_stuck c full none)
          (entries, good, Shrunk-refl c entries, inr (refl, none, ground (arith, good.size_bound)))
    | inr (e, q, at) ↦
        let step = evict-Step hash c entries e q good at in
        rw (one_evicted c e q full at step.real) (
          remove_link e entries,
          step.good,
          step.shrunk,
          inl (refl, omega (arith, step.fewer, good.size_bound)),
        )
  ]
]

-- ===== src/Server/Counters.antt =====
-- The counters of a socket are the numbers of its threads, and stay within the limits.
use st_win.Prelude.{
  ℕ, suc, ◌+◌, ◌≤◌, ◌<◌, ◌≡◌, ◌⊎◌, inl, inr, refl, sym, ap, ◌∙◌, arith, ltb, Bool, true, false,
  ◌&&◌, List, [], ◌∷◌, ◌++◌, length, Bool-cases, if◌then◌else◌,
}
use st_win.Prelude.Int.{ℤ, pos, negsuc, incr, decr}
use st_win.Server.{Config}
use st_win.Server.Pool.{
  Counts, goes_on, take_connection, wants_spare, accepted, handle_session, end_session, retire,
  Phase, testing, accepting, serving, Pool, newcomer, Step, enter, leave, accept_fails, accept,
  serve, Reach, here, next,
}

-- The number of members in `handle_session`, and of the others.
abbrev pub serving_of : List Phase → ℕ
serving_of [] = 0
serving_of (serving ∷ q) = suc (serving_of q)
serving_of (testing ∷ q) = serving_of q
serving_of (accepting ∷ q) = serving_of q

abbrev pub waiting_of : List Phase → ℕ
waiting_of [] = 0
waiting_of (serving ∷ q) = waiting_of q
waiting_of (testing ∷ q) = suc (waiting_of q)
waiting_of (accepting ∷ q) = suc (waiting_of q)

serving-append : (p q : List Phase) → serving_of (p ++ q) ≡ serving_of p + serving_of q
serving-append [] q = omega arith
serving-append (serving ∷ p) q = omega (arith, serving-append p q)
serving-append (testing ∷ p) q = serving-append p q
serving-append (accepting ∷ p) q = serving-append p q

waiting-append : (p q : List Phase) → waiting_of (p ++ q) ≡ waiting_of p + waiting_of q
waiting-append [] q = omega arith
waiting-append (serving ∷ p) q = waiting-append p q
waiting-append (testing ∷ p) q = omega (arith, waiting-append p q)
waiting-append (accepting ∷ p) q = omega (arith, waiting-append p q)

-- The counters are exact, and within the limits; a spare thread is there unless the pool is full or
-- thread creation has failed.
pub record Counted (c : Config) (fails : Bool) (s : Pool) : Type 0 where
  pub waits : s.counts.wait_threads ≡ pos (waiting_of s.members)
  pub serves : s.counts.busy_threads ≡ pos (serving_of s.members)
  pub few : length s.members ≤ c.max_threads
  pub spare :
      (fails ≡ true)
      ⊎ (c.min_wait_threads ≤ waiting_of s.members)
      ⊎ (length s.members ≡ c.max_threads)

length-parts : (q : List Phase) → length q ≡ waiting_of q + serving_of q
length-parts [] = omega arith
length-parts (serving ∷ q) = omega (arith, length-parts q)
length-parts (testing ∷ q) = omega (arith, length-parts q)
length-parts (accepting ∷ q) = omega (arith, length-parts q)

-- Whether there is another spare thread, after one of `suc w` has taken a connection.
abbrev spawns : Config → Bool → ℕ → ℕ → Bool
spawns c made w b = ltb w c.min_wait_threads && ltb (w + suc b) c.max_threads && made

accepted-fields :
    (c : Config) (made : Bool) (s : Counts) (w b : ℕ)
    → s.wait_threads ≡ pos (suc w)
    → s.busy_threads ≡ pos b
    → ((accepted c made s).0.wait_threads ≡ pos (if spawns c made w b then suc w else w))
      × ((accepted c made s).0.busy_threads ≡ pos (suc b))
      × ((accepted c made s).1 ≡ spawns c made w b)
unfolding accepted take_connection wants_spare incr decr
accepted-fields c made s w b waits serves = elim (Bool-cases (spawns c made w b)) [
  | inl more ↦ rw (waits, serves) (rw more, rw more, rw more)
  | inr same ↦ rw (waits, serves) (rw same, rw same, rw same)
]

goes_on-lem :
    (c : Config) (s : Counts) (w : ℕ)
    → s.wait_threads ≡ pos w
    → goes_on c s ≡ ltb w (suc c.max_wait_threads)
unfolding goes_on
goes_on-lem c s w e = rw e

served :
    (n : ℕ) (got written : ℤ) (s : Counts)
    → let r = handle_session n got written s in
      (r.wait_threads ≡ s.wait_threads) × (r.busy_threads ≡ s.busy_threads)
unfolding handle_session
served n (negsuc e) written s = (refl, refl)
served n (pos k) (negsuc e) s = (refl, refl)
served n (pos k) (pos w) s = (ground arith, ground arith)

ended :
    (s : Counts) (w b : ℕ)
    → s.wait_threads ≡ pos w
    → s.busy_threads ≡ pos (suc b)
    → ((end_session s).wait_threads ≡ pos (suc w)) × ((end_session s).busy_threads ≡ pos b)
unfolding end_session incr decr
ended s w b waits serves = (rw waits, rw serves)

-- The numbers before and after a member changes its phase.
module _ (p q : List Phase) where
  waiting_at : (x : Phase) → waiting_of (p ++ (x ∷ q)) ≡ waiting_of p + waiting_of (x ∷ q)
  waiting_at x = waiting-append p (x ∷ q)

  serving_at : (x : Phase) → serving_of (p ++ (x ∷ q)) ≡ serving_of p + serving_of (x ∷ q)
  serving_at x = serving-append p (x ∷ q)

-- Only the numbers matter.
pub Counted-numbers :
    {c : Config} {fails : Bool} {s : Pool} (w b : ℕ)
    → waiting_of s.members ≡ w
    → serving_of s.members ≡ b
    → s.counts.wait_threads ≡ pos w
    → s.counts.busy_threads ≡ pos b
    → w + b ≤ c.max_threads
    → (fails ≡ true) ⊎ (c.min_wait_threads ≤ w) ⊎ (w + b ≡ c.max_threads)
    → Counted c fails s
Counted-numbers {s = s} w b ws bs waits serves few spare = record {
  waits = waits ∙ ap pos (sym ws);
  serves = serves ∙ ap pos (sym bs);
  few = omega (arith, length-parts s.members);
  spare = elim spare [
    | inl fl ↦ inl fl
    | inr (inl enough) ↦ inr (inl (omega arith))
    | inr (inr full) ↦ inr (inr (omega (arith, length-parts s.members)))
  ];
}

newcomer-counts :
    (m : Bool) → (waiting_of (newcomer m) ≡ (if m then 1 else 0)) × (serving_of (newcomer m) ≡ 0)
newcomer-counts true = (refl, refl)
newcomer-counts false = (refl, refl)

module _ {c : Config} {fails : Bool} (least : c.min_wait_threads ≤ c.max_wait_threads) where
  -- A change of phase that keeps the numbers.
  Counted-same :
      {s : Counts} (p q : List Phase) (x y : Phase)
      → waiting_of (x ∷ q) ≡ waiting_of (y ∷ q)
      → serving_of (x ∷ q) ≡ serving_of (y ∷ q)
      → Counted c fails (record { counts = s; members = p ++ (x ∷ q) })
      → Counted c fails (record { counts = s; members = p ++ (y ∷ q) })
  Counted-same p q x y ws bs d =
      let w = waiting_of p + waiting_of (y ∷ q) in
      let b = serving_of p + serving_of (y ∷ q) in
      let old_w : waiting_of (p ++ (x ∷ q)) ≡ w = omega (arith, waiting_at p q x, ws) in
      let old_b : serving_of (p ++ (x ∷ q)) ≡ b = omega (arith, serving_at p q x, bs) in
      let len = length-parts (p ++ (x ∷ q)) in
      Counted-numbers w b (waiting_at p q y) (serving_at p q y) (d.waits ∙ ap pos old_w)
        (d.serves ∙ ap pos old_b) (omega (arith, d.few))
        (elim d.spare [
          | inl fl ↦ inl fl
          | inr (inl enough) ↦ inr (inl (omega arith))
          | inr (inr full) ↦ inr (inr (omega arith))
        ])

  Counted-leave :
      {s : Counts} (p q : List Phase)
      → goes_on c s ≡ false
      → Counted c fails (record { counts = s; members = p ++ (testing ∷ q) })
      → Counted c fails (record { counts = retire s; members = p ++ q })
  unfolding retire decr
  Counted-leave {s} p q stops d =
      let w = waiting_of p + waiting_of q in
      let b = serving_of p + serving_of q in
      let old_w : waiting_of (p ++ (testing ∷ q)) ≡ suc w = omega (arith, waiting_at p q testing) in
      let old_b : serving_of (p ++ (testing ∷ q)) ≡ b = serving_at p q testing in
      let len = length-parts (p ++ (testing ∷ q)) in
      let was : s.wait_threads ≡ pos (suc w) = d.waits ∙ ap pos old_w in
      let many : ltb (suc w) (suc c.max_wait_threads) ≡ false =
        sym (goes_on-lem c s (suc w) was) ∙ stops in
      Counted-numbers w b (waiting-append p q) (serving-append p q) (rw was refl)
        (d.serves ∙ ap pos old_b) (omega (arith, d.few)) (inr (inl (ground arith)))

  Counted-accept :
      {s : Counts} (p q : List Phase) (made : Bool)
      → (fails ≡ true) ⊎ (made ≡ true)
      → Counted c fails (record { counts = s; members = p ++ (accepting ∷ q) })
      → Counted c fails (record {
        counts = (accepted c made s).0;
        members = p ++ (serving ∷ (q ++ newcomer (accepted c made s).1));
      })
  Counted-accept {s} p q made can d =
      let w = waiting_of p + waiting_of q in
      let b = serving_of p + serving_of q in
      let old_w : waiting_of (p ++ (accepting ∷ q)) ≡ suc w =
        omega (arith, waiting_at p q accepting) in
      let old_b : serving_of (p ++ (accepting ∷ q)) ≡ b = serving_at p q accepting in
      let len = length-parts (p ++ (accepting ∷ q)) in
      let (fw, fb, new) =
        accepted-fields c made s w b (d.waits ∙ ap pos old_w) (d.serves ∙ ap pos old_b) in
      let more = spawns c made w b in
      let n = newcomer (accepted c made s).1 in
      let (nw, nb) = newcomer-counts (accepted c made s).1 in
      let nw' : waiting_of n ≡ (if more then 1 else 0) = nw ∙ ap (λ m. if m then 1 else 0) new in
      let room : (more ≡ false) ⊎ (w + suc b < c.max_threads) = ground arith in
      Counted-numbers (if more then suc w else w) (suc b)
        (waiting-append p (serving ∷ (q ++ n)) ∙ ground (arith, waiting-append q n))
        (serving-append p (serving ∷ (q ++ n)) ∙ omega (arith, serving-append q n)) fw fb
        (ground (arith, d.few)) (ground (arith, d.spare, d.few))

  Counted-serve :
      {s : Counts} (p q : List Phase) (n : ℕ) (got written : ℤ)
      → Counted c fails (record { counts = s; members = p ++ (serving ∷ q) })
      → Counted c fails (record {
        counts = end_session (handle_session n got written s);
        members = p ++ (testing ∷ q);
      })
  Counted-serve {s} p q n got written d =
      let w = waiting_of p + waiting_of q in
      let b = serving_of p + serving_of q in
      let old_w : waiting_of (p ++ (serving ∷ q)) ≡ w = waiting_at p q serving in
      let old_b : serving_of (p ++ (serving ∷ q)) ≡ suc b = omega (arith, serving_at p q serving) in
      let len = length-parts (p ++ (serving ∷ q)) in
      let (same_w, same_b) = served n got written s in
      let (fw, fb) =
        ended (handle_session n got written s) w b (same_w ∙ d.waits ∙ ap pos old_w)
          (same_b ∙ d.serves ∙ ap pos old_b) in
      Counted-numbers (suc w) b (omega (arith, waiting_at p q testing)) (serving_at p q testing) fw
        fb (omega (arith, d.few))
        (elim d.spare [
          | inl fl ↦ inl fl
          | inr (inl enough) ↦ inr (inl (omega arith))
          | inr (inr full) ↦ inr (inr (omega arith))
        ])

  Step-Counted : {u v : Pool} → Step c fails u v → Counted c fails u → Counted c fails v
  Step-Counted (enter p q on) d = Counted-same p q testing accepting refl refl d
  Step-Counted (leave p q off) d = Counted-leave p q off d
  Step-Counted (accept_fails p q) d = Counted-same p q accepting testing refl refl d
  Step-Counted (accept p q made can) d = Counted-accept p q made can d
  Step-Counted (serve p q n got written) d = Counted-serve p q n got written d

  pub Reach-Counted : {u v : Pool} → Reach c fails u v → Counted c fails u → Counted c fails v
  Reach-Counted here d = d
  Reach-Counted (next r st) d = Step-Counted st (Reach-Counted r d)

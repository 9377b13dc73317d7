-- ===== src/Server/Starting.antt =====
-- The server processes from their start on, and whom the watchdog's signal handler reaches.
use st_win.Prelude.{
  ℕ, zero, suc, ◌+◌, ◌≤◌, ◌<◌, ◌≡◌, ◌≢◌, ◌↔◌, ◌⊎◌, inl, inr, refl, sym, ap, subst, ◌∙◌, arith, ◌==◌,
  true, false, List, [], ◌∷◌, if◌then◌else◌, update, eq-cases, Bool-cases, update_self, update_ne,
}
use st_win.Prelude.Int.{ℤ, pos, negsuc}
use st_win.Prelude.Members.{has}
use st_win.Server.Watchdog.{
  Fork, failed, child, parent, Watchdog, server, watchdog, ended, start_loop, start_processes,
  kill_one, forward, Reach,
}
use st_win.Server.Children.{Tracks, Reach-Tracks, watchdog_inj, pos_inj}

-- The pids of the children that the first loop starts, the last one first.
unfoldable pub started : ℕ → ℕ → (ℕ → Fork) → List ℕ → List ℕ
started zero i forks live = live
started (suc n) i forks live = elim (forks i) [
  | failed ↦ live
  | child ↦ live
  | parent pid ↦ started n (suc i) forks (pid ∷ live)
]

-- The results of `fork` are positive and differ from each other.
pub record Fresh (forks : ℕ → Fork) : Type 0 where
  pub real : (i : ℕ) → forks i ≢ parent 0
  pub apart : (i j p : ℕ) → forks i ≡ parent p → forks j ≡ parent p → i ≡ j

Fork-cases :
    (f : Fork) → (f ≡ failed) ⊎ (f ≡ child) ⊎ (f ≡ parent 0) ⊎ ((p : ℕ) × (f ≡ parent (suc p)))
Fork-cases failed = inl refl
Fork-cases child = inr (inl refl)
Fork-cases (parent zero) = inr (inr (inl refl))
Fork-cases (parent (suc p)) = inr (inr (inr (p, refl)))

-- The entries below `i` are the results of `fork`.
abbrev Recorded : (ℕ → Fork) → ℕ → (ℕ → ℤ) → Type 0
Recorded forks i pids = (j p : ℕ) → j < i → pids j ≡ pos (suc p) → forks j ≡ parent (suc p)

at_failed :
    (n i : ℕ) (forks : ℕ → Fork) (w : Watchdog) (live : List ℕ)
    → forks i ≡ failed
    → (start_loop (suc n) i forks w
        ≡ (if i == 0 then ended else watchdog (record w { vp_count = i })))
      × (started (suc n) i forks live ≡ live)
unfolding start_loop started
at_failed n i forks w live e = (rw (start_loop, e) refl, rw (started, e) refl)

at_child :
    (n i : ℕ) (forks : ℕ → Fork) (w : Watchdog)
    → forks i ≡ child
    → start_loop (suc n) i forks w ≡ server i
unfolding start_loop
at_child n i forks w e = rw (start_loop, e) refl

at_parent :
    (n i : ℕ) (forks : ℕ → Fork) (w : Watchdog) (live : List ℕ) (pid : ℕ)
    → forks i ≡ parent pid
    → (start_loop (suc n) i forks w
        ≡ start_loop n (suc i) forks (record w { vp_pids = update w.vp_pids i (pos pid) }))
      × (started (suc n) i forks live ≡ started n (suc i) forks (pid ∷ live))
unfolding start_loop started
at_parent n i forks w live pid e = (rw (start_loop, e) refl, rw (started, e) refl)

module _ {forks : ℕ → Fork} (fresh : Fresh forks) where
  extend :
      (w : Watchdog) {live : List ℕ} (i p : ℕ)
      → Tracks (record w { vp_count = i }) live
      → Recorded forks i w.vp_pids
      → forks i ≡ parent (suc p)
      → Tracks
          (record w { vp_count = suc i; vp_pids = update w.vp_pids i (pos (suc p)) })
          (suc p ∷ live)
  unfolding has
  extend w {live} i p t rec e = record {
    distinct = (new, t.distinct);
    known = λ q. (
      (λ m. elim (eq-cases p q) [
        | inl same ↦ (i, omega arith, update_self w.vp_pids i _ ∙ ap (λ x. pos (suc x)) same)
        | inr diff ↦
            let (j, lt, e') = (t.known q).0 (ground arith) in
            (j, omega arith, update_ne w.vp_pids i j _ (omega arith) ∙ e')
      ]),
      λ l.
          let (j, lt, e') = l in
          elim (eq-cases i j) [
            | inl same ↦ let eq = at_new j q same e' in ground arith
            | inr diff ↦
                let m = (t.known q).1 (j, omega arith, sym (update_ne w.vp_pids i j _ diff) ∙ e') in
                ground arith
          ],
    );
    once = λ j k q lt_j lt_k e_j e_k. elim (eq-cases i j) [
      | inl same_j ↦ elim (eq-cases i k) [
        | inl same_k ↦ sym same_j ∙ same_k
        | inr diff_k ↦ absurd (not_new k q (omega arith) diff_k e_k (at_new j q same_j e_j))
      ]
      | inr diff_j ↦ elim (eq-cases i k) [
        | inl same_k ↦ absurd (not_new j q (omega arith) diff_j e_j (at_new k q same_k e_k))
        | inr diff_k ↦
            t.once j k q (omega arith) (omega arith) (sym (update_ne w.vp_pids i j _ diff_j) ∙ e_j)
              (sym (update_ne w.vp_pids i k _ diff_k) ∙ e_k)
      ]
    ];
  }
    where
      new : has (suc p) live ≡ false
      new = elim (Bool-cases (has (suc p) live)) [
        | inr off ↦ off
        | inl on ↦
            let (j, lt, e') = (t.known p).0 on in
            absurd (omega (arith, lt, fresh.apart i j (suc p) e (rec j p lt e')))
      ]

      at_new : (j q : ℕ) → i ≡ j → update w.vp_pids i (pos (suc p)) j ≡ pos (suc q) → q ≡ p
      at_new j q same e' =
          let both = pos_inj (suc p) (suc q) (
            sym (update_self w.vp_pids i (pos (suc p)))
            ∙ ap (update w.vp_pids i (pos (suc p))) same
            ∙ e') in
          omega arith

      not_new : (j q : ℕ) → j < i → i ≢ j → update w.vp_pids i (pos (suc p)) j ≡ pos (suc q) → q ≢ p
      not_new j q lt diff e' same =
          let old = rec j q lt (sym (update_ne w.vp_pids i j (pos (suc p)) diff) ∙ e') in
          omega (arith, lt, fresh.apart i j (suc p) e (old ∙ ap (λ x. parent (suc x)) same))

  start_loop-Tracks :
      (n i : ℕ) (w : Watchdog) {w' : Watchdog} {live : List ℕ}
      → Tracks (record w { vp_count = i }) live
      → Recorded forks i w.vp_pids
      → w.vp_count ≡ i + n
      → start_loop n i forks w ≡ watchdog w'
      → Tracks w' (started n i forks live)
  start_loop-Tracks zero i w {w'} {live} t rec count e =
      let c : i ≡ w.vp_count = omega arith in
      let e' : watchdog w ≡ watchdog w' = unfold start_loop in e in
      unfold started in
      subst (λ x. Tracks x live) (ap (λ k. record w { vp_count = k }) c ∙ watchdog_inj e') t
  start_loop-Tracks (suc n) i w {w'} {live} t rec count e = elim (Fork-cases (forks i)) [
    | inl bad ↦
        let (loop, list) = at_failed n i forks w live bad in
        rw list (elim (eq-cases i 0) [
          | inl first ↦
              let z : (i == 0) ≡ true = ground arith in absurd (not_ended (sym (rw z at loop) ∙ e))
          | inr later ↦
              let z : (i == 0) ≡ false = ground arith in
              subst (λ x. Tracks x live) (watchdog_inj (sym (rw z at loop) ∙ e)) t
        ])
    | inr (inl inside) ↦ absurd (not_server (sym (at_child n i forks w inside) ∙ e))
    | inr (inr (inl null)) ↦ absurd (fresh.real i null)
    | inr (inr (inr (p, new))) ↦
        let (loop, list) = at_parent n i forks w live (suc p) new in
        rw list (
          start_loop-Tracks n (suc i) _ (extend w i p t rec new)
            (λ j q lt e'. elim (eq-cases i j) [
              | inl same ↦
                  ap forks (sym same)
                  ∙ new
                  ∙ ap parent (
                      pos_inj (suc p) (suc q) (
                        sym (update_self w.vp_pids i (pos (suc p)))
                        ∙ ap (update w.vp_pids i (pos (suc p))) same
                        ∙ e'))
              | inr diff ↦ rec j q (omega arith) (sym (update_ne w.vp_pids i j _ diff) ∙ e')
            ])
            (omega arith) (sym loop ∙ e))
  ]
    where
      not_server : {k : ℕ} {x : Watchdog} → server k ≡ watchdog x → ⊥
      not_server h = cc

      not_ended : {x : Watchdog} → ended ≡ watchdog x → ⊥
      not_ended h = cc

has-kill_one :
    (z : ℤ) (rest : List ℕ) (p : ℕ)
    → (has (suc p) (kill_one z rest) ≡ true) ↔ ((z ≡ pos (suc p)) ⊎ (has (suc p) rest ≡ true))
unfolding has
has-kill_one (pos zero) rest p = ((λ m. inr m), λ l. elim l [ inl e ↦ cc | inr m ↦ m ])
has-kill_one (negsuc k) rest p = ((λ m. inr m), λ l. elim l [ inl e ↦ cc | inr m ↦ m ])
has-kill_one (pos (suc q)) rest p = (
  (λ m. elim (eq-cases q p) [
    | inl same ↦ inl (ap (λ x. pos (suc x)) same)
    | inr diff ↦ inr (ground arith)
  ]),
  λ l. elim l [
    | inl e ↦ let same : suc q ≡ suc p = pos_inj (suc q) (suc p) e in ground arith
    | inr m ↦ ground arith
  ],
)

-- The processes that the signal handler forwards to are the positive entries.
forward-Listed :
    (n i : ℕ) (pids : ℕ → ℤ) (p : ℕ)
    → (has (suc p) (forward n i pids) ≡ true)
      ↔ ((j : ℕ) × (i ≤ j) × (j < i + n) × (pids j ≡ pos (suc p)))
unfolding forward has
forward-Listed zero i pids p = ((λ m. cc), λ l. absurd (omega (arith, l.1, l.2)))
forward-Listed (suc n) i pids p =
    let (to, back) = has-kill_one (pids i) (forward n (suc i) pids) p in
    let (later, earlier) = forward-Listed n (suc i) pids p in
    (
      (λ m. elim (to m) [
        | inl e ↦ (i, omega arith, omega arith, e)
        | inr m' ↦ let (j, le, lt, e) = later m' in (j, omega (arith, le), omega (arith, lt), e)
      ]),
      λ l.
          let (j, le, lt, e) = l in
          elim (eq-cases i j) [
            | inl same ↦ back (inl (ap pids same ∙ e))
            | inr diff ↦ back (inr (earlier (j, omega arith, omega arith, e)))
          ],
    )

forward-Tracks :
    {w : Watchdog} {live : List ℕ} (p : ℕ)
    → Tracks w live
    → (has (suc p) (forward w.vp_count 0 w.vp_pids) ≡ true) ↔ (has (suc p) live ≡ true)
forward-Tracks {w} p t =
    let (to, back) = forward-Listed w.vp_count 0 w.vp_pids p in
    (
      (λ m. let (j, le, lt, e) = to m in (t.known p).1 (j, omega (arith, lt), e)),
      λ m. let (j, lt, e) = (t.known p).0 m in back (j, omega arith, omega arith, e),
    )

-- When `fork` gives positive pids that differ from each other, and later ones that no live child
-- has, then the watchdog of `start_processes`, whatever children end and whether `fork` succeeds or
-- fails for their replacements, knows its children: the positive entries of `vp_pids` are the pids
-- of the live children, each at one index below `vp_count`, and `wdog_sighandler` forwards a signal
-- to the live children and to no other process.
pub watchdog-Tracks :
    (vp_count : ℕ) (forks : ℕ → Fork) {w : Watchdog} {v : Watchdog} {live : List ℕ}
    → Fresh forks
    → start_processes false vp_count forks ≡ watchdog w
    → Reach w (started vp_count 0 forks []) v live
    → Tracks v live
      × ((p : ℕ)
          → (has (suc p) (forward v.vp_count 0 v.vp_pids) ≡ true) ↔ (has (suc p) live ≡ true))
unfolding start_processes has
watchdog-Tracks vp_count forks {w} fresh e reach =
    let empty : Tracks (record { vp_count = 0; vp_pids = λ i. pos 0 }) [] = record {
      distinct = tt;
      known = λ p. ((λ m. cc), λ l. absurd (omega (arith, l.1)));
      once = λ i j p lt_i lt_j e_i e_j. absurd (omega (arith, lt_i));
    } in
    let start =
      start_loop-Tracks fresh vp_count 0 (record { vp_count = vp_count; vp_pids = λ i. pos 0 })
        empty (λ j p lt e'. absurd (omega (arith, lt))) (omega arith) e in
    let t = Reach-Tracks start reach in (t, λ p. forward-Tracks p t)

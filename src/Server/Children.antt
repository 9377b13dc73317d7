-- ===== src/Server/Children.antt =====
-- The watchdog knows its children: `vp_pids` has exactly the live ones.
use st_win.Prelude.{
  ℕ, zero, suc, ◌+◌, ◌≤◌, ◌<◌, ◌≡◌, ◌≢◌, ◌↔◌, inl, inr, sym, ap, subst, ◌∙◌, arith, true, false,
  List, ◌∷◌, update, eq-cases, Bool-cases, update_self, update_ne,
}
use st_win.Prelude.Int.{ℤ, pos, negsuc}
use st_win.Prelude.Members.{has, Distinct, remove_link, has-remove_link, Distinct-remove_link}
use st_win.Server.Watchdog.{
  Watchdog, watchdog, is_pid, find_child, refork, watch, Step, replaced, lost, Reach, here, next,
}

-- The process `pid` has an index below `n`.
abbrev pub Listed : (ℕ → ℤ) → ℕ → ℕ → Type 0
Listed pids n pid = (i : ℕ) × (i < n) × (pids i ≡ pos pid)

-- The positive entries of `vp_pids` are the live children, each at one index.
pub record Tracks (w : Watchdog) (live : List ℕ) : Type 0 where
  pub distinct : Distinct live
  pub known : (p : ℕ) → (has (suc p) live ≡ true) ↔ Listed w.vp_pids w.vp_count (suc p)
  pub once :
      (i j p : ℕ)
      → i < w.vp_count
      → j < w.vp_count
      → w.vp_pids i ≡ pos (suc p)
      → w.vp_pids j ≡ pos (suc p)
      → i ≡ j

is_pid-eq : (z : ℤ) (p : ℕ) → is_pid z p ≡ true → z ≡ pos p
is_pid-eq (pos k) p e = ap pos (ground arith)
is_pid-eq (negsuc k) p e = cc

find_child-lem :
    (n i pid k : ℕ) (pids : ℕ → ℤ)
    → i ≤ k
    → k < i + n
    → pids k ≡ pos pid
    → (find_child n i pid pids < i + n) × (pids (find_child n i pid pids) ≡ pos pid)
unfolding find_child
find_child-lem zero i pid k pids le lt e = absurd (omega (arith, le, lt))
find_child-lem (suc n) i pid k pids le lt e = elim (Bool-cases (is_pid (pids i) pid)) [
  | inl found ↦ rw found (omega arith, is_pid-eq (pids i) pid found)
  | inr other ↦ elim (eq-cases i k) [
    | inl same ↦
        let yes_pid : is_pid (pids i) pid ≡ true = rw (same, e) (ground arith) in
        absurd (clash yes_pid other)
    | inr diff ↦
        let (lt', e') = find_child-lem n (suc i) pid k pids (omega arith) (omega arith) e in
        rw other (omega (arith, lt'), e')
  ]
]
  where
    clash : is_pid (pids i) pid ≡ true → is_pid (pids i) pid ≡ false → ⊥
    clash a b = cc

pub pos_inj : (a b : ℕ) → pos a ≡ pos b → a ≡ b
pos_inj a b e = cc

-- Membership after a child has been waited for.
has-reaped :
    {w : Watchdog} {live : List ℕ} (t : Tracks w live) (old p : ℕ)
    → (has p (remove_link (suc old) live) ≡ true) ↔ ((has p live ≡ true) × (p ≢ suc old))
has-reaped {live = live} t old p =
    let e = has-remove_link p (suc old) live t.distinct in
    ((λ m. (ground arith, ground arith)), λ m. let (on, ne) = m in ground arith)

-- An index `k` with the entry `pos (suc old)` gets another entry.
module _ {w : Watchdog} {live : List ℕ} (t : Tracks w live) (old k : ℕ) (within : k < w.vp_count)
    (entry : w.vp_pids k ≡ pos (suc old)) where
  -- The entries of the other live children stay.
  others :
      (z : ℤ) (p : ℕ)
      → (has (suc p) (remove_link (suc old) live) ≡ true)
      → Listed (update w.vp_pids k z) w.vp_count (suc p)
  others z p m =
      let (on, ne) = (has-reaped t old (suc p)).0 m in
      let (i, lt, e) = (t.known p).0 on in
      elim (eq-cases k i) [
        | inl same ↦
            absurd (ne (pos_inj (suc p) (suc old) (sym e ∙ ap w.vp_pids (sym same) ∙ entry)))
        | inr diff ↦ (i, lt, update_ne w.vp_pids k i z diff ∙ e)
      ]

  others_back :
      (p i : ℕ)
      → i < w.vp_count
      → k ≢ i
      → w.vp_pids i ≡ pos (suc p)
      → has (suc p) (remove_link (suc old) live) ≡ true
  others_back p i lt diff e =
      (has-reaped t old (suc p)).1
        ((t.known p).1 (i, lt, e), λ same. diff (t.once k i old within lt entry (e ∙ ap pos same)))

  lost-Tracks :
      Tracks (record w { vp_pids = update w.vp_pids k (negsuc 0) }) (remove_link (suc old) live)
  lost-Tracks = record {
    distinct = Distinct-remove_link (suc old) live t.distinct;
    known = λ p. (
      others (negsuc 0) p,
      λ l.
          let (i, lt, e) = l in
          elim (eq-cases k i) [
            | inl same ↦ absurd (
                not_pos (
                  sym (update_self w.vp_pids k (negsuc 0))
                  ∙ ap (update w.vp_pids k (negsuc 0)) same
                  ∙ e))
            | inr diff ↦ others_back p i lt diff (sym (update_ne w.vp_pids k i (negsuc 0) diff) ∙ e)
          ],
    );
    once = λ i j p lt_i lt_j e_i e_j. elim (eq-cases k i) [
      | inl same ↦ absurd (
          not_pos (
            sym (update_self w.vp_pids k (negsuc 0))
            ∙ ap (update w.vp_pids k (negsuc 0)) same
            ∙ e_i))
      | inr diff_i ↦ elim (eq-cases k j) [
        | inl same ↦ absurd (
            not_pos (
              sym (update_self w.vp_pids k (negsuc 0))
              ∙ ap (update w.vp_pids k (negsuc 0)) same
              ∙ e_j))
        | inr diff_j ↦
            t.once i j p lt_i lt_j (sym (update_ne w.vp_pids k i (negsuc 0) diff_i) ∙ e_i)
              (sym (update_ne w.vp_pids k j (negsuc 0) diff_j) ∙ e_j)
      ]
    ];
  }
    where
      not_pos : {p : ℕ} → negsuc 0 ≡ pos (suc p) → ⊥
      not_pos e = cc

  module _ (new : ℕ) (fresh : has (suc new) (remove_link (suc old) live) ≡ false) where
    abbrev pids : ℕ → ℤ
    pids = update w.vp_pids k (pos (suc new))

    at_new : (i p : ℕ) → k ≡ i → pids i ≡ pos (suc p) → p ≡ new
    at_new i p same e =
        let e' = sym (update_self w.vp_pids k (pos (suc new))) ∙ ap pids same ∙ e in
        omega (arith, pos_inj (suc new) (suc p) e')

    not_new : (i p : ℕ) → i < w.vp_count → k ≢ i → pids i ≡ pos (suc p) → p ≢ new
    not_new i p lt diff e same =
        let m = others_back p i lt diff (sym (update_ne w.vp_pids k i (pos (suc new)) diff) ∙ e) in
        absurd (clash (ap (λ x. has (suc x) (remove_link (suc old) live)) (sym same) ∙ m))
      where
        clash : has (suc new) (remove_link (suc old) live) ≡ true → ⊥
        clash on = cc

    replaced-Tracks : Tracks (record w { vp_pids = pids }) (suc new ∷ remove_link (suc old) live)
    unfolding has
    replaced-Tracks = record {
      distinct = (fresh, Distinct-remove_link (suc old) live t.distinct);
      known = λ p. (
        (λ m. elim (eq-cases new p) [
          | inl same ↦
              (k, within, update_self w.vp_pids k (pos (suc new)) ∙ ap (λ x. pos (suc x)) same)
          | inr diff ↦ others (pos (suc new)) p (ground arith)
        ]),
        λ l.
            let (i, lt, e) = l in
            elim (eq-cases k i) [
              | inl same ↦ let eq = at_new i p same e in ground arith
              | inr diff ↦
                  let m =
                    others_back p i lt diff
                      (sym (update_ne w.vp_pids k i (pos (suc new)) diff) ∙ e) in
                  ground arith
            ],
      );
      once = λ i j p lt_i lt_j e_i e_j. elim (eq-cases k i) [
        | inl same_i ↦ elim (eq-cases k j) [
          | inl same_j ↦ sym same_i ∙ same_j
          | inr diff_j ↦ absurd (not_new j p lt_j diff_j e_j (at_new i p same_i e_i))
        ]
        | inr diff_i ↦ elim (eq-cases k j) [
          | inl same_j ↦ absurd (not_new i p lt_i diff_i e_i (at_new j p same_j e_j))
          | inr diff_j ↦
              t.once i j p lt_i lt_j (sym (update_ne w.vp_pids k i (pos (suc new)) diff_i) ∙ e_i)
                (sym (update_ne w.vp_pids k j (pos (suc new)) diff_j) ∙ e_j)
        ]
      ];
    }

pub watchdog_inj : {u v : Watchdog} → watchdog u ≡ watchdog v → u ≡ v
watchdog_inj e = cc

found :
    {w : Watchdog} {live : List ℕ} (old : ℕ)
    → Tracks w live
    → has (suc old) live ≡ true
    → let k = find_child w.vp_count 0 (suc old) w.vp_pids in
      (k < w.vp_count) × (w.vp_pids k ≡ pos (suc old))
found {w} old t on =
    let (i, lt, e) = (t.known old).0 on in
    let (lt', e') =
      find_child-lem w.vp_count 0 (suc old) i w.vp_pids (omega arith) (omega arith) e in
    (omega (arith, lt'), e')

Step-Tracks : {u v : Watchdog} {p q : List ℕ} → Step u p v q → Tracks u p → Tracks v q
unfolding watch refork
Step-Tracks {u} {p = p} (replaced old new on fresh e) t =
    let (lt, entry) = found old t on in
    subst (λ x. Tracks x (suc new ∷ remove_link (suc old) p)) (watchdog_inj e)
      (replaced-Tracks t old _ lt entry new fresh)
Step-Tracks {u} {p = p} (lost old on e) t =
    let (lt, entry) = found old t on in
    subst (λ x. Tracks x (remove_link (suc old) p)) (watchdog_inj e) (lost-Tracks t old _ lt entry)

pub Reach-Tracks :
    {u : Watchdog} {p : List ℕ} {v : Watchdog} {q : List ℕ}
    → Tracks u p
    → Reach u p v q
    → Tracks v q
Reach-Tracks t here = t
Reach-Tracks t (next r st) = Step-Tracks st (Reach-Tracks t r)

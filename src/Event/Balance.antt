-- ===== src/Event/Balance.antt =====
-- `_st_select_pollset_del` takes back what `_st_select_pollset_add` has counted.
use st_win.Prelude.{
  ℕ, suc, ◌+◌, ◌≤◌, ◌<◌, ◌≡◌, ◌≢◌, inl, inr, refl, sym, ap, ◌∙◌, ◌==◌, leb, true, false, not, ◌&&◌,
  ◌||◌, Option-cases, List, [], ◌∷◌, if◌then◌else◌, arith, eq-cases, Bool-cases,
}
use st_win.Prelude.Int.{pos, decr, is_nonzero}
use st_win.Vp.{Events, Pollfd}
use st_win.Event.{
  Kind, reading, writing, excepting, same_kind, wants, is_no_event, FdMap, Poller, del_cnt,
  cut_kind, cut_kinds, add_kind, check_seldata, get_gfd, add_pollfd, del_pollfd, pollset_add,
  pollset_del,
}
use st_win.Event.Counts.{Lawful, hits, tally, pollset_add-counts, wanted_event}

-- Every entry that is watched belongs to a group that exists.
abbrev pub Grouped : ℕ → List Pollfd → Type 0
Grouped num [] = Unit
Grouped num (pd ∷ pds) =
    ((pd.fd == 0 || is_no_event pd.events) ≡ false → get_gfd pd.fd < num) × Grouped num pds

pub lowered : (a b : ℕ) → decr (pos (a + suc b)) ≡ pos (a + b)
unfolding decr
lowered a b = ap (λ n. decr (pos n)) (plus_suc a b)
  where
    plus_suc : (a b : ℕ) → a + suc b ≡ suc (a + b)
    plus_suc a b = omega arith

module _ {Map : Type 0} (ops : FdMap Map) (laws : Lawful ops) where
  del_cnt-count :
      (m : Map) (fd fd' n : ℕ)
      → laws.count m fd ≡ pos (suc n)
      → laws.count (del_cnt ops m fd).0 fd'
        ≡ (if fd == fd' then decr (laws.count m fd') else laws.count m fd')
  unfolding del_cnt decr
  del_cnt-count m fd fd' n now = elim (Option-cases (ops.map_at m fd).1) [
    | inl missing ↦ absurd (zero_suc (sym (laws.at_none m fd missing) ∙ now))
    | inr (v, found) ↦
        rw (del_cnt, found)
          (laws.set _ fd (decr v) fd' ∙ elim (eq-cases fd fd') [
            | inl same ↦
                let here : (fd == fd') ≡ true = ground arith in
                rw here (ap decr (sym (laws.at_some m fd v found) ∙ ap (laws.count m) same))
            | inr other ↦
                let off : (fd == fd') ≡ false = ground arith in rw off (laws.at_same m fd fd')
          ])
  ]
    where
      zero_suc : pos 0 ≡ pos (suc n) → ⊥
      zero_suc e = cc

  cut_kind-tally :
      (k : Kind) (gfd ofd : ℕ) (e : Events) (p : Poller Map) (k' : Kind) (fd n : ℕ)
      → (wants k e ≡ true → tally ops laws p k ofd ≡ pos (suc n))
      → tally ops laws (cut_kind ops k gfd ofd e p) k' fd ≡ (
          if same_kind k k' && wants k e && ofd == fd
          then decr (tally ops laws p k' fd)
          else tally ops laws p k' fd)
  unfolding cut_kind
  cut_kind-tally k gfd ofd e p k' fd n some_left = elim (Bool-cases (wants k e)) [
    | inr unwanted ↦ rw unwanted (ground arith)
    | inl wanted ↦ elim (Bool-cases (is_nonzero (del_cnt ops (p.counts k) ofd).1)) [
      | inl more ↦ rw (wanted, more) (kinds k k' (some_left wanted))
      | inr none_left ↦ rw (wanted, none_left) (kinds k k' (some_left wanted))
    ]
  ]
    where
      kinds :
          (k k' : Kind)
          → tally ops laws p k ofd ≡ pos (suc n)
          → laws.count (if same_kind k k' then (del_cnt ops (p.counts k) ofd).0 else p.counts k') fd
            ≡ (if same_kind k k' && true && ofd == fd
                then decr (laws.count (p.counts k') fd)
                else laws.count (p.counts k') fd)
      kinds reading reading now = del_cnt-count (p.counts reading) ofd fd n now
      kinds writing writing now = del_cnt-count (p.counts writing) ofd fd n now
      kinds excepting excepting now = del_cnt-count (p.counts excepting) ofd fd n now
      kinds reading writing now = refl
      kinds reading excepting now = refl
      kinds writing reading now = refl
      kinds writing excepting now = refl
      kinds excepting reading now = refl
      kinds excepting writing now = refl

  pub cut_kinds-tally :
      (gfd ofd : ℕ) (e : Events) (p : Poller Map) (k : Kind) (fd : ℕ) (n : Kind → ℕ)
      → ((k : Kind) → wants k e ≡ true → tally ops laws p k ofd ≡ pos (suc (n k)))
      → tally ops laws (cut_kinds ops gfd ofd e p) k fd
        ≡ (if wants k e && ofd == fd then decr (tally ops laws p k fd) else tally ops laws p k fd)
  unfolding cut_kinds
  cut_kinds-tally gfd ofd e p k fd n left = at_kind k
    where
      after_r :
          (k : Kind) (fd : ℕ)
          → tally ops laws (cut_kind ops reading gfd ofd e p) k fd ≡ (
              if same_kind reading k && wants reading e && ofd == fd
              then decr (tally ops laws p k fd)
              else tally ops laws p k fd)
      after_r k fd = cut_kind-tally reading gfd ofd e p k fd (n reading) (left reading)

      after_w :
          (k : Kind) (fd : ℕ)
          → tally ops laws (cut_kind ops writing gfd ofd e (cut_kind ops reading gfd ofd e p)) k fd
            ≡ (if same_kind writing k && wants writing e && ofd == fd
                then decr (tally ops laws (cut_kind ops reading gfd ofd e p) k fd)
                else tally ops laws (cut_kind ops reading gfd ofd e p) k fd)
      after_w k fd =
          cut_kind-tally writing gfd ofd e (cut_kind ops reading gfd ofd e p) k fd (n writing)
            (λ on. after_r writing ofd ∙ left writing on)

      after_e :
          (k : Kind) (fd : ℕ)
          → tally ops laws (cut_kinds ops gfd ofd e p) k fd ≡ (
              if same_kind excepting k && wants excepting e && ofd == fd
              then decr (
                  tally ops laws
                    (cut_kind ops writing gfd ofd e (cut_kind ops reading gfd ofd e p))
                    k
                    fd)
              else tally ops laws
                  (cut_kind ops writing gfd ofd e (cut_kind ops reading gfd ofd e p))
                  k
                  fd)
      after_e k fd =
          cut_kind-tally excepting gfd ofd e
            (cut_kind ops writing gfd ofd e (cut_kind ops reading gfd ofd e p)) k fd (n excepting)
            (λ on. after_w excepting ofd ∙ after_r excepting ofd ∙ left excepting on)

      at_kind :
          (k : Kind)
          → tally ops laws (cut_kinds ops gfd ofd e p) k fd ≡ (
              if wants k e && ofd == fd
              then decr (tally ops laws p k fd)
              else tally ops laws p k fd)
      at_kind reading = after_e reading fd ∙ after_w reading fd ∙ after_r reading fd
      at_kind writing =
          after_e writing fd
          ∙ after_w writing fd
          ∙ ap (λ x. if wants writing e && ofd == fd then decr x else x) (after_r writing fd)
      at_kind excepting =
          after_e excepting fd
          ∙ ap (λ x. if wants excepting e && ofd == fd then decr x else x)
              (after_w excepting fd ∙ after_r excepting fd)

  pub cut_kind-select_num :
      (k : Kind) (gfd ofd : ℕ) (e : Events) (p : Poller Map)
      → (cut_kind ops k gfd ofd e p).select_num ≡ p.select_num
  unfolding cut_kind
  cut_kind-select_num k gfd ofd e p = ground arith

  del_pollfd-select_num :
      (pd : Pollfd) (p : Poller Map) → (del_pollfd ops pd p).select_num ≡ p.select_num
  unfolding del_pollfd cut_kinds
  del_pollfd-select_num pd p =
      elim (Bool-cases (pd.fd == 0 || is_no_event pd.events || leb p.select_num (get_gfd pd.fd))) [
        | inl skipped ↦ rw skipped
        | inr used ↦ rw (used, cut_kind-select_num, cut_kind-select_num, cut_kind-select_num)
      ]

  del_pollfd-tally :
      (pd : Pollfd) (p : Poller Map) (k : Kind) (fd : ℕ) (n : Kind → ℕ)
      → ((pd.fd == 0 || is_no_event pd.events) ≡ false → get_gfd pd.fd < p.select_num)
      → ((k : Kind)
          → wants k pd.events ≡ true
          → pd.fd ≢ 0
          → tally ops laws p k pd.fd ≡ pos (suc (n k)))
      → tally ops laws (del_pollfd ops pd p) k fd ≡ (
          if wants k pd.events && pd.fd == fd && not (pd.fd == 0)
          then decr (tally ops laws p k fd)
          else tally ops laws p k fd)
  unfolding del_pollfd
  del_pollfd-tally pd p k fd n grouped left =
      elim (Bool-cases (pd.fd == 0 || is_no_event pd.events)) [
        | inl skipped ↦
            let all : (pd.fd == 0 || is_no_event pd.events || leb p.select_num (get_gfd pd.fd))
                ≡ true =
              ground arith in
            rw all (ground (arith, wanted_event ops laws k pd.events))
        | inr used ↦
            let all : (pd.fd == 0 || is_no_event pd.events || leb p.select_num (get_gfd pd.fd))
                ≡ false =
              ground (arith, grouped used) in
            let real : pd.fd ≢ 0 = ground arith in
            rw all (
              cut_kinds-tally (get_gfd pd.fd) pd.fd pd.events p k fd n (λ k on. left k on real)
              ∙ ground arith)
      ]

  pub pollset_del-counts :
      (pds : List Pollfd) (p : Poller Map) (f : Kind → ℕ → ℕ)
      → Grouped p.select_num pds
      → ((k : Kind) (fd : ℕ) → tally ops laws p k fd ≡ pos (f k fd + hits k fd pds))
      → (k : Kind) (fd : ℕ) → tally ops laws (pollset_del ops pds p) k fd ≡ pos (f k fd)
  unfolding pollset_del hits decr
  pollset_del-counts [] p f grouped now k fd = now k fd ∙ ap pos (omega arith)
  pollset_del-counts (pd ∷ pds) p f grouped now k fd =
      pollset_del-counts pds (del_pollfd ops pd p) f (rw del_pollfd-select_num grouped.1) next k fd
    where
      left :
          (k : Kind)
          → wants k pd.events ≡ true
          → pd.fd ≢ 0
          → tally ops laws p k pd.fd ≡ pos (suc (f k pd.fd + hits k pd.fd pds))
      left k on real =
          let same : (pd.fd == pd.fd) ≡ true = ground arith in
          let not_null : (pd.fd == 0) ≡ false = ground arith in
          now k pd.fd ∙ rw (on, same, not_null) (ap pos (omega arith))

      next :
          (k : Kind) (fd : ℕ)
          → tally ops laws (del_pollfd ops pd p) k fd ≡ pos (f k fd + hits k fd pds)
      next k fd =
          del_pollfd-tally pd p k fd (λ k. f k pd.fd + hits k pd.fd pds) grouped.0 left
          ∙ elim (Bool-cases (wants k pd.events && pd.fd == fd && not (pd.fd == 0))) [
            | inl hit ↦ rw (hit, now k fd, hit) (lowered (f k fd) (hits k fd pds))
            | inr missed ↦ rw (missed, now k fd, missed)
          ]

  add_kind-select_num :
      (k : Kind) (gfd ofd : ℕ) (e : Events) (p : Poller Map)
      → (add_kind ops k gfd ofd e p).select_num ≡ p.select_num
  unfolding add_kind
  add_kind-select_num k gfd ofd e p = ground arith

  add_pollfd-select_num :
      (pd : Pollfd) (p : Poller Map)
      → (p.select_num ≤ (add_pollfd ops pd p).select_num)
        × ((pd.fd == 0 || is_no_event pd.events) ≡ false
            → get_gfd pd.fd < (add_pollfd ops pd p).select_num)
  unfolding add_pollfd check_seldata
  add_pollfd-select_num pd p = elim (Bool-cases (pd.fd == 0 || is_no_event pd.events)) [
    | inl skipped ↦ rw skipped (ground arith, λ e. cc)
    | inr used ↦
        rw (used, add_kind-select_num, add_kind-select_num, add_kind-select_num)
          (ground arith, λ e. ground arith)
  ]

  pub Grouped-le : (a b : ℕ) (pds : List Pollfd) → a ≤ b → Grouped a pds → Grouped b pds
  Grouped-le a b [] le g = tt
  Grouped-le a b (pd ∷ pds) le g = ((λ e. omega (arith, g.0 e, le)), Grouped-le a b pds le g.1)

  pub pollset_add-select_num :
      (pds : List Pollfd) (p : Poller Map) → p.select_num ≤ (pollset_add ops pds p).select_num
  unfolding pollset_add
  pollset_add-select_num [] p = omega arith
  pollset_add-select_num (pd ∷ pds) p =
      omega
        (arith, (add_pollfd-select_num pd p).0, pollset_add-select_num pds (add_pollfd ops pd p))

  pub pollset_add-Grouped :
      (pds : List Pollfd) (p : Poller Map) → Grouped (pollset_add ops pds p).select_num pds
  unfolding pollset_add
  pollset_add-Grouped [] p = tt
  pollset_add-Grouped (pd ∷ pds) p = (
    (λ e. omega (
      arith,
      (add_pollfd-select_num pd p).1 e,
      pollset_add-select_num pds (add_pollfd ops pd p),
    )),
    pollset_add-Grouped pds (add_pollfd ops pd p),
  )

  -- Over a lawful map and counts that are not negative, `_st_select_pollset_del` of the entries
  -- that `_st_select_pollset_add` has added takes back exactly what was counted: the count of every
  -- descriptor and kind of event is what it was before.
  pub pollset_del-pollset_add :
      (pds : List Pollfd) (p : Poller Map) (f : Kind → ℕ → ℕ)
      → ((k : Kind) (fd : ℕ) → tally ops laws p k fd ≡ pos (f k fd))
      → (k : Kind) (fd : ℕ)
      → tally ops laws (pollset_del ops pds (pollset_add ops pds p)) k fd ≡ tally ops laws p k fd
  pollset_del-pollset_add pds p f now k fd =
      pollset_del-counts pds (pollset_add ops pds p) f (pollset_add-Grouped pds p)
        (λ k fd. pollset_add-counts ops laws pds p k fd (f k fd) (now k fd)) k fd
      ∙ sym (now k fd)

-- ===== src/Event/Watched.antt =====
-- The counts of the select event system are the numbers of the entries on the I/O queue: what polling,
-- leaving and the dispatch of a poll queue do to them.
use st_win.Prelude.{
  ℕ, suc, ◌+◌, ◌<◌, ◌≡◌, ◌≢◌, inl, inr, refl, ap, ◌∙◌, ◌==◌, leb, Bool, true, false, not, ◌&&◌,
  ◌||◌, List, [], ◌∷◌, ◌++◌, if◌then◌else◌, update, arith, eq-cases, Bool-cases,
}
use st_win.Prelude.Int.{pos, decr}
use st_win.Prelude.Members.{has, remove_link}
use st_win.TimeoutHeap.{Addr}
use st_win.Vp.{Events, Pollfd}
use st_win.Event.{
  Kind, wants, is_no_event, FdMap, Poller, get_gfd, cut_kind, cut_kinds, del_pollfd, add_pollfd,
  add_kind, check_seldata, pollset_add, pollset_del,
}
use st_win.Event.Counts.{Lawful, hits, tally, wanted_event}
use st_win.Event.Balance.{Grouped, lowered, cut_kind-select_num, cut_kinds-tally}
use st_win.Event.Dispatch.{mark_pollfd, mark_all, cut_pollfds}

-- The number of entries of the queues `q` that want an event of this kind of the descriptor.
unfoldable pub queued : (Addr → List Pollfd) → Kind → ℕ → List Addr → ℕ
queued f k fd [] = 0
queued f k fd (pq ∷ q) = hits k fd (f pq) + queued f k fd q

-- No entry has the descriptor 0.
abbrev pub Real : List Pollfd → Type 0
Real [] = Unit
Real (pd ∷ pds) = (pd.fd ≢ 0) × Real pds

pub queued-append :
    (f : Addr → List Pollfd) (k : Kind) (fd : ℕ) (q : List Addr) (x : Addr)
    → queued f k fd (q ++ (x ∷ [])) ≡ queued f k fd q + hits k fd (f x)
unfolding queued
queued-append f k fd [] x = omega arith
queued-append f k fd (y ∷ q) x = omega (arith, queued-append f k fd q x)

pub queued-update :
    (f : Addr → List Pollfd) (k : Kind) (fd : ℕ) (q : List Addr) (x : Addr) (pds : List Pollfd)
    → has x q ≡ false
    → queued (update f x pds) k fd q ≡ queued f k fd q
unfolding queued has
queued-update f k fd [] x pds off = refl
queued-update f k fd (y ∷ q) x pds off =
    let d : (x == y) ≡ false = ground arith in
    rw (d, queued-update f k fd q x pds (ground arith)) refl

pub queued-remove :
    (f : Addr → List Pollfd) (k : Kind) (fd : ℕ) (q : List Addr) (x : Addr)
    → has x q ≡ true
    → queued f k fd q ≡ queued f k fd (remove_link x q) + hits k fd (f x)
unfolding queued has remove_link
queued-remove f k fd [] x on = cc
queued-remove f k fd (y ∷ q) x on = elim (eq-cases y x) [
  | inl same ↦
      let s : (y == x) ≡ true = ground arith in
      let h = ap (λ a. hits k fd (f a)) same in rw s (omega arith)
  | inr diff ↦
      let d : (y == x) ≡ false = ground arith in
      let rest = queued-remove f k fd q x (ground arith) in rw d (omega arith)
]

-- `revents` does not matter.
pub queued-marked :
    (f : Addr → List Pollfd) (k : Kind) (fd : ℕ) (q : List Addr) (x : Addr) (pds : List Pollfd)
    → hits k fd pds ≡ hits k fd (f x)
    → queued (update f x pds) k fd q ≡ queued f k fd q
unfolding queued
queued-marked f k fd [] x pds same = refl
queued-marked f k fd (y ∷ q) x pds same =
    let rest = queued-marked f k fd q x pds same in
    elim (eq-cases x y) [
      | inl here ↦
          let s : (x == y) ≡ true = ground arith in
          let h = ap (λ a. hits k fd (f a)) here in rw (s, rest) (omega arith)
      | inr there ↦ let d : (x == y) ≡ false = ground arith in rw (d, rest) refl
    ]

mark_pollfd-same :
    (set : Kind → ℕ → Bool) (pd : Pollfd)
    → ((mark_pollfd set pd).0.fd ≡ pd.fd) × ((mark_pollfd set pd).0.events ≡ pd.events)
unfolding mark_pollfd
mark_pollfd-same set pd = (ground arith, ground arith)

pub marked-hits :
    (set : Kind → ℕ → Bool) (k : Kind) (fd : ℕ) (pds : List Pollfd)
    → hits k fd (mark_all (mark_pollfd set) pds).0 ≡ hits k fd pds
unfolding mark_all hits
marked-hits set k fd [] = refl
marked-hits set k fd (pd ∷ pds) =
    let (f, e) = mark_pollfd-same set pd in rw (f, e, marked-hits set k fd pds) refl

pub marked-Grouped :
    (set : Kind → ℕ → Bool) (n : ℕ) (pds : List Pollfd)
    → Grouped n pds
    → Grouped n (mark_all (mark_pollfd set) pds).0
unfolding mark_all
marked-Grouped set n [] g = tt
marked-Grouped set n (pd ∷ pds) g =
    let (f, e) = mark_pollfd-same set pd in (rw (f, e) g.0, marked-Grouped set n pds g.1)

pub marked-Real :
    (set : Kind → ℕ → Bool) (pds : List Pollfd) → Real pds → Real (mark_all (mark_pollfd set) pds).0
unfolding mark_all
marked-Real set [] r = tt
marked-Real set (pd ∷ pds) r =
    let (f, e) = mark_pollfd-same set pd in (rw f r.0, marked-Real set pds r.1)

-- What cutting and adding leave of the virtual processor and of the groups.
module _ {Map : Type 0} (ops : FdMap Map) (laws : Lawful ops) where
  cut_kind-vp :
      (k : Kind) (gfd ofd : ℕ) (e : Events) (p : Poller Map)
      → (cut_kind ops k gfd ofd e p).vp ≡ p.vp
  unfolding cut_kind
  cut_kind-vp k gfd ofd e p = ground arith

  cut_kinds-same :
      (gfd ofd : ℕ) (e : Events) (p : Poller Map)
      → ((cut_kinds ops gfd ofd e p).vp ≡ p.vp)
        × ((cut_kinds ops gfd ofd e p).select_num ≡ p.select_num)
  unfolding cut_kinds
  cut_kinds-same gfd ofd e p = (
    rw (cut_kind-vp, cut_kind-vp, cut_kind-vp) refl,
    cut_kind-select_num ops laws _ gfd ofd e _
        ∙ cut_kind-select_num ops laws _ gfd ofd e _
        ∙ cut_kind-select_num ops laws _ gfd ofd e p,
  )

  add_kind-vp :
      (k : Kind) (gfd ofd : ℕ) (e : Events) (p : Poller Map)
      → (add_kind ops k gfd ofd e p).vp ≡ p.vp
  unfolding add_kind
  add_kind-vp k gfd ofd e p = ground arith

  add_pollfd-vp : (pd : Pollfd) (p : Poller Map) → (add_pollfd ops pd p).vp ≡ p.vp
  unfolding add_pollfd check_seldata
  add_pollfd-vp pd p = elim (Bool-cases (pd.fd == 0 || is_no_event pd.events)) [
    | inl skipped ↦ rw skipped refl
    | inr used ↦ rw (used, add_kind-vp, add_kind-vp, add_kind-vp) (ground arith)
  ]

  pub pollset_add-vp : (pds : List Pollfd) (p : Poller Map) → (pollset_add ops pds p).vp ≡ p.vp
  unfolding pollset_add
  pollset_add-vp [] p = refl
  pollset_add-vp (pd ∷ pds) p = pollset_add-vp pds (add_pollfd ops pd p) ∙ add_pollfd-vp pd p

  del_pollfd-same :
      (pd : Pollfd) (p : Poller Map)
      → ((del_pollfd ops pd p).vp ≡ p.vp) × ((del_pollfd ops pd p).select_num ≡ p.select_num)
  unfolding del_pollfd
  del_pollfd-same pd p =
      let (v, n) = cut_kinds-same (get_gfd pd.fd) pd.fd pd.events p in
      elim (Bool-cases (pd.fd == 0 || is_no_event pd.events || leb p.select_num (get_gfd pd.fd))) [
        | inl skipped ↦ rw skipped (refl, refl)
        | inr used ↦ rw used (v, n)
      ]

  pub pollset_del-same :
      (pds : List Pollfd) (p : Poller Map)
      → ((pollset_del ops pds p).vp ≡ p.vp) × ((pollset_del ops pds p).select_num ≡ p.select_num)
  unfolding pollset_del
  pollset_del-same [] p = (refl, refl)
  pollset_del-same (pd ∷ pds) p =
      let (v, n) = del_pollfd-same pd p in
      let (v', n') = pollset_del-same pds (del_pollfd ops pd p) in (v' ∙ v, n' ∙ n)

  abbrev cut_pollfd : Pollfd → Poller Map → Poller Map
  cut_pollfd pd p =
      if leb p.select_num (get_gfd pd.fd)
      then p
      else cut_kinds ops (get_gfd pd.fd) pd.fd pd.events p

  cut_pollfd-same :
      (pd : Pollfd) (p : Poller Map)
      → ((cut_pollfd pd p).vp ≡ p.vp) × ((cut_pollfd pd p).select_num ≡ p.select_num)
  cut_pollfd-same pd p =
      let (v, n) = cut_kinds-same (get_gfd pd.fd) pd.fd pd.events p in
      elim (Bool-cases (leb p.select_num (get_gfd pd.fd))) [
        | inl skipped ↦ rw skipped (refl, refl)
        | inr used ↦ rw used (v, n)
      ]

  pub cut_pollfds-same :
      (pds : List Pollfd) (p : Poller Map)
      → ((cut_pollfds ops pds p).vp ≡ p.vp) × ((cut_pollfds ops pds p).select_num ≡ p.select_num)
  unfolding cut_pollfds
  cut_pollfds-same [] p = (refl, refl)
  cut_pollfds-same (pd ∷ pds) p =
      let (v, n) = cut_pollfd-same pd p in
      let (v', n') = cut_pollfds-same pds (cut_pollfd pd p) in (v' ∙ v, n' ∙ n)

  cut_pollfd-tally :
      (pd : Pollfd) (p : Poller Map) (k : Kind) (fd : ℕ) (n : Kind → ℕ)
      → ((pd.fd == 0 || is_no_event pd.events) ≡ false → get_gfd pd.fd < p.select_num)
      → pd.fd ≢ 0
      → ((k : Kind) → wants k pd.events ≡ true → tally ops laws p k pd.fd ≡ pos (suc (n k)))
      → tally ops laws (cut_pollfd pd p) k fd ≡ (
          if wants k pd.events && pd.fd == fd && not (pd.fd == 0)
          then decr (tally ops laws p k fd)
          else tally ops laws p k fd)
  cut_pollfd-tally pd p k fd n grouped real left =
      let cut = cut_kinds-tally ops laws (get_gfd pd.fd) pd.fd pd.events p k fd n left in
      let z : (pd.fd == 0) ≡ false = ground arith in
      elim (Bool-cases (is_no_event pd.events)) [
        | inl nothing ↦
            let w : wants k pd.events ≡ false = unwanted nothing in
            elim (Bool-cases (leb p.select_num (get_gfd pd.fd))) [
              | inl skipped ↦ rw (skipped, w) refl
              | inr used ↦ rw (used, w) (rw w at cut)
            ]
        | inr some_event ↦
            let used : leb p.select_num (get_gfd pd.fd) ≡ false = ground (arith, grouped) in
            rw used (cut ∙ rw z (ground arith))
      ]
    where
      unwanted : is_no_event pd.events ≡ true → wants k pd.events ≡ false
      unwanted e = elim (Bool-cases (wants k pd.events)) [
        | inr off ↦ off
        | inl on ↦ let e' = wanted_event ops laws k pd.events on in cc
      ]

  pub cut_pollfds-counts :
      (pds : List Pollfd) (p : Poller Map) (f : Kind → ℕ → ℕ)
      → Grouped p.select_num pds
      → Real pds
      → ((k : Kind) (fd : ℕ) → tally ops laws p k fd ≡ pos (f k fd + hits k fd pds))
      → (k : Kind) (fd : ℕ) → tally ops laws (cut_pollfds ops pds p) k fd ≡ pos (f k fd)
  unfolding cut_pollfds hits decr
  cut_pollfds-counts [] p f grouped real now k fd = now k fd ∙ ap pos (omega arith)
  cut_pollfds-counts (pd ∷ pds) p f grouped real now k fd =
      cut_pollfds-counts pds (cut_pollfd pd p) f (rw (cut_pollfd-same pd p).1 grouped.1) real.1 next
        k fd
    where
      left :
          (k : Kind)
          → wants k pd.events ≡ true
          → tally ops laws p k pd.fd ≡ pos (suc (f k pd.fd + hits k pd.fd pds))
      left k on =
          let same : (pd.fd == pd.fd) ≡ true = ground arith in
          let not_null : (pd.fd == 0) ≡ false = let r = real.0 in ground arith in
          now k pd.fd ∙ rw (on, same, not_null) (ap pos (omega arith))

      next :
          (k : Kind) (fd : ℕ) → tally ops laws (cut_pollfd pd p) k fd ≡ pos (f k fd + hits k fd pds)
      next k fd =
          cut_pollfd-tally pd p k fd (λ k. f k pd.fd + hits k pd.fd pds) grouped.0 real.0 left
          ∙ elim (Bool-cases (wants k pd.events && pd.fd == fd && not (pd.fd == 0))) [
            | inl hit ↦ rw (hit, now k fd, hit) (lowered (f k fd) (hits k fd pds))
            | inr missed ↦ rw (missed, now k fd, missed)
          ]

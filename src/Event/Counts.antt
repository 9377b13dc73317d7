-- ===== src/Event/Counts.antt =====
-- The counts of the descriptors: how many entries of the poll queues want an event of a descriptor.
use st_win.Prelude.{
  ℕ, suc, ◌+◌, ◌≡◌, inl, inr, refl, sym, ap, ◌∙◌, ◌==◌, true, false, not, ◌&&◌, ◌||◌, none, some,
  Option-cases, List, [], ◌∷◌, if◌then◌else◌, arith, eq-cases, Bool-cases,
}
use st_win.Prelude.Int.{ℤ, pos, incr}
use st_win.Vp.{Events, Pollfd}
use st_win.Event.{
  Kind, reading, writing, excepting, same_kind, wants, is_no_event, FdMap, Poller, add_cnt,
  add_kind, check_seldata, get_gfd, add_pollfd, pollset_add,
}

-- What the cstl map promises, with `count` the value of a key, 0 for a key that is missing.
pub record Lawful {Map : Type 0} (ops : FdMap Map) : Type 0 where
  pub count : Map → ℕ → ℤ
  pub at_same : (m : Map) (k k' : ℕ) → count (ops.map_at m k).0 k' ≡ count m k'
  pub at_none : (m : Map) (k : ℕ) → (ops.map_at m k).1 ≡ none → count m k ≡ pos 0
  pub at_some : (m : Map) (k : ℕ) (v : ℤ) → (ops.map_at m k).1 ≡ some v → count m k ≡ v
  pub set :
      (m : Map) (k : ℕ) (v : ℤ) (k' : ℕ)
      → count (ops.map_set m k v) k' ≡ (if k == k' then v else count m k')
  pub insert :
      (m : Map) (k : ℕ) (v : ℤ) (k' : ℕ)
      → count (ops.map_insert m k v) k' ≡ (if k == k' then v else count m k')

-- The number of entries that want an event of this kind of the descriptor.
unfoldable pub hits : Kind → ℕ → List Pollfd → ℕ
hits k fd [] = 0
hits k fd (pd ∷ pds) =
    let n = hits k fd pds in
    if wants k pd.events && pd.fd == fd && not (pd.fd == 0) then suc n else n

module _ {Map : Type 0} (ops : FdMap Map) (laws : Lawful ops) where
  abbrev pub tally : Poller Map → Kind → ℕ → ℤ
  tally p k fd = laws.count (p.counts k) fd

  -- A key's value is written after `map_at` has found or made it.
  rewritten :
      (m : Map) (fd fd' : ℕ) (v w : ℤ)
      → laws.count m fd ≡ v
      → incr v ≡ w
      → (if fd == fd' then w else laws.count (ops.map_at m fd).0 fd')
        ≡ (if fd == fd' then incr (laws.count m fd') else laws.count m fd')
  rewritten m fd fd' v w now next = elim (eq-cases fd fd') [
    | inl same ↦
        let here : (fd == fd') ≡ true = ground arith in
        rw here (sym next ∙ ap incr (sym now ∙ ap (laws.count m) same))
    | inr other ↦ let off : (fd == fd') ≡ false = ground arith in rw off (laws.at_same m fd fd')
  ]

  add_cnt-count :
      (m : Map) (fd fd' : ℕ)
      → laws.count (add_cnt ops m fd) fd'
        ≡ (if fd == fd' then incr (laws.count m fd') else laws.count m fd')
  unfolding add_cnt incr
  add_cnt-count m fd fd' = elim (Option-cases (ops.map_at m fd).1) [
    | inl missing ↦
        rw (add_cnt, missing)
          (laws.insert _ fd (pos 1) fd'
            ∙ rewritten m fd fd' (pos 0) (pos 1) (laws.at_none m fd missing) refl)
    | inr (v, found) ↦
        rw (add_cnt, found)
          (laws.set _ fd (incr v) fd'
            ∙ rewritten m fd fd' v (incr v) (laws.at_some m fd v found) refl)
  ]

  add_kind-tally :
      (k : Kind) (gfd ofd : ℕ) (e : Events) (p : Poller Map) (k' : Kind) (fd : ℕ)
      → tally (add_kind ops k gfd ofd e p) k' fd
        ≡ (if same_kind k k' && wants k e && ofd == fd then incr (tally p k' fd) else tally p k' fd)
  unfolding add_kind
  add_kind-tally k gfd ofd e p k' fd = elim (Bool-cases (wants k e)) [
    | inr unwanted ↦ rw unwanted (ground arith)
    | inl wanted ↦ rw wanted (kinds k k')
  ]
    where
      kinds :
          (k k' : Kind)
          → laws.count (if same_kind k k' then add_cnt ops (p.counts k) ofd else p.counts k') fd ≡ (
              if same_kind k k' && true && ofd == fd
              then incr (laws.count (p.counts k') fd)
              else laws.count (p.counts k') fd)
      kinds reading reading = add_cnt-count (p.counts reading) ofd fd
      kinds writing writing = add_cnt-count (p.counts writing) ofd fd
      kinds excepting excepting = add_cnt-count (p.counts excepting) ofd fd
      kinds reading writing = refl
      kinds reading excepting = refl
      kinds writing reading = refl
      kinds writing excepting = refl
      kinds excepting reading = refl
      kinds excepting writing = refl

  check_seldata-counts : (gfd : ℕ) (p : Poller Map) → (check_seldata ops gfd p).counts ≡ p.counts
  unfolding check_seldata
  check_seldata-counts gfd p = ground arith

  -- The three kinds of one descriptor.
  abbrev all_kinds : ℕ → ℕ → Events → Poller Map → Poller Map
  all_kinds gfd ofd e p =
      add_kind ops excepting gfd ofd e
        (add_kind ops writing gfd ofd e (add_kind ops reading gfd ofd e p))

  all_kinds-tally :
      (gfd ofd : ℕ) (e : Events) (p : Poller Map) (k : Kind) (fd : ℕ)
      → tally (all_kinds gfd ofd e p) k fd
        ≡ (if wants k e && ofd == fd then incr (tally p k fd) else tally p k fd)
  all_kinds-tally gfd ofd e p k fd =
      let r = add_kind ops reading gfd ofd e p in
      let w = add_kind ops writing gfd ofd e r in
      add_kind-tally excepting gfd ofd e w k fd
      ∙ rw (add_kind-tally writing gfd ofd e r k fd, add_kind-tally reading gfd ofd e p k fd)
          (kinds k)
    where
      kinds :
          (k : Kind)
          → (if same_kind excepting k && wants excepting e && ofd == fd
              then incr (
                  if same_kind writing k && wants writing e && ofd == fd
                  then incr (
                      if same_kind reading k && wants reading e && ofd == fd
                      then incr (tally p k fd)
                      else tally p k fd)
                  else if same_kind reading k && wants reading e && ofd == fd
                  then incr (tally p k fd)
                  else tally p k fd)
              else if same_kind writing k && wants writing e && ofd == fd
              then incr (
                  if same_kind reading k && wants reading e && ofd == fd
                  then incr (tally p k fd)
                  else tally p k fd)
              else if same_kind reading k && wants reading e && ofd == fd
              then incr (tally p k fd)
              else tally p k fd)
            ≡ (if wants k e && ofd == fd then incr (tally p k fd) else tally p k fd)
      kinds reading = refl
      kinds writing = refl
      kinds excepting = refl

  pub wanted_event : (k : Kind) (e : Events) → wants k e ≡ true → is_no_event e ≡ false
  wanted_event reading e w = ground arith
  wanted_event writing e w = ground arith
  wanted_event excepting e w = ground arith

  add_pollfd-tally :
      (pd : Pollfd) (p : Poller Map) (k : Kind) (fd : ℕ)
      → tally (add_pollfd ops pd p) k fd ≡ (
          if wants k pd.events && pd.fd == fd && not (pd.fd == 0)
          then incr (tally p k fd)
          else tally p k fd)
  unfolding add_pollfd
  add_pollfd-tally pd p k fd = elim (Bool-cases (pd.fd == 0 || is_no_event pd.events)) [
    | inl skipped ↦ rw skipped (ground (arith, wanted_event k pd.events))
    | inr used ↦ rw used (
        all_kinds-tally (get_gfd pd.fd) pd.fd pd.events (check_seldata ops (get_gfd pd.fd) p) k fd
        ∙ rw check_seldata-counts (ground arith))
  ]

  -- Over a lawful map and a count that is not negative, `_st_select_pollset_add` raises the count
  -- of a descriptor and kind of event by the number of the entries that want that event of that
  -- descriptor.
  pub pollset_add-counts :
      (pds : List Pollfd) (p : Poller Map) (k : Kind) (fd n : ℕ)
      → tally p k fd ≡ pos n
      → tally (pollset_add ops pds p) k fd ≡ pos (n + hits k fd pds)
  unfolding pollset_add hits incr
  pollset_add-counts [] p k fd n now = now ∙ ap pos (omega arith)
  pollset_add-counts (pd ∷ pds) p k fd n now =
      let step = add_pollfd-tally pd p k fd in
      elim (Bool-cases (wants k pd.events && pd.fd == fd && not (pd.fd == 0))) [
        | inl hit ↦ rw hit (
            pollset_add-counts pds (add_pollfd ops pd p) k fd (suc n) (step ∙ rw (hit, now) refl)
            ∙ ap pos (omega arith))
        | inr missed ↦
            rw missed
              (pollset_add-counts pds (add_pollfd ops pd p) k fd n (step ∙ rw (missed, now) refl))
      ]

-- ===== src/Event/Queued.antt =====
-- The invariant of the I/O queue, and what a poll queue does to it that joins or is taken off.
use st_win.Prelude.{
  ℕ, ◌+◌, ◌≡◌, ◌≢◌, inl, inr, refl, sym, ap, subst, ◌⊎◌, ◌∙◌, true, false, List, update,
  update_self, update_ne, arith, eq-cases,
}
use st_win.Prelude.Int.{pos}
use st_win.Prelude.Members.{
  has, Distinct, has-remove_link, Distinct-remove_link, has-append_link, Distinct-append_link,
}
use st_win.TimeoutHeap.{Addr}
use st_win.Vp.{Pollfd, Vp}
use st_win.Clist.{append_link, remove_link}
use st_win.Sched.{add_sleep_q}
use st_win.Event.{Kind, FdMap, Poller, pollset_add}
use st_win.Event.Counts.{Lawful, hits, tally, pollset_add-counts}
use st_win.Event.Balance.{Grouped, pollset_add-Grouped, pollset_add-select_num, Grouped-le}
use st_win.Event.Dispatch.{with_vp}
use st_win.Event.Poll.{poll_enqueue}
use st_win.Event.Watched.{queued, Real, queued-append, queued-update, queued-remove, pollset_add-vp}

module _ {Map : Type 0} (ops : FdMap Map) (laws : Lawful ops) where
  -- The counts are the numbers of the entries on the I/O queue.
  pub record Balanced (p : Poller Map) : Type 0 where
    pub distinct : Distinct p.vp.io_q
    pub counts : (k : Kind) (fd : ℕ) → tally ops laws p k fd ≡ pos (queued p.vp.pds k fd p.vp.io_q)
    pub grouped : (pq : Addr) → has pq p.vp.io_q ≡ true → Grouped p.select_num (p.vp.pds pq)
    pub real : (pq : Addr) → has pq p.vp.io_q ≡ true → Real (p.vp.pds pq)
    pub flags : (pq : Addr) → has pq p.vp.io_q ≡ true → p.vp.on_ioq pq ≡ true

  pub Balanced-other :
      {p : Poller Map} (vp : Vp)
      → vp.io_q ≡ p.vp.io_q
      → vp.pds ≡ p.vp.pds
      → vp.on_ioq ≡ p.vp.on_ioq
      → Balanced p
      → Balanced (with_vp ops vp p)
  Balanced-other vp q d o b = record {
    distinct = rw q b.distinct;
    counts = rw (q, d) b.counts;
    grouped = rw (q, d) b.grouped;
    real = rw (q, d) b.real;
    flags = rw (q, o) b.flags;
  }

  enqueue-fields :
      (me pq : Addr) (pds : List Pollfd) (timeout : ℕ) (vp : Vp)
      → ((poll_enqueue me pq pds timeout vp).io_q ≡ append_link pq vp.io_q)
        × ((poll_enqueue me pq pds timeout vp).pds ≡ update vp.pds pq pds)
        × ((poll_enqueue me pq pds timeout vp).on_ioq ≡ update vp.on_ioq pq true)
  unfolding poll_enqueue add_sleep_q
  enqueue-fields me pq pds timeout vp = (refl, refl, refl)

  -- An entry of the I/O queue after an append is the new one, with its data, or an old one with its own.
  appended :
      {A : Type 0} (f : Addr → A) (pq : Addr) (v : A) (q : List Addr) (a : Addr)
      → has pq q ≡ false
      → has a (append_link pq q) ≡ true
      → (update f pq v a ≡ v) ⊎ ((has a q ≡ true) × (update f pq v a ≡ f a))
  appended f pq v q a new m = elim (eq-cases pq a) [
    | inl same ↦ inl (ap (update f pq v) (sym same) ∙ update_self f pq v)
    | inr diff ↦ inr (ground (arith, has-append_link a pq q), update_ne f pq a v diff)
  ]

  pub Balanced-enqueue :
      {p : Poller Map} (me pq : Addr) (pds : List Pollfd) (timeout : ℕ)
      → has pq p.vp.io_q ≡ false
      → Real pds
      → Balanced p
      → Balanced (
          with_vp ops
            (poll_enqueue me pq pds timeout (pollset_add ops pds p).vp)
            (pollset_add ops pds p))
  Balanced-enqueue {p} me pq pds timeout new real b =
      let p₁ = pollset_add ops pds p in
      let (q, d, o) = enqueue-fields me pq pds timeout p₁.vp in
      let v = pollset_add-vp ops laws pds p in
      let le = pollset_add-select_num ops laws pds p in
      let q₁ = q ∙ ap (λ (x : Vp). append_link pq x.io_q) v in
      let d₁ = d ∙ ap (λ (x : Vp). update x.pds pq pds) v in
      let o₁ = o ∙ ap (λ (x : Vp). update x.on_ioq pq true) v in
      record {
        distinct = rw q₁ (Distinct-append_link pq p.vp.io_q b.distinct new);
        counts = λ k fd.
            rw (q₁, d₁)
              (pollset_add-counts ops laws pds p k fd _ (b.counts k fd)
                ∙ ap pos (
                    sym (
                      queued-append (update p.vp.pds pq pds) k fd p.vp.io_q pq
                      ∙ rw
                          (
                            queued-update p.vp.pds k fd p.vp.io_q pq pds new,
                            update_self p.vp.pds pq pds,
                          )
                          refl)));
        grouped = λ a m. rw d₁ (elim (appended p.vp.pds pq pds p.vp.io_q a new (rw q₁ at m)) [
          | inl e ↦ subst (Grouped p₁.select_num) (sym e) (pollset_add-Grouped ops laws pds p)
          | inr (on, e) ↦
              subst (Grouped p₁.select_num) (sym e)
                (Grouped-le ops laws p.select_num p₁.select_num (p.vp.pds a) le (b.grouped a on))
        ]);
        real = λ a m. rw d₁ (elim (appended p.vp.pds pq pds p.vp.io_q a new (rw q₁ at m)) [
          | inl e ↦ subst Real (sym e) real
          | inr (on, e) ↦ subst Real (sym e) (b.real a on)
        ]);
        flags = λ a m. rw o₁ (elim (appended p.vp.on_ioq pq true p.vp.io_q a new (rw q₁ at m)) [
          | inl e ↦ e
          | inr (on, e) ↦ e ∙ b.flags a on
        ]);
      }

  -- The descriptors of a poll queue are cut when it is taken off: what `r` has kept.
  pub Balanced-removed :
      {p r : Poller Map} (pq : Addr)
      → has pq p.vp.io_q ≡ true
      → Balanced p
      → r.vp.io_q ≡ remove_link pq p.vp.io_q
      → r.vp.pds ≡ p.vp.pds
      → ((a : Addr) → a ≢ pq → r.vp.on_ioq a ≡ p.vp.on_ioq a)
      → r.select_num ≡ p.select_num
      → ((k : Kind) (fd : ℕ)
          → tally ops laws r k fd ≡ pos (queued p.vp.pds k fd (remove_link pq p.vp.io_q)))
      → Balanced r
  Balanced-removed {p} {r} pq on b q d o n counts =
      let kept : (a : Addr) → has a r.vp.io_q ≡ true → (has a p.vp.io_q ≡ true) × (a ≢ pq) = λ a m.
        let m' : has a (remove_link pq p.vp.io_q) ≡ true = rw (← q) m in
        (
          ground (arith, has-remove_link a pq p.vp.io_q b.distinct),
          ground (arith, has-remove_link a pq p.vp.io_q b.distinct),
        ) in
      record {
        distinct = rw q (Distinct-remove_link pq p.vp.io_q b.distinct);
        counts = rw (q, d) counts;
        grouped = λ a m. rw (n, d) (b.grouped a (kept a m).0);
        real = λ a m. rw d (b.real a (kept a m).0);
        flags = λ a m. o a (kept a m).1 ∙ b.flags a (kept a m).0;
      }

  pub left_counts :
      {p : Poller Map} (pq : Addr)
      → has pq p.vp.io_q ≡ true
      → Balanced p
      → (k : Kind) (fd : ℕ)
      → tally ops laws p k fd
        ≡ pos (queued p.vp.pds k fd (remove_link pq p.vp.io_q) + hits k fd (p.vp.pds pq))
  left_counts {p} pq on b k fd =
      b.counts k fd ∙ ap pos (queued-remove p.vp.pds k fd p.vp.io_q pq on)

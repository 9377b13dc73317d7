-- ===== src/Event/Tracking.antt =====
-- Every interleaving of st_poll with the dispatch of the select event system keeps the counts right.
use st_win.Prelude.{
  ℕ, ◌≡◌, ◌≢◌, inl, inr, refl, sym, ap, subst, ◌∙◌, Bool, true, false, List, if◌then◌else◌, update,
  update_self, update_ne, arith, eq-cases, Bool-cases,
}
use st_win.Prelude.Int.{pos}
use st_win.Prelude.Members.{has}
use st_win.TimeoutHeap.{Addr}
use st_win.Vp.{Pollfd, Vp, interrupted}
use st_win.Clist.{remove_link}
use st_win.Sched.{leave_sleep_q, del_sleep_q}
use st_win.Event.{Kind, FdMap, Poller, pollset_add, pollset_del, notify, take_off}
use st_win.Event.Counts.{Lawful}
use st_win.Event.Balance.{Grouped, pollset_del-counts}
use st_win.Event.Dispatch.{mark_pollfd, mark_all, cut_pollfds, dispatch_pollq, set_pds, with_vp}
use st_win.Event.Poll.{poll_enqueue, poll_leave}
use st_win.Event.Watched.{
  queued, Real, queued-marked, marked-hits, marked-Grouped, marked-Real, pollset_del-same,
  cut_pollfds-same, cut_pollfds-counts,
}
use st_win.Event.Queued.{Balanced, Balanced-other, Balanced-enqueue, Balanced-removed, left_counts}

module _ {Map : Type 0} (ops : FdMap Map) (laws : Lawful ops) where
  -- `st_poll` before and after the switch, for a poll queue that is not on the I/O queue yet, still on it,
  -- or taken off; a poll queue in the loop of the dispatch; and whatever leaves the I/O queue alone.
  pub data Step (p : Poller Map) : Poller Map → Type 0 where
    enqueue :
        (me pq : Addr) (pds : List Pollfd) (timeout : ℕ)
        → has pq p.vp.io_q ≡ false
        → Real pds
        → Step p (
            with_vp ops
              (poll_enqueue me pq pds timeout (pollset_add ops pds p).vp)
              (pollset_add ops pds p))
    leave : (me pq : Addr) → has pq p.vp.io_q ≡ true → Step p (poll_leave ops me pq p).0
    leave_notified : (me pq : Addr) → p.vp.on_ioq pq ≡ false → Step p (poll_leave ops me pq p).0
    dispatch : (i : ℕ) (pq : Addr) → has pq p.vp.io_q ≡ true → Step p (dispatch_pollq ops i pq p)
    other :
        (vp : Vp)
        → vp.io_q ≡ p.vp.io_q
        → vp.pds ≡ p.vp.pds
        → vp.on_ioq ≡ p.vp.on_ioq
        → Step p (with_vp ops vp p)

  pub data Reach (p : Poller Map) : Poller Map → Type 0 where
    here : Reach p p
    next : {u v : Poller Map} → Reach p u → Step u v → Reach p v

  abbrev off_queue : Addr → Poller Map → Poller Map
  off_queue pq p = with_vp ops (record p.vp { io_q = remove_link pq p.vp.io_q }) p

  -- `pollset_del` of a poll queue that has just been taken off.
  Balanced-del :
      {p : Poller Map} (pq : Addr)
      → has pq p.vp.io_q ≡ true
      → Balanced ops laws p
      → Balanced ops laws (pollset_del ops (p.vp.pds pq) (off_queue pq p))
  Balanced-del {p} pq on b =
      let (v, n) = pollset_del-same ops laws (p.vp.pds pq) (off_queue pq p) in
      Balanced-removed ops laws pq on b (ap (λ (x : Vp). x.io_q) v) (ap (λ (x : Vp). x.pds) v)
        (λ a ne. ap (λ (x : Vp). x.on_ioq a) v) n
        (pollset_del-counts ops laws (p.vp.pds pq) (off_queue pq p)
          (λ k fd. queued p.vp.pds k fd (remove_link pq p.vp.io_q)) (b.grouped pq on)
          (left_counts ops laws pq on b))

  -- The end of `st_poll`
  abbrev ended : Addr → Poller Map → Poller Map
  ended me r = if r.vp.fl_interrupt me then with_vp ops (interrupted me r.vp).0 r else r

  Balanced-ended :
      (me : Addr) {r : Poller Map} → Balanced ops laws r → Balanced ops laws (ended me r)
  Balanced-ended me {r} b = elim (Bool-cases (r.vp.fl_interrupt me)) [
    | inl hit ↦ rw hit (Balanced-other ops laws (interrupted me r.vp).0 refl refl refl b)
    | inr calm ↦ rw calm b
  ]

  leave-on :
      (me pq : Addr) (p : Poller Map)
      → p.vp.on_ioq pq ≡ true
      → (poll_leave ops me pq p).0 ≡ ended me (pollset_del ops (p.vp.pds pq) (off_queue pq p))
  unfolding poll_leave
  leave-on me pq p on =
      let r = pollset_del ops (p.vp.pds pq) (off_queue pq p) in
      elim (Bool-cases (r.vp.fl_interrupt me)) [
        | inl hit ↦ rw (on, hit) refl
        | inr calm ↦ rw (on, calm) refl
      ]

  leave-off :
      (me pq : Addr) (p : Poller Map)
      → p.vp.on_ioq pq ≡ false
      → (poll_leave ops me pq p).0 ≡ ended me p
  unfolding poll_leave
  leave-off me pq p off = elim (Bool-cases (p.vp.fl_interrupt me)) [
    | inl hit ↦ rw (off, hit) refl
    | inr calm ↦ rw (off, calm) refl
  ]

  -- `revents` of the descriptors of a poll queue are set.
  Balanced-marked :
      {p : Poller Map} (set : Kind → ℕ → Bool) (pq : Addr)
      → has pq p.vp.io_q ≡ true
      → Balanced ops laws p
      → Balanced ops laws (set_pds ops pq (mark_all (mark_pollfd set) (p.vp.pds pq)).0 p)
  Balanced-marked {p} set pq on b =
      let pds = (mark_all (mark_pollfd set) (p.vp.pds pq)).0 in
      record {
        distinct = b.distinct;
        counts = λ k fd.
            b.counts k fd
            ∙ ap pos (
                sym (
                  queued-marked p.vp.pds k fd p.vp.io_q pq pds
                    (marked-hits set k fd (p.vp.pds pq))));
        grouped = λ a m. elim (eq-cases pq a) [
          | inl same ↦
              subst (Grouped p.select_num)
                (sym (ap (update p.vp.pds pq pds) (sym same) ∙ update_self p.vp.pds pq pds))
                (marked-Grouped set p.select_num (p.vp.pds pq) (b.grouped pq on))
          | inr diff ↦
              subst (Grouped p.select_num) (sym (update_ne p.vp.pds pq a pds diff)) (b.grouped a m)
        ];
        real = λ a m. elim (eq-cases pq a) [
          | inl same ↦
              subst Real
                (sym (ap (update p.vp.pds pq pds) (sym same) ∙ update_self p.vp.pds pq pds))
                (marked-Real set (p.vp.pds pq) (b.real pq on))
          | inr diff ↦ subst Real (sym (update_ne p.vp.pds pq a pds diff)) (b.real a m)
        ];
        flags = b.flags;
      }

  taken-fields :
      (pq : Addr) (vp : Vp)
      → ((take_off ops pq vp).io_q ≡ remove_link pq vp.io_q)
        × ((take_off ops pq vp).pds ≡ vp.pds)
        × ((a : Addr) → a ≢ pq → (take_off ops pq vp).on_ioq a ≡ vp.on_ioq a)
  unfolding take_off
  taken-fields pq vp = (refl, refl, λ a ne. ground arith)

  -- The dispatch takes a poll queue off and cuts its counts.
  Balanced-cut :
      {p : Poller Map} (pq : Addr)
      → has pq p.vp.io_q ≡ true
      → Balanced ops laws p
      → Balanced ops laws (cut_pollfds ops (p.vp.pds pq) (with_vp ops (take_off ops pq p.vp) p))
  Balanced-cut {p} pq on b =
      let off = with_vp ops (take_off ops pq p.vp) p in
      let (q, d, o) = taken-fields pq p.vp in
      let (v, n) = cut_pollfds-same ops laws (p.vp.pds pq) off in
      Balanced-removed ops laws pq on b (ap (λ (x : Vp). x.io_q) v ∙ q)
        (ap (λ (x : Vp). x.pds) v ∙ d) (λ a ne. ap (λ (x : Vp). x.on_ioq a) v ∙ o a ne) n
        (cut_pollfds-counts ops laws (p.vp.pds pq) off
          (λ k fd. queued p.vp.pds k fd (remove_link pq p.vp.io_q)) (b.grouped pq on) (b.real pq on)
          (left_counts ops laws pq on b))

  notify-fields :
      (pq : Addr) (vp : Vp)
      → ((notify ops pq vp).io_q ≡ vp.io_q)
        × ((notify ops pq vp).pds ≡ vp.pds)
        × ((notify ops pq vp).on_ioq ≡ vp.on_ioq)
  unfolding notify leave_sleep_q del_sleep_q
  notify-fields pq vp = (ground arith, ground arith, ground arith)

  Balanced-dispatch :
      {p : Poller Map} (i : ℕ) (pq : Addr)
      → has pq p.vp.io_q ≡ true
      → Balanced ops laws p
      → Balanced ops laws (dispatch_pollq ops i pq p)
  unfolding dispatch_pollq
  Balanced-dispatch {p} i pq on b =
      let set = (p.seldata i).fd_set in
      let m = mark_all (mark_pollfd set) (p.vp.pds pq) in
      let p₁ = set_pds ops pq m.0 p in
      let b₁ = Balanced-marked set pq on b in
      let same : p₁.vp.pds pq ≡ m.0 = update_self p.vp.pds pq m.0 in
      let p₂ = cut_pollfds ops m.0 (with_vp ops (take_off ops pq p₁.vp) p₁) in
      let b₂ : Balanced ops laws p₂ =
        subst (λ x. Balanced ops laws (cut_pollfds ops x (with_vp ops (take_off ops pq p₁.vp) p₁)))
          same (Balanced-cut pq on b₁) in
      let (q, d, o) = notify-fields pq p₂.vp in
      elim (Bool-cases m.1) [
        | inl woken ↦ rw woken (Balanced-other ops laws (notify ops pq p₂.vp) q d o b₂)
        | inr still ↦ rw still b₁
      ]

  Step-Balanced : {u v : Poller Map} → Step u v → Balanced ops laws u → Balanced ops laws v
  Step-Balanced (enqueue me pq pds timeout new real) b =
      Balanced-enqueue ops laws me pq pds timeout new real b
  Step-Balanced {u} (leave me pq on) b =
      rw (leave-on me pq u (b.flags pq on)) (Balanced-ended me (Balanced-del pq on b))
  Step-Balanced {u} (leave_notified me pq off) b = rw (leave-off me pq u off) (Balanced-ended me b)
  Step-Balanced (dispatch i pq on) b = Balanced-dispatch i pq on b
  Step-Balanced (other vp q d o) b = Balanced-other ops laws vp q d o b

  -- Over a lawful map, from a state where the counts are right, every interleaving keeps them right
  -- of: what `st_poll` does before its switch, for descriptors that are not 0 and a poll queue that
  -- is not on the I/O queue; what it does after it, for one that is there or has been notified; the
  -- dispatch of a poll queue on the I/O queue after `select`; and whatever leaves the I/O queue,
  -- its descriptors and their flags alone. The counts are right when the count of each descriptor
  -- and kind of event is the number of the entries on the I/O queue that want it, these entries
  -- belong to groups that exist, and the I/O queue has each poll queue once, marked as being on it.
  pub Reach-Balanced : {u v : Poller Map} → Balanced ops laws u → Reach u v → Balanced ops laws v
  Reach-Balanced b here = b
  Reach-Balanced b (next r st) = Step-Balanced st (Reach-Balanced b r)

-- ===== src/Event/Poll.antt =====
-- sched.c: `st_poll`, on the event system of event.c.
use st_win.Prelude.{ℕ, suc, ◌==◌, true, List, [], ◌∷◌, if◌then◌else◌, update}
use st_win.TimeoutHeap.{Addr}
use st_win.Vp.{io_wait, Vp, Pollfd, Rc, ok, fail, interrupted, no_timeout, set_state}
use st_win.Clist.{append_link, remove_link}
use st_win.Sched.{add_sleep_q, pick, resume}
use st_win.Event.{FdMap, Poller, is_no_event, pollset_add, pollset_del}
use st_win.Event.Dispatch.{with_vp}

-- The number of descriptors with an event.
unfoldable pub count_ready : List Pollfd → ℕ
count_ready [] = 0
count_ready (pd ∷ pds) = let n = count_ready pds in if is_no_event pd.revents then n else suc n

-- The caller and its pollq join the queues; without a time-out it sleeps for one microsecond.
unfoldable pub poll_enqueue : Addr → Addr → List Pollfd → ℕ → Vp → Vp
poll_enqueue me pq pds timeout vp =
    let vp₁ = record vp {
      pds = update vp.pds pq pds;
      poll_thread = update vp.poll_thread pq me;
      on_ioq = update vp.on_ioq pq true;
      io_q = append_link pq vp.io_q;
    } in
    set_state me io_wait (add_sleep_q me (if timeout == no_timeout then 1 else timeout) vp₁)

module _ {Map : Type 0} (ops : FdMap Map) where
  -- After the call of the scheduler: the pollq leaves the queue, or its ready descriptors are counted.
  unfoldable pub poll_leave : Addr → Addr → Poller Map → Poller Map × Rc × ℕ
  poll_leave me pq p =
      let pds = p.vp.pds pq in
      let off = with_vp ops (record p.vp { io_q = remove_link pq p.vp.io_q }) p in
      let r = if p.vp.on_ioq pq then pollset_del ops pds off else p in
      let n = if p.vp.on_ioq pq then 0 else count_ready pds in
      if r.vp.fl_interrupt me then (with_vp ops (interrupted me r.vp).0 r, fail, 0) else (r, ok, n)

  module _ (swap : Addr → Poller Map → Poller Map) where
    -- `_st_vp_schedule`, where the other threads may poll as well
    unfoldable pub poll_schedule : Poller Map → Poller Map
    poll_schedule p =
        let (thread, vp₁) = pick p.vp in
        let vp₂ = resume thread vp₁ in
        if thread == 0
        then with_vp ops vp₁ p
        else if vp₂.context thread == 0
        then with_vp ops vp₂ p
        else swap (vp₂.context thread) (with_vp ops vp₂ p)

    -- `st_poll` with its local `pq`; the third result is the number of ready descriptors.
    unfoldable pub poll : Addr → List Pollfd → ℕ → Poller Map → Poller Map × Rc × ℕ
    poll pq pds timeout p =
        let me = p.vp.current in
        let p₁ = pollset_add ops pds p in
        let p₂ = with_vp ops (poll_enqueue me pq pds timeout p₁.vp) p₁ in
        if me == 0
        then (p, ok, 0)
        else if p.vp.fl_interrupt me
        then (with_vp ops (interrupted me p.vp).0 p, fail, 0)
        else poll_leave me pq (poll_schedule p₂)

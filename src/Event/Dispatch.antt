-- ===== src/Event/Dispatch.antt =====
-- event.c: `_st_select_dispatch`, which calls `select` and wakes the threads that poll ready descriptors.
use st_win.Prelude.{
  ℕ, zero, suc, ◌+◌, ◌-◌, ◌==◌, ltb, leb, Bool, true, false, not, ◌&&◌, ◌||◌, Option, none, some,
  List, [], ◌∷◌, if◌then◌else◌, update,
}
use st_win.Prelude.Int.{is_positive}
use st_win.TimeoutHeap.{Addr}
use st_win.Vp.{Pollfd, Vp}
use st_win.Event.{
  Kind, reading, writing, excepting, Outcome, ready, timed_out, failed, FdMap, Poller, is_no_event,
  no_events, get_gfd, check_seldata, set_seldata, cut_kinds, notify, take_off,
}

-- A descriptor whose bits may be set after `select`, and whether its thread is to be notified.
unfoldable pub mark_pollfd : (Kind → ℕ → Bool) → Pollfd → Pollfd × Bool
mark_pollfd set pd =
    let setr = set reading pd.fd in
    let setw = set writing pd.fd in
    let sete = set excepting pd.fd in
    let revents = record no_events {
      pollin = pd.events.pollin && setr;
      pollout = pd.events.pollout && setw;
      pollpri = pd.events.pollpri && sete;
    } in
    if not (setr || setw || sete)
    then (pd, false)
    else (record pd { revents = revents }, not (is_no_event revents))

-- A descriptor of `_st_select_find_bad_fd`; `is_bad` is the test by `fcntl`, false on Windows.
unfoldable pub mark_bad : (ℕ → Bool) → Pollfd → Pollfd × Bool
mark_bad is_bad pd =
    if is_no_event pd.events || not (is_bad pd.fd)
    then (record pd { revents = no_events }, false)
    else (record pd { revents = record no_events { pollnval = true } }, true)

-- The loop over the descriptors of a pollq, with the flag `notify`.
unfoldable pub mark_all : (Pollfd → Pollfd × Bool) → List Pollfd → List Pollfd × Bool
mark_all mark [] = ([], false)
mark_all mark (pd ∷ pds) =
    let m = mark pd in let rest = mark_all mark pds in (m.0 ∷ rest.0, m.1 || rest.1)

-- `min_timeout`, in microseconds, or none for a null `tvp`.
unfoldable pub min_timeout : Vp → Option ℕ
min_timeout vp =
    let due = vp.heap.due vp.heap.sleep_q in
    if vp.heap.sleep_q == 0
    then none
    else some (if leb due vp.last_clock then 0 else due - vp.last_clock)

module _ {Map : Type 0} (ops : FdMap Map) where
  abbrev pub with_vp : Vp → Poller Map → Poller Map
  with_vp vp p = record p { vp = vp }

  abbrev pub set_pds : Addr → List Pollfd → Poller Map → Poller Map
  set_pds pq pds p = with_vp (record p.vp { pds = update p.vp.pds pq pds }) p

  -- The counts of a notified pollq are decremented.
  unfoldable pub cut_pollfds : List Pollfd → Poller Map → Poller Map
  cut_pollfds [] p = p
  cut_pollfds (pd ∷ pds) p =
      let gfd = get_gfd pd.fd in
      cut_pollfds pds (if leb p.select_num gfd then p else cut_kinds ops gfd pd.fd pd.events p)

  -- One pollq of the loop of `_st_select_dispatch_once` over the I/O queue.
  unfoldable pub dispatch_pollq : ℕ → Addr → Poller Map → Poller Map
  dispatch_pollq i pq p =
      let m = mark_all (mark_pollfd (p.seldata i).fd_set) (p.vp.pds pq) in
      let p₁ = set_pds pq m.0 p in
      let p₂ = cut_pollfds m.0 (with_vp (take_off ops pq p₁.vp) p₁) in
      if m.1 then with_vp (notify ops pq p₂.vp) p₂ else p₁

  unfoldable pub dispatch_queue : ℕ → List Addr → Poller Map → Poller Map
  dispatch_queue i [] p = p
  dispatch_queue i (pq ∷ q) p = dispatch_queue i q (dispatch_pollq i pq p)

  -- The counts of a pollq with a bad descriptor are decremented.
  unfoldable pub cut_bad : List Pollfd → Poller Map → Poller Map
  cut_bad [] p = p
  cut_bad (pd ∷ pds) p =
      let gfd = get_gfd pd.fd in
      let p₁ = check_seldata ops gfd p in
      let sd = p₁.seldata gfd in
      let p₂ =
        if ltb sd.maxfd pd.fd then set_seldata ops gfd (record sd { maxfd = pd.fd }) p₁ else p₁ in
      cut_bad pds (cut_kinds ops gfd pd.fd pd.events p₂)

  unfoldable pub find_bad_pollq : (ℕ → Bool) → Addr → Poller Map → Poller Map
  find_bad_pollq is_bad pq p =
      let m = mark_all (mark_bad is_bad) (p.vp.pds pq) in
      let p₁ = set_pds pq m.0 p in
      let p₂ = cut_bad m.0 (with_vp (take_off ops pq p₁.vp) p₁) in
      if m.1 then with_vp (notify ops pq p₂.vp) p₂ else p₁

  unfoldable pub find_bad_queue : (ℕ → Bool) → List Addr → Poller Map → Poller Map
  find_bad_queue is_bad [] p = p
  find_bad_queue is_bad (pq ∷ q) p = find_bad_queue is_bad q (find_bad_pollq is_bad pq p)

  -- `_st_select_find_bad_fd`
  unfoldable pub find_bad_fd : (ℕ → Bool) → Poller Map → Poller Map
  find_bad_fd is_bad p = find_bad_queue is_bad p.vp.io_q (record p {
    seldata = λ i. if ltb i p.select_num then record (p.seldata i) { maxfd = 0 } else p.seldata i;
  })

  -- `select(...)` works on the sets of the group itself.
  abbrev pub set_fds : ℕ → (Kind → ℕ → Bool) → Poller Map → Poller Map
  set_fds i sets p = set_seldata ops i (record (p.seldata i) { fd_set = sets }) p

  module _ (is_bad : ℕ → Bool) (select : ℕ → ℕ → (Kind → ℕ → Bool) → Option ℕ → Outcome) where
    -- `_st_select_dispatch_once` once `select` has returned.
    unfoldable pub dispatch_outcome : ℕ → Outcome → Poller Map → Poller Map
    dispatch_outcome i (ready sets) p = dispatch_queue i p.vp.io_q (set_fds i sets p)
    dispatch_outcome i (timed_out sets) p = set_fds i sets p
    dispatch_outcome i (failed true) p = find_bad_fd is_bad p
    dispatch_outcome i (failed false) p = p

    -- `_st_select_dispatch_once` of the group `i`
    unfoldable pub dispatch_once : ℕ → Poller Map → Poller Map
    dispatch_once i p =
        let sd = p.seldata i in
        if not (is_positive sd.size) || sd.maxfd == 0
        then p
        else dispatch_outcome i (select i (sd.maxfd + 1) sd.fd_set (min_timeout p.vp)) p

    unfoldable pub dispatch_loop : ℕ → ℕ → Poller Map → Poller Map
    dispatch_loop zero i p = p
    dispatch_loop (suc rounds) i p = dispatch_loop rounds (i + 1) (dispatch_once i p)

    -- `_st_select_dispatch`
    unfoldable pub dispatch : Poller Map → Poller Map
    dispatch p = if p.allocated then dispatch_loop p.select_num 0 p else p

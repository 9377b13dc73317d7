-- ===== src/Event.antt =====
-- event.c: the event system on `select`. The maps from descriptors to counts are the cstl library's, and
-- `select` the system's: both are parameters. A descriptor is a natural number, an `fd_set` a predicate.
pub mod Counts
pub mod Balance
pub mod Dispatch
pub mod Poll
pub mod Watched
pub mod Queued
pub mod Tracking
pub mod System
use st_win.Prelude.{
  ℕ, ◌+◌, ◌-◌, ◌/◌, ◌==◌, ltb, leb, Bool, true, false, not, ◌&&◌, ◌||◌, Option, none, some, List,
  [], ◌∷◌, if◌then◌else◌, update,
}
use st_win.Prelude.Int.{ℤ, pos, incr, decr, is_positive, is_nonzero}
use st_win.TimeoutHeap.{Addr}
use st_win.Vp.{Events, Pollfd, Vp, Rc, ok, fail, error, ebusy, make_runnable}
use st_win.Clist.{remove_link}
use st_win.Sched.{leave_sleep_q}

-- POLLIN, POLLOUT and POLLPRI, with their descriptor sets and maps.
pub data Kind : Type 0 where
  reading writing excepting : Kind

abbrev pub same_kind : Kind → Kind → Bool
same_kind reading reading = true
same_kind writing writing = true
same_kind excepting excepting = true
same_kind _ _ = false

abbrev pub wants : Kind → Events → Bool
wants reading e = e.pollin
wants writing e = e.pollout
wants excepting e = e.pollpri

-- `events == 0`
abbrev pub is_no_event : Events → Bool
is_no_event e = not (e.pollin || e.pollout || e.pollpri || e.pollnval || e.other)

abbrev pub no_events : Events
no_events = record {
  pollin = false;
  pollout = false;
  pollpri = false;
  pollnval = false;
  other = false;
}

-- `FD_SETSIZE`, which md.h raises to
abbrev pub fd_setsize : ℕ
fd_setsize = 200

-- `struct _st_seldata`
pub record Seldata : Type 0 where
  pub index : ℕ
  pub maxfd : ℕ
  pub size : ℤ
  pub fd_set : Kind → ℕ → Bool

-- `map_at`, the store through the pointer that it returns, and `map_insert`.
pub record FdMap (Map : Type 0) : Type 0 where
  pub map_at : Map → ℕ → Map × Option ℤ
  pub map_set : Map → ℕ → ℤ → Map
  pub map_insert : Map → ℕ → ℤ → Map

-- The state of event.c beside the virtual processor's.
pub record Poller (Map : Type 0) : Type 0 where
  pub vp : Vp
  pub allocated : Bool
  pub seldata : ℕ → Seldata
  pub select_num : ℕ
  pub counts : Kind → Map

-- What `select` leaves: its result, the sets, and whether `errno` is EBADF.
pub data Outcome : Type 0 where
  ready : (Kind → ℕ → Bool) → Outcome
  timed_out : (Kind → ℕ → Bool) → Outcome
  failed : Bool → Outcome

abbrev pub update_kind {ℓ} : {A : Type ℓ} → (Kind → A) → Kind → A → Kind → A
update_kind f k v k' = if same_kind k k' then v else f k'

-- `_st_select_get_gfd`
unfoldable pub get_gfd : ℕ → ℕ
get_gfd fd = (fd - 1) / fd_setsize

-- `_st_seldata_new`
abbrev pub seldata_new : ℕ → Seldata
seldata_new i = record { index = i; maxfd = 0; size = pos 0; fd_set = λ k fd. false }

module _ {Map : Type 0} (ops : FdMap Map) where
  -- `_ST_SELECT_ADD_CNT(map, fd, 1)`
  unfoldable pub add_cnt : Map → ℕ → Map
  add_cnt map fd =
      let r = ops.map_at map fd in
      elim r.1 [ none ↦ ops.map_insert r.0 fd (pos 1) | some v ↦ ops.map_set r.0 fd (incr v) ]

  -- `_st_select_del_cnt(map, fd, 1)`
  unfoldable pub del_cnt : Map → ℕ → Map × ℤ
  del_cnt map fd =
      let r = ops.map_at map fd in
      elim r.1 [ none ↦ (r.0, pos 0) | some v ↦ (ops.map_set r.0 fd (decr v), decr v) ]

  -- `_st_select_get_cnt`
  unfoldable pub get_cnt : Map → ℕ → Map × ℤ
  get_cnt map fd = let r = ops.map_at map fd in elim r.1 [ none ↦ (r.0, pos 0) | some v ↦ (r.0, v) ]

  abbrev pub set_seldata : ℕ → Seldata → Poller Map → Poller Map
  set_seldata gfd sd p = record p { seldata = update p.seldata gfd sd }

  -- `_st_select_check_seldata`
  unfoldable pub check_seldata : ℕ → Poller Map → Poller Map
  check_seldata gfd p = if ltb gfd p.select_num then p else record p {
    allocated = true;
    seldata = λ i. if leb p.select_num i && leb i gfd then seldata_new i else p.seldata i;
    select_num = gfd + 1;
  }

  -- `FD_SET` and the count of one kind of event, if it is wanted.
  unfoldable pub add_kind : Kind → ℕ → ℕ → Events → Poller Map → Poller Map
  add_kind k gfd ofd e p =
      let sd = p.seldata gfd in
      if wants k e
      then record (set_seldata gfd
          (record sd { fd_set = update_kind sd.fd_set k (update (sd.fd_set k) ofd true) }) p) {
            counts = update_kind p.counts k (add_cnt (p.counts k) ofd);
          }
      else p

  -- The count of one kind of event, and `FD_CLR` when it gets to 0.
  unfoldable pub cut_kind : Kind → ℕ → ℕ → Events → Poller Map → Poller Map
  cut_kind k gfd ofd e p =
      let sd = p.seldata gfd in
      let r = del_cnt (p.counts k) ofd in
      let p₁ = record p { counts = update_kind p.counts k r.0 } in
      if not (wants k e)
      then p
      else if is_nonzero r.1
      then p₁
      else set_seldata gfd
          (record sd { fd_set = update_kind sd.fd_set k (update (sd.fd_set k) ofd false) }) p₁

  unfoldable pub cut_kinds : ℕ → ℕ → Events → Poller Map → Poller Map
  cut_kinds gfd ofd e p =
      cut_kind excepting gfd ofd e (cut_kind writing gfd ofd e (cut_kind reading gfd ofd e p))

  -- One descriptor of `_st_select_pollset_add`.
  unfoldable pub add_pollfd : Pollfd → Poller Map → Poller Map
  add_pollfd pd p =
      let gfd = get_gfd pd.fd in
      let p₁ = check_seldata gfd p in
      let p₂ =
        add_kind excepting gfd pd.fd pd.events
          (add_kind writing gfd pd.fd pd.events (add_kind reading gfd pd.fd pd.events p₁)) in
      let sd = p₂.seldata gfd in
      let sd' = record sd {
        maxfd = if ltb sd.maxfd pd.fd then pd.fd else sd.maxfd;
        size = incr sd.size;
      } in
      if pd.fd == 0 || is_no_event pd.events then p else set_seldata gfd sd' p₂

  -- `_st_select_pollset_add`, which returns 0 always
  unfoldable pub pollset_add : List Pollfd → Poller Map → Poller Map
  pollset_add [] p = p
  pollset_add (pd ∷ pds) p = pollset_add pds (add_pollfd pd p)

  -- One descriptor of `_st_select_pollset_del`.
  unfoldable pub del_pollfd : Pollfd → Poller Map → Poller Map
  del_pollfd pd p =
      let gfd = get_gfd pd.fd in
      let p₁ = cut_kinds gfd pd.fd pd.events p in
      let sd = p₁.seldata gfd in
      if pd.fd == 0 || is_no_event pd.events || leb p.select_num gfd
      then p
      else set_seldata gfd (record sd { size = decr sd.size }) p₁

  -- `_st_select_pollset_del`
  unfoldable pub pollset_del : List Pollfd → Poller Map → Poller Map
  pollset_del [] p = p
  pollset_del (pd ∷ pds) p = pollset_del pds (del_pollfd pd p)

  -- The polling thread of a pollq that is off the I/O queue is woken.
  unfoldable pub notify : Addr → Vp → Vp
  notify pq vp = make_runnable (vp.poll_thread pq) (leave_sleep_q (vp.poll_thread pq) vp)

  -- `ST_REMOVE_LINK(&pq->links); pq->on_ioq = 0;`
  unfoldable pub take_off : Addr → Vp → Vp
  take_off pq vp = record vp { io_q = remove_link pq vp.io_q; on_ioq = update vp.on_ioq pq false }

  -- `errno = EBUSY; return -1;`
  abbrev pub busy_fd : Poller Map → Poller Map × Rc
  busy_fd p = (record p { vp = (error ebusy p.vp).0 }, fail)

  -- `_st_select_fd_close`; it returns EBUSY while a thread waits for the descriptor.
  unfoldable pub fd_close : ℕ → Poller Map → Poller Map × Rc
  fd_close osfd p =
      let r = get_cnt (p.counts reading) osfd in
      let w = get_cnt (p.counts writing) osfd in
      let e = get_cnt (p.counts excepting) osfd in
      let p₁ = record p { counts = update_kind p.counts reading r.0 } in
      let p₂ = record p₁ { counts = update_kind p₁.counts writing w.0 } in
      let p₃ = record p₂ { counts = update_kind p₂.counts excepting e.0 } in
      if leb p.select_num (get_gfd osfd)
      then (p, ok)
      else if is_positive r.1
      then busy_fd p₁
      else if is_positive w.1
      then busy_fd p₂
      else if is_positive e.1
      then busy_fd p₃
      else (p₃, ok)

-- ===== src/Event/System.antt =====
-- event.c: the choice of the event system, and its operations that do no more than answer.
use st_win.Prelude.{ℕ, ltb, Bool, true, false, List, [], ◌∷◌, if◌then◌else◌}
use st_win.Prelude.Int.{ℤ, pos, negsuc}
use st_win.Event.{Poller}
use st_win.Vp.{Rc, ok, fail, Errno, ebusy, einval}

-- `_st_eventsys`: chosen or not; there is one event system, for `select`.
pub record EventSystem : Type 0 where
  pub chosen : Bool
  pub errno : Errno

-- ST_EVENTSYS_DEFAULT, _SELECT, _POLL and _ALT are 0, 1, 2 and 3.
abbrev pub is_eventsys : ℤ → Bool
is_eventsys (pos n) = ltb n 4
is_eventsys (negsuc n) = false

-- `st_set_eventsys`
unfoldable pub set_eventsys : ℤ → EventSystem → EventSystem × Rc
set_eventsys eventsys s =
    if s.chosen
    then (record s { errno = ebusy }, fail)
    else if is_eventsys eventsys
    then (record s { chosen = true }, ok)
    else (record s { errno = einval }, fail)

-- `st_get_eventsys`
unfoldable pub get_eventsys : EventSystem → ℤ
get_eventsys s = if s.chosen then pos 1 else negsuc 0

-- `st_get_eventsys_name`: "select", or the empty string
unfoldable pub get_eventsys_name : EventSystem → List ℕ
get_eventsys_name s = if s.chosen then 115 ∷ 101 ∷ 108 ∷ 101 ∷ 99 ∷ 116 ∷ [] else []

-- `_st_select_init`: three maps that are fresh from `map_init`; `_st_select_fd_pair` has no state.
unfoldable pub select_init : {Map : Type 0} → Map → Poller Map → Poller Map × Rc
select_init fresh p = (record p { counts = λ kind. fresh }, ok)

-- `_st_select_fd_new`, `_st_select_fd_getlimit` for an FD_SETSIZE of the platform
abbrev pub select_fd_new : ℕ → Rc
select_fd_new osfd = ok

abbrev pub select_fd_getlimit : ℕ → ℕ
select_fd_getlimit fd_setsize = fd_setsize

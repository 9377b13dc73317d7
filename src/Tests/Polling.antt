-- ===== src/Tests/Polling.antt =====
-- The counts of the select event system at work: descriptor 3 is polled for reading and for writing.
use st_win.Prelude.{
  ℕ, ◌≡◌, refl, arith, ◌==◌, true, false, Option, none, some, List, [], ◌∷◌, if◌then◌else◌, update,
  ap,
}
use st_win.Prelude.Int.{ℤ, pos}
use st_win.Vp.{Pollfd}
use st_win.Event.{
  writing, FdMap, Poller, no_events, seldata_new, pollset_add, pollset_del, add_pollfd, add_kind,
  check_seldata, get_gfd,
}
use st_win.Event.Counts.{Lawful, tally}
use st_win.Prelude.Members.{has}
use st_win.Sched.{add_sleep_q}
use st_win.Event.Dispatch.{with_vp}
use st_win.Event.Poll.{poll_enqueue, poll_leave}
use st_win.Event.Watched.{queued}
use st_win.Event.Queued.{Balanced}
use st_win.Event.Tracking.{Reach, here, next, enqueue, leave, Reach-Balanced}
use st_win.Event.Balance.{pollset_del-pollset_add}
use st_win.Tests.{two_vp}

-- A map that is a function.
abbrev fd_map : FdMap (ℕ → Option ℤ)
fd_map = record {
  map_at = λ m k. (m, m k);
  map_set = λ m k v. update m k (some v);
  map_insert = λ m k v. update m k (some v);
}

abbrev value_of : Option ℤ → ℤ
value_of none = pos 0
value_of (some v) = v

value_of-update :
    (m : ℕ → Option ℤ) (k : ℕ) (v : ℤ) (k' : ℕ)
    → value_of (update m k (some v) k') ≡ (if k == k' then v else value_of (m k'))
value_of-update m k v k' = ground arith

abbrev fd_map_laws : Lawful fd_map
fd_map_laws = record {
  count = λ m k. value_of (m k);
  at_same = λ m k k'. refl;
  at_none = λ m k e. ap value_of e;
  at_some = λ m k v e. ap value_of e;
  set = value_of-update;
  insert = value_of-update;
}

abbrev poller : Poller (ℕ → Option ℤ)
poller = record {
  vp = two_vp;
  allocated = false;
  seldata = seldata_new;
  select_num = 0;
  counts = λ k fd. none;
}

abbrev polled : List Pollfd
polled =
    record {
      fd = 3;
      events = record no_events { pollin = true; pollout = true };
      revents = no_events;
    }
    ∷ []

pollset_del-pollset_add_example :
    tally fd_map fd_map_laws
      (pollset_del fd_map polled (pollset_add fd_map polled poller))
      writing
      3
    ≡ tally fd_map fd_map_laws poller writing 3
pollset_del-pollset_add_example =
    pollset_del-pollset_add fd_map fd_map_laws polled poller (λ k fd. 0) (λ k fd. refl) writing 3

poller-Balanced : Balanced fd_map fd_map_laws poller
unfolding queued has
poller-Balanced = record {
  distinct = tt;
  counts = λ k fd. refl;
  grouped = λ pq m. absurd (no_has m);
  real = λ pq m. absurd (no_has m);
  flags = λ pq m. absurd (no_has m);
}
  where
    no_has : false ≡ true → ⊥
    no_has e = cc

-- Thread 3 polls with the poll queue 40, the dispatch finds nothing, and the thread is resumed.
abbrev waiting : Poller (ℕ → Option ℤ)
waiting =
    with_vp fd_map (poll_enqueue 3 40 polled 100 (pollset_add fd_map polled poller).vp)
      (pollset_add fd_map polled poller)

abbrev back : Poller (ℕ → Option ℤ)
back = (poll_leave fd_map 3 40 waiting).0

polled_once : Reach fd_map fd_map_laws poller back
unfolding has add_pollfd add_kind check_seldata get_gfd
polled_once =
    next (next here (enqueue 3 40 polled 100 refl (ground arith, tt))) (leave 3 40 on_queue)
  where
    on_queue : has 40 waiting.vp.io_q ≡ true
    on_queue = unfold has poll_enqueue pollset_add add_sleep_q in refl

Reach-Balanced_example : Balanced fd_map fd_map_laws back
Reach-Balanced_example = Reach-Balanced fd_map fd_map_laws poller-Balanced polled_once

-- ===== src/Server/Signals.antt =====
-- examples/server.c: what the watchdog and a server process do on a signal.
use st_win.Prelude.{ℕ, Bool, true, false, Option, none, some, List, [], ◌∷◌, ◌++◌, if◌then◌else◌}
use st_win.Server.{Config}
use st_win.Server.Watchdog.{Watchdog, forward}

pub data Signal : Type 0 where
  sighup sigterm sigusr1 : Signal
  other : ℕ → Signal

-- The calls that a handler makes, without its reports.
pub data Action : Type 0 where
  kill : ℕ → Signal → Action
  logbuf_flush logbuf_close logbuf_open close_errors open_errors unlink_pid load_configs : Action
  dump_server_info : Action

abbrev pub kills : Signal → List ℕ → List Action
kills signo [] = []
kills signo (pid ∷ pids) = kill pid signo ∷ kills signo pids

-- `if (log_access)`
abbrev pub if_logs : Config → List Action → List Action
if_logs c actions = if c.log_access then actions else []

-- `wdog_sighandler`, with the success of the `open`; the flag says whether the watchdog goes on.
unfoldable pub wdog_signal : Config → Bool → Signal → List Action × Bool
wdog_signal c opened sighup =
    (if_logs c (logbuf_close ∷ logbuf_open ∷ []) ++ (close_errors ∷ open_errors ∷ []), opened)
wdog_signal c opened sigterm = (unlink_pid ∷ [], false)
wdog_signal c opened sigusr1 = ([], true)
wdog_signal c opened (other n) = ([], true)

unfoldable pub wdog_sighandler : Config → Bool → Watchdog → Signal → List Action × Bool
unfolding wdog_signal
wdog_sighandler c opened w signo =
    let (actions, goes_on) = wdog_signal c opened signo in
    (kills signo (forward w.vp_count 0 w.vp_pids) ++ actions, goes_on)

-- One round of `process_signals`.
unfoldable pub process_signal : Config → Bool → Signal → List Action × Bool
process_signal c opened sighup = if c.interactive_mode then (load_configs ∷ [], true) else (
  if_logs c (logbuf_flush ∷ logbuf_close ∷ logbuf_open ∷ [])
      ++ (close_errors ∷ open_errors ∷ [])
      ++ (if opened then load_configs ∷ [] else []),
  opened,
)
process_signal c opened sigterm = (if_logs c (logbuf_flush ∷ []), false)
process_signal c opened sigusr1 = (dump_server_info ∷ [], true)
process_signal c opened (other n) = ([], true)

-- `process_signals`, on what `st_read` of the signal pipe gives: a whole `int`, or something else, which
-- ends the process; `none` when it waits for more.
unfoldable pub process_signals : Config → List (Option Signal × Bool) → Option (List Action)
unfolding process_signal
process_signals c [] = none
process_signals c ((none, opened) ∷ reads) = some []
process_signals c ((some signo, opened) ∷ reads) =
    let (actions, goes_on) = process_signal c opened signo in
    let rest = process_signals c reads in
    if goes_on then elim rest [ none ↦ none | some more ↦ some (actions ++ more) ] else some actions

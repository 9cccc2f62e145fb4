-- ===== src/Sockets.antt =====
-- What connector.go and acceptor.go share: the reactor and its timers, the sockets that are made and
-- closed, and the calls of the users' handlers, which are known by these calls.
pub mod Ready
pub mod Tests
use goev.Prelude.{ℕ, Bool, Option, none, some, List, [], ◌∷◌, ◌++◌, if◌then◌else◌, Run, ok, ◌>>=◌}
use goev.Prelude.Int.{ℤ}
use goev.Timer
use goev.Timer.{Timer, ScheduleError, update}
use goev.Reactor.{Reactor}

pub data Family : Type 0 where
  af_inet af_unix : Family

pub data FailReason : Type 0 where
  err_connect_fail err_connect_timeout : FailReason

-- The sockets made and closed, the paths removed, and the calls of the users' handlers.
pub data Effect : Type 0 where
  opened closed : ℕ → Effect
  set_eh_fd : ℤ → Effect
  removed_path : List ℕ → Effect
  on_open on_close : Effect
  on_connect_fail : FailReason → Effect

-- The reactor, the timer of each of its pollers, and the effects so far.
pub record World : Type 0 where
  pub reactor : Reactor
  pub timers : ℕ → Timer
  pub effects : List Effect

abbrev pub did : Effect → World → World
did e w = record w { effects = w.effects ++ (e ∷ []) }

-- `if eh.OnOpen() == false { eh.OnClose() }`, where the handler answers `opens`.
abbrev pub open_handler : Bool → World → World
open_handler opens w = if opens then did on_open w else did on_close (did on_open w)

pub data TimerError : Type 0 where
  not_added : TimerError
  schedule_failed : ScheduleError → TimerError

-- IOHandle.ScheduleTimer of a handler, whose poller is `ep`.
unfoldable pub schedule_timer : ℕ → ℕ → Option ℕ → ℤ → ℤ → World → Run (Option TimerError × World)
schedule_timer now eh none delay interval w = ok (some not_added, w)
schedule_timer now eh (some i) delay interval w =
    Timer.schedule now eh delay interval (w.timers i) >>= λ (err, t). ok (
      (elim err [ none ↦ none | some e ↦ some (schedule_failed e) ]),
      record w { timers = update w.timers i t },
    )

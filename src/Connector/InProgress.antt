-- ===== src/Connector/InProgress.antt =====
-- inProgressConnect of connector.go: the handler that waits at its poller for the end of a connect.
use goev.Prelude.{ℕ, Bool, true, false, none, some, ltb, if◌then◌else◌, Run, ok, ◌>>=◌}
use goev.Prelude.Int.{ℤ, pos, negsuc}
use goev.EvData.Laws.{entry}
use goev.Mask.{Mask, overlaps, union, epoll_hup, epoll_err, epoll_in, epoll_out, ev_all}
use goev.Timer
use goev.Timer.{update}
use goev.Poll
use goev.Poll.{Kernel}
use goev.Reactor.{update_poll}
use goev.Sockets.{
  World, did, closed, set_eh_fd, on_connect_fail, err_connect_fail, err_connect_timeout,
  open_handler,
}

-- inProgressConnect, with the descriptor of its IOHandle; `is_ok` is the field `ok`.
pub record InProgress : Type 0 where
  pub fd : ℤ
  pub is_ok : Bool
  pub io_handled : Bool

-- `&inProgressConnect{eh: eh}` after `setParams`.
abbrev pub started : ℕ → InProgress
started fd = record { fd = pos fd; is_ok = false; io_handled = false }

-- The handler `ipc` of the poller `i`; the user's handler answers `opens` to OnOpen.
module _ (kernel : Kernel) (opens : Bool) (ipc i : ℕ) where
  -- IOHandle.CancelTimer
  unfoldable pub cancel_timer : World → World
  cancel_timer w = record w { timers = update w.timers i (Timer.cancel ipc (w.timers i)) }

  -- `p.getEvPoll().remove(fd, EvAll)`
  unfoldable pub unregister : ℤ → World → Run World
  unregister fd w = Poll.remove kernel fd ev_all (w.reactor.ev_polls i) >>= λ (_, p).
      ok (record w { reactor = record w.reactor { ev_polls = update_poll w.reactor.ev_polls i p } })

  -- OnRead, OnWrite: the answer, and what they leave.
  unfoldable pub on_read : InProgress → World → Bool × InProgress × World
  unfolding cancel_timer
  on_read p w = (
    false,
    record p { io_handled = true },
    cancel_timer (did (on_connect_fail err_connect_fail) w),
  )

  unfoldable pub on_write : InProgress → World → Bool × InProgress × World
  unfolding cancel_timer
  on_write p w = (
    false,
    record p { fd = negsuc 0; is_ok = true; io_handled = true },
    did (set_eh_fd p.fd) (cancel_timer w),
  )

  -- OnClose: Destroy, and the opening of the user's handler where the connect succeeded.
  abbrev destroyed : InProgress → World → InProgress × World
  destroyed p w = elim p.fd [
    | pos fd ↦ (if ltb 0 fd then (record p { fd = negsuc 0 }, did (closed fd) w) else (p, w))
    | negsuc _ ↦ (p, w)
  ]

  unfoldable pub on_close : InProgress → World → InProgress × World
  on_close p w =
      let (p', w') = destroyed p w in (p', if p'.is_ok then open_handler opens w' else w')

  unfoldable pub on_timeout : InProgress → World → Run (Bool × InProgress × World)
  unfolding unregister on_close
  on_timeout p w =
      let expired : Run (Bool × InProgress × World) = do
        w' ← unregister p.fd w
        let (p', w'') = on_close p (did (on_connect_fail err_connect_timeout) w')
        ok (false, p', w'')
      in if p.io_handled then ok (false, p, w) else expired

  -- The loop of the poller for a ready event of this handler.
  unfoldable pub event : Mask → ℕ → InProgress → World → Run (InProgress × World)
  unfolding unregister on_close on_read on_write
  event events fd p w = elim (entry fd (w.reactor.ev_polls i).ev_handler_map) [
    | none ↦ ok (p, w)
    | some (l, ed) ↦
        (let close : InProgress → World → Run (InProgress × World) =
            λ p' w'. unregister ed.fd w' >>= λ w''. ok (on_close p' w'') in
          let reads : InProgress → World → Run (InProgress × World) = λ p' w'.
            (let (alive, p'', w'') = on_read p' w' in
              if overlaps events epoll_in
              then (if alive then ok (p'', w'') else close p'' w'')
              else ok (p', w')) in
          let serve : Run (InProgress × World) =
            (let (alive, p', w') = on_write p w in
              if overlaps events epoll_out
              then (if alive then reads p' w' else close p' w')
              else reads p w) in
          if overlaps events (union epoll_hup epoll_err) then close p w else serve)
  ]

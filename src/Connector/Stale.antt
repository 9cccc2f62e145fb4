-- ===== src/Connector/Stale.antt =====
-- A connect in the background whose registration the kernel refuses.
use goev.Prelude.{
  ℕ, ◌<◌, ◌≡◌, refl, arith, Bool, true, Option, none, some, [], ◌∷◌, ◌++◌, ltb, panic, ok, ◌>>=◌,
  Ends, ends, Ends-bind,
}
use goev.Prelude.Int.{pos}
use goev.Mask.{Mask, ev_connect}
use goev.Poll.{Kernel, ctl_add, ctl_failed}
use goev.Reactor.{Reactor, ReactorError, poll_error, add_ev_handler, route}
use goev.Reactor.Refused.{add_ev_handler_refused}
use goev.Sockets.{World, did, closed, schedule_timer}
use goev.Sockets.Ready.{IsReady, IsNew, poll_at}
use goev.Connector.{Sys, add_failed, in_background}

-- The next connect in the background with the same descriptor panics, whatever the kernel answers then.
abbrev pub IsStale : ℕ → World → Type 0
IsStale fd w =
    (kernel : Kernel) (sys : Sys) (opens : Bool) (ipc now timeout : ℕ)
    → 0 < timeout
    → in_background kernel sys opens ipc now fd (pos timeout) w ≡ panic

module _ (fd : ℕ) where
  stale_lem :
      (w : World)
      → ((later : Kernel) (events : Mask) (eh : ℕ)
          → add_ev_handler later (some eh) (pos fd) events w.reactor ≡ panic)
      → IsStale fd w
  unfolding in_background
  stale_lem w q kernel sys opens ipc now timeout later =
      let positive : ltb 0 timeout ≡ true = ground arith in
      rw (positive, q kernel ev_connect ipc) refl

-- Where the kernel refuses the registration of a new socket, connect closes it and returns an error; but the
-- map of handlers still holds the descriptor, which is free now: the next connect that gets it panics.
pub in_background_refused :
    (kernel : Kernel) (sys : Sys) (opens : Bool) (ipc now fd timeout errno : ℕ) (w : World)
    → IsReady w
    → IsNew w fd
    → fd < (w.reactor.ev_polls (poll_at w fd)).ev_handler_map.arr_size
    → kernel ctl_add fd (w.reactor.ev_polls (poll_at w fd)).interest ≡ some errno
    → 0 < timeout
    → Ends
        (λ (err, w').
          (err ≡ some add_failed) × (w'.effects ≡ w.effects ++ (closed fd ∷ [])) × IsStale fd w')
        (in_background kernel sys opens ipc now fd (pos timeout) w)
unfolding in_background
in_background_refused kernel sys opens ipc now fd timeout errno w v new low no_way later =
    let positive : ltb 0 timeout ≡ true = ground arith in
    rw positive (
      Ends-bind
        (add_ev_handler_refused kernel w.reactor ipc fd errno ev_connect v.some_poll new.0
          (v.maps (poll_at w fd)) low new.1 no_way)
        λ (err, r) (e, q). failed err r e q)
  where
    failed :
        (err : Option ReactorError) (r : Reactor)
        → err ≡ some (poll_error (ctl_failed ctl_add errno))
        → ((later : Kernel) (events : Mask) (eh : ℕ)
            → add_ev_handler later (some eh) (pos fd) events r ≡ panic)
        → Ends
            (λ (e, w').
              (e ≡ some add_failed) × (w'.effects ≡ w.effects ++ (closed fd ∷ [])) × IsStale fd w')
            (elim err [
              | some e ↦ ok (some add_failed, did (closed fd) (record w { reactor = r }))
              | none ↦
                  (schedule_timer now ipc
                      ((r.ev_polls (route r.ev_poll_num fd)).eh_ep ipc)
                      (pos timeout)
                      (pos 0)
                      (record w { reactor = r })
                    >>= λ (ignored, w''). ok (none, w''))
            ])
    failed none r e q = absurd (ground arith)
    failed (some x) r e q =
        ends (refl, refl, stale_lem fd (did (closed fd) (record w { reactor = r })) q)

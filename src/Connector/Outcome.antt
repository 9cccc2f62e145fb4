-- ===== src/Connector/Outcome.antt =====
-- How a connect in the background ends: what the user's handler is told, and what is left behind.
use goev.Prelude.{
  ℕ, ◌<◌, ◌≡◌, refl, sym, ap, ◌∙◌, subst, arith, Bool, true, false, none, some, Option-cases, inl,
  inr, List, [], ◌∷◌, ◌++◌, append_assoc, ltb, if◌then◌else◌, Run, ok, panic, ◌>>=◌, Ends, ends,
  Ends-bind, Ends-weaken, Ends-of_eq,
}
use goev.Prelude.Int.{pos, negsuc}
use goev.EvData.{Loc}
use goev.EvData.Laws
use goev.EvData.Laws.{entry}
use goev.Mask.{Mask, ev_connect, overlaps, union, epoll_hup, epoll_err, epoll_in, epoll_out}
use goev.Timer
use goev.Timer.{update}
use goev.Timer.Cancel.{cancel_lem}
use goev.Poll
use goev.Poll.{Kernel, EvPoll, release}
use goev.Poll.Register.{data_of}
use goev.Poll.Dispatch.{remove_all}
use goev.Poll.Change.{release_lem}
use goev.Reactor.{update_poll}
use goev.Sockets.{
  World, did, Effect, closed, set_eh_fd, on_open, on_close, on_connect_fail, err_connect_fail,
  err_connect_timeout, open_handler,
}
use goev.Connector.InProgress.{InProgress, started, cancel_timer, unregister, event, on_timeout}
use goev.Connector.InProgress as Pending

-- What an open handler is asked, which answers `opens`.
abbrev pub opening : Bool → List Effect
opening opens = if opens then on_open ∷ [] else on_open ∷ on_close ∷ []

module _ (kernel : Kernel) (opens : Bool) (ipc i fd : ℕ) where
  -- The descriptor is free again at the poller.
  abbrev pub IsGone : World → Type 0
  IsGone w = entry fd (w.reactor.ev_polls i).ev_handler_map ≡ none

  -- Nobody waits any more for the connect, which has told the handler.
  pub record Told (effects : List Effect) (w : World) (p' : InProgress) (w' : World) : Type 0 where
    pub gone : IsGone w'
    pub told : w'.effects ≡ w.effects ++ effects
    pub handled : p'.io_handled ≡ true
    pub no_timer : (w'.timers i).ti ipc ≡ none
    pub fd_given_up : p'.fd ≡ negsuc 0

  -- The socket is closed, and nobody was told.
  pub record Dropped (w : World) (p' : InProgress) (w' : World) : Type 0 where
    pub gone : IsGone w'
    pub told : w'.effects ≡ w.effects ++ (closed fd ∷ [])
    pub unhandled : p' ≡ record (started fd) { fd = negsuc 0 }
    pub timers_kept : w'.timers ≡ w.timers

  -- The outcome of a ready event, by its bits: the error bits first, then EPOLLOUT, then EPOLLIN.
  abbrev OutcomeOf : Bool → Bool → Bool → World → InProgress → World → Type 0
  OutcomeOf error writable readable w p' w' =
      if error
      then Dropped w p' w'
      else if writable
      then Told (set_eh_fd (pos fd) ∷ opening opens) w p' w'
      else if readable
      then Told (on_connect_fail err_connect_fail ∷ closed fd ∷ []) w p' w'
      else (p' ≡ started fd) × (w' ≡ w)

  abbrev pub Outcome : Mask → World → InProgress → World → Type 0
  Outcome events =
      OutcomeOf (overlaps events (union epoll_hup epoll_err)) (overlaps events epoll_out)
        (overlaps events epoll_in)

  -- What `unregister` leaves.
  abbrev Unregistered : World → World → Type 0
  Unregistered w w' = IsGone w' × (w'.effects ≡ w.effects) × (w'.timers ≡ w.timers)

  unregister_lem :
      (w : World)
      → Laws.IsValid (w.reactor.ev_polls i).ev_handler_map
      → Ends (Unregistered w) (unregister kernel opens ipc i (pos fd) w)
  unfolding unregister
  unregister_lem w v =
      let (err, p) = release kernel fd (w.reactor.ev_polls i) in
      let gone = (release_lem kernel fd (w.reactor.ev_polls i) v).entries fd in
      let here : update_poll w.reactor.ev_polls i p i ≡ p = ground arith in
      rw (remove_all kernel fd (w.reactor.ev_polls i))
        (ends (ap (λ q. entry fd q.ev_handler_map) here ∙ gone ∙ ground arith, refl, refl))

  cancelled : (w : World) → ((cancel_timer kernel opens ipc i w).timers i).ti ipc ≡ none
  unfolding cancel_timer
  cancelled w =
      let c = cancel_lem ipc (w.timers i) in
      let here : update w.timers i (Timer.cancel ipc (w.timers i)) i
          ≡ Timer.cancel ipc (w.timers i) =
        ground arith in
      ap (λ t. t.ti ipc) here ∙ (elim (Option-cases ((w.timers i).ti ipc)) [
        | inl e ↦ ap (λ t. t.ti ipc) (c.0 e) ∙ e
        | inr (a, e) ↦ (c.1 a e).no_item
      ])

  opened_lem : (b : Bool) (w : World) → (open_handler b w).effects ≡ w.effects ++ opening b
  opened_lem true w = refl
  opened_lem false w = append_assoc w.effects (on_open ∷ []) (on_close ∷ [])

  kept_lem :
      (b : Bool) (w : World)
      → ((open_handler b w).timers ≡ w.timers) × ((open_handler b w).reactor ≡ w.reactor)
  kept_lem true w = (refl, refl)
  kept_lem false w = (refl, refl)

  -- Destroy closes the socket where the handler still has it.
  closing_lem :
      (h : Bool) (w : World)
      → 0 < fd
      → Pending.on_close kernel opens ipc i (record (started fd) { io_handled = h }) w
        ≡ (record { fd = negsuc 0; is_ok = false; io_handled = h }, did (closed fd) w)
  unfolding Pending.on_close
  closing_lem h w pos_fd = let low : ltb 0 fd ≡ true = ground arith in rw low refl

  close_then :
      (h : Bool) (w : World)
      → 0 < fd
      → Laws.IsValid (w.reactor.ev_polls i).ev_handler_map
      → Ends
          (λ (p', w').
            (p' ≡ record { fd = negsuc 0; is_ok = false; io_handled = h })
            × IsGone w'
            × (w'.effects ≡ w.effects ++ (closed fd ∷ []))
            × (w'.timers ≡ w.timers))
          (unregister kernel opens ipc i (pos fd) w >>= λ w'.
            ok (Pending.on_close kernel opens ipc i (record (started fd) { io_handled = h }) w'))
  close_then h w pos_fd v = Ends-bind (unregister_lem w v) λ w' u.
      Ends-of_eq (ap ok (closing_lem h w' pos_fd))
        (refl, u.0, ap (λ es. es ++ (closed fd ∷ [])) u.1, u.2)

  module _ (w : World) (pos_fd : 0 < fd)
      (v : Laws.IsValid (w.reactor.ev_polls i).ev_handler_map) where
    dropped_lem :
        Ends
          (λ (p', w'). Dropped w p' w')
          (unregister kernel opens ipc i (pos fd) w >>= λ w'.
            ok (Pending.on_close kernel opens ipc i (started fd) w'))
    dropped_lem =
        Ends-weaken (close_then false w pos_fd v)
          λ (p', w') c. record { gone = c.1; told = c.2; unhandled = c.0; timers_kept = c.3 }

    written_lem :
        Ends
          (λ (p', w'). Told (set_eh_fd (pos fd) ∷ opening opens) w p' w')
          (let (alive, p', w') = Pending.on_write kernel opens ipc i (started fd) w in
            unregister kernel opens ipc i (pos fd) w' >>= λ w''.
            ok (Pending.on_close kernel opens ipc i p' w''))
    unfolding Pending.on_write Pending.on_close cancel_timer
    written_lem =
        Ends-bind (unregister_lem (did (set_eh_fd (pos fd)) (cancel_timer kernel opens ipc i w)) v)
          λ w' u.
            let (timers, reactor) = kept_lem opens w' in
            ends (record {
              gone = subst (λ r. entry fd (r.ev_polls i).ev_handler_map ≡ none) (sym reactor) u.0;
              told =
                  opened_lem opens w'
                  ∙ ap (λ es. es ++ opening opens) u.1
                  ∙ append_assoc w.effects (set_eh_fd (pos fd) ∷ []) (opening opens);
              handled = refl;
              no_timer = ap (λ t. (t i).ti ipc) (timers ∙ u.2) ∙ cancelled w;
              fd_given_up = refl;
            })

    read_lem :
        Ends
          (λ (p', w'). Told (on_connect_fail err_connect_fail ∷ closed fd ∷ []) w p' w')
          (let (alive, p', w') = Pending.on_read kernel opens ipc i (started fd) w in
            unregister kernel opens ipc i (pos fd) w' >>= λ w''.
            ok (Pending.on_close kernel opens ipc i p' w''))
    unfolding Pending.on_read cancel_timer
    read_lem =
        let w1 : World =
          cancel_timer kernel opens ipc i (did (on_connect_fail err_connect_fail) w) in
        Ends-weaken (close_then true w1 pos_fd v) λ (p', w') c. record {
          gone = c.1;
          told =
              c.2 ∙ append_assoc w.effects (on_connect_fail err_connect_fail ∷ []) (closed fd ∷ []);
          handled = ap (λ p. p.io_handled) c.0;
          no_timer =
              ap (λ t. (t i).ti ipc) c.3 ∙ cancelled (did (on_connect_fail err_connect_fail) w);
          fd_given_up = ap (λ p. p.fd) c.0;
        }

    -- A ready event of a connect that waits, known to its poller by its descriptor. With EPOLLOUT, and no
    -- error bit, the user's handler gets the descriptor and is asked to open; with EPOLLIN alone it is told
    -- of the failure and the socket is closed; in both cases the timer is cancelled. With an error bit the
    -- socket is closed, the handler is not told, and the timer stays.
    pub event_lem :
        (l : Loc) (events : Mask)
        → entry fd (w.reactor.ev_polls i).ev_handler_map ≡ some (l, data_of fd ev_connect ipc)
        → Ends
            (λ (p', w'). Outcome events w p' w')
            (event kernel opens ipc i events fd (started fd) w)
    unfolding event Pending.on_write Pending.on_read
    event_lem l events known =
        rw (known, event)
          (at (overlaps events (union epoll_hup epoll_err)) (overlaps events epoll_out)
            (overlaps events epoll_in))
      where
        at :
            (a b c : Bool)
            → Ends
                (λ (p', w'). OutcomeOf a b c w p' w')
                (let close : InProgress → World → Run (InProgress × World) = λ p' w'.
                    unregister kernel opens ipc i (pos fd) w' >>= λ w''.
                    ok (Pending.on_close kernel opens ipc i p' w'') in
                  let (_, p1, w1) = Pending.on_write kernel opens ipc i (started fd) w in
                  let (_, p2, w2) = Pending.on_read kernel opens ipc i (started fd) w in
                  if a
                  then close (started fd) w
                  else if b
                  then close p1 w1
                  else if c
                  then close p2 w2
                  else ok (started fd, w))
        at true b c = dropped_lem
        at false true c = written_lem
        at false false true = read_lem
        at false false false = ends (refl, refl)

    -- The timeout of a connect that still waits tells the handler, closes the socket and frees the descriptor.
    pub on_timeout_lem :
        Ends
          (λ (again, p', w').
            (again ≡ false)
            × IsGone w'
            × (p'.fd ≡ negsuc 0)
            × (w'.effects ≡ w.effects ++ (on_connect_fail err_connect_timeout ∷ closed fd ∷ [])))
          (on_timeout kernel opens ipc i (started fd) w)
    unfolding on_timeout
    on_timeout_lem = Ends-bind (unregister_lem w v) λ w' u.
        let told : World = did (on_connect_fail err_connect_timeout) w' in
        Ends-of_eq (ap (λ (p'', w''). ok (false, p'', w'')) (closing_lem false told pos_fd)) (
          refl,
          u.0,
          refl,
          ap (λ es. (es ++ (on_connect_fail err_connect_timeout ∷ [])) ++ (closed fd ∷ [])) u.1
              ∙ append_assoc w.effects (on_connect_fail err_connect_timeout ∷ []) (closed fd ∷ []),
        )

    Dropped-panics :
        (m : Run (InProgress × World))
        → Ends (λ (p', w'). Dropped w p' w') m
        → (m >>= λ (p', w'). on_timeout kernel opens ipc i p' w') ≡ panic
    unfolding on_timeout unregister Poll.remove
    Dropped-panics _ (ends {a = t} d) = ap (λ p. on_timeout kernel opens ipc i p t.1) d.unhandled

    -- A connect that is refused, for which the kernel reports an error bit: nobody is told, and at its
    -- timeout the poller panics, with the descriptor -1.
    pub refused_panics :
        (l : Loc) (events : Mask)
        → entry fd (w.reactor.ev_polls i).ev_handler_map ≡ some (l, data_of fd ev_connect ipc)
        → overlaps events (union epoll_hup epoll_err) ≡ true
        → (event kernel opens ipc i events fd (started fd) w >>= λ (p', w').
            on_timeout kernel opens ipc i p' w')
          ≡ panic
    refused_panics l events known refused = Dropped-panics _ (
        subst
          (λ b.
            Ends
              (λ (p', w').
                OutcomeOf b (overlaps events epoll_out) (overlaps events epoll_in) w p' w')
              (event kernel opens ipc i events fd (started fd) w))
          refused (event_lem l events known))

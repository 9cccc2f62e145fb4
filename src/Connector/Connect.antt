-- ===== src/Connector/Connect.antt =====
-- Connect: what becomes of the socket on every branch.
use goev.Prelude.{
  ℕ, zero, suc, ◌+◌, ◌<◌, ◌≡◌, ◌≢◌, refl, sym, ap, ◌∙◌, subst, arith, inl, inr, Bool, Option, none,
  some, Option-cases, List, [], ◌∷◌, ◌++◌, append_assoc, ltb, ok, ◌>>=◌, Ends, ends, Ends-test,
  Ends-bind,
}
use goev.Prelude.Int.{ℤ, pos, negsuc}
use goev.EvData.{is_pos}
use goev.Mask.{ev_connect}
use goev.Address.{
  Sockaddr, Resolved, bad, address, inet4, unix_path, Target, uds, tcp, target, tcp_address,
}
use goev.Timer.Schedule.{Scheduled}
use goev.Poll.{Kernel}
use goev.Reactor.{Reactor, ReactorError, route}
use goev.Sockets.Ready.{
  IsReady, IsNew, IsKnown, poll_at, routed_ep, routed-IsKnown, schedule_timer_lem,
}
use goev.Reactor.Route.{Routed, add_ev_handler-Routed}
use goev.Sockets.{
  Family, opened, closed, set_eh_fd, World, did, open_handler, schedule_timer, af_inet, af_unix,
}
use goev.Connector.{
  Sys, ConnectResult, connected, in_progress, interrupted, failed, ConnectError, add_failed,
  err_connect_inprogress, connect_failed, timeout_negative, addr_invalid, socket_failed,
  set_rcv_buf_failed, addr_unusable, connect_loop, in_background, answered, connect, tcp_connect,
  uds_connect, connect_to,
}

module _ (kernel : Kernel) (sys : Sys) (opens : Bool) (ipc : ℕ) (now : ℕ) where
  -- The ends of Connect: no socket was made; or it was closed again, with an error; or the handler has
  -- it; or it waits at its poller, with a timer.
  pub data IsSettled (timeout : ℤ) (w : World) : Option ConnectError → World → Type 0 where
    no_socket : (e : ConnectError) → IsSettled timeout w (some e) w
    closed_again :
        (e : ConnectError) (fd : ℕ) (w' : World)
        → w'.effects ≡ w.effects ++ (opened fd ∷ closed fd ∷ [])
        → w'.timers ≡ w.timers
        → IsSettled timeout w (some e) w'
    handed_over :
        (fd : ℕ)
        → IsSettled timeout w none
            (open_handler opens (did (set_eh_fd (pos fd)) (did (opened fd) w)))
    waits :
        (fd delay : ℕ) (w' : World)
        → timeout ≡ pos delay
        → 0 < delay
        → w'.effects ≡ w.effects ++ (opened fd ∷ [])
        → IsKnown (poll_at w fd) fd ev_connect ipc w'.reactor
        → Scheduled now ipc delay 0 (w.timers (poll_at w fd)) (w'.timers (poll_at w fd))
        → IsSettled timeout w none w'

  abbrev pub Answers : ℕ → ℕ → ℕ → Sockaddr → Type 0
  Answers fuel n fd sa = (k : ℕ) × (k < fuel) × (sys.connect (n + k) fd sa ≢ interrupted)

  closed_lem :
      {timeout : ℤ} (e : ConnectError) (fd : ℕ) (w w' : World)
      → w'.effects ≡ w.effects ++ (opened fd ∷ [])
      → w'.timers ≡ w.timers
      → Ends (λ (err, w''). IsSettled timeout w err w'') (ok (some e, did (closed fd) w'))
  closed_lem e fd w w' same t = ends (
      closed_again e fd _
        (ap (λ es. es ++ (closed fd ∷ [])) same
          ∙ append_assoc w.effects (opened fd ∷ []) (closed fd ∷ []))
        t)

  module _ (w : World) (v : IsReady w) (fresh : (i : ℕ) → (w.timers i).ti ipc ≡ none) where
    waiting_lem :
        (fd timeout : ℕ) (r : Reactor)
        → 0 < timeout
        → Routed kernel w.reactor ipc fd (poll_at w fd) ev_connect none r
        → Ends
            (λ (err, w'). IsSettled (pos timeout) w err w')
            (schedule_timer now ipc
                ((r.ev_polls (route r.ev_poll_num fd)).eh_ep ipc)
                (pos timeout)
                (pos 0)
                (record w { reactor = r; effects = w.effects ++ (opened fd ∷ []) })
              >>= λ (ignored, w''). ok (none, w''))
    waiting_lem fd timeout r positive a =
        let w1 : World = record w { reactor = r; effects = w.effects ++ (opened fd ∷ []) } in
        let i = poll_at w fd in
        subst
          (λ ep.
            Ends (λ (err, w'). IsSettled (pos timeout) w err w')
              (schedule_timer now ipc ep (pos timeout) (pos 0) w1 >>= λ (ignored, w'').
                ok (none, w'')))
          (sym (routed_ep w ipc fd ev_connect r a v))
          (Ends-bind (schedule_timer_lem now ipc i timeout w1 (v.timers i) (fresh i))
            λ (err, w') (_, timed, same). ends (
              waits fd timeout w' refl positive (ap (λ u. u.effects) same)
                (subst (IsKnown i fd ev_connect ipc) (sym (ap (λ u. u.reactor) same))
                  (routed-IsKnown w ipc fd ev_connect r a))
                timed))

    registered_lem :
        (fd timeout : ℕ) (err : Option ReactorError) (r : Reactor)
        → 0 < timeout
        → Routed kernel w.reactor ipc fd (poll_at w fd) ev_connect err r
        → Ends
            (λ (e, w'). IsSettled (pos timeout) w e w')
            (let w' : World = record w { reactor = r; effects = w.effects ++ (opened fd ∷ []) } in
              elim err [
                | some e ↦ ok (some add_failed, did (closed fd) w')
                | none ↦
                    (schedule_timer now ipc
                        ((r.ev_polls (route r.ev_poll_num fd)).eh_ep ipc)
                        (pos timeout)
                        (pos 0)
                        w'
                      >>= λ (ignored, w''). ok (none, w''))
              ])
    registered_lem fd timeout (some e) r positive a = closed_lem add_failed fd w _ refl refl
    registered_lem fd timeout none r positive a = waiting_lem fd timeout r positive a

    in_background_lem :
        (fd : ℕ) (timeout : ℤ)
        → IsNew w fd
        → Ends
            (λ (e, w'). IsSettled timeout w e w')
            (in_background kernel sys opens ipc now fd timeout (did (opened fd) w))
    unfolding in_background
    in_background_lem fd (negsuc n) new = closed_lem err_connect_inprogress fd w _ refl refl
    in_background_lem fd (pos timeout) new =
        Ends-test (ltb 0 timeout)
          (λ later.
            Ends-bind
              (add_ev_handler-Routed kernel w.reactor v.some_poll ipc fd ev_connect new.0
                (v.maps (poll_at w fd)) new.1)
              λ (err, r) a. registered_lem fd timeout err r (ground arith) a)
          (λ at_once. closed_lem err_connect_inprogress fd w _ refl refl)

    answered_lem :
        (fd : ℕ) (timeout : ℤ) (a : ConnectResult)
        → IsNew w fd
        → Ends
            (λ (e, w'). IsSettled timeout w e w')
            (answered kernel sys opens ipc now fd timeout (did (opened fd) w) a)
    unfolding answered
    answered_lem fd timeout connected new = ends (handed_over fd)
    answered_lem fd timeout in_progress new = in_background_lem fd timeout new
    answered_lem fd timeout interrupted new = closed_lem (connect_failed 4) fd w _ refl refl
    answered_lem fd timeout (failed e) new = closed_lem (connect_failed e) fd w _ refl refl

    later :
        (f n fd : ℕ) (sa : Sockaddr)
        → Answers (suc f) n fd sa
        → sys.connect n fd sa ≡ interrupted
        → Answers f (suc n) fd sa
    later f n fd sa (zero, l, e) g =
        let start : n + 0 ≡ n = omega arith in absurd (e (ap (λ m. sys.connect m fd sa) start ∙ g))
    later f n fd sa (suc k, l, e) g =
        let next : n + suc k ≡ suc n + k = omega arith in
        (k, omega arith, subst (λ m. sys.connect m fd sa ≢ interrupted) next e)

    connect_loop_lem :
        (fuel n fd : ℕ) (sa : Sockaddr)
        → Answers fuel n fd sa
        → Ends (λ a. a ≢ interrupted) (connect_loop kernel sys opens ipc now fuel n fd sa)
    unfolding connect_loop
    connect_loop_lem zero n fd sa (k, l, e) = absurd (omega arith)
    connect_loop_lem (suc f) n fd sa patient =
        at (sys.connect n fd sa) (λ g. connect_loop_lem f (suc n) fd sa (later f n fd sa patient g))
      where
        at :
            (a : ConnectResult)
            → (a ≡ interrupted
                → Ends
                    (λ a. a ≢ interrupted)
                    (connect_loop kernel sys opens ipc now f (suc n) fd sa))
            → Ends
                (λ a. a ≢ interrupted)
                (elim a [
                  | connected ↦ ok connected
                  | in_progress ↦ ok in_progress
                  | interrupted ↦ connect_loop kernel sys opens ipc now f (suc n) fd sa
                  | failed e ↦ ok (failed e)
                ])
        at connected g = ends (λ u. ground (arith, u))
        at in_progress g = ends (λ u. ground (arith, u))
        at interrupted g = g refl
        at (failed errno) g = ends (λ u. ground (arith, u))

    -- connect of a new socket settles it.
    connect_lem :
        (fuel fd : ℕ) (sa : Sockaddr) (timeout : ℤ)
        → IsNew w fd
        → Answers fuel 0 fd sa
        → Ends
            (λ (e, w'). IsSettled timeout w e w')
            (connect kernel sys opens ipc now fuel fd sa timeout (did (opened fd) w))
    unfolding connect
    connect_lem fuel fd sa timeout new patient =
        Ends-bind (connect_loop_lem fuel 0 fd sa patient) λ a _. answered_lem fd timeout a new

    resolved_lem :
        (fuel fd timeout : ℕ) (a : Resolved)
        → IsNew w fd
        → ((sa : Sockaddr) → Answers fuel 0 fd sa)
        → Ends
            (λ (e, w'). IsSettled (pos timeout) w e w')
            (elim a [
              | bad e ↦ ok (some (addr_unusable e), did (closed fd) (did (opened fd) w))
              | address ip port ↦
                  connect kernel sys opens ipc now fuel fd
                    (inet4 ip port)
                    (pos timeout)
                    (did (opened fd) w)
            ])
    resolved_lem fuel fd timeout (bad e) new patient = closed_lem (addr_unusable e) fd w _ refl refl
    resolved_lem fuel fd timeout (address ip port) new patient =
        connect_lem fuel fd (inet4 ip port) (pos timeout) new (patient _)

    tcp_connect_lem :
        (fuel : ℕ) (size : ℤ) (addr : List ℕ) (timeout : ℕ)
        → ((fd : ℕ)
            → sys.socket af_inet ≡ some fd
            → IsNew w fd × ((sa : Sockaddr) → Answers fuel 0 fd sa))
        → Ends
            (λ (e, w'). IsSettled (pos timeout) w e w')
            (tcp_connect kernel sys opens ipc now fuel size addr (pos timeout) w)
    unfolding tcp_connect
    tcp_connect_lem fuel size addr timeout given = elim (Option-cases (sys.socket af_inet)) [
      | inl e ↦ rw (e, tcp_connect) (ends (no_socket socket_failed))
      | inr (fd, e) ↦
          (let (new, patient) = given fd e in
            let resolved = resolved_lem fuel fd timeout (tcp_address addr) new patient in
            rw (e, tcp_connect)
              (Ends-test (is_pos size)
                (λ sized.
                  Ends-test (sys.set_rcv_buf fd size) (λ set. resolved)
                    (λ unset. closed_lem set_rcv_buf_failed fd w _ refl refl))
                (λ plain. resolved)))
    ]

    uds_connect_lem :
        (fuel : ℕ) (path : List ℕ) (timeout : ℕ)
        → ((fd : ℕ)
            → sys.socket af_unix ≡ some fd
            → IsNew w fd × ((sa : Sockaddr) → Answers fuel 0 fd sa))
        → Ends
            (λ (e, w'). IsSettled (pos timeout) w e w')
            (uds_connect kernel sys opens ipc now fuel path (pos timeout) w)
    unfolding uds_connect
    uds_connect_lem fuel path timeout given = elim (Option-cases (sys.socket af_unix)) [
      | inl e ↦ rw (e, uds_connect) (ends (no_socket socket_failed))
      | inr (fd, e) ↦
          (let (new, patient) = given fd e in
            rw (e, uds_connect)
              (connect_lem fuel fd (unix_path path) (pos timeout) new (patient _)))
    ]

    -- Connect returns, where the kernel does not interrupt `connect` more often than the fuel allows and
    -- gives descriptors that the reactor does not know. On every branch the socket is accounted for: none
    -- was made, or it was closed again, once, with an error; or the handler got it and was asked to open;
    -- or it waits at its poller, registered for EvConnect and with a timer of the given timeout.
    pub connect_to_lem :
        (fuel : ℕ) (size : ℤ) (addr : List ℕ) (timeout : ℤ)
        → ((f : Family) (fd : ℕ)
            → sys.socket f ≡ some fd
            → IsNew w fd × ((sa : Sockaddr) → Answers fuel 0 fd sa))
        → Ends
            (λ (e, w'). IsSettled timeout w e w')
            (connect_to kernel sys opens ipc now fuel size addr timeout w)
    unfolding connect_to
    connect_to_lem fuel size addr (negsuc n) given = ends (no_socket timeout_negative)
    connect_to_lem fuel size addr (pos timeout) given = at (target addr)
      where
        at :
            (t : Option Target)
            → Ends
                (λ (e, w'). IsSettled (pos timeout) w e w')
                (elim t [
                  | none ↦ ok (some addr_invalid, w)
                  | some (uds path) ↦ uds_connect kernel sys opens ipc now fuel path (pos timeout) w
                  | some (tcp text) ↦
                      tcp_connect kernel sys opens ipc now fuel size text (pos timeout) w
                ])
        at none = ends (no_socket addr_invalid)
        at (some (uds path)) = uds_connect_lem fuel path timeout (given af_unix)
        at (some (tcp text)) = tcp_connect_lem fuel size text timeout (given af_inet)

-- ===== src/Acceptor/Open.antt =====
-- NewAcceptor: what becomes of the listening socket on every branch.
use goev.Prelude.{
  ℕ, ◌≡◌, refl, sym, ap, ◌∙◌, inl, inr, Bool, Option, none, some, Option-cases, List, [], ◌∷◌, ◌++◌,
  append_assoc, append-nil, ok, Ends, ends, Ends-test, Ends-bind,
}
use goev.Prelude.Int.{pos}
use goev.EvData.{is_pos}
use goev.Mask.{ev_accept}
use goev.Address.{
  Sockaddr, Resolved, bad, address, inet4, unix_path, Target, uds, tcp, target, tcp_address,
}
use goev.Options.{Setter}
use goev.Poll.{Kernel}
use goev.Reactor.{Reactor, ReactorError, route}
use goev.Reactor.Route.{Routed, add_ev_handler-Routed}
use goev.Sockets.{Family, af_inet, af_unix, World, Effect, did, opened, closed, removed_path}
use goev.Sockets.Ready.{IsReady, IsNew, IsKnown, poll_at, routed_ep, routed-IsKnown}
use goev.Acceptor.{
  Sys, SockOpt, so_reuseaddr, so_reuseport, so_rcvbuf, AcceptError, add_failed, listen_failed,
  bind_failed, socket_failed, addr_invalid, set_opt_failed, addr_unusable, Acceptor, Opened,
  configured, listen, with_opt, or_close, tcp_listen, uds_listen, open_listener, new_acceptor,
}

-- The effects of an attempt that failed: a socket that was made was closed, once.
pub data LeftClosed : Option Target → List Effect → Type 0 where
  no_target : LeftClosed none []
  no_socket : (text : List ℕ) → LeftClosed (some (tcp text)) []
  path_removed : (path : List ℕ) → LeftClosed (some (uds path)) (removed_path path ∷ [])
  tcp_closed : (text : List ℕ) (fd : ℕ) → LeftClosed (some (tcp text)) (opened fd ∷ closed fd ∷ [])
  uds_closed :
      (path : List ℕ) (fd : ℕ)
      → LeftClosed
          (some (uds path))
          (removed_path path ∷ opened fd ∷ removed_path path ∷ closed fd ∷ [])

-- The effects of an attempt that left a socket open.
pub data LeftOpen : Option Target → ℕ → List Effect → Type 0 where
  tcp_open : (text : List ℕ) (fd : ℕ) → LeftOpen (some (tcp text)) fd (opened fd ∷ [])
  uds_open :
      (path : List ℕ) (fd : ℕ) → LeftOpen (some (uds path)) fd (removed_path path ∷ opened fd ∷ [])

module _ (kernel : Kernel) (sys : Sys) (id : ℕ) (now : ℕ) where
  -- The acceptor listens at `fd`: its poller knows it for EvAccept, and it knows its poller.
  pub record IsListening (w w' : World) (fd : ℕ) : Type 0 where
    pub known : IsKnown (poll_at w fd) fd ev_accept id w'.reactor
    pub ep : (w'.reactor.ev_polls (route w'.reactor.ev_poll_num fd)).eh_ep id ≡ some (poll_at w fd)
    pub timers_kept : w'.timers ≡ w.timers

  pub data IsOpened (t : Option Target) (a : Acceptor) (w : World)
      : Option AcceptError → Acceptor → World → Type 0 where
    not_opened :
        (e : AcceptError) (es : List Effect) (w' : World)
        → LeftClosed t es
        → w'.effects ≡ w.effects ++ es
        → IsOpened t a w (some e) a w'
    is_opened :
        (fd : ℕ) (es : List Effect) (w' : World)
        → LeftOpen t fd es
        → w'.effects ≡ w.effects ++ es
        → IsListening w w' fd
        → IsOpened t a w none (record a { fd = pos fd }) w'

  -- What `listen` leaves.
  data IsTried (a : Acceptor) (w : World) (fd : ℕ)
      : Option AcceptError → Acceptor → World → Type 0 where
    refused : (e : AcceptError) (w' : World) → w'.effects ≡ w.effects → IsTried a w fd (some e) a w'
    listens :
        (w' : World)
        → w'.effects ≡ w.effects
        → IsListening w w' fd
        → IsTried a w fd none (record a { fd = pos fd }) w'

  module _ (a : Acceptor) (w : World) (v : IsReady w) where
    added_lem :
        (fd : ℕ) (es : List Effect) (err : Option ReactorError) (r : Reactor)
        → Routed kernel w.reactor id fd (poll_at w fd) ev_accept err r
        → Ends
            (λ (e, a', w'). IsTried a (record w { effects = es }) fd e a' w')
            (ok (elim err [
              | some e ↦ (some add_failed, a, record w { reactor = r; effects = es })
              | none ↦ (none, record a { fd = pos fd }, record w { reactor = r; effects = es })
            ]))
    added_lem fd es (some e) r q = ends (refused add_failed _ refl)
    added_lem fd es none r q = ends (
        listens _ refl (record {
          known = routed-IsKnown w id fd ev_accept r q;
          ep = routed_ep w id fd ev_accept r q v;
          timers_kept = refl;
        }))

    listen_lem :
        (fd : ℕ) (sa : Sockaddr) (es : List Effect)
        → IsNew w fd
        → Ends
            (λ (e, a', w'). IsTried a (record w { effects = es }) fd e a' w')
            (listen kernel sys id now fd sa a (record w { effects = es }))
    unfolding listen
    listen_lem fd sa es new =
        Ends-test (sys.bind fd sa)
          (λ bound.
            Ends-test (sys.listen fd a.listen_backlog)
              (λ listening.
                Ends-bind
                  (add_ev_handler-Routed kernel w.reactor v.some_poll id fd ev_accept new.0
                    (v.maps (poll_at w fd)) new.1)
                  λ (err, r) q. added_lem fd es err r q)
              (λ deaf. ends (refused listen_failed _ refl)))
          (λ unbound. ends (refused bind_failed _ refl))

    closed_lem :
        {text : List ℕ} (e : AcceptError) (fd : ℕ) (w' : World)
        → w'.effects ≡ w.effects ++ (opened fd ∷ [])
        → IsOpened (some (tcp text)) a w (some e) a (did (closed fd) w')
    closed_lem {text} e fd w' same =
        not_opened e (opened fd ∷ closed fd ∷ []) _ (tcp_closed text fd) (
          ap (λ es. es ++ (closed fd ∷ [])) same
          ∙ append_assoc w.effects (opened fd ∷ []) (closed fd ∷ []))

    with_opt_lem :
        {text : List ℕ} (wanted : Bool) (opt : SockOpt) (fd : ℕ) (next : Opened)
        → Ends (λ (e, a', w'). IsOpened (some (tcp text)) a w e a' w') next
        → Ends
            (λ (e, a', w'). IsOpened (some (tcp text)) a w e a' w')
            (with_opt kernel sys id now wanted opt fd a (did (opened fd) w) next)
    with_opt_lem {text} wanted opt fd next p =
        Ends-test wanted
          (λ asked.
            Ends-test (sys.set_opt opt fd) (λ set. p)
              (λ unset. ends (closed_lem (set_opt_failed opt) fd _ refl)))
          (λ plain. p)

    tcp_tried :
        {text : List ℕ} (fd : ℕ) (e : Option AcceptError) (a' : Acceptor) (w' : World)
        → IsTried a (did (opened fd) w) fd e a' w'
        → Ends
            (λ (e, a', w'). IsOpened (some (tcp text)) a w e a' w')
            (ok (elim e [ some e ↦ (some e, a', did (closed fd) w') | none ↦ (none, a', w') ]))
    tcp_tried {text} fd _ _ _ (refused e w' same) = ends (closed_lem e fd w' same)
    tcp_tried {text} fd _ _ _ (listens w' same l) = ends (
        is_opened fd (opened fd ∷ []) w' (tcp_open text fd) same
          (record { known = l.known; ep = l.ep; timers_kept = l.timers_kept }))

    tcp_listen_lem :
        (addr : List ℕ)
        → ((fd : ℕ) → sys.socket af_inet ≡ some fd → IsNew w fd)
        → Ends
            (λ (e, a', w'). IsOpened (some (tcp addr)) a w e a' w')
            (tcp_listen kernel sys id now addr a w)
    unfolding tcp_listen
    tcp_listen_lem addr given = elim (Option-cases (sys.socket af_inet)) [
      | inl e ↦
          rw (e, tcp_listen)
            (ends (not_opened socket_failed [] w (no_socket addr) (sym (append-nil w.effects))))
      | inr (fd, e) ↦
          rw (e, tcp_listen)
            (with_opt_lem a.reuse_addr so_reuseaddr fd _ (
              with_opt_lem a.reuse_port so_reuseport fd _ (
                with_opt_lem (is_pos a.sock_rcv_buf_size) (so_rcvbuf a.sock_rcv_buf_size) fd _
                  (resolved fd (given fd e) (tcp_address addr)))))
    ]
      where
        resolved :
            (fd : ℕ)
            → IsNew w fd
            → (r : Resolved)
            → Ends
                (λ (e, a', w'). IsOpened (some (tcp addr)) a w e a' w')
                (elim r [
                  | bad e ↦ ok (some (addr_unusable e), a, did (closed fd) (did (opened fd) w))
                  | address ip port ↦
                      or_close kernel sys id now fd
                        (listen kernel sys id now fd (inet4 ip port) a (did (opened fd) w))
                ])
        resolved fd new (bad e) = ends (closed_lem (addr_unusable e) fd _ refl)
        resolved fd new (address ip port) =
            Ends-bind (listen_lem fd (inet4 ip port) (w.effects ++ (opened fd ∷ [])) new)
              λ (e, a', w') t. tcp_tried fd e a' w' t

    uds_tried :
        (path : List ℕ) (fd : ℕ) (e : Option AcceptError) (a' : Acceptor) (w' : World)
        → IsTried a (did (opened fd) (did (removed_path path) w)) fd e a' w'
        → Ends
            (λ (e, a', w'). IsOpened (some (uds path)) a w e a' w')
            (ok (elim e [
              | some e ↦ (some e, a', did (closed fd) (did (removed_path path) w'))
              | none ↦ (none, a', w')
            ]))
    uds_tried path fd _ _ _ (refused e w' same) = ends (
        not_opened e _ _ (uds_closed path fd) (
          ap (λ es. (es ++ (removed_path path ∷ [])) ++ (closed fd ∷ []))
            (same ∙ append_assoc w.effects _ _)
          ∙ append_assoc (w.effects ++ (removed_path path ∷ opened fd ∷ [])) _ _
          ∙ append_assoc w.effects _ _))
    uds_tried path fd _ _ _ (listens w' same l) = ends (
        is_opened fd _ w' (uds_open path fd) (same ∙ append_assoc w.effects _ _)
          (record { known = l.known; ep = l.ep; timers_kept = l.timers_kept }))

    uds_listen_lem :
        (path : List ℕ)
        → ((fd : ℕ) → sys.socket af_unix ≡ some fd → IsNew w fd)
        → Ends
            (λ (e, a', w'). IsOpened (some (uds path)) a w e a' w')
            (uds_listen kernel sys id now path a w)
    unfolding uds_listen
    uds_listen_lem path given = elim (Option-cases (sys.socket af_unix)) [
      | inl e ↦ rw (e, uds_listen) (ends (not_opened socket_failed _ _ (path_removed path) refl))
      | inr (fd, e) ↦
          rw (e, uds_listen)
            (Ends-bind
              (listen_lem fd (unix_path path)
                ((w.effects ++ (removed_path path ∷ [])) ++ (opened fd ∷ [])) (given fd e))
              λ (e, a', w') t. uds_tried path fd e a' w' t)
    ]

    open_listener_lem :
        (addr : List ℕ)
        → ((f : Family) (fd : ℕ) → sys.socket f ≡ some fd → IsNew w fd)
        → Ends
            (λ (e, a', w'). IsOpened (target addr) a w e a' w')
            (open_listener kernel sys id now addr a w)
    unfolding open_listener
    open_listener_lem addr given = at (target addr)
      where
        at :
            (t : Option Target)
            → Ends
                (λ (e, a', w'). IsOpened t a w e a' w')
                (elim t [
                  | none ↦ ok (some addr_invalid, a, w)
                  | some (uds path) ↦ uds_listen kernel sys id now path a w
                  | some (tcp text) ↦ tcp_listen kernel sys id now text a w
                ])
        at none = ends (not_opened addr_invalid [] w no_target (sym (append-nil w.effects)))
        at (some (uds path)) = uds_listen_lem path (given af_unix)
        at (some (tcp text)) = tcp_listen_lem text (given af_inet)

  -- What NewAcceptor returns.
  pub data IsMade (t : Option Target) (opts : List Setter) (w : World)
      : Option AcceptError → Option Acceptor → World → Type 0 where
    not_made :
        (e : AcceptError) (w' : World)
        → IsOpened t (configured opts) w (some e) (configured opts) w'
        → IsMade t opts w (some e) none w'
    made :
        (a' : Acceptor) (w' : World)
        → IsOpened t (configured opts) w none a' w'
        → IsMade t opts w none (some a') w'

  made_lem :
      (t : Option Target) (opts : List Setter) (w : World) (e : Option AcceptError) (a' : Acceptor)
      (w' : World)
      → IsOpened t (configured opts) w e a' w'
      → Ends
          (λ (e, o, w'). IsMade t opts w e o w')
          (ok (elim e [ some e ↦ (some e, none, w') | none ↦ (none, some a', w') ]))
  made_lem t opts w _ _ _ (not_opened e es w' c same) =
      ends (not_made e w' (not_opened e es w' c same))
  made_lem t opts w _ _ _ (is_opened fd es w' c same l) =
      ends (made _ w' (is_opened fd es w' c same l))

  -- NewAcceptor returns, where the kernel gives descriptors that the reactor does not know. With an error
  -- there is no acceptor, and a socket that was made was closed again, once; for a unix address
  -- its path, which is the one in the address, was removed before, and is removed again by the close. Without, the acceptor listens: its socket is open, and its poller knows it for EvAccept.
  pub new_acceptor_lem :
      (opts : List Setter) (addr : List ℕ) (w : World)
      → IsReady w
      → ((f : Family) (fd : ℕ) → sys.socket f ≡ some fd → IsNew w fd)
      → Ends
          (λ (e, o, w'). IsMade (target addr) opts w e o w')
          (new_acceptor kernel sys id now opts addr w)
  unfolding new_acceptor
  new_acceptor_lem opts addr w v given =
      Ends-bind (open_listener_lem (configured opts) w v addr given)
        λ (e, a', w') o. made_lem (target addr) opts w e a' w' o

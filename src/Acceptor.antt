-- ===== src/Acceptor.antt =====
-- acceptor.go: the listening socket, and the connections that it accepts.
-- The calls of the kernel for the new socket, and the answers to `accept4`, in order, are parameters. A new
-- handler is known by the calls that it gets; `opens` is its answer to OnOpen, by the accepted descriptor.
pub mod Open
pub mod Pause
pub mod Serve
mod Tests
use goev.Prelude.{
  ℕ, zero, suc, ◌/◌, Bool, true, false, Option, none, some, List, [], ◌∷◌, ltb, if◌then◌else◌, Run,
  ok, ◌>>=◌,
}
use goev.Prelude.Int.{ℤ, pos, negsuc}
use goev.EvData.{is_pos}
use goev.Mask.{ev_accept, ev_all}
use goev.Address.{
  Sockaddr, inet4, unix_path, AddressError, Resolved, bad, address, Target, uds, tcp, target,
  tcp_address,
}
use goev.Options.{Setter, set_options}
use goev.Poll.{Kernel}
use goev.Reactor.{add_ev_handler, remove_event, route}
use goev.Sockets.{
  Family, af_inet, af_unix, World, did, opened, closed, set_eh_fd, removed_path, open_handler,
  schedule_timer,
}

pub data SockOpt : Type 0 where
  so_reuseaddr so_reuseport : SockOpt
  so_rcvbuf : ℤ → SockOpt

-- What `syscall.Accept4` answers.
pub data AcceptResult : Type 0 where
  accepted : ℕ → AcceptResult
  interrupted too_many_files : AcceptResult
  failed : ℕ → AcceptResult

pub record Sys : Type 0 where
  pub socket : Family → Option ℕ
  pub set_opt : SockOpt → ℕ → Bool
  pub bind : ℕ → Sockaddr → Bool
  pub listen : ℕ → ℤ → Bool
  pub accept4 : ℕ → AcceptResult
  pub opens : ℕ → Bool

pub data AcceptError : Type 0 where
  addr_invalid socket_failed bind_failed listen_failed add_failed : AcceptError
  set_opt_failed : SockOpt → AcceptError
  addr_unusable : AddressError → AcceptError

-- Acceptor, with the descriptor of its IOHandle.
pub record Acceptor : Type 0 where
  pub fd : ℤ
  pub reuse_addr : Bool
  pub reuse_port : Bool
  pub sock_rcv_buf_size : ℤ
  pub listen_backlog : ℤ
  pub loop_accept_times : ℕ

-- `a.listenBacklog / 2`, and at least 1
abbrev pub half : ℤ → ℕ
half (pos n) = if ltb (n / 2) 1 then 1 else n / 2
half (negsuc n) = 1

-- The fields that NewAcceptor sets.
unfoldable pub configured : List Setter → Acceptor
configured opts =
    let ev_options = set_options opts in
    record {
      fd = pos 0;
      reuse_addr = ev_options.reuse_addr;
      reuse_port = ev_options.reuse_port;
      sock_rcv_buf_size = ev_options.sock_rcv_buf_size;
      listen_backlog = ev_options.listen_backlog;
      loop_accept_times = half ev_options.listen_backlog;
    }

-- An error, if any, with the acceptor and the world afterwards.
abbrev pub Opened : Type 0
Opened = Run (Option AcceptError × Acceptor × World)

module _ (kernel : Kernel) (sys : Sys) (id : ℕ) (now : ℕ) where
  unfoldable pub listen : ℕ → Sockaddr → Acceptor → World → Opened
  listen fd sa a w =
      let added : Opened =
        add_ev_handler kernel (some id) (pos fd) ev_accept w.reactor >>= λ (err, r). ok (elim err [
          | some e ↦ (some add_failed, a, record w { reactor = r })
          | none ↦ (none, record a { fd = pos fd }, record w { reactor = r })
        ]) in
      if sys.bind fd sa
      then (if sys.listen fd a.listen_backlog then added else ok (some listen_failed, a, w))
      else ok (some bind_failed, a, w)

  -- `if wanted { if err = SetsockoptInt(...); err != nil { Close(fd); return } }`, and what follows
  abbrev with_opt : Bool → SockOpt → ℕ → Acceptor → World → Opened → Opened
  with_opt wanted opt fd a w next =
      if wanted
      then (if sys.set_opt opt fd
          then next
          else ok (some (set_opt_failed opt), a, did (closed fd) w))
      else next

  -- The end of tcpListen: `if err := a.listen(fd, &sa); err != nil { Close(fd); return err }`
  abbrev or_close : ℕ → Opened → Opened
  or_close fd m = m >>= λ (err, a, w).
      ok (elim err [ some e ↦ (some e, a, did (closed fd) w) | none ↦ (none, a, w) ])

  unfoldable pub tcp_listen : List ℕ → Acceptor → World → Opened
  unfolding listen
  tcp_listen addr a w = elim (sys.socket af_inet) [
    | none ↦ ok (some socket_failed, a, w)
    | some fd ↦
        (let w' : World = did (opened fd) w in
          let resolved : Opened = elim (tcp_address addr) [
            | bad e ↦ ok (some (addr_unusable e), a, did (closed fd) w')
            | address ip port ↦ or_close fd (listen fd (inet4 ip port) a w')
          ] in
          with_opt a.reuse_addr so_reuseaddr fd a w' (
            with_opt a.reuse_port so_reuseport fd a w' (
              with_opt (is_pos a.sock_rcv_buf_size) (so_rcvbuf a.sock_rcv_buf_size) fd a w'
                resolved)))
  ]

  unfoldable pub uds_listen : List ℕ → Acceptor → World → Opened
  unfolding listen
  uds_listen addr a w =
      let w1 : World = did (removed_path addr) w in
      elim (sys.socket af_unix) [
        | none ↦ ok (some socket_failed, a, w1)
        | some fd ↦
            (listen fd (unix_path addr) a (did (opened fd) w1) >>= λ (err, a', w'). ok (elim err [
              | some e ↦ (some e, a', did (closed fd) (did (removed_path addr) w'))
              | none ↦ (none, a', w')
            ]))
      ]

  unfoldable pub open_listener : List ℕ → Acceptor → World → Opened
  unfolding tcp_listen uds_listen
  open_listener addr a w = elim (target addr) [
    | none ↦ ok (some addr_invalid, a, w)
    | some (uds path) ↦ uds_listen path a w
    | some (tcp text) ↦ tcp_listen text a w
  ]

  -- NewAcceptor: an acceptor, or an error.
  unfoldable pub new_acceptor :
      List Setter → List ℕ → World → Run (Option AcceptError × Option Acceptor × World)
  unfolding open_listener configured
  new_acceptor opts addr w = open_listener addr (configured opts) w >>= λ (err, a, w').
      ok (elim err [ some e ↦ (some e, none, w') | none ↦ (none, some a, w') ])

  -- The branch of EMFILE: a timer, and no more events until then.
  unfoldable pub pause : ℕ → World → Run World
  unfolding schedule_timer
  pause fd w = do
    (err, w') ←
        schedule_timer now id ((w.reactor.ev_polls (route w.reactor.ev_poll_num fd)).eh_ep id)
          (pos 100) (pos 0) w
    let removed : Run World =
        remove_event kernel (pos fd) ev_all w'.reactor >>= λ (_, r). ok (record w' { reactor = r })
    elim err [ none ↦ removed | some e ↦ ok w' ]

  -- A new connection: `h.setFd(conn)` and OnOpen.
  abbrev pub serve : ℕ → World → World
  serve conn w = open_handler (sys.opens conn) (did (set_eh_fd (pos conn)) w)

  -- The loop of OnRead, with the rounds left and the number of the next `accept4`.
  unfoldable pub accept_loop : ℕ → ℕ → ℕ → World → Run World
  unfolding pause
  accept_loop zero n fd w = ok w
  accept_loop (suc k) n fd w = elim (sys.accept4 n) [
    | accepted conn ↦ accept_loop k (suc n) fd (serve conn w)
    | interrupted ↦ accept_loop k (suc n) fd w
    | too_many_files ↦ pause fd w
    | failed _ ↦ ok w
  ]

  -- OnRead of an acceptor that listens at `fd`
  unfoldable pub on_read : ℕ → Acceptor → World → Run (Bool × World)
  unfolding accept_loop
  on_read fd a w = accept_loop a.loop_accept_times 0 fd w >>= λ w'. ok (true, w')

  -- OnTimeout
  unfoldable pub on_timeout : Acceptor → World → Run (Bool × World)
  on_timeout a w =
      let again : Run (Bool × World) =
        add_ev_handler kernel (some id) a.fd ev_accept w.reactor >>= λ (_, r).
        ok (false, record w { reactor = r }) in
      if is_pos a.fd then again else ok (false, w)

-- OnClose: Destroy, which closes the socket.
unfoldable pub on_close : Acceptor → World → Acceptor × World
on_close a w = elim a.fd [
  | pos fd ↦ (if ltb 0 fd then (record a { fd = negsuc 0 }, did (closed fd) w) else (a, w))
  | negsuc _ ↦ (a, w)
]

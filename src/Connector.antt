-- ===== src/Connector.antt =====
-- connector.go: connections to be made, at once or in the background.
-- The calls of the kernel for the new socket are parameters: its descriptor, the verdict on the option, and
-- the answers to `connect`, in order. The user's handler is known by the calls that it gets.
pub mod Connect
pub mod InProgress
pub mod Outcome
pub mod Stale
mod Tests
use goev.Prelude.{
  ℕ, zero, suc, Bool, true, false, not, Option, none, some, List, [], ◌∷◌, ◌++◌, if◌then◌else◌, Run,
  ok, out_of_fuel, ◌>>=◌,
}
use goev.Prelude.Int.{ℤ, pos, negsuc}
use goev.EvData.{is_pos}
use goev.Mask.{Mask, ev_connect}
use goev.Address.{
  Sockaddr, inet4, unix_path, AddressError, Resolved, bad, address, Target, uds, tcp, target,
  tcp_address,
}
use goev.Options.{Setter, set_options}
use goev.Poll.{Kernel}
use goev.Sockets.{
  Family, af_inet, af_unix, FailReason, err_connect_fail, err_connect_timeout, Effect, opened,
  closed, set_eh_fd, removed_path, on_open, on_close, on_connect_fail, World, did, open_handler,
  TimerError, not_added, schedule_failed, schedule_timer,
}
use goev.Reactor.{add_ev_handler, route}

-- What `syscall.Connect` answers.
pub data ConnectResult : Type 0 where
  connected in_progress interrupted : ConnectResult
  failed : ℕ → ConnectResult

pub record Sys : Type 0 where
  pub socket : Family → Option ℕ
  pub set_rcv_buf : ℕ → ℤ → Bool
  pub connect : ℕ → ℕ → Sockaddr → ConnectResult

pub data ConnectError : Type 0 where
  timeout_negative addr_invalid socket_failed set_rcv_buf_failed err_connect_inprogress add_failed :
      ConnectError
  addr_unusable : AddressError → ConnectError
  connect_failed : ℕ → ConnectError

-- NewConnector: the option that it keeps; the reactor is in the world.
unfoldable pub new_connector : List Setter → ℤ
new_connector opts = let ev_options = set_options opts in ev_options.sock_rcv_buf_size

module _ (kernel : Kernel) (sys : Sys) (opens : Bool) (ipc : ℕ) (now : ℕ) where
  -- The loop around `syscall.Connect`: again after EINTR, for the call number `n`.
  connect_loop : ℕ → ℕ → ℕ → Sockaddr → Run ConnectResult
  connect_loop zero n fd sa = out_of_fuel
  connect_loop (suc f) n fd sa =
      let again = connect_loop f (suc n) fd sa in
      elim (sys.connect n fd sa) [
        | connected ↦ ok connected
        | in_progress ↦ ok in_progress
        | interrupted ↦ again
        | failed e ↦ ok (failed e)
      ]

  -- The branch of EINPROGRESS, with a new inProgressConnect `ipc` for the handler.
  pub in_background : ℕ → ℤ → World → Run (Option ConnectError × World)
  unfolding schedule_timer
  in_background fd timeout w =
      let registered : Run (Option ConnectError × World) = do
        (err, r) ← add_ev_handler kernel (some ipc) (pos fd) ev_connect w.reactor
        let w' : World = record w { reactor = r }
        let ep = (r.ev_polls (route r.ev_poll_num fd)).eh_ep ipc
        let waiting : Run (Option ConnectError × World) =
            schedule_timer now ipc ep timeout (pos 0) w' >>= λ (ignored, w''). ok (none, w'')
        elim err [ some e ↦ ok (some add_failed, did (closed fd) w') | none ↦ waiting ]
      in if is_pos timeout then registered else ok (some err_connect_inprogress, did (closed fd) w)

  -- What connect does with the answer.
  pub answered : ℕ → ℤ → World → ConnectResult → Run (Option ConnectError × World)
  unfolding in_background
  answered fd timeout w connected = ok (none, open_handler opens (did (set_eh_fd (pos fd)) w))
  answered fd timeout w in_progress = in_background fd timeout w
  answered fd timeout w interrupted = ok (some (connect_failed 4), did (closed fd) w)
  answered fd timeout w (failed errno) = ok (some (connect_failed errno), did (closed fd) w)

  unfoldable pub connect : ℕ → ℕ → Sockaddr → ℤ → World → Run (Option ConnectError × World)
  unfolding connect_loop answered
  connect fuel fd sa timeout w = connect_loop fuel 0 fd sa >>= answered fd timeout w

  -- tcpConnect, with the option `sockRcvBufSize`.
  unfoldable pub tcp_connect : ℕ → ℤ → List ℕ → ℤ → World → Run (Option ConnectError × World)
  unfolding connect
  tcp_connect fuel sock_rcv_buf_size addr timeout w = elim (sys.socket af_inet) [
    | none ↦ ok (some socket_failed, w)
    | some fd ↦
        (let w' : World = did (opened fd) w in
          let resolved : Run (Option ConnectError × World) = elim (tcp_address addr) [
            | bad e ↦ ok (some (addr_unusable e), did (closed fd) w')
            | address ip port ↦ connect fuel fd (inet4 ip port) timeout w'
          ] in
          if is_pos sock_rcv_buf_size
          then (if sys.set_rcv_buf fd sock_rcv_buf_size
              then resolved
              else ok (some set_rcv_buf_failed, did (closed fd) w'))
          else resolved)
  ]

  unfoldable pub uds_connect : ℕ → List ℕ → ℤ → World → Run (Option ConnectError × World)
  unfolding connect
  uds_connect fuel path timeout w = elim (sys.socket af_unix) [
    | none ↦ ok (some socket_failed, w)
    | some fd ↦ connect fuel fd (unix_path path) timeout (did (opened fd) w)
  ]

  -- Connect
  unfoldable pub connect_to : ℕ → ℤ → List ℕ → ℤ → World → Run (Option ConnectError × World)
  unfolding tcp_connect uds_connect
  connect_to fuel sock_rcv_buf_size addr (negsuc _) w = ok (some timeout_negative, w)
  connect_to fuel sock_rcv_buf_size addr (pos timeout) w = elim (target addr) [
    | none ↦ ok (some addr_invalid, w)
    | some (uds path) ↦ uds_connect fuel path (pos timeout) w
    | some (tcp text) ↦ tcp_connect fuel sock_rcv_buf_size text (pos timeout) w
  ]

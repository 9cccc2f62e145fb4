-- ===== src/Reactor/Refused.antt =====
-- AddEvHandler that the kernel refuses.
use goev.Prelude.{
  ℕ, ◌%◌, ◌<◌, ◌≡◌, refl, ap, arith, false, true, none, some, ltb, panic, Ends, ends, Ends-bind,
}
use goev.Prelude.Int.{pos}
use goev.Mask.{Mask}
use goev.EvData.{load}
use goev.EvData.Laws.{IsValid}
use goev.Poll.{Kernel, ctl_add, ctl_failed}
use goev.Poll.Register.{add_after_refused_panics}
use goev.Reactor.{Reactor, poll_error, as_error, add_ev_handler, update_poll}
use goev.Reactor.Route.{route_lem}

-- The descriptor stays taken: AddEvHandler returns the error, and panics from then on.
pub add_ev_handler_refused :
    (kernel : Kernel) (r : Reactor) (eh fd errno : ℕ) (events : Mask)
    → 0 < r.ev_poll_num
    → 0 < fd
    → IsValid (r.ev_polls (fd % r.ev_poll_num)).ev_handler_map
    → fd < (r.ev_polls (fd % r.ev_poll_num)).ev_handler_map.arr_size
    → load fd (r.ev_polls (fd % r.ev_poll_num)).ev_handler_map ≡ none
    → kernel ctl_add fd (r.ev_polls (fd % r.ev_poll_num)).interest ≡ some errno
    → Ends
        (λ (err, r').
          (err ≡ some (poll_error (ctl_failed ctl_add errno)))
          × ((later : Kernel) (events' : Mask) (eh' : ℕ)
              → add_ev_handler later (some eh') (pos fd) events' r' ≡ panic))
        (add_ev_handler kernel (some eh) (pos fd) events r)
unfolding add_ev_handler
add_ev_handler_refused kernel r eh fd errno events some_poll pos_fd v low free no_way =
    let i = fd % r.ev_poll_num in
    let (at, inside) = route_lem r.ev_poll_num fd some_poll in
    let high : ltb fd 1 ≡ false = ground arith in
    let here : ltb i r.ev_poll_num ≡ true = ground arith in
    rw (high, at, here)
      (Ends-bind
        (add_after_refused_panics kernel fd events eh (r.ev_polls i) errno v pos_fd low free no_way)
        λ (err, p) (e, q).
          let now : update_poll r.ev_polls i p i ≡ p = ground arith in
          ends (ap as_error e, λ later events' eh'. rw (at, here, now, q later events' eh') refl))

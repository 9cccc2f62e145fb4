-- ===== src/Reactor/Tests.antt =====
-- Runs of a reactor with two pollers.
use goev.Prelude.{ℕ, ◌≡◌, refl, arith, false, some, ◌>>=◌, Ends}
use goev.Prelude.Int.{pos}
use goev.Mask.{ev_in, ev_all}
use goev.EvData.{load}
use goev.EvData.Laws.{entry}
use goev.EvData.Tests.{one_held-IsValid}
use goev.Poll.Tests.{poller, willing}
use goev.Reactor.{Reactor, add_ev_handler, remove_event}
use goev.Reactor.Route.{add_remove_restores}

abbrev two_pollers : Reactor
two_pollers = record { ev_poll_num = 2; ev_polls = λ i. poller; told = λ g. false }

add_remove_restores_example :
    Ends
      (λ (err, r').
        (i j : ℕ)
        → entry j (r'.ev_polls i).ev_handler_map ≡ entry j (two_pollers.ev_polls i).ev_handler_map)
      (add_ev_handler willing (some 3) (pos 6) ev_in two_pollers >>= λ (_, r1).
        remove_event willing (pos 6) ev_all r1)
unfolding load
add_remove_restores_example =
    add_remove_restores willing two_pollers 3 6 ev_in (omega arith) (omega arith) one_held-IsValid
      refl

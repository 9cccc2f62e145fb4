-- ===== src/Acceptor/Tests.antt =====
-- Runs of the acceptor.
use goev.Prelude.{
  ℕ, zero, suc, ◌≤◌, ◌≡◌, refl, arith, subst, true, false, none, some, [], ◌∷◌, length, ◌>>=◌, Ends,
}
use goev.Prelude.Int.{pos}
use goev.EvData.{load}
use goev.EvData.Tests.{one_held}
use goev.Mask.{ev_accept}
use goev.Poll.Tests.{willing}
use goev.Reactor.{route}
use goev.Sockets.Ready.{IsWatched}
use goev.Sockets.Tests.{world, world-IsReady}
use goev.Acceptor.{
  Sys, AcceptResult, accepted, interrupted, too_many_files, Acceptor, configured, new_acceptor,
  on_read, on_timeout,
}
use goev.Address.{target}
use goev.Acceptor.Open.{IsMade, new_acceptor_lem}
use goev.Acceptor.Pause.{IsServing}
use goev.Acceptor.Serve.{Served, answers, conns, on_read_lem, resume_lem}

-- Two connections, with an interrupted call between them, and then no descriptors are left.
abbrev arrivals : ℕ → AcceptResult
arrivals zero = accepted 7
arrivals (suc zero) = interrupted
arrivals (suc (suc zero)) = accepted 8
arrivals (suc (suc (suc n))) = too_many_files

abbrev sys : Sys
sys = record {
  socket = λ _. some 6;
  set_opt = λ _ _. true;
  bind = λ _ _. true;
  listen = λ _ _. true;
  accept4 = arrivals;
  opens = λ _. true;
}

-- ":80"
new_acceptor_lem_example :
    Ends
      (λ (e, o, w'). IsMade willing sys 1 1000 (target (58 ∷ 56 ∷ 48 ∷ [])) [] world e o w')
      (new_acceptor willing sys 1 1000 [] (58 ∷ 56 ∷ 48 ∷ []) world)
unfolding load
new_acceptor_lem_example =
    new_acceptor_lem willing sys 1 1000 [] (58 ∷ 56 ∷ 48 ∷ []) world world-IsReady (λ f fd e.
      let given : 6 ≡ fd = ground (arith, e) in
      (omega arith, subst (λ n. load n one_held ≡ none) given refl))

abbrev listening : Acceptor
listening = record (configured []) { fd = pos 5; loop_accept_times = 4 }

world-IsServing : IsServing willing sys 1 1000 world 5
unfolding route
world-IsServing = record {
  ready = world-IsReady;
  positive = omega arith;
  ep = refl;
  no_timer = refl;
}

on_read_lem_example :
    Ends
      (λ (again, w').
        (again ≡ true)
        × (length (conns (answers arrivals 0 4)) ≤ 4)
        × Served willing sys 1 1000 (answers arrivals 0 4) world 5 w')
      (on_read willing sys 1 1000 5 listening world)
on_read_lem_example = on_read_lem willing sys 1 1000 5 listening world world-IsServing

resume_lem_example :
    Ends
      (λ (again, w''). (again ≡ false) × IsWatched 1 5 ev_accept 1 w''.reactor)
      (on_read willing sys 1 1000 5 listening world >>= λ (_, w').
        on_timeout willing sys 1 1000 listening w')
resume_lem_example =
    resume_lem willing sys 1 1000 5 listening world world-IsServing refl (λ _. refl) refl

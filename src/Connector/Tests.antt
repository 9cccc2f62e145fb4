-- ===== src/Connector/Tests.antt =====
-- Runs of the connector.
use goev.Poll.{Kernel}
use goev.Connector.{add_failed, in_background}
use goev.Connector.Stale.{IsStale, in_background_refused}
use goev.Prelude.{
  ℕ, zero, suc, subst, ◌++◌, ◌==◌, if◌then◌else◌, ◌≡◌, refl, arith, true, none, some, List, [], ◌∷◌,
  panic, ◌>>=◌, Ends,
}
use goev.Prelude.Int.{pos}
use goev.EvData.{load, blank, EvDataMap, slot}
use goev.EvData.Laws
use goev.EvData.Tests.{one_held}
use goev.Mask.{overlaps, union, epoll_hup, epoll_err, epoll_out, ev_connect}
use goev.Poll.Tests.{poller, willing}
use goev.Poll.Register.{data_of}
use goev.Address.{Sockaddr}
use goev.Sockets.{World, closed}
use goev.Connector.{Sys, ConnectResult, in_progress, interrupted, connect_to}
use goev.Sockets.Tests.{world, world-IsReady}
use goev.Connector.Connect.{IsSettled, connect_to_lem}
use goev.Connector.InProgress.{started, event, on_timeout}
use goev.Connector.Outcome.{Outcome, event_lem, refused_panics}

-- A kernel that gives descriptor 6, and answers EINTR once, then EINPROGRESS.
abbrev later : ℕ → ℕ → Sockaddr → ConnectResult
later zero fd sa = interrupted
later (suc n) fd sa = in_progress

abbrev sys : Sys
sys = record { socket = λ _. some 6; set_rcv_buf = λ _ _. true; connect = later }

-- "1.2.3.4:80"
abbrev addr : List ℕ
addr = 49 ∷ 46 ∷ 50 ∷ 46 ∷ 51 ∷ 46 ∷ 52 ∷ 58 ∷ 56 ∷ 48 ∷ []

connect_to_lem_example :
    Ends
      (λ (e, w'). IsSettled willing sys true 9 1000 (pos 50) world e w')
      (connect_to willing sys true 9 1000 2 (pos 0) addr (pos 50) world)
unfolding load
connect_to_lem_example =
    connect_to_lem willing sys true 9 1000 world world-IsReady (λ i. refl) 2 (pos 0) addr (pos 50)
      (λ f fd e.
        let given : 6 ≡ fd = ground (arith, e) in
        (
          (omega arith, subst (λ n. load n one_held ≡ none) given refl),
          λ sa. (1, omega arith, λ u. ground (arith, u)),
        ))

-- The connect of handler 9 waits with descriptor 6.
abbrev one_waits : EvDataMap
one_waits = record {
  arr_size = 8;
  arr = λ i. if i == 6 then data_of 6 ev_connect 9 else blank;
  s_map = λ _. none;
  cells = λ _. blank;
  next = 0;
}

one_waits-IsValid : Laws.IsValid one_waits
one_waits-IsValid = record {
  owned = λ i l e. absurd (ground arith);
  apart = λ i j l e f. absurd (ground arith);
  live = λ i l e. absurd (ground arith);
}

abbrev waiting : World
waiting = record world {
  reactor = record world.reactor { ev_polls = λ i. record poller { ev_handler_map = one_waits } };
}

event_lem_example :
    Ends
      (λ (p', w'). Outcome willing true 9 0 6 epoll_out waiting p' w')
      (event willing true 9 0 epoll_out 6 (started 6) waiting)
unfolding load
event_lem_example =
    event_lem willing true 9 0 6 waiting (omega arith) one_waits-IsValid (slot 6) epoll_out refl

refused_panics_example :
    (event willing true 9 0 (union epoll_err epoll_hup) 6 (started 6) waiting >>= λ (p', w').
    on_timeout willing true 9 0 p' w')
    ≡ panic
unfolding load overlaps
refused_panics_example =
    refused_panics willing true 9 0 6 waiting (omega arith) one_waits-IsValid (slot 6)
      (union epoll_err epoll_hup) refl refl

-- A kernel that refuses every registration.
abbrev refusing : Kernel
refusing op fd i = some 28

in_background_refused_example :
    Ends
      (λ (err, w').
        (err ≡ some add_failed) × (w'.effects ≡ world.effects ++ (closed 6 ∷ [])) × IsStale 6 w')
      (in_background refusing sys true 9 1000 6 (pos 50) world)
unfolding load
in_background_refused_example =
    in_background_refused refusing sys true 9 1000 6 50 28 world world-IsReady (omega arith, refl)
      (omega arith) refl (omega arith)

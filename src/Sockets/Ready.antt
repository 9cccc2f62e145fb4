-- ===== src/Sockets/Ready.antt =====
-- A reactor in a sound state, and what a registration and a timer leave of it.
use goev.Prelude.{
  ℕ, ◌%◌, ◌<◌, ◌≡◌, refl, sym, ap, ◌∙◌, subst, arith, inl, inr, Option, none, some, Ends, ends,
  Ends-bind,
}
use goev.Prelude.Int.{pos}
use goev.EvData.{load, Loc}
use goev.EvData.Laws
use goev.EvData.Laws.{entry}
use goev.Mask.{Mask}
use goev.Timer.{update}
use goev.Timer.Queue
use goev.Timer.Schedule.{Scheduled, schedule_lem}
use goev.Poll.{Kernel, ctl_add}
use goev.Poll.Register.{data_of}
use goev.Reactor.{Reactor, ReactorError, route}
use goev.Reactor.Route.{Routed, route_lem}
use goev.Sockets.{World, schedule_failed, schedule_timer}

-- A reactor with pollers, whose maps and timers are valid.
pub record IsReady (w : World) : Type 0 where
  pub some_poll : 0 < w.reactor.ev_poll_num
  pub maps : (i : ℕ) → Laws.IsValid (w.reactor.ev_polls i).ev_handler_map
  pub ids : (i : ℕ) → (w.reactor.ev_polls i).id ≡ i
  pub timers : (i : ℕ) → Queue.IsValid (w.timers i)

-- The poller of a descriptor.
abbrev pub poll_at : World → ℕ → ℕ
poll_at w fd = fd % w.reactor.ev_poll_num

-- The descriptor is unknown to its poller.
abbrev pub IsNew : World → ℕ → Type 0
IsNew w fd = (0 < fd) × (load fd (w.reactor.ev_polls (poll_at w fd)).ev_handler_map ≡ none)

-- The descriptor is known to the poller `i`, for the given handler and events.
abbrev pub IsKnown : ℕ → ℕ → Mask → ℕ → Reactor → Type 0
IsKnown i fd events eh r =
    (l : Loc) × (entry fd (r.ev_polls i).ev_handler_map ≡ some (l, data_of fd events eh))

-- The kernel watches it for them too, with the pointer to the same data.
abbrev pub IsWatched : ℕ → ℕ → Mask → ℕ → Reactor → Type 0
IsWatched i fd events eh r =
    (l : Loc) × (entry fd (r.ev_polls i).ev_handler_map ≡ some (l, data_of fd events eh))
    × ((r.ev_polls i).interest fd ≡ some (events, l))

module _ {kernel : Kernel} (w : World) (eh fd : ℕ) (events : Mask) {err : Option ReactorError}
    (r : Reactor) (a : Routed kernel w.reactor eh fd (poll_at w fd) events err r) where
  here : r.ev_polls (poll_at w fd) ≡ a.poller
  here = a.polls (poll_at w fd) ∙ ground arith

  -- The poller knows the handler that was added, and the handler knows its poller.
  pub routed-IsKnown : IsKnown (poll_at w fd) fd events eh r
  routed-IsKnown =
      let found : entry fd a.poller.ev_handler_map ≡ some (a.added.at, data_of fd events eh) =
        a.added.entries fd ∙ ground arith in
      (a.added.at, ap (λ p. entry fd p.ev_handler_map) here ∙ found)

  -- It is watched where the kernel accepts it.
  pub routed-IsWatched :
      kernel ctl_add fd (w.reactor.ev_polls (poll_at w fd)).interest ≡ none
      → IsWatched (poll_at w fd) fd events eh r
  routed-IsWatched fine =
      let found : entry fd a.poller.ev_handler_map ≡ some (a.added.at, data_of fd events eh) =
        a.added.entries fd ∙ ground arith in
      (
        a.added.at,
        ap (λ p. entry fd p.ev_handler_map) here ∙ found,
        ap (λ p. p.interest fd) here ∙ (a.added.accepted fine).1,
      )

  pub routed_ep : IsReady w → (r.ev_polls (route r.ev_poll_num fd)).eh_ep eh ≡ some (poll_at w fd)
  routed_ep v =
      let (at, inside) =
        route_lem r.ev_poll_num fd (subst (λ n. 0 < n) (sym a.same_num) v.some_poll) in
      ap (λ j. (r.ev_polls j).eh_ep eh) (at ∙ ap (λ n. fd % n) a.same_num)
      ∙ ap (λ p. p.eh_ep eh) here
      ∙ a.added.told.1
      ∙ ap some (v.ids (poll_at w fd))

-- A timer for a handler that has none is added to its poller's.
pub schedule_timer_lem :
    (now eh i delay : ℕ) (w : World)
    → Queue.IsValid (w.timers i)
    → (w.timers i).ti eh ≡ none
    → Ends
        (λ (err, w').
          (err ≡ none)
          × Scheduled now eh delay 0 (w.timers i) (w'.timers i)
          × (w' ≡ record w { timers = w'.timers }))
        (schedule_timer now eh (some i) (pos delay) (pos 0) w)
unfolding schedule_timer
schedule_timer_lem now eh i delay w v fresh =
    Ends-bind (schedule_lem now eh (pos delay) (pos 0) (w.timers i) v) λ (err, t) s. elim s [
      | inl (had, _, _) ↦ absurd (had fresh)
      | inr (_, e, timed) ↦
          (let same : update w.timers i t i ≡ t = ground arith in
            ends (
              ap (λ e'. elim e' [ none ↦ none | some x ↦ some (schedule_failed x) ]) e,
              subst (Scheduled now eh delay 0 (w.timers i)) (sym same) timed,
              refl,
            ))
    ]

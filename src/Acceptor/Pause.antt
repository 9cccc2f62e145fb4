-- ===== src/Acceptor/Pause.antt =====
-- The pause of an acceptor when there are no descriptors left.
use goev.Prelude.{
  ℕ, ◌<◌, ◌≡◌, refl, sym, ap, ◌∙◌, subst, arith, Option, none, some, List, Run, ok, ◌>>=◌, Ends,
  ends, Ends-bind,
}
use goev.Prelude.Int.{pos}
use goev.EvData.{load, read, Loc, EvData, EvDataMap}
use goev.EvData.Laws
use goev.EvData.Laws.{entry}
use goev.Mask.{ev_all}
use goev.Timer.Schedule.{Scheduled}
use goev.Poll.{Kernel}
use goev.Timer.{Timer}
use goev.Reactor.{remove_event, route}
use goev.Reactor.Route.{remove_event-Unrouted}
use goev.Sockets.{World, TimerError, Effect, schedule_timer}
use goev.Sockets.Ready.{IsReady, poll_at, schedule_timer_lem}
use goev.Acceptor.{Sys, pause}

module _ (kernel : Kernel) (sys : Sys) (id : ℕ) (now : ℕ) where
  -- The pause: no more events for the descriptor, and a timer of 100 ms.
  pub record IsPaused (w : World) (fd : ℕ) (w' : World) : Type 0 where
    pub gone : load fd (w'.reactor.ev_polls (poll_at w fd)).ev_handler_map ≡ none
    pub valid : Laws.IsValid (w'.reactor.ev_polls (poll_at w fd)).ev_handler_map
    pub same_num : w'.reactor.ev_poll_num ≡ w.reactor.ev_poll_num
    pub timed : Scheduled now id 100 0 (w.timers (poll_at w fd)) (w'.timers (poll_at w fd))
    pub effects_kept : w'.effects ≡ w.effects

  -- A listening acceptor without a timer.
  pub record IsServing (w : World) (fd : ℕ) : Type 0 where
    pub ready : IsReady w
    pub positive : 0 < fd
    pub ep : (w.reactor.ev_polls (route w.reactor.ev_poll_num fd)).eh_ep id ≡ some (poll_at w fd)
    pub no_timer : (w.timers (poll_at w fd)).ti id ≡ none

  unknown : (fd : ℕ) (m : EvDataMap) → entry fd m ≡ none → load fd m ≡ none
  unknown fd m e = at (load fd m) e
    where
      at :
          (o : Option Loc)
          → (elim o as (λ _. Option (Loc × EvData)) [ none ↦ none | some l ↦ some (l, read l m) ])
            ≡ none
          → o ≡ none
      at none e' = refl
      at (some l) e' = absurd (ground arith)

  removed_lem :
      (w : World) (fd : ℕ) (err : Option TimerError) (ts : ℕ → Timer)
      → IsServing w fd
      → err ≡ none
      → Scheduled now id 100 0 (w.timers (poll_at w fd)) (ts (poll_at w fd))
      → Ends (IsPaused w fd) (
          let removed : Run World = remove_event kernel (pos fd) ev_all w.reactor >>= λ (_, r).
          ok (record w { reactor = r; timers = ts }) in
          elim err [ none ↦ removed | some e ↦ ok (record w { timers = ts }) ])
  removed_lem w fd (some e) ts v none_failed timed = absurd (ground arith)
  removed_lem w fd none ts v none_failed timed =
      let i = poll_at w fd in
      Ends-bind
        (remove_event-Unrouted kernel w.reactor v.ready.some_poll fd (v.ready.maps i) v.positive)
        λ (e, r) q.
          let here : r.ev_polls i ≡ q.poller = q.polls i ∙ ground arith in
          let gone : entry fd q.poller.ev_handler_map ≡ none =
            q.released.entries fd ∙ ground arith in
          ends (record {
            gone =
                unknown fd (r.ev_polls i).ev_handler_map
                  (ap (λ p. entry fd p.ev_handler_map) here ∙ gone);
            valid = subst (λ p. Laws.IsValid p.ev_handler_map) (sym here) q.released.valid;
            same_num = q.same_num;
            timed = timed;
            effects_kept = refl;
          })

  -- The branch of EMFILE pauses a listening acceptor.
  pub pause_lem :
      (w : World) (fd : ℕ) → IsServing w fd → Ends (IsPaused w fd) (pause kernel sys id now fd w)
  unfolding pause
  pause_lem w fd v =
      let i = poll_at w fd in
      let go_on : Option TimerError × World → Run World = λ (err, u).
        (let removed : Run World = remove_event kernel (pos fd) ev_all u.reactor >>= λ (_, r).
        ok (record u { reactor = r }) in
          elim err [ none ↦ removed | some e ↦ ok u ]) in
      subst (λ ep. Ends (IsPaused w fd) (schedule_timer now id ep (pos 100) (pos 0) w >>= go_on))
        (sym v.ep)
        (Ends-bind (schedule_timer_lem now id i 100 w (v.ready.timers i) v.no_timer)
          λ (err, w') (e, timed, same).
            subst (λ u. Ends (IsPaused w fd) (go_on (err, u))) (sym same)
              (removed_lem w fd err w'.timers v e timed))

  pub IsServing-on :
      (w : World) (fd : ℕ) (es : List Effect)
      → IsServing w fd
      → IsServing (record w { effects = es }) fd
  IsServing-on w fd es v = record {
    ready = record {
      some_poll = v.ready.some_poll;
      maps = v.ready.maps;
      ids = v.ready.ids;
      timers = v.ready.timers;
    };
    positive = v.positive;
    ep = v.ep;
    no_timer = v.no_timer;
  }

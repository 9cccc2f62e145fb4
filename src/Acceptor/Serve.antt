-- ===== src/Acceptor/Serve.antt =====
-- OnRead and OnTimeout: the connections accepted in one go, and the end of a pause.
use goev.Prelude.{
  ℕ, zero, suc, ◌%◌, ◌≤◌, ◌<◌, ◌≡◌, refl, sym, ap, ◌∙◌, subst, arith, Bool, true, false, none, some,
  List, [], ◌∷◌, ◌++◌, append_assoc, append-nil, length, ltb, if◌then◌else◌, ok, ◌>>=◌, Ends, ends,
  Ends-bind, Ends-weaken,
}
use goev.Prelude.Int.{pos}
use goev.EvData.{load}
use goev.EvData.Laws
use goev.EvData.Laws.{entry}
use goev.Mask.{ev_accept}
use goev.Poll.{Kernel, Interest, ctl_add}
use goev.Reactor.{add_ev_handler}
use goev.Reactor.Route.{add_ev_handler-Routed}
use goev.Sockets.{World, Effect, set_eh_fd, on_open, on_close, open_handler}
use goev.Sockets.Ready.{IsWatched, poll_at, routed-IsWatched}
use goev.Acceptor.{
  Sys, AcceptResult, accepted, interrupted, too_many_files, failed, Acceptor, pause, serve,
  accept_loop, on_read, on_timeout,
}
use goev.Acceptor.Pause.{IsPaused, IsServing, IsServing-on, pause_lem}

-- The answers to `k` calls of `accept4` from the number `n` on.
abbrev pub answers : (ℕ → AcceptResult) → ℕ → ℕ → List AcceptResult
answers f n zero = []
answers f n (suc k) = f n ∷ answers f (suc n) k

-- The connections among the answers up to the first error but EINTR, and whether that error is EMFILE.
abbrev pub conns : List AcceptResult → List ℕ
conns [] = []
conns (accepted conn ∷ rest) = conn ∷ conns rest
conns (interrupted ∷ rest) = conns rest
conns (too_many_files ∷ rest) = []
conns (failed _ ∷ rest) = []

abbrev pub runs_out : List AcceptResult → Bool
runs_out [] = false
runs_out (accepted conn ∷ rest) = runs_out rest
runs_out (interrupted ∷ rest) = runs_out rest
runs_out (too_many_files ∷ rest) = true
runs_out (failed _ ∷ rest) = false

-- What the handler of a connection is told, which answers `opens` to OnOpen, and those of several.
abbrev pub served : Bool → ℕ → List Effect
served opens conn = set_eh_fd (pos conn) ∷ (if opens then on_open ∷ [] else on_open ∷ on_close ∷ [])

abbrev pub all_served : (ℕ → Bool) → List ℕ → List Effect
all_served opens [] = []
all_served opens (conn ∷ rest) = served (opens conn) conn ++ all_served opens rest

pub length-conns : (f : ℕ → AcceptResult) (n k : ℕ) → length (conns (answers f n k)) ≤ k
length-conns f n zero = omega arith
length-conns f n (suc k) = at (f n) (length-conns f (suc n) k)
  where
    at :
        (a : AcceptResult)
        → length (conns (answers f (suc n) k)) ≤ k
        → length (conns (a ∷ answers f (suc n) k)) ≤ suc k
    at (accepted conn) l = omega (arith, l)
    at interrupted l = omega (arith, l)
    at too_many_files l = omega arith
    at (failed _) l = omega arith

module _ (kernel : Kernel) (sys : Sys) (id : ℕ) (now : ℕ) where
  -- What OnRead leaves after the answers `got`: the handlers of the accepted connections were asked to open, in
  -- order; the acceptor stays registered, or, out of descriptors, it is paused.
  pub record Served (got : List AcceptResult) (w : World) (fd : ℕ) (w' : World) : Type 0 where
    pub effects : w'.effects ≡ w.effects ++ all_served sys.opens (conns got)
    pub stays : runs_out got ≡ false → (w'.reactor ≡ w.reactor) × (w'.timers ≡ w.timers)
    pub pauses :
        runs_out got ≡ true → IsPaused kernel sys id now (record w { effects = w'.effects }) fd w'

  handled :
      (b : Bool) (conn : ℕ) (w : World)
      → open_handler b (record w { effects = w.effects ++ (set_eh_fd (pos conn) ∷ []) })
        ≡ record w { effects = w.effects ++ served b conn }
  handled true conn w = ap (λ es. record w { effects = es }) (append_assoc w.effects _ _)
  handled false conn w =
      ap (λ es. record w { effects = es })
        (ap (λ es. es ++ (on_close ∷ [])) (append_assoc w.effects _ _) ∙ append_assoc w.effects _ _)

  after_one :
      (conn : ℕ) (rest : List AcceptResult) (w w' : World) (fd : ℕ)
      → Served rest (record w { effects = w.effects ++ served (sys.opens conn) conn }) fd w'
      → Served (accepted conn ∷ rest) w fd w'
  after_one conn rest w w' fd s = record {
    effects =
        s.effects
        ∙ append_assoc w.effects (served (sys.opens conn) conn) (all_served sys.opens (conns rest));
    stays = s.stays;
    pauses = s.pauses;
  }

  accept_loop_lem :
      (k n fd : ℕ) (w : World)
      → IsServing kernel sys id now w fd
      → Ends (Served (answers sys.accept4 n k) w fd) (accept_loop kernel sys id now k n fd w)
  unfolding accept_loop
  accept_loop_lem zero n fd w v = ends (record {
    effects = sym (append-nil w.effects);
    stays = λ _. (refl, refl);
    pauses = λ e. absurd (ground arith);
  })
  accept_loop_lem (suc k) n fd w v = one (sys.accept4 n) λ es.
      accept_loop_lem k (suc n) fd (record w { effects = es })
        (IsServing-on kernel sys id now w fd es v)
    where
      one :
          (a : AcceptResult)
          → ((es : List Effect)
              → Ends
                  (Served (answers sys.accept4 (suc n) k) (record w { effects = es }) fd)
                  (accept_loop kernel sys id now k (suc n) fd (record w { effects = es })))
          → Ends (Served (a ∷ answers sys.accept4 (suc n) k) w fd) (elim a [
            | accepted conn ↦
                accept_loop kernel sys id now k (suc n) fd (serve kernel sys id now conn w)
            | interrupted ↦ accept_loop kernel sys id now k (suc n) fd w
            | too_many_files ↦ pause kernel sys id now fd w
            | failed _ ↦ ok w
          ])
      one (accepted conn) ih =
          subst
            (λ u.
              Ends (Served (accepted conn ∷ answers sys.accept4 (suc n) k) w fd)
                (accept_loop kernel sys id now k (suc n) fd u))
            (sym (handled (sys.opens conn) conn w))
            (Ends-weaken (ih (w.effects ++ served (sys.opens conn) conn))
              λ w' s. after_one conn _ w w' fd s)
      one interrupted ih =
          Ends-weaken (ih w.effects)
            λ w' s. record { effects = s.effects; stays = s.stays; pauses = s.pauses }
      one too_many_files ih = Ends-weaken (pause_lem kernel sys id now w fd v) λ w' p. record {
        effects = p.effects_kept ∙ sym (append-nil w.effects);
        stays = λ e. absurd (ground arith);
        pauses = λ _. record {
          gone = p.gone;
          valid = p.valid;
          same_num = p.same_num;
          timed = p.timed;
          effects_kept = refl;
        };
      }
      one (failed _) ih = ends (record {
        effects = sym (append-nil w.effects);
        stays = λ _. (refl, refl);
        pauses = λ e. absurd (ground arith);
      })

  -- OnRead of a listening acceptor without a timer returns true. It serves the connections that `accept4`
  -- gives, in order, up to the first error but EINTR, and at most `loopAcceptTimes` of them. With EMFILE its
  -- descriptor gets no more events, and a timer of 100 ms is set; else nothing changes at the reactor.
  pub on_read_lem :
      (fd : ℕ) (a : Acceptor) (w : World)
      → IsServing kernel sys id now w fd
      → Ends
          (λ (again, w').
            (again ≡ true)
            × (length (conns (answers sys.accept4 0 a.loop_accept_times)) ≤ a.loop_accept_times)
            × Served (answers sys.accept4 0 a.loop_accept_times) w fd w')
          (on_read kernel sys id now fd a w)
  unfolding on_read
  on_read_lem fd a w v =
      Ends-bind (accept_loop_lem a.loop_accept_times 0 fd w v)
        λ w' s. ends (refl, length-conns sys.accept4 0 a.loop_accept_times, s)

  on_timeout_lem :
      (fd : ℕ) (a : Acceptor) (w w' : World)
      → IsServing kernel sys id now w fd
      → IsPaused kernel sys id now w fd w'
      → a.fd ≡ pos fd
      → ((list : Interest) → kernel ctl_add fd list ≡ none)
      → Ends
          (λ (again, w''). (again ≡ false) × IsWatched (poll_at w fd) fd ev_accept id w''.reactor)
          (on_timeout kernel sys id now a w')
  unfolding on_timeout
  on_timeout_lem fd a w w' v p at takes =
      let same : poll_at w' fd ≡ poll_at w fd = ap (λ n. fd % n) p.same_num in
      let low : ltb 0 fd ≡ true = let positive = v.positive in ground arith in
      let again : Ends
          (λ (again, w''). (again ≡ false) × IsWatched (poll_at w fd) fd ev_accept id w''.reactor)
          (add_ev_handler kernel (some id) (pos fd) ev_accept w'.reactor >>= λ (_, r).
            ok (false, record w' { reactor = r })) =
        Ends-bind
          (add_ev_handler-Routed kernel w'.reactor
            (subst (λ n. 0 < n) (sym p.same_num) v.ready.some_poll) id fd ev_accept v.positive
            (subst (λ j. Laws.IsValid (w'.reactor.ev_polls j).ev_handler_map) (sym same) p.valid)
            (subst (λ j. load fd (w'.reactor.ev_polls j).ev_handler_map ≡ none) (sym same) p.gone))
          λ (err, r) q. ends (
            refl,
            subst (λ j. IsWatched j fd ev_accept id r) same
                (routed-IsWatched w' id fd ev_accept r q (takes _)),
          ) in
      rw (at, low, on_timeout) again

  -- Where OnRead runs out of descriptors, and the kernel accepts the descriptor of the acceptor with
  -- EPOLL_CTL_ADD, the acceptor is registered for EvAccept again at its timeout: its poller knows it, the
  -- kernel watches it, and the timer does not repeat.
  pub resume_lem :
      (fd : ℕ) (a : Acceptor) (w : World)
      → IsServing kernel sys id now w fd
      → a.fd ≡ pos fd
      → ((list : Interest) → kernel ctl_add fd list ≡ none)
      → runs_out (answers sys.accept4 0 a.loop_accept_times) ≡ true
      → Ends
          (λ (again, w''). (again ≡ false) × IsWatched (poll_at w fd) fd ev_accept id w''.reactor)
          (on_read kernel sys id now fd a w >>= λ (_, w'). on_timeout kernel sys id now a w')
  resume_lem fd a w v at takes out = Ends-bind (on_read_lem fd a w v) λ (_, w') (_, _, s).
      on_timeout_lem fd a (record w { effects = w'.effects }) w'
        (IsServing-on kernel sys id now w fd w'.effects v) (s.pauses out) at takes

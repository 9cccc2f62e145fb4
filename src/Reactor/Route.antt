-- ===== src/Reactor/Route.antt =====
-- AddEvHandler, AppendEvent and RemoveEvent reach one poller for each descriptor.
use goev.Prelude.{
  ℕ, ◌%◌, ◌<◌, ◌≡◌, ◌≢◌, refl, sym, ap, ◌∙◌, arith, true, false, Option, none, some, ltb, ◌==◌,
  if◌then◌else◌, ◌>>=◌, Ends, ends, Ends-bind, Ends-weaken, ℕ_discrete, subst,
}
use goev.Prelude.Int.{pos}
use goev.Mask.{Mask, is_zero, ev_all}
use goev.EvData.{load, Loc}
use goev.EvData.Laws.{IsValid, entry}
use goev.Poll.{EvPoll, Kernel, PollError, release}
use goev.Poll.Dispatch.{remove_all}
use goev.Poll.Register.{Added, add_lem, data_of}
use goev.Poll.Change.{Released, release_lem}
use goev.Reactor.{Reactor, ReactorError, as_error, route, add_ev_handler, remove_event, update_poll}

-- The poller of a descriptor is `fd % n`, one that there is.
pub route_lem : (n fd : ℕ) → 0 < n → (route n fd ≡ fd % n) × (route n fd < n)
unfolding route
route_lem n fd h = (ground arith, ground arith)

not_zero : is_zero ev_all ≡ false
unfolding is_zero
not_zero = refl

-- What AddEvHandler leaves of the reactor: the poller of the descriptor after its `add`, with the error of it.
pub record Routed (kernel : Kernel) (r : Reactor) (eh fd i : ℕ) (events : Mask)
    (err : Option ReactorError) (r' : Reactor) : Type 0 where
  pub error : Option PollError
  pub poller : EvPoll
  pub same_error : err ≡ as_error error
  pub polls : (j : ℕ) → r'.ev_polls j ≡ update_poll r.ev_polls i poller j
  pub same_num : r'.ev_poll_num ≡ r.ev_poll_num
  pub added : Added kernel fd events eh (r.ev_polls i) (error, poller)

-- What RemoveEvent of all events leaves of the reactor: the poller of the descriptor after the release.
pub record Unrouted (kernel : Kernel) (r : Reactor) (fd i : ℕ)
    (v : IsValid (r.ev_polls i).ev_handler_map) (r' : Reactor) : Type 0 where
  pub error : Option PollError
  pub poller : EvPoll
  pub polls : (j : ℕ) → r'.ev_polls j ≡ update_poll r.ev_polls i poller j
  pub same_num : r'.ev_poll_num ≡ r.ev_poll_num
  pub released : Released kernel fd (r.ev_polls i) v (error, poller)

-- What a call on the reactor for a descriptor leaves: the pollers of other descriptors as they were.
abbrev pub OnlyAt : ℕ → Reactor → Reactor → Type 0
OnlyAt i r r' = (r'.ev_poll_num ≡ r.ev_poll_num) × ((j : ℕ) → j ≢ i → r'.ev_polls j ≡ r.ev_polls j)

module _ (kernel : Kernel) (r : Reactor) (some_poll : 0 < r.ev_poll_num) where
  abbrev poll_of : ℕ → EvPoll
  poll_of fd = r.ev_polls (fd % r.ev_poll_num)

  pub add_ev_handler-Routed :
      (eh fd : ℕ) (events : Mask)
      → 0 < fd
      → IsValid (poll_of fd).ev_handler_map
      → load fd (poll_of fd).ev_handler_map ≡ none
      → Ends
          (λ (err, r'). Routed kernel r eh fd (fd % r.ev_poll_num) events err r')
          (add_ev_handler kernel (some eh) (pos fd) events r)
  unfolding add_ev_handler
  add_ev_handler-Routed eh fd events pos_fd v free =
      let (at, inside) = route_lem r.ev_poll_num fd some_poll in
      let low : ltb fd 1 ≡ false = ground arith in
      let here : ltb (fd % r.ev_poll_num) r.ev_poll_num ≡ true = ground arith in
      rw (low, at, here)
        (Ends-bind (add_lem kernel fd events eh (poll_of fd) v pos_fd free) λ (err, p) a.
          ends (record {
            error = err;
            poller = p;
            same_error = refl;
            polls = λ j. refl;
            same_num = refl;
            added = a;
          }))

  -- AddEvHandler of a descriptor that its poller does not know registers it there, makes the handler
  -- know the reactor and the poller, and leaves the other pollers alone.
  pub add_ev_handler_lem :
      (eh fd : ℕ) (events : Mask)
      → 0 < fd
      → IsValid (poll_of fd).ev_handler_map
      → load fd (poll_of fd).ev_handler_map ≡ none
      → Ends
          (λ (err, r').
            OnlyAt (fd % r.ev_poll_num) r r'
            × (r'.told eh ≡ true)
            × ((l : Loc) × ((j : ℕ)
                  → entry j (r'.ev_polls (fd % r.ev_poll_num)).ev_handler_map ≡ (
                      if fd == j
                      then some (l, data_of fd events eh)
                      else entry j (poll_of fd).ev_handler_map)))
            × IsValid (r'.ev_polls (fd % r.ev_poll_num)).ev_handler_map)
          (add_ev_handler kernel (some eh) (pos fd) events r)
  unfolding add_ev_handler
  add_ev_handler_lem eh fd events pos_fd v free =
      let (at, inside) = route_lem r.ev_poll_num fd some_poll in
      let low : ltb fd 1 ≡ false = ground arith in
      let here : ltb (fd % r.ev_poll_num) r.ev_poll_num ≡ true = ground arith in
      rw (low, at, here)
        (Ends-bind (add_lem kernel fd events eh (poll_of fd) v pos_fd free) λ (err, p) a.
          let here_now : update_poll r.ev_polls (fd % r.ev_poll_num) p (fd % r.ev_poll_num) ≡ p =
            ground arith in
          ends (
            (refl, λ j ne. ground arith),
            ground arith,
            (
              a.at,
              λ j.
                  subst
                    (λ q. entry j q.ev_handler_map ≡ (
                      if fd == j
                      then some (a.at, data_of fd events eh)
                      else entry j (poll_of fd).ev_handler_map))
                    (sym here_now) (a.entries j),
            ),
            subst (λ q. IsValid q.ev_handler_map) (sym here_now) a.valid,
          ))

  pub remove_event-Unrouted :
      (fd : ℕ) (v : IsValid (poll_of fd).ev_handler_map)
      → 0 < fd
      → Ends
          (λ (err, r'). Unrouted kernel r fd (fd % r.ev_poll_num) v r')
          (remove_event kernel (pos fd) ev_all r)
  unfolding remove_event
  remove_event-Unrouted fd v pos_fd =
      let i = fd % r.ev_poll_num in
      let (at, inside) = route_lem r.ev_poll_num fd some_poll in
      let low : ltb fd 1 ≡ false = ground arith in
      let here : ltb i r.ev_poll_num ≡ true = ground arith in
      let (err, p) = release kernel fd (r.ev_polls i) in
      rw (low, not_zero, at, here, remove_all kernel fd (r.ev_polls i))
        (ends (record {
          error = err;
          poller = p;
          polls = λ j. refl;
          same_num = refl;
          released = release_lem kernel fd (r.ev_polls i) v;
        }))

  -- RemoveEvent of all events forgets the descriptor at its poller, and leaves the other descriptors
  -- and the other pollers alone.
  pub remove_event_lem :
      (fd i : ℕ)
      → fd % r.ev_poll_num ≡ i
      → 0 < fd
      → IsValid (r.ev_polls i).ev_handler_map
      → Ends
          (λ (err, r').
            OnlyAt i r r'
            × ((j : ℕ)
                → entry j (r'.ev_polls i).ev_handler_map
                  ≡ (if fd == j then none else entry j (r.ev_polls i).ev_handler_map)))
          (remove_event kernel (pos fd) ev_all r)
  unfolding remove_event
  remove_event_lem fd i at_i pos_fd v =
      let (at, inside) = route_lem r.ev_poll_num fd some_poll in
      let low : ltb fd 1 ≡ false = ground arith in
      let here : ltb i r.ev_poll_num ≡ true = ground arith in
      let (err, p) = release kernel fd (r.ev_polls i) in
      let here_now : update_poll r.ev_polls i p i ≡ p = ground arith in
      let gone = release_lem kernel fd (r.ev_polls i) v in
      rw (low, not_zero, at ∙ at_i, here, remove_all kernel fd (r.ev_polls i))
        (ends (
          (refl, λ j ne. ground arith),
          λ j.
              subst
                (λ q.
                  entry j q.ev_handler_map
                  ≡ (if fd == j then none else entry j (r.ev_polls i).ev_handler_map))
                (sym here_now) (gone.entries j),
        ))

-- A handler added by AddEvHandler and removed by RemoveEvent of all events leaves every poller with
-- the registrations that it had, whatever the kernel answers.
pub add_remove_restores :
    (kernel : Kernel) (r : Reactor) (eh fd : ℕ) (events : Mask)
    → 0 < r.ev_poll_num
    → 0 < fd
    → IsValid (r.ev_polls (fd % r.ev_poll_num)).ev_handler_map
    → load fd (r.ev_polls (fd % r.ev_poll_num)).ev_handler_map ≡ none
    → Ends
        (λ (err, r').
          (i j : ℕ)
          → entry j (r'.ev_polls i).ev_handler_map ≡ entry j (r.ev_polls i).ev_handler_map)
        (add_ev_handler kernel (some eh) (pos fd) events r >>= λ (_, r1).
          remove_event kernel (pos fd) ev_all r1)
add_remove_restores kernel r eh fd events some_poll pos_fd v free =
    Ends-bind (add_ev_handler_lem kernel r some_poll eh fd events pos_fd v free) λ (err, r1) a.
      let i = fd % r.ev_poll_num in
      let unknown : entry fd (r.ev_polls i).ev_handler_map ≡ none = ground (arith, free) in
      Ends-weaken
        (remove_event_lem kernel r1 (omega (arith, a.0.0)) fd i (ap (λ n. fd % n) a.0.0) pos_fd a.3)
        λ (err', r2) b j k. elim (ℕ_discrete j i) [
          | yes e ↦ rw e (b.1 k ∙ ground (arith, a.2.1 k, unknown))
          | no ne ↦ cc (b.0.1 j ne, a.0.1 j ne)
        ]

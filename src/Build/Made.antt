-- ===== src/Build/Made.antt =====
-- A round of NewReactor makes a poller, or fails because the system refused a call.
use goev.Prelude.{
  ◌⊎◌, ℕ, ◌<◌, ◌≡◌, ◌≢◌, refl, sym, ap, ◌∙◌, subst, arith, true, false, Option, none, some, List,
  [], ◌∷◌, Ends, ends, Ends-of_eq, inl, inr, length, length-replicate, replicate, ltb,
}
use goev.Prelude.Int.{ℤ, pos, negsuc}
use goev.Mask.{ev_in, ev_eventfd}
use goev.EvData.{load, is_pos, new_ev_data_map}
use goev.Timer.{Timer}
use goev.Poll.{EvPoll, Kernel, PollError}
use goev.Options.{Options}
use goev.Options.Sizes.{IsPositive}
use goev.Notify.{new_notifier}
use goev.Build.{
  Call, timerfd_create, epoll_create1, async_eventfd, sync_eventfd, Part, timer_part, async_part,
  sync_part, Answer, given, refused, BuildError, epoll_create_failed, async_eventfd_failed,
  sync_eventfd_failed, async_add_failed, sync_add_failed, pure, unopened, no_timer, ask, open_timer,
  add_eventfd, new_async_write, new_poll_sync_opt, open_poll, build_poll, close_and_fail,
}
use goev.Build.Registered.{
  Builds, Builds-pure, Builds-lift, Builds-bind, yields, fails, Registered, Registration, Avoids,
  KernelRefuses, add-Registered,
}
use goev.Build.Runs.{ask_granted, ask_denied, open_timer_run}
use goev.Build.Parts.{
  IsFresh, AddRefused, Because, no_epoll, no_async, no_sync, async_not_added, sync_not_added,
  is_eventfd, IsOpened, IsBuilt,
}

Answer-cases : (a : Answer) → ((fd : ℕ) × (a ≡ given fd)) ⊎ ((n : ℕ) × (a ≡ refused n))
Answer-cases (given fd) = inl (fd, refl)
Answer-cases (refused n) = inr (n, refl)

module _ (kernel : Kernel) (system : Call → ℕ → Answer) (handler : Part → ℕ → ℕ)
    (fresh : IsFresh system) (n i : ℕ) (inside : i < n) where
  ask_lem :
      (c : Call) (error : ℕ → BuildError)
      → ((errno : ℕ) → system c i ≡ refused errno → Because kernel system n (error errno))
      → Builds (λ fd. system c i ≡ given fd) (Because kernel system n) (ask system c i error)
  unfolding ask
  ask_lem c error because = elim (Answer-cases (system c i)) [
    | inl (fd, e) ↦ record {
      run = λ log. Ends-of_eq (ask_granted system c i error log fd e).result (yields e);
    }
    | inr (errno, e) ↦ record {
      run = λ log.
          Ends-of_eq (ask_denied system c i error log errno e).result (fails (because errno e));
    }
  ]

  distinct : {c d : Call} {fd a : ℕ} → c ≢ d → system c i ≡ given fd → system d i ≡ given a → fd ≢ a
  distinct {c} {d} {fd} {a} ne e f same =
      ne (fresh.apart c d i a (subst (λ x. system c i ≡ given x) same e) f)

  closes :
      (c : Call) (fd : ℕ) (no_add : PollError → BuildError) {P : EvPoll → Type 0}
      (err : Option PollError) (p' : EvPoll)
      → system c i ≡ given fd
      → ((e : PollError) → AddRefused kernel system c n e → Because kernel system n (no_add e))
      → P p'
      → KernelRefuses kernel fd err
      → Builds P
          (Because kernel system n)
          (elim err [ none ↦ pure p' | some e ↦ close_and_fail fd (no_add e) ])
  closes c fd no_add none p' e not_added known why = Builds-pure known
  closes c fd no_add (some x) p' e not_added known why =
      let (interest, errno, f, g) = why x refl in
      record { run = λ log. ends (fails (not_added x (i, inside, (fd, interest, errno, e, f, g)))) }

  add_eventfd_lem :
      (c : Call) (part : Part) (no_fd : ℕ → BuildError) (no_add : PollError → BuildError)
      (rs : List Registration) (p : EvPoll)
      → ((errno : ℕ) → system c i ≡ refused errno → Because kernel system n (no_fd errno))
      → ((e : PollError) → AddRefused kernel system c n e → Because kernel system n (no_add e))
      → ((fd : ℕ) → system c i ≡ given fd → Avoids fd rs)
      → Registered i rs p
      → Builds
          (λ p'.
            (fd : ℕ) × (system c i ≡ given fd)
            × Registered i (is_eventfd handler i part fd ∷ rs) p')
          (Because kernel system n)
          (add_eventfd kernel system handler c part no_fd no_add i p)
  unfolding add_eventfd
  add_eventfd_lem c part no_fd no_add rs p no_call not_added apart v =
      Builds-bind (ask_lem c no_fd no_call) λ fd e.
        Builds-bind
          (Builds-lift (
            add-Registered kernel fd ev_eventfd (handler part i) i rs p (fresh.positive c i fd e)
              (apart fd e) v))
          λ (err, p') (known, why). closes c fd no_add err p' e not_added (fd, e, known) why

  module _ {ℓ κ} {Item : Type ℓ} {Op : Type κ} (zero_item : Item) (zero_op : Op) where
    new_async_write_lem :
        (p : EvPoll)
        → Registered i [] p
        → Builds
            (λ (q, p').
              (q ≡ new_notifier zero_item 256)
              × ((fd : ℕ) × (system async_eventfd i ≡ given fd)
                  × Registered i (is_eventfd handler i async_part fd ∷ []) p'))
            (Because kernel system n)
            (new_async_write zero_item zero_op kernel system handler i p)
    unfolding new_async_write
    new_async_write_lem p v =
        Builds-bind
          (add_eventfd_lem async_eventfd async_part async_eventfd_failed async_add_failed [] p
            (λ errno e. no_async (i, inside, e)) (λ e. async_not_added) (λ fd e. tt) v)
          λ p' known. Builds-pure (refl, known)

    new_poll_sync_opt_lem :
        (p : EvPoll) (a : ℕ)
        → system async_eventfd i ≡ given a
        → Registered i (is_eventfd handler i async_part a ∷ []) p
        → Builds
            (λ (q, p').
              (q ≡ new_notifier zero_op 4)
              × ((fd : ℕ) × (system sync_eventfd i ≡ given fd)
                  × Registered i
                      (is_eventfd handler i sync_part fd ∷ is_eventfd handler i async_part a ∷ [])
                      p'))
            (Because kernel system n)
            (new_poll_sync_opt zero_item zero_op kernel system handler i p)
    unfolding new_poll_sync_opt
    new_poll_sync_opt_lem p a f v =
        Builds-bind
          (add_eventfd_lem sync_eventfd sync_part sync_eventfd_failed sync_add_failed
            (is_eventfd handler i async_part a ∷ []) p (λ errno e. no_sync (i, inside, e))
            (λ e. sync_not_added) (λ fd e. (distinct (λ h. cc) e f, tt)) v)
          λ p' known. Builds-pure (refl, known)

    empty_map :
        (size : ℕ)
        → 0 < size
        → Ends
            (λ m. Registered i [] (record (unopened i) { ev_handler_map = m }))
            (new_ev_data_map size)
    unfolding new_ev_data_map load
    empty_map size h =
        let some_size : ltb size 1 ≡ false = ground arith in
        rw some_size (
          ends (record {
            id = refl;
            valid = record {
              owned = λ j l e. absurd (cc e);
              apart = λ j k l e f. absurd (cc e);
              live = λ j l e. absurd (cc e);
            };
            known = tt;
            others = λ j a. ground arith;
          }))

    open_poll_lem :
        (fd_max read_size write_size : ℤ) (t : Timer)
        → is_pos fd_max ≡ true
        → is_pos read_size ≡ true
        → is_pos write_size ≡ true
        → Builds
            (IsOpened system handler i zero_item zero_op read_size write_size t)
            (Because kernel system n)
            (open_poll zero_item zero_op kernel system handler fd_max t read_size write_size i)
    unfolding open_poll
    open_poll_lem (pos m) (pos reads) (pos writes) t h k l =
        Builds-bind (ask_lem epoll_create1 epoll_create_failed (λ errno e. no_epoll (i, inside, e)))
          λ efd e.
            Builds-bind (Builds-lift {P = λ (a : List ℕ). a ≡ replicate reads 0} (ends refl))
              λ rb rs.
                Builds-bind (Builds-lift {P = λ (a : List ℕ). a ≡ replicate writes 0} (ends refl))
                  λ wb ws. Builds-bind (Builds-lift (empty_map m (ground arith))) λ map0 v0.
                    Builds-bind (new_async_write_lem _ v0) λ (q, p1) (same_q, (a, f, v1)).
                      Builds-bind (new_poll_sync_opt_lem p1 a f v1) λ (r, p2) (same_r, (b, g, v2)).
                        Builds-pure (record {
                          async_fd = a;
                          sync_fd = b;
                          async_given = f;
                          sync_given = g;
                          epoll_given = e;
                          registered = v2;
                          same_timer = refl;
                          async_empty = same_q;
                          sync_empty = same_r;
                          reads_sized = ap pos (ap length rs ∙ length-replicate reads 0);
                          writes_sized = ap pos (ap length ws ∙ length-replicate writes 0);
                        })
    open_poll_lem (negsuc _) reads writes t h k l = absurd (cc h)
    open_poll_lem (pos _) (negsuc _) writes t h k l = absurd (cc k)
    open_poll_lem (pos _) (pos _) (negsuc _) t h k l = absurd (cc l)

    open_timer_lem :
        (cap : ℤ) (fd : ℕ)
        → is_pos cap ≡ true
        → system timerfd_create i ≡ given fd
        → Builds
            (λ (tfd, t). (tfd ≡ fd) × (t ≡ no_timer))
            (Because kernel system n)
            (open_timer system cap i)
    open_timer_lem cap fd h e = record {
      run = λ log. Ends-of_eq (open_timer_run system cap i fd log h e).result (yields (refl, refl));
    }

    pub build_poll_lem :
        (o : Options) (fd : ℕ)
        → IsPositive o
        → system timerfd_create i ≡ given fd
        → Builds
            (IsBuilt system handler i zero_item zero_op o.ev_poll_read_buff_size
              o.ev_poll_write_buff_size)
            (Because kernel system n)
            (build_poll zero_item zero_op kernel system handler o i)
    unfolding build_poll
    build_poll_lem o tfd v e =
        Builds-bind (open_timer_lem o.timer_heap_init_size tfd v.heap e)
          λ (fd, t) (same_fd, same_t).
            Builds-bind
              (open_poll_lem o.ev_fd_max_size o.ev_poll_read_buff_size o.ev_poll_write_buff_size t
                v.fds v.reads v.writes)
              λ ep u.
                let found : system timerfd_create i ≡ given fd = e ∙ ap given (sym same_fd) in
                Builds-bind
                  (Builds-lift (
                    add-Registered kernel fd ev_in (handler timer_part i) i _ ep.poller
                      (fresh.positive timerfd_create i fd found)
                      (
                        distinct (λ h. cc) found u.sync_given,
                        (distinct (λ h. cc) found u.async_given, tt),
                      )
                      u.registered))
                  λ (err, p) (known, why). Builds-pure (record {
                    timer_fd = fd;
                    timer_given = found;
                    before = ep.poller;
                    was_opened =
                        subst
                          (λ t'.
                            IsOpened system handler i zero_item zero_op o.ev_poll_read_buff_size
                              o.ev_poll_write_buff_size t' ep)
                          same_t u;
                    registered = known;
                  })

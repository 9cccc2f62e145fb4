-- ===== src/Build/Ready.antt =====
-- NewReactor returns a reactor that is ready, or the error of a call that the system refused.
use goev.Prelude.{
  ℕ, zero, suc, ◌+◌, ◌≤◌, ◌<◌, ◌≡◌, refl, sym, ap, ◌∙◌, subst, arith, true, some, List, ℕ_discrete,
  dec_lt,
}
use goev.Prelude.Int.{pos}
use goev.EvData.{is_pos}
use goev.EvData.Laws
use goev.Timer.Queue
use goev.Poll.{Kernel}
use goev.Options.{Options, Setter, set_options}
use goev.Options.Sizes.{IsPositive, AllProvided, set_options-IsPositive}
use goev.Sockets.{Effect}
use goev.Sockets.Ready.{IsReady}
use goev.Sockets.Tests.{idle-IsValid}
use goev.Build.{
  Call, timerfd_create, Part, Answer, given, Opened, Built, as_world, unopened, no_timer,
  build_polls, nothing_built, place, start_polls, new_reactor,
}
use goev.Build.Registered.{Builds, Builds-pure, Builds-bind, Builds-weaken}
use goev.Build.Parts.{IsFresh, Because, IsBuilt}
use goev.Build.Made.{build_poll_lem}

module _ {ℓ κ} {Item : Type ℓ} {Op : Type κ} (zero_item : Item) (zero_op : Op) (kernel : Kernel)
    (system : Call → ℕ → Answer) (handler : Part → ℕ → ℕ) (o : Options) where
  -- Poller `j` of the reactor and its parts are those of a round of NewReactor.
  pub record HasBuilt (j : ℕ) (b : Built Item Op) : Type (ℓ ⊔ κ) where
    pub ep : Opened Item Op
    pub parts : b.parts j ≡ some ep
    pub poller : b.reactor.ev_polls j ≡ ep.poller
    pub timer : b.timers j ≡ ep.timer
    pub as_built :
        IsBuilt system handler j zero_item zero_op o.ev_poll_read_buff_size
          o.ev_poll_write_buff_size ep

  -- The first `i` of `n` pollers are built.
  pub record BuiltTo (n i : ℕ) (b : Built Item Op) : Type (ℓ ⊔ κ) where
    pub num : b.reactor.ev_poll_num ≡ n
    pub built : (j : ℕ) → j < i → HasBuilt j b
    pub rest : (j : ℕ) → i ≤ j → (b.reactor.ev_polls j ≡ unopened j) × (b.timers j ≡ no_timer)

  place-BuiltTo :
      (n i : ℕ) (ep : Opened Item Op) (b : Built Item Op)
      → IsBuilt system handler i zero_item zero_op o.ev_poll_read_buff_size
          o.ev_poll_write_buff_size ep
      → BuiltTo n i b
      → BuiltTo n (suc i) (place zero_item zero_op kernel system handler i ep b)
  place-BuiltTo n i ep b x v = record {
    num = v.num;
    built = λ j low. elim (ℕ_discrete i j) [
      | yes here ↦ record {
        ep = ep;
        parts = ground arith;
        poller = ground arith;
        timer = ground arith;
        as_built =
            subst
              (λ k.
                IsBuilt system handler k zero_item zero_op o.ev_poll_read_buff_size
                  o.ev_poll_write_buff_size ep)
              here x;
      }
      | no away ↦
          let old = v.built j (omega arith) in
          record {
            ep = old.ep;
            parts = ground (arith, old.parts);
            poller = ground (arith, old.poller);
            timer = ground (arith, old.timer);
            as_built = old.as_built;
          }
    ];
    rest = λ j high. let (p, t) = v.rest j (omega arith) in (ground arith, ground arith);
  }

  build_polls_lem :
      IsFresh system
      → IsPositive o
      → (n k i : ℕ) (b : Built Item Op)
      → ((j : ℕ) → j < n → (fd : ℕ) × (system timerfd_create j ≡ given fd))
      → i + k ≡ n
      → BuiltTo n i b
      → Builds
          (BuiltTo n n)
          (Because kernel system n)
          (build_polls zero_item zero_op kernel system handler o k i b)
  unfolding build_polls
  build_polls_lem fresh v n zero i b timers e inv =
      Builds-pure (subst (λ j. BuiltTo n j b) (omega arith) inv)
  build_polls_lem fresh v n (suc k) i b timers e inv =
      let (fd, given_fd) = timers i (omega arith) in
      Builds-bind
        (build_poll_lem kernel system handler fresh n i (omega arith) zero_item zero_op o fd v
          given_fd)
        λ ep x.
          build_polls_lem fresh v n k (suc i) _ timers (omega arith) (place-BuiltTo n i ep b x inv)

  unopened-IsValid : (i : ℕ) → Laws.IsValid (unopened i).ev_handler_map
  unopened-IsValid i = record {
    owned = λ j l e. absurd (cc e);
    apart = λ j k l e f. absurd (cc e);
    live = λ j l e. absurd (cc e);
  }

  at_place :
      (n i : ℕ) (b : Built Item Op)
      → BuiltTo n n b
      → Laws.IsValid (b.reactor.ev_polls i).ev_handler_map
        × ((b.reactor.ev_polls i).id ≡ i)
        × Queue.IsValid (b.timers i)
  at_place n i b v = elim (dec_lt i n) [
    | yes inside ↦
        (let built = v.built i inside in
          let poll = built.as_built in
          (
            subst (λ p. Laws.IsValid p.ev_handler_map) (sym built.poller) poll.registered.valid,
            ap (λ p. p.id) built.poller ∙ poll.registered.id,
            subst Queue.IsValid (sym (built.timer ∙ poll.was_opened.same_timer)) idle-IsValid,
          ))
    | no outside ↦
        (let (p, t) = v.rest i (omega arith) in
          (
            subst (λ q. Laws.IsValid q.ev_handler_map) (sym p) (unopened-IsValid i),
            ap (λ q. q.id) p,
            subst Queue.IsValid (sym t) idle-IsValid,
          ))
  ]

  pub built-IsReady :
      (n : ℕ) (b : Built Item Op) (effects : List Effect)
      → 0 < n
      → BuiltTo n n b
      → IsReady (as_world b effects)
  built-IsReady n b effects some_poll v = record {
    some_poll = subst (λ k. 0 < k) (sym v.num) some_poll;
    maps = λ i. (at_place n i b v).0;
    ids = λ i. (at_place n i b v).1;
    timers = λ i. (at_place n i b v).2;
  }

-- NewReactor with the exported options, where the system gives every timer's descriptor, returns: the
-- error of another call that the system refused for one of the pollers, or a reactor that is ready, each
-- of its pollers with the chosen buffer sizes, empty queues and timer, and knowing the descriptors
-- of these three and no other.
pub new_reactor_lem {ℓ κ} :
    {Item : Type ℓ} {Op : Type κ} (zero_item : Item) (zero_op : Op) (kernel : Kernel)
    (system : Call → ℕ → Answer) (handler : Part → ℕ → ℕ) (opts : List Setter) (n : ℕ)
    → AllProvided opts
    → (set_options opts).ev_poll_num ≡ pos n
    → IsFresh system
    → ((i : ℕ) → i < n → (fd : ℕ) × (system timerfd_create i ≡ given fd))
    → Builds
        (λ b.
          BuiltTo zero_item zero_op kernel system handler (set_options opts) n n b
          × ((effects : List Effect) → IsReady (as_world b effects)))
        (Because kernel system n)
        (new_reactor zero_item zero_op kernel system handler opts)
unfolding new_reactor
new_reactor_lem {Item} {Op} zero_item zero_op kernel system handler opts zero all e fresh timers =
    let some_poll = (set_options-IsPositive opts all).num in
    let low : is_pos (pos 0) ≡ true = rw e at some_poll in absurd (cc low)
new_reactor_lem {Item} {Op} zero_item zero_op kernel system handler opts (suc n) all e fresh
      timers =
    let o = set_options opts in
    let positive = set_options-IsPositive opts all in
    let Whole = λ (b : Built Item Op).
      BuiltTo zero_item zero_op kernel system handler o (suc n) (suc n) b
      × ((effects : List Effect) → IsReady (as_world b effects)) in
    subst
      (λ z.
        Builds Whole (Because kernel system (suc n))
          (start_polls zero_item zero_op kernel system handler o z))
      (sym e)
      (Builds-weaken {Q = Whole}
        (build_polls_lem zero_item zero_op kernel system handler o fresh positive (suc n) (suc n) 0
          (nothing_built zero_item zero_op kernel system handler (suc n)) timers (omega arith)
          (record { num = refl; built = λ j low. elim low [ ]; rest = λ j high. (refl, refl) }))
        λ b v. (
          v,
          λ effects.
              built-IsReady zero_item zero_op kernel system handler o (suc n) b effects
                (omega arith) v,
        ))

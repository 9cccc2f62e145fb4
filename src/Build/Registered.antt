-- ===== src/Build/Registered.antt =====
-- The steps of the construction: the rules for them, and the descriptors that a new poller knows.
use goev.Prelude.{
  ℕ, ◌<◌, ◌≡◌, ◌≢◌, ◌∙◌, arith, Option, none, some, List, [], ◌∷◌, Run, ok, Ends, ends, Ends-weaken,
  Ends-of_eq, Ends-value, Option-cases, inl, inr,
}
use goev.Mask.{Mask}
use goev.EvData.{EvDataMap, load, Loc}
use goev.EvData.Laws.{IsValid, entry}
use goev.Poll.{EvPoll, Interest, Kernel, PollError, ctl_add, ctl_failed, add, epoll_ctl}
use goev.Poll.Register.{data_of, Added, add_lem}
use goev.Sockets.{Effect}
use goev.Build.{Build, BuildError, Outcome, made, failed, pure, lift, ◌>>=◌}

-- How a step may end: with a value, or with an error.
pub data Yields {ℓ κ} {A : Type ℓ} (P : A → Type κ) (R : BuildError → Type 0)
    : Outcome A → Type (ℓ ⊔ κ) where
  yields : {a : A} → P a → Yields P R (made a)
  fails : {e : BuildError} → R e → Yields P R (failed e)

pub record Builds {ℓ κ} {A : Type ℓ} (P : A → Type κ) (R : BuildError → Type 0) (m : Build A)
    : Type (ℓ ⊔ κ) where
  pub run : (log : List Effect) → Ends (λ (o, _). Yields P R o) (m log)

module _ {ℓ κ} {A : Type ℓ} {P : A → Type κ} {R : BuildError → Type 0} where
  pub Builds-pure : {a : A} → P a → Builds P R (pure a)
  Builds-pure p = record { run = λ log. ends (yields p) }

  pub Builds-lift : {m : Run A} → Ends P m → Builds P R (lift m)
  Builds-lift (ends p) = record { run = λ log. ends (yields p) }

  Yields-weaken {κ'} :
      {Q : A → Type κ'} {o : Outcome A} → ((a : A) → P a → Q a) → Yields P R o → Yields Q R o
  Yields-weaken k (yields p) = yields (k _ p)
  Yields-weaken k (fails r) = fails r

  pub Builds-weaken {κ'} :
      {Q : A → Type κ'} {m : Build A} → Builds P R m → ((a : A) → P a → Q a) → Builds Q R m
  Builds-weaken b k = record {
    run = λ log. Ends-weaken (b.run log) λ (o, log') y. Yields-weaken k y;
  }

  continue_with {ℓ' κ'} :
      {B : Type ℓ'} {Q : B → Type κ'} (f : A → Build B)
      → ((a : A) → P a → Builds Q R (f a))
      → (o : Outcome A) (log : List Effect) → Yields P R o
      → Ends (λ (o', _). Yields Q R o') (((λ _. ok (o, log)) >>= f) log)
  continue_with f k o log (yields p) = (k _ p).run log
  continue_with f k o log (fails r) = ends (fails r)

  bind_run {ℓ' κ'} :
      {B : Type ℓ'} {Q : B → Type κ'} (r : Run (Outcome A × List Effect)) (f : A → Build B)
      (log : List Effect)
      → Ends (λ (o, _). Yields P R o) r
      → ((a : A) → P a → Builds Q R (f a))
      → Ends (λ (o', _). Yields Q R o') (((λ _. r) >>= f) log)
  bind_run r f log (ends {a} y) k = continue_with f k a.0 a.1 y

  pub Builds-bind {ℓ' κ'} :
      {B : Type ℓ'} {Q : B → Type κ'} {m : Build A} {f : A → Build B}
      → Builds P R m
      → ((a : A) → P a → Builds Q R (f a))
      → Builds Q R (m >>= f)
  Builds-bind {m} {f} b k = record { run = λ log. bind_run (m log) f log (b.run log) k }

pub record Registration : Type 0 where
  pub fd : ℕ
  pub events : Mask
  pub eh : ℕ

-- The poller knows the registration.
abbrev pub Knows : EvPoll → Registration → Type 0
Knows p r = (l : Loc) × (entry r.fd p.ev_handler_map ≡ some (l, data_of r.fd r.events r.eh))

abbrev pub AllKnown : EvPoll → List Registration → Type 0
AllKnown p [] = Unit {0}
AllKnown p (r ∷ rs) = Knows p r × AllKnown p rs

abbrev pub Avoids : ℕ → List Registration → Type 0
Avoids fd [] = Unit {0}
Avoids fd (r ∷ rs) = (fd ≢ r.fd) × Avoids fd rs

-- Poller `i` knows the registrations, and no other descriptor.
pub record Registered (i : ℕ) (rs : List Registration) (p : EvPoll) : Type 0 where
  pub id : p.id ≡ i
  pub valid : IsValid p.ev_handler_map
  pub known : AllKnown p rs
  pub others : (j : ℕ) → Avoids j rs → load j p.ev_handler_map ≡ none

load-eq_none : (j : ℕ) (m : EvDataMap) → entry j m ≡ none → load j m ≡ none
load-eq_none j m h = ground (arith, h)

-- What is behind the entries of the kernel's refusals.
pub add_parts :
    (kernel : Kernel) (fd : ℕ) (events : Mask) (eh : ℕ) (p : EvPoll) {err : Option PollError}
    {p' : EvPoll}
    → add kernel fd events eh p ≡ ok (err, p')
    → (p'.id ≡ p.id)
      × ((e : PollError)
          → err ≡ some e
          → (errno : ℕ) × (e ≡ ctl_failed ctl_add errno)
            × (kernel ctl_add fd p.interest ≡ some errno))
unfolding add epoll_ctl
add_parts kernel fd events eh p h = elim (Option-cases (kernel ctl_add fd p.interest)) [
  | inl fine ↦ (ground arith, λ e r. absurd (ground arith))
  | inr (errno, no_way) ↦ (ground arith, λ e r. (errno, ground arith, no_way))
]

-- What the kernel answered where `add` reports an error.
abbrev pub KernelRefuses : Kernel → ℕ → Option PollError → Type 0
KernelRefuses kernel fd err =
    (e : PollError)
    → err ≡ some e
    → (interest : Interest) × (errno : ℕ) × (e ≡ ctl_failed ctl_add errno)
      × (kernel ctl_add fd interest ≡ some errno)

module _ {kernel : Kernel} (fd : ℕ) (events : Mask) (eh : ℕ) (p : EvPoll)
    {r : Option PollError × EvPoll} (a : Added kernel fd events eh p r) where
  keeps_known : (rs : List Registration) → Avoids fd rs → AllKnown p rs → AllKnown r.1 rs
  keeps_known [] apart known = tt
  keeps_known (x ∷ rs) (ne, apart) ((l, found), known) =
      ((l, ground (arith, a.entries x.fd)), keeps_known rs apart known)

  pub added-Registered :
      (i : ℕ) (rs : List Registration)
      → r.1.id ≡ p.id
      → Avoids fd rs
      → Registered i rs p
      → Registered i (record { fd = fd; events = events; eh = eh } ∷ rs) r.1
  added-Registered i rs same apart v = record {
    id = same ∙ v.id;
    valid = a.valid;
    known = ((a.at, ground (arith, a.entries fd)), keeps_known rs apart v.known);
    others = λ j (ne, more).
        load-eq_none j r.1.ev_handler_map (ground (arith, a.entries j, v.others j more));
  }

-- `add` of a descriptor that the poller does not know.
pub add-Registered :
    (kernel : Kernel) (fd : ℕ) (events : Mask) (eh i : ℕ) (rs : List Registration) (p : EvPoll)
    → 0 < fd
    → Avoids fd rs
    → Registered i rs p
    → Ends
        (λ (err, p').
          Registered i (record { fd = fd; events = events; eh = eh } ∷ rs) p'
          × KernelRefuses kernel fd err)
        (add kernel fd events eh p)
add-Registered kernel fd events eh i rs p pos_fd apart v =
    let (r, e, a) = Ends-value (add_lem kernel fd events eh p v.valid pos_fd (v.others fd apart)) in
    let (same, because) = add_parts kernel fd events eh p e in
    Ends-of_eq e (
      added-Registered fd events eh p a i rs same apart v,
      λ x h. let (errno, f, g) = because x h in (p.interest, errno, f, g),
    )

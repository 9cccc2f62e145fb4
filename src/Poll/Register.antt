-- ===== src/Poll/Register.antt =====
-- add: a handler becomes known to the map and to the kernel.
use goev.Prelude.{
  ℕ, ◌<◌, ◌≡◌, ◌≢◌, refl, arith, Option, none, some, ◌==◌, if◌then◌else◌, panic, Ends, ends,
  Ends-bind, Option-cases, inl, inr,
}
use goev.Prelude.Int.{pos}
use goev.Mask.{Mask}
use goev.EvData.{EvData, Loc, EvDataMap, load}
use goev.EvData.Laws.{IsValid, entry, register, register_lem, register_panics}
use goev.Poll.{EvPoll, Kernel, PollError, ctl_add, ctl_failed, epoll_ctl, bind_handler, add}

-- What the interest list should hold for a descriptor.
abbrev pub watched : ℕ → EvDataMap → Option (Mask × Loc)
watched j m = elim (entry j m) [ none ↦ none | some (l, d) ↦ some (d.events, l) ]

-- The kernel watches exactly the registered descriptors, each for the saved events, and with the
-- pointer to its data.
abbrev pub Agrees : EvPoll → Type 0
Agrees p = (j : ℕ) → p.interest j ≡ watched j p.ev_handler_map

abbrev pub data_of : ℕ → Mask → ℕ → EvData
data_of fd events eh = record { fd = pos fd; events = events; eh = some eh }

-- What `add` leaves, with or without the kernel's consent.
pub record Added (kernel : Kernel) (fd : ℕ) (events : Mask) (eh : ℕ) (p : EvPoll)
    (r : Option PollError × EvPoll) : Type 0 where
  pub valid : IsValid r.1.ev_handler_map
  pub at : Loc
  pub entries :
      (j : ℕ)
      → entry j r.1.ev_handler_map
        ≡ (if fd == j then some (at, data_of fd events eh) else entry j p.ev_handler_map)
  pub told : (r.1.eh_fd eh ≡ pos fd) × (r.1.eh_ep eh ≡ some p.id)
  pub agrees : r.0 ≡ none → Agrees p → Agrees r.1
  pub refused : r.0 ≢ none → r.1.interest ≡ p.interest
  pub accepted :
      kernel ctl_add fd p.interest ≡ none → (r.0 ≡ none) × (r.1.interest fd ≡ some (events, at))

bind_handler-eq-register :
    (fd : ℕ) (events : Mask) (eh : ℕ) (m : EvDataMap)
    → bind_handler fd events eh m ≡ register fd (data_of fd events eh) m
unfolding bind_handler register
bind_handler-eq-register fd events eh m = refl

module _ (kernel : Kernel) (fd : ℕ) (events : Mask) (eh : ℕ) (p : EvPoll) where
  -- add of a positive descriptor that is not registered returns, tells the handler its descriptor and
  -- poller, and registers it and no other; if the kernel accepts, map and kernel still agree, and if
  -- it refuses, the kernel's list is as before but the handler stays registered.
  pub add_lem :
      IsValid p.ev_handler_map
      → 0 < fd
      → load fd p.ev_handler_map ≡ none
      → Ends (Added kernel fd events eh p) (add kernel fd events eh p)
  unfolding add
  add_lem v pos_fd free = rw (bind_handler-eq-register fd events eh p.ev_handler_map) (
      Ends-bind (register_lem fd (data_of fd events eh) p.ev_handler_map v (ground arith) free)
        λ (l, m) r. elim (Option-cases (kernel ctl_add fd p.interest)) [
          | inl fine ↦
              rw (fine, epoll_ctl)
                (ends (record {
                  valid = r.valid;
                  at = l;
                  entries = r.entries;
                  told = (ground arith, ground arith);
                  agrees = λ e old j. ground (arith, r.entries j, old j);
                  refused = λ ne. absurd (ne refl);
                  accepted = λ _. (refl, ground arith);
                }))
          | inr (errno, no_way) ↦
              rw (no_way, epoll_ctl)
                (ends (record {
                  valid = r.valid;
                  at = l;
                  entries = r.entries;
                  told = (ground arith, ground arith);
                  agrees = λ e old j. cc;
                  refused = λ ne. refl;
                  accepted = λ fine. absurd (ground arith);
                }))
        ])

  -- A descriptor of the array that is registered makes `add` panic, also where the kernel refused it
  -- when it was added.
  pub add_panics :
      (l : Loc)
      → fd < p.ev_handler_map.arr_size
      → load fd p.ev_handler_map ≡ some l
      → add kernel fd events eh p ≡ panic
  unfolding add
  add_panics l low held = rw (
    bind_handler-eq-register fd events eh p.ev_handler_map,
    register_panics fd (data_of fd events eh) p.ev_handler_map l low held,
  )

  -- If the kernel refuses a new descriptor of the array, `add` reports it, and any later `add` of the
  -- same descriptor panics: the registration is not taken back.
  pub add_after_refused_panics :
      (errno : ℕ)
      → IsValid p.ev_handler_map
      → 0 < fd
      → fd < p.ev_handler_map.arr_size
      → load fd p.ev_handler_map ≡ none
      → kernel ctl_add fd p.interest ≡ some errno
      → Ends
          (λ (err, p').
            (err ≡ some (ctl_failed ctl_add errno))
            × ((later : Kernel) (events' : Mask) (eh' : ℕ) → add later fd events' eh' p' ≡ panic))
          (add kernel fd events eh p)
  unfolding add
  add_after_refused_panics errno v pos_fd low free no_way =
      rw (bind_handler-eq-register fd events eh p.ev_handler_map) (
        Ends-bind (register_lem fd (data_of fd events eh) p.ev_handler_map v (ground arith) free)
          λ (l, m) r.
            rw (no_way, epoll_ctl)
              (ends (
                refl,
                λ later events' eh'. rw (
                  bind_handler-eq-register fd events' eh' m,
                  register_panics fd (data_of fd events' eh') m l (omega (arith, r.sized)) r.found,
                ),
              )))

-- ===== src/Poll/Change.antt =====
-- remove and append: what they do to the map, to the kernel's list, and when they fail.
use goev.Prelude.{
  ℕ, ◌≡◌, ◌≢◌, ◌⊎◌, refl, sym, ap, arith, Option, none, some, ◌==◌, if◌then◌else◌, Ends, ends,
  Ends-test, Option-cases, true, false, inl, inr, subst,
}
use goev.Prelude.Int.{pos}
use goev.Mask.{Mask, union, clear, is_zero, same, ev_all}
use mathlib.Core.Path.{fun_ext}
use goev.EvData.{EvData, Loc, slot, cell, update, read, load}
use goev.EvData.Laws.{IsValid, entry, entry-write, entry-del, del-IsValid, write-IsValid, load_live}
use goev.Poll.{
  EvPoll, Kernel, Ctl, PollError, ctl_mod, ctl_del, ctl_failed, remove_not_found, append_not_found,
  epoll_ctl, release, modify, remove, append, set_events,
}
use goev.Poll.Register.{Agrees}

-- The second of two writes of the events counts.
set_events_twice :
    (l : Loc) (a b : Mask) (p : EvPoll) → set_events l b (set_events l a p) ≡ set_events l b p
set_events_twice (slot i) a b p =
    ap (λ f. record p { ev_handler_map = record p.ev_handler_map { arr = f } })
      (fun_ext λ j. ground arith)
set_events_twice (cell i) a b p =
    ap (λ f. record p { ev_handler_map = record p.ev_handler_map { cells = f } })
      (fun_ext λ j. ground arith)

epoll_ctl_fine :
    (kernel : Kernel) (op : Ctl) (fd : ℕ) (ev : Option (Mask × Loc)) (p : EvPoll)
    → kernel op fd p.interest ≡ none
    → epoll_ctl kernel op fd ev p ≡ (none, record p { interest = update p.interest fd ev })
unfolding epoll_ctl
epoll_ctl_fine kernel op fd ev p fine = rw (fine, epoll_ctl)

epoll_ctl_refused :
    (kernel : Kernel) (op : Ctl) (fd : ℕ) (ev : Option (Mask × Loc)) (p : EvPoll) (errno : ℕ)
    → kernel op fd p.interest ≡ some errno
    → epoll_ctl kernel op fd ev p ≡ (some (ctl_failed op errno), p)
unfolding epoll_ctl
epoll_ctl_refused kernel op fd ev p errno no_way = rw (no_way, epoll_ctl)

module _ (kernel : Kernel) (fd : ℕ) (p : EvPoll) (v : IsValid p.ev_handler_map) where
  -- What a release leaves.
  pub record Released (r : Option PollError × EvPoll) : Type 0 where
    pub valid : IsValid r.1.ev_handler_map
    pub entries :
        (j : ℕ) → entry j r.1.ev_handler_map ≡ (if fd == j then none else entry j p.ev_handler_map)
    pub agrees : r.0 ≡ none → Agrees p → Agrees r.1
    pub refused : r.0 ≢ none → r.1.interest ≡ p.interest

  pub release_lem : Released (release kernel fd p)
  unfolding release
  release_lem = elim (Option-cases (kernel ctl_del fd p.interest)) [
    | inl fine ↦
        rw (fine, epoll_ctl)
          (record {
            valid = del-IsValid fd p.ev_handler_map v;
            entries = λ j. entry-del fd j p.ev_handler_map v;
            agrees = λ e old j. ground (arith, old j, entry-del fd j p.ev_handler_map v);
            refused = λ ne. absurd (ne refl);
          })
    | inr (errno, no_way) ↦
        rw (no_way, epoll_ctl)
          (record {
            valid = del-IsValid fd p.ev_handler_map v;
            entries = λ j. entry-del fd j p.ev_handler_map v;
            agrees = λ e old j. cc;
            refused = λ ne. refl;
          })
  ]

  -- What a change of the events leaves: `events` if the kernel accepts it, else `undo`.
  pub record Modified (l : Loc) (events undo : Mask) (r : Option PollError × EvPoll) : Type 0 where
    pub valid : IsValid r.1.ev_handler_map
    pub accepted :
        r.0 ≡ none
        → (j : ℕ)
        → entry j r.1.ev_handler_map ≡ (
            if fd == j
            then some (l, record (read l p.ev_handler_map) { events = events })
            else entry j p.ev_handler_map)
    pub refused :
        r.0 ≢ none
        → (r.1.interest ≡ p.interest)
          × ((j : ℕ)
              → entry j r.1.ev_handler_map ≡ (
                  if fd == j
                  then some (l, record (read l p.ev_handler_map) { events = undo })
                  else entry j p.ev_handler_map))
    pub agrees : r.0 ≡ none → Agrees p → Agrees r.1

  modify_fine :
      (l : Loc) (events undo : Mask)
      → kernel ctl_mod fd p.interest ≡ none
      → modify kernel fd l events undo p ≡ (
        none,
        record (set_events l events p) { interest = update p.interest fd (some (events, l)) },
      )
  unfolding modify
  modify_fine l events undo fine =
      rw (epoll_ctl_fine kernel ctl_mod fd (some (events, l)) (set_events l events p) fine, modify)

  pub modify_refused :
      (l : Loc) (events undo : Mask) (errno : ℕ)
      → kernel ctl_mod fd p.interest ≡ some errno
      → modify kernel fd l events undo p ≡ (some (ctl_failed ctl_mod errno), set_events l undo p)
  unfolding modify
  modify_refused l events undo errno no_way =
      rw
        (
          epoll_ctl_refused kernel ctl_mod fd (some (events, l)) (set_events l events p) errno
              no_way,
          modify,
        )
        (ap (λ q. (some (ctl_failed ctl_mod errno), q)) (set_events_twice l events undo p))

  modify_lem :
      (l : Loc) (events undo : Mask)
      → load fd p.ev_handler_map ≡ some l
      → Modified l events undo (modify kernel fd l events undo p)
  unfolding modify
  modify_lem l events undo found =
      let m = p.ev_handler_map in
      let used = load_live fd l m v found in
      let with : Mask → EvData = λ e. record (read l m) { events = e } in
      let w = λ (e : Mask) (j : ℕ). entry-write fd j l (with e) m v used found in
      elim (Option-cases (kernel ctl_mod fd p.interest)) [
        | inl fine ↦ subst (Modified l events undo) (sym (modify_fine l events undo fine)) (record {
          valid = write-IsValid l (with events) m v used;
          accepted = λ e j. w events j;
          refused = λ ne. absurd (ne refl);
          agrees = λ e old j. ground (arith, old j, w events j);
        })
        | inr (errno, no_way) ↦
            subst (Modified l events undo) (sym (modify_refused l events undo errno no_way))
              (record {
                valid = write-IsValid l (with undo) m v used;
                accepted = λ e. cc;
                refused = λ ne. (refl, w undo);
                agrees = λ e. cc;
              })
      ]

  -- The ends of remove: for all events, or for all those registered, the descriptor is released; one that
  -- is not registered is an error and changes nothing; otherwise the given events are taken from the
  -- registered ones, and added back if the kernel refuses.
  pub data IsRemoved (events : Mask) (r : Option PollError × EvPoll) : Type 0 where
    all_events : same events ev_all ≡ true → Released r → IsRemoved events r
    not_found :
        same events ev_all ≡ false
        → load fd p.ev_handler_map ≡ none
        → r ≡ (some remove_not_found, p)
        → IsRemoved events r
    none_left :
        (l : Loc)
        → same events ev_all ≡ false
        → load fd p.ev_handler_map ≡ some l
        → is_zero (clear (read l p.ev_handler_map).events events) ≡ true
        → Released r
        → IsRemoved events r
    some_left :
        (l : Loc)
        → same events ev_all ≡ false
        → load fd p.ev_handler_map ≡ some l
        → is_zero (clear (read l p.ev_handler_map).events events) ≡ false
        → Modified l
            (clear (read l p.ev_handler_map).events events)
            (union (clear (read l p.ev_handler_map).events events) events)
            r
        → IsRemoved events r

  -- remove on every branch, which the events and the entry of the descriptor choose.
  pub remove_lem : (events : Mask) → Ends (IsRemoved events) (remove kernel (pos fd) events p)
  unfolding remove
  remove_lem events =
      Ends-test (same events ev_all) (λ all. ends (all_events all release_lem))
        (λ some_only. elim (Option-cases (load fd p.ev_handler_map)) [
          | inl missing ↦ rw missing (ends (not_found some_only missing refl))
          | inr (l, found) ↦
              let old = (read l p.ev_handler_map).events in
              rw found (
                Ends-test (is_zero (clear old events))
                  (λ no_more. ends (none_left l some_only found no_more release_lem))
                  (λ more. ends (
                    some_left l some_only found more
                      (modify_lem l (clear old events) (union (clear old events) events) found))))
        ])

  -- append on every branch: a descriptor that is not registered is an error and changes nothing;
  -- otherwise the given events are added, and taken away again if the kernel refuses.
  pub append_lem :
      (events : Mask)
      → (let r = append kernel fd events p in
          ((load fd p.ev_handler_map ≡ none) × (r ≡ (some append_not_found, p)))
          ⊎ ((l : Loc) × (load fd p.ev_handler_map ≡ some l)
              × (let old = (read l p.ev_handler_map).events in
                  Modified l (union old events) (clear (union old events) events) r)))
  unfolding append
  append_lem events = elim (Option-cases (load fd p.ev_handler_map)) [
    | inl missing ↦ rw (missing, append) (inl (refl, refl))
    | inr (l, found) ↦ rw (found, append) (inr (l, refl, modify_lem l _ _ found))
  ]

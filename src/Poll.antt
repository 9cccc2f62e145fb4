-- ===== src/Poll.antt =====
-- epoll.go: registration of handlers, and the dispatch of ready events.
-- `epoll_ctl` is the kernel's: its verdict on a call is a parameter, and a call that it accepts changes
-- the interest list. An error is the operation and the kernel's number.
pub mod Register
pub mod Change
pub mod Dispatch
pub mod Recover
pub mod Tests
use goev.Prelude.{
  ℕ, zero, suc, ◌+◌, ◌%◌, ◌<◌, ◌≡◌, Bool, true, false, Option, none, some, List, [], ◌∷◌, ◌++◌, ltb,
  ◌==◌, if◌then◌else◌, Run, ok, panic, out_of_fuel, ◌>>=◌,
}
use goev.Prelude.Int.{ℤ, pos, negsuc}
use goev.Mask.{
  Mask, union, clear, is_zero, same, overlaps, epoll_hup, epoll_err, epoll_in, epoll_out, ev_all,
}
use goev.EvData.{EvData, Loc, EvDataMap, update, read, write, new_one, load, store, del}

pub data Ctl : Type 0 where
  ctl_add ctl_mod ctl_del : Ctl

pub data PollError : Type 0 where
  ctl_failed : Ctl → ℕ → PollError
  remove_not_found append_not_found : PollError

-- The interest list of an epoll instance: the events and the data pointer of each descriptor.
abbrev pub Interest : Type 0
Interest = ℕ → Option (Mask × Loc)

-- Whether the kernel refuses a call for a descriptor, and with which number.
abbrev pub Kernel : Type 0
Kernel = Ctl → ℕ → Interest → Option ℕ

-- evPoll, with what `setParams` writes into the handlers: their descriptors and their pollers.
pub record EvPoll : Type 0 where
  pub id : ℕ
  pub ev_handler_map : EvDataMap
  pub interest : Interest
  pub eh_fd : ℕ → ℤ
  pub eh_ep : ℕ → Option ℕ

-- The writes of `add` through the pointer of `newOne`, and `store`.
unfoldable pub bind_handler : ℕ → Mask → ℕ → EvDataMap → Run (Loc × EvDataMap)
bind_handler fd events eh m = do
  (l, fresh) ← new_one fd m
  ok (l, store fd l (write l (record { fd = pos fd; events = events; eh = some eh }) fresh))

-- `ed.events = events` through the pointer
abbrev pub set_events : Loc → Mask → EvPoll → EvPoll
set_events l events p = record p {
  ev_handler_map = write l (record (read l p.ev_handler_map) { events = events }) p.ev_handler_map;
}

-- What `remove` and `append` do after EPOLL_CTL_MOD.
abbrev pub undo_refused : Loc → Mask → Option PollError × EvPoll → Option PollError × EvPoll
undo_refused l undo (none, p) = (none, p)
undo_refused l undo (some e, p) = (some e, set_events l undo p)

module _ (kernel : Kernel) where
  unfoldable pub epoll_ctl : Ctl → ℕ → Option (Mask × Loc) → EvPoll → Option PollError × EvPoll
  epoll_ctl op fd ev p = elim (kernel op fd p.interest) [
    | some errno ↦ (some (ctl_failed op errno), p)
    | none ↦ (none, record p { interest = update p.interest fd ev })
  ]

  unfoldable pub add : ℕ → Mask → ℕ → EvPoll → Run (Option PollError × EvPoll)
  unfolding epoll_ctl bind_handler
  add fd events eh p = do
    let told : EvPoll = record p {
      eh_fd = update p.eh_fd eh (pos fd);
      eh_ep = update p.eh_ep eh (some p.id);
    }
    (l, m) ← bind_handler fd events eh told.ev_handler_map
    ok (epoll_ctl ctl_add fd (some (events, l)) (record told { ev_handler_map = m }))

  -- The release of a descriptor: from the map, then from the kernel.
  unfoldable pub release : ℕ → EvPoll → Option PollError × EvPoll
  unfolding epoll_ctl
  release fd p = epoll_ctl ctl_del fd none (record p { ev_handler_map = del fd p.ev_handler_map })

  -- EPOLL_CTL_MOD with the new events saved first, and `undo` of them if the kernel refuses.
  unfoldable pub modify : ℕ → Loc → Mask → Mask → EvPoll → Option PollError × EvPoll
  unfolding epoll_ctl
  modify fd l events undo p =
      undo_refused l undo (epoll_ctl ctl_mod fd (some (events, l)) (set_events l events p))

  -- A negative descriptor is an index out of range of the array.
  unfoldable pub remove : ℤ → Mask → EvPoll → Run (Option PollError × EvPoll)
  unfolding release modify
  remove (negsuc _) events p = panic
  remove (pos fd) events p =
      if same events ev_all then ok (release fd p) else (elim (load fd p.ev_handler_map) [
        | none ↦ ok (some remove_not_found, p)
        | some l ↦
            (let old = (read l p.ev_handler_map).events in
              if is_zero (clear old events)
              then ok (release fd p)
              else ok (modify fd l (clear old events) (union (clear old events) events) p))
      ])

  unfoldable pub append : ℕ → Mask → EvPoll → Option PollError × EvPoll
  unfolding modify
  append fd events p = elim (load fd p.ev_handler_map) [
    | none ↦ (some append_not_found, p)
    | some l ↦
        (let old = (read l p.ev_handler_map).events in
          modify fd l (union old events) (clear (union old events) events) p)
  ]

-- The callbacks of the handlers, as the user writes them: they may change the registrations.
pub record Callbacks : Type 0 where
  pub on_read : ℕ → EvPoll → Bool × EvPoll
  pub on_write : ℕ → EvPoll → Bool × EvPoll
  pub on_close : ℕ → EvPoll → EvPoll

-- The callbacks made, in order.
pub data Call : Type 0 where
  called_read called_write called_close : ℕ → Call

-- What is left to do for an event after a callback: `continue` ends it.
pub data Next : Type 0 where
  go_on continue : Next

abbrev pub Step : Type 0
Step = Next × List Call × EvPoll

module _ (kernel : Kernel) (cb : Callbacks) where
  -- `eh := ed.eh; ep.remove(ed.fd, EvAll); eh.OnClose()`. A nil handler is a panic.
  pub close_handler : Loc → EvPoll → Run (List Call × EvPoll)
  close_handler l p = do
    let ed = read l p.ev_handler_map
    (_, removed) ← remove kernel ed.fd ev_all p
    elim ed.eh [ none ↦ panic | some eh ↦ ok (called_close eh ∷ [], cb.on_close eh removed) ]

  -- One of the two callbacks, where the event has its bit.
  pub run_callback : Bool → (ℕ → EvPoll → Bool × EvPoll) → (ℕ → Call) → Loc → EvPoll → Run Step
  unfolding close_handler
  run_callback ready callback call l p =
      let at_handler : Run Step = elim (read l p.ev_handler_map).eh [
        | none ↦ ok (continue, [], p)
        | some eh ↦
            (let (alive, p') = callback eh p in
              let closed : Run Step =
                close_handler l p' >>= λ (c, p''). ok (continue, call eh ∷ c, p'') in
              if alive then ok (go_on, call eh ∷ [], p') else closed)
      ] in
      if ready then at_handler else ok (go_on, [], p)

  -- The body of the `for` over the ready events.
  unfoldable pub dispatch : Mask → Loc → EvPoll → Run (List Call × EvPoll)
  dispatch events l p =
      let hung_up : Run (List Call × EvPoll) = elim (read l p.ev_handler_map).eh [
        | none ↦ ok ([], p)
        | some _ ↦ close_handler l p
      ] in
      let serve : Run (List Call × EvPoll) = do
        (next, calls, p') ← run_callback (overlaps events epoll_out) cb.on_write called_write l p
        let reads : Run (List Call × EvPoll) =
            run_callback (overlaps events epoll_in) cb.on_read called_read l p'
            >>= λ (_, more, p''). ok (calls ++ more, p'')
        elim next [ continue ↦ ok (calls, p') | go_on ↦ reads ]
      in if overlaps events (union epoll_hup epoll_err) then hung_up else serve

  pub dispatch_all : List (Mask × Loc) → EvPoll → Run (List Call × EvPoll)
  dispatch_all [] p = ok ([], p)
  dispatch_all ((events, l) ∷ ready) p = dispatch events l p >>= λ (calls, p').
      dispatch_all ready p' >>= λ (more, p''). ok (calls ++ more, p'')

-- What a call of `EpollWait` returns: some events, none, or an error, EINTR or another.
pub data Waited : Type 0 where
  ready : List (Mask × Loc) → Waited
  timeout interrupted : Waited
  failed : ℕ → Waited

-- The `msec` of the next wait: at once, or without a limit (-1).
pub data WaitFor : Type 0 where
  at_once forever : WaitFor

-- run, over what the waits return: the waiting times asked for, the callbacks made, and the error
-- with which it ends, or none where the given waits are used up.
module _ (kernel : Kernel) (cb : Callbacks) where
  run_loop : WaitFor → List Waited → EvPoll → Run (List WaitFor × List Call × Option ℕ)
  run_loop msec [] p = ok ([], [], none)
  run_loop msec (ready events ∷ waits) p = dispatch_all kernel cb events p >>= λ (calls, p').
      run_loop at_once waits p' >>= λ (asked, more, err). ok (msec ∷ asked, calls ++ more, err)
  run_loop msec (timeout ∷ waits) p =
      run_loop forever waits p >>= λ (asked, more, err). ok (msec ∷ asked, more, err)
  run_loop msec (interrupted ∷ waits) p =
      run_loop forever waits p >>= λ (asked, more, err). ok (msec ∷ asked, more, err)
  run_loop msec (failed errno ∷ waits) p = ok (msec ∷ [], [], some errno)

  unfoldable pub run : List Waited → EvPoll → Run (List WaitFor × List Call × Option ℕ)
  unfolding run_loop dispatch_all dispatch run_callback close_handler
  run waits p = run_loop forever waits p

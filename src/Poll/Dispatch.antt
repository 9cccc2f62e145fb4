-- ===== src/Poll/Dispatch.antt =====
-- The dispatch of one ready event.
use goev.Prelude.{
  ℕ, ◌≤◌, ◌<◌, ◌≡◌, refl, arith, Bool, true, false, not, ◌&&◌, none, some, if◌then◌else◌, ok, List,
  [], ◌∷◌, ◌++◌, Bool-cases, Option-cases, inl, inr,
}
use goev.Prelude.Int.{pos}
use goev.Mask.{Mask, union, overlaps, same, epoll_hup, epoll_err, epoll_in, epoll_out, ev_all}
use goev.EvData.{Loc, slot, cell, read, del}
use goev.Poll.{
  EvPoll, Kernel, Callbacks, Call, called_read, called_write, called_close, release, remove,
  dispatch, close_handler, run_callback, epoll_ctl, ctl_del, go_on, continue,
}

all_same : same ev_all ev_all ≡ true
unfolding same
all_same = refl

pub remove_all :
    (kernel : Kernel) (fd : ℕ) (p : EvPoll)
    → remove kernel (pos fd) ev_all p ≡ ok (release kernel fd p)
unfolding remove
remove_all kernel fd p = rw all_same

-- Callbacks with the given answers that leave the registrations alone.
abbrev pub quiet : (ℕ → Bool) → (ℕ → Bool) → Callbacks
quiet reads writes = record {
  on_read = λ eh p. (reads eh, p);
  on_write = λ eh p. (writes eh, p);
  on_close = λ eh p. p;
}

-- The callbacks that an event asks for, and whether the handler is released: a hang-up or an error
-- closes it; otherwise it may write first and then read, and a refusal closes it.
unfoldable pub serve : Mask → Bool → Bool → ℕ → List Call × Bool
serve events reads writes eh =
    let wrote = if overlaps events epoll_out then called_write eh ∷ [] else [] in
    if overlaps events (union epoll_hup epoll_err)
    then (called_close eh ∷ [], true)
    else if overlaps events epoll_out && not writes
    then (called_write eh ∷ called_close eh ∷ [], true)
    else if overlaps events epoll_in
    then (if reads
        then (wrote ++ (called_read eh ∷ []), false)
        else (wrote ++ (called_read eh ∷ called_close eh ∷ []), true))
    else (wrote, false)

module _ (kernel : Kernel) (reads writes : ℕ → Bool) (fd eh : ℕ) (l : Loc) (p : EvPoll)
    (at_fd : (read l p.ev_handler_map).fd ≡ pos fd)
    (handled : (read l p.ev_handler_map).eh ≡ some eh) where
  close_lem :
      close_handler kernel (quiet reads writes) l p
      ≡ ok (called_close eh ∷ [], (release kernel fd p).1)
  unfolding close_handler
  close_lem = rw (at_fd, remove_all kernel fd p, handled)

  run_callback_lem :
      (ready : Bool) (answers : ℕ → Bool) (call : ℕ → Call)
      → run_callback kernel (quiet reads writes) ready (λ g q. (answers g, q)) call l p ≡ (
          if ready
          then (if answers eh
              then ok (go_on, call eh ∷ [], p)
              else ok (continue, call eh ∷ called_close eh ∷ [], (release kernel fd p).1))
          else ok (go_on, [], p))
  unfolding run_callback
  run_callback_lem ready answers call = rw (handled, run_callback, close_lem)

  -- With callbacks that leave the registrations alone, an event for a registered handler makes the
  -- callbacks that `serve` lists, in that order, and releases the handler before its `OnClose`, exactly
  -- if there was a hang-up, an error or a refusal.
  pub dispatch_lem :
      (events : Mask)
      → dispatch kernel (quiet reads writes) events l p ≡ (
          let (calls, closed) = serve events (reads eh) (writes eh) eh in
          ok (calls, if closed then (release kernel fd p).1 else p))
  unfolding dispatch serve
  dispatch_lem events = elim (Bool-cases (overlaps events (union epoll_hup epoll_err))) [
    | inl hung_up ↦ rw (hung_up, handled, dispatch, close_lem) (ground arith)
    | inr up ↦
        rw (up, run_callback_lem (overlaps events epoll_out) writes called_write)
          (elim (Bool-cases (overlaps events epoll_out)) [
            | inl out ↦ elim (Bool-cases (writes eh)) [
              | inl written ↦
                  rw (out, written, run_callback_lem (overlaps events epoll_in) reads called_read)
                    (ground arith)
              | inr refused ↦ rw (out, refused)
            ]
            | inr quiet_out ↦
                rw (quiet_out, run_callback_lem (overlaps events epoll_in) reads called_read)
                  (ground arith)
          ])
  ]

module _ (kernel : Kernel) (cb : Callbacks) where
  -- An event whose data has no handler makes no callback.
  nil_ignored :
      (events : Mask) (l : Loc) (p : EvPoll)
      → (read l p.ev_handler_map).eh ≡ none
      → dispatch kernel cb events l p ≡ ok ([], p)
  unfolding dispatch run_callback
  nil_ignored events l p nil = elim (Bool-cases (overlaps events (union epoll_hup epoll_err))) [
    | inl hung_up ↦ rw (hung_up, nil, dispatch)
    | inr up ↦ elim (Bool-cases (overlaps events epoll_out)) [
      | inl out ↦ rw (up, out, nil, dispatch, run_callback)
      | inr no_out ↦ elim (Bool-cases (overlaps events epoll_in)) [
        | inl inn ↦ rw (up, no_out, inn, nil, dispatch, run_callback)
        | inr no_in ↦ rw (up, no_out, no_in, dispatch, run_callback)
      ]
    ]
  ]

  read-release :
      (fd : ℕ) (p : EvPoll) → (release kernel fd p).1.ev_handler_map ≡ del fd p.ev_handler_map
  unfolding release epoll_ctl
  read-release fd p = elim (Option-cases (kernel ctl_del fd p.interest)) [
    | inl fine ↦ rw (fine, release, epoll_ctl)
    | inr (errno, no_way) ↦ rw (no_way, release, epoll_ctl)
  ]

  -- A ready event that was fetched before its descriptor was released makes no callback, if the
  -- descriptor lives in the array.
  pub released_slot_ignored :
      (events : Mask) (fd : ℕ) (p : EvPoll)
      → fd < p.ev_handler_map.arr_size
      → let q = (release kernel fd p).1 in dispatch kernel cb events (slot fd) q ≡ ok ([], q)
  unfolding del
  released_slot_ignored events fd p low =
      nil_ignored events (slot fd) (release kernel fd p).1 (rw (read-release fd p) (ground arith))

-- If the descriptor lives in the map, such an event still reaches the released handler.
pub released_cell_served :
    (kernel : Kernel) (reads writes : ℕ → Bool) (events : Mask) (fd a eh : ℕ) (p : EvPoll)
    → p.ev_handler_map.arr_size ≤ fd
    → (p.ev_handler_map.cells a).eh ≡ some eh
    → reads eh ≡ true
    → overlaps events (union epoll_hup epoll_err) ≡ false
    → overlaps events epoll_out ≡ false
    → overlaps events epoll_in ≡ true
    → let q = (release kernel fd p).1 in
      dispatch kernel (quiet reads writes) events (cell a) q ≡ ok (called_read eh ∷ [], q)
unfolding dispatch run_callback del
released_cell_served kernel reads writes events fd a eh p high handled answer up no_out inn =
    let still : (read (cell a) (release kernel fd p).1.ev_handler_map).eh ≡ some eh =
      rw (read-release kernel (quiet reads writes) fd p) (ground arith) in
    rw (up, no_out, inn, still, answer, dispatch, run_callback) (ground arith)

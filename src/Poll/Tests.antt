-- ===== src/Poll/Tests.antt =====
-- Runs of the poller. Descriptor 5 of the array belongs to handler 1.
use goev.Prelude.{ℕ, ◌≡◌, ◌==◌, ◌↔◌, refl, arith, Bool, true, none, some, if◌then◌else◌, ok, Ends}
use goev.Prelude.Int.{pos, negsuc}
use goev.Mask.{ev_in, ev_out, epoll_in}
use goev.EvData.{slot, cell, read, load}
use goev.EvData.Tests.{one_held, one_held-IsValid}
use goev.Poll.{EvPoll, Kernel, add, remove, append, release, dispatch}
use goev.Poll.Register.{Added, add_lem}
use goev.Poll.Change.{IsRemoved, remove_lem}
use goev.Poll.Recover.{IsDisjoint, append_restores_iff}
use goev.Poll.Dispatch.{quiet, serve, dispatch_lem}

abbrev pub poller : EvPoll
poller = record {
  id = 0;
  ev_handler_map = one_held;
  interest = λ j. if j == 5 then some (ev_in, slot 5) else none;
  eh_fd = λ g. if g == 1 then pos 5 else negsuc 0;
  eh_ep = λ g. none;
}

-- A kernel that accepts every call, and one that refuses every call.
abbrev pub willing : Kernel
willing op fd i = none

abbrev refusing : Kernel
refusing op fd i = some 28

abbrev always : ℕ → Bool
always g = true

add_lem_example : Ends (Added willing 6 ev_in 2 poller) (add willing 6 ev_in 2 poller)
unfolding load
add_lem_example = add_lem willing 6 ev_in 2 poller one_held-IsValid (omega arith) refl

remove_lem_example :
    Ends (IsRemoved willing 5 poller one_held-IsValid ev_out) (remove willing (pos 5) ev_out poller)
remove_lem_example = remove_lem willing 5 poller one_held-IsValid ev_out

append_restores_iff_example :
    ((read (slot 5) (append refusing 5 ev_out poller).1.ev_handler_map).events
      ≡ (read (slot 5) poller.ev_handler_map).events)
    ↔ IsDisjoint (read (slot 5) poller.ev_handler_map).events ev_out
unfolding load
append_restores_iff_example =
    append_restores_iff refusing 5 28 (slot 5) ev_out poller one_held-IsValid refl refl

dispatch_lem_example : dispatch willing (quiet always always) epoll_in (slot 5) poller ≡ (
    let (calls, closed) = serve epoll_in (always 1) (always 1) 1 in
    ok (calls, if closed then (release willing 5 poller).1 else poller))
dispatch_lem_example = dispatch_lem willing always always 5 1 (slot 5) poller refl refl epoll_in

-- Descriptor 20 of the map belongs to handler 2.
abbrev high_poller : EvPoll
high_poller = record poller {
  ev_handler_map = record one_held {
    s_map = λ i. if i == 20 then some (cell 0) else none;
    cells = λ a. record { events = ev_in; fd = pos 20; eh = some 2 };
    next = 1;
  };
}

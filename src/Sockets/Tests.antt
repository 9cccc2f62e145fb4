-- ===== src/Sockets/Tests.antt =====
-- A reactor with two pollers and idle timers.
use goev.Prelude.{refl, arith, none, some, [], false}
use goev.EvData.Tests.{one_held-IsValid}
use mathlib.Core.List.{Nodup-nil, not-mem-nil}
use goev.Timer.{Timer}
use goev.Timer.Queue
use goev.Poll.Tests.{poller}
use goev.Sockets.{World}
use goev.Sockets.Ready.{IsReady}

abbrev pub idle : Timer
idle = record {
  items = λ _. record { expired_at = 0; interval = 0; eh = none };
  next = 0;
  ti = λ _. none;
  timerfd_settime = 0;
  fheap = [];
  armed = none;
}

pub idle-IsValid : Queue.IsValid idle
idle-IsValid = record {
  heap = λ c p q. ground arith;
  distinct = Nodup-nil;
  allocated = λ a m. absurd (not-mem-nil m);
}

-- Each poller holds descriptor 5, and tells every handler that it is its poller.
abbrev pub world : World
world = record {
  reactor = record {
    ev_poll_num = 2;
    ev_polls = λ i. record poller { id = i; eh_ep = λ g. some i };
    told = λ _. false;
  };
  timers = λ _. idle;
  effects = [];
}

pub world-IsReady : IsReady world
world-IsReady = record {
  some_poll = omega arith;
  maps = λ i. one_held-IsValid;
  ids = λ i. refl;
  timers = λ i. idle-IsValid;
}

-- ===== src/Timer/Tests.antt =====
-- Runs of the timer queue.
use goev.Prelude.{
  ℕ, zero, ◌+◌, ◌-◌, ◌<◌, ◌≡◌, ◌==◌, refl, [], ◌∷◌, arith, Bool, true, false, Option, none, some,
  if◌then◌else◌, panic, out_of_fuel, Ends,
}
use goev.Prelude.Int.{pos}
use mathlib.Core.List.{Mem, Nodup-nil, Nodup-cons, mem-cons, not-mem-nil}
use mathlib.Core.Logic.Or
use native.Mathlib.Bridge.{le_prop}
use goev.Timer.{Timer, TimerItem, schedule, cancel, fire, handle_expired}
use goev.Timer.Queue.{IsValid}
use goev.Timer.Schedule.{ScheduleSpec, schedule_lem}
use goev.Timer.Fire.{quiet}
use goev.Timer.Cancel.{self_cancel_panics}
use goev.Timer.Limits.{short_period_hangs}

-- Handler 7 has a timer every 10 ms that is due at 100, handler 8 one without a period at 120.
abbrev memory : ℕ → TimerItem
memory zero = record { expired_at = 100; interval = 10; eh = some 7 }
memory _ = record { expired_at = 120; interval = 0; eh = some 8 }

abbrev links : ℕ → Option ℕ
links g = if g == 7 then some 0 else if g == 8 then some 1 else none

abbrev two_timers : Timer
two_timers = record {
  items = memory;
  next = 2;
  ti = links;
  timerfd_settime = 100;
  fheap = 0 ∷ 1 ∷ [];
  armed = some 1;
}

two_timers-IsValid : IsValid two_timers
two_timers-IsValid = record {
  heap = λ c p q. ground arith;
  distinct = Nodup-cons.1 (apart, Nodup-cons.1 ((λ m. not-mem-nil m), Nodup-nil));
  allocated = low;
}
  where
    apart : ¬ (Mem {A = ℕ} 0 (1 ∷ []))
    apart m =
        Or.elim (λ (x y : ⊥). absurd x) (mem-cons.0 m) (λ e. absurd (omega arith))
          (λ r. not-mem-nil r)

    low : (a : ℕ) → Mem a (0 ∷ 1 ∷ []) → a < 2
    low a m =
        Or.elim le_prop (mem-cons.0 m) (λ e. omega arith)
          (λ r. Or.elim le_prop (mem-cons.0 r) (λ e. omega arith) (λ n. absurd (not-mem-nil n)))

abbrev yes_to_all : ℕ → ℕ → Bool
yes_to_all eh now = true

schedule_lem_example :
    Ends (ScheduleSpec 50 9 (pos 20) (pos 0) two_timers) (schedule 50 9 (pos 20) (pos 0) two_timers)
schedule_lem_example = schedule_lem 50 9 (pos 20) (pos 0) two_timers two_timers-IsValid

-- Five timers due at 1000; the timer of handler 11 is cancelled.
abbrev five_items : ℕ → TimerItem
five_items a = record {
  expired_at = if a == 5 then 600 else 1000;
  interval = 0;
  eh = some (a + 10);
}

abbrev five_timers : Timer
five_timers = record {
  items = five_items;
  next = 6;
  ti = λ g. some (g - 10);
  timerfd_settime = 1000;
  fheap = 0 ∷ 1 ∷ 2 ∷ 3 ∷ 4 ∷ [];
  armed = some 1;
}

abbrev waiting : Timer
waiting = cancel 11 five_timers

self_cancel_panics_example : fire (λ g n u. (false, cancel g u)) 100 0 two_timers ≡ panic
self_cancel_panics_example = self_cancel_panics 100 7 0 two_timers refl refl

-- A timer every 2 ms, alone.
abbrev fast_timer : Timer
fast_timer = record two_timers {
  items = λ _. record { expired_at = 100; interval = 2; eh = some 7 };
  fheap = 0 ∷ [];
}

-- The timer after the one at 100 was served.
abbrev emptied : Timer
emptied = record two_timers { ti = λ _. none; fheap = [] }

short_period_hangs_example : handle_expired (quiet yes_to_all) 50 100 fast_timer ≡ out_of_fuel
short_period_hangs_example =
    short_period_hangs yes_to_all 50 100 7 0 fast_timer refl refl refl (omega arith) (omega arith)
      (omega arith)

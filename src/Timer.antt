-- ===== src/Timer.antt =====
-- timer_4heap.go: timers of the event handlers, kept by the addresses of their items in a 4-ary heap.
-- Times are milliseconds of `time.Now().UnixMilli()`, which the caller passes as `now`, and are not
-- negative. A difference of times is used only where a negative one acts like 0: against the
-- tolerance of `popOne`, and in `adjustTimerfd`, which raises it to a nanosecond.
pub mod Queue
pub mod Pop
pub mod Due
pub mod Schedule
pub mod Fire
pub mod Expire
pub mod Cancel
pub mod Limits
mod Tests
use goev.Prelude.{
  ℕ, zero, suc, ◌+◌, ◌-◌, ◌*◌, Bool, true, false, ◌&&◌, ◌||◌, Option, none, some, List, [], ◌∷◌,
  ◌++◌, ltb, ◌==◌, if◌then◌else◌, length, take, Run, ok, panic, out_of_fuel, ◌>>=◌, demand, load,
  store,
}
use goev.Prelude.Int.{ℤ, pos, negsuc}
use goev.Heap4.{shift_up, shift_down}

-- timerItem. A handler is a number, and `none` is a nil `eh`.
pub record TimerItem : Type 0 where
  pub expired_at : ℕ
  pub interval : ℕ
  pub eh : Option ℕ

-- timer4Heap with what its methods reach: `items` is the memory at each item address and `next` an
-- address not yet given out; `ti` is the timer item of each handler; `armed` is the delay in
-- nanoseconds of the last `TimerfdSettime`.
pub record Timer : Type 0 where
  pub items : ℕ → TimerItem
  pub next : ℕ
  pub ti : ℕ → Option ℕ
  pub timerfd_settime : ℕ
  pub fheap : List ℕ
  pub armed : Option ℕ

pub data ScheduleError : Type 0 where
  invalid_params : ScheduleError
  had_scheduled : ScheduleError

abbrev pub update {ℓ} : {B : Type ℓ} → (ℕ → B) → ℕ → B → ℕ → B
update f a v b = if a == b then v else f b

abbrev pub key : Timer → ℕ → ℕ
key t a = (t.items a).expired_at

unfoldable pub new_timer4_heap : (ℕ → TimerItem) → ℕ → Run Timer
new_timer4_heap memory init_cap =
    if ltb init_cap 1
    then panic
    else ok (record {
      items = memory;
      next = 0;
      ti = λ _. none;
      timerfd_settime = 0;
      fheap = [];
      armed = none;
    })

-- adjustTimerfd
unfoldable pub adjust_timerfd : ℕ → Timer → Timer
adjust_timerfd delay t =
    let nanoseconds = delay * 1000 * 1000 in
    record t { armed = some (if ltb nanoseconds 1 then 1 else nanoseconds) }

-- `append(th.fheap, a)` and `shiftUp(len(th.fheap) - 1)`
unfoldable pub push_item : ℕ → Timer → Run Timer
push_item a t = do
  let grown = t.fheap ++ (a ∷ [])
  h ← shift_up (key t) grown (length grown - 1)
  ok (record t { fheap = h })

-- The part of `schedule` behind its checks.
unfoldable pub schedule_item : ℕ → ℕ → ℕ → ℕ → Timer → Run Timer
unfolding push_item adjust_timerfd
schedule_item now eh delay interval t = do
  let item : TimerItem = record { expired_at = now + delay; interval = interval; eh = some eh }
  let born : Timer = record t { items = update t.items t.next item; next = suc t.next }
  pushed ← push_item t.next born
  let linked : Timer = record pushed { ti = update pushed.ti eh (some t.next) }
  root ← load linked.fheap 0
  let earliest = key linked root
  ok (
      if earliest == linked.timerfd_settime
      then linked
      else record (adjust_timerfd (earliest - now) linked) { timerfd_settime = earliest })

-- schedule: the error, if any, and the timer afterwards.
unfoldable pub schedule : ℕ → ℕ → ℤ → ℤ → Timer → Run (Option ScheduleError × Timer)
unfolding schedule_item
schedule now eh (negsuc _) interval t = ok (some invalid_params, t)
schedule now eh (pos delay) (negsuc _) t = ok (some invalid_params, t)
schedule now eh (pos delay) (pos interval) t = elim (t.ti eh) [
  | some _ ↦ ok (some had_scheduled, t)
  | none ↦ schedule_item now eh delay interval t >>= λ t'. ok (none, t')
]

-- cancel writes through the handler's pointer, and leaves the heap as it is.
unfoldable pub cancel : ℕ → Timer → Timer
cancel eh t = elim (t.ti eh) [
  | none ↦ t
  | some a ↦ record t {
    items = update t.items a (record (t.items a) { eh = none; expired_at = 1 });
    ti = update t.ti eh none;
  }
]

unfoldable pub size : Timer → ℕ
size t = length t.fheap

-- popOne: the item popped, if any, and the delay until the root is due.
unfoldable pub pop_one : ℕ → ℕ → Timer → Run (Option ℕ × ℕ × Timer)
pop_one now error_val t = if length t.fheap == 0 then ok (none, 0, t) else do
  root ← load t.fheap 0
  let delta = key t root - now
  let last = length t.fheap - 1
  let popped : Run (Option ℕ × ℕ × Timer) = do
    x ← load t.fheap last
    moved ← store t.fheap 0 x
    h ← shift_down (key t) (take last moved) 0
    ok (some root, 0, record t { fheap = h })
  if ltb error_val delta then ok (none, delta, t) else popped

-- The user's `OnTimeout(now)` of a handler: its answer, and the timer as the callback leaves it.
abbrev pub OnTimeout : Type 0
OnTimeout = ℕ → ℕ → Timer → Bool × Timer

module _ (on_timeout : OnTimeout) where
  -- After the callback: the item goes back into the heap, or is released. The handler of the item is
  -- read again, and a nil one is a panic.
  after_timeout : ℕ → ℕ → Bool → Timer → Run Timer
  unfolding push_item
  after_timeout now a again t =
      if again && ltb 0 (t.items a).interval
      then push_item a (record t {
        items = update t.items a (record (t.items a) { expired_at = now + (t.items a).interval });
      })
      else demand (t.items a).eh >>= λ eh. ok (record t { ti = update t.ti eh none })

  -- The body of the loop of handleExpired for a popped item.
  pub fire : ℕ → ℕ → Timer → Run Timer
  unfolding after_timeout
  fire now a t = elim (t.items a).eh [
    | none ↦ ok t
    | some eh ↦ (let (again, t') = on_timeout eh now t in after_timeout now a again t')
  ]

  handle_loop : ℕ → ℕ → Timer → Run (ℕ × Timer)
  handle_loop zero now t = out_of_fuel
  handle_loop (suc f) now t = pop_one now 2 t >>= λ (item, delta, t'). elim item [
    | none ↦ ok (delta, t')
    | some a ↦ fire now a t' >>= handle_loop f now
  ]

  -- handleExpired, with fuel for the rounds of its loop.
  unfoldable pub handle_expired : ℕ → ℕ → Timer → Run (ℕ × Timer)
  unfolding handle_loop fire pop_one
  handle_expired fuel now t = if length t.fheap == 0 then ok (0, t) else handle_loop fuel now t

  -- OnRead, behind the read of the timer descriptor.
  unfoldable pub on_read : ℕ → ℕ → Timer → Run Timer
  unfolding handle_expired adjust_timerfd
  on_read fuel now t = do
    (delay, t') ← handle_expired fuel now t
    ok (if ltb 0 delay then adjust_timerfd delay t' else t')

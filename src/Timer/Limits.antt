-- ===== src/Timer/Limits.antt =====
-- Where the timer queue does not do what it is asked: short periods, and a stale `timerfdSettime`.
use goev.Prelude.{
  ℕ, zero, suc, ◌+◌, ◌≤◌, ◌<◌, ◌≡◌, refl, [], ◌∷◌, arith, ◌==◌, length, ok, load, store,
  out_of_fuel, some, true, false, Bool,
}
use goev.Timer.{
  Timer, key, update, handle_loop, handle_expired, push_item, pop_one, fire, after_timeout,
}
use goev.Heap4.{shift_up, shift_down}
use goev.Timer.Fire.{quiet}

-- popOne on a single item that is due.
pop_single :
    (now a : ℕ) (t : Timer)
    → t.fheap ≡ a ∷ []
    → key t a ≤ now + 2
    → pop_one now 2 t ≡ ok (some a, 0, record t { fheap = [] })
unfolding pop_one shift_down load store
pop_single now a t one now_due = rw one (ground arith)

fire_single :
    (answers : ℕ → ℕ → Bool) (now eh a : ℕ) (t : Timer)
    → answers eh now ≡ true
    → (t.items a).eh ≡ some eh
    → 0 < (t.items a).interval
    → fire (quiet answers) now a (record t { fheap = [] })
      ≡ ok (record t {
        fheap = a ∷ [];
        items = update t.items a (record (t.items a) { expired_at = now + (t.items a).interval });
      })
unfolding fire after_timeout push_item shift_up
fire_single answers now eh a t yes_again held positive = rw (held, yes_again) (ground arith)

short_loop :
    (answers : ℕ → ℕ → Bool) (f now eh a : ℕ) (t : Timer)
    → answers eh now ≡ true
    → t.fheap ≡ a ∷ []
    → (t.items a).eh ≡ some eh
    → 0 < (t.items a).interval
    → (t.items a).interval ≤ 2
    → key t a ≤ now + 2
    → handle_loop (quiet answers) f now t ≡ out_of_fuel
unfolding handle_loop
short_loop answers zero now eh a t yes_again one held positive short now_due = refl
short_loop answers (suc f) now eh a t yes_again one held positive short now_due =
    rw (pop_single now a t one now_due, fire_single answers now eh a t yes_again held positive)
      (short_loop answers f now eh a _ yes_again refl (ground arith) (ground arith) (ground arith)
        (ground arith))

-- On a queue that holds just one timer, which is due and has a period of one or two milliseconds, and whose handler
-- asks for its repetition and leaves the timers alone, no number of rounds is enough for handleExpired.
pub short_period_hangs :
    (answers : ℕ → ℕ → Bool) (fuel now eh a : ℕ) (t : Timer)
    → answers eh now ≡ true
    → t.fheap ≡ a ∷ []
    → (t.items a).eh ≡ some eh
    → 0 < (t.items a).interval
    → (t.items a).interval ≤ 2
    → key t a ≤ now + 2
    → handle_expired (quiet answers) fuel now t ≡ out_of_fuel
unfolding handle_expired
short_period_hangs answers fuel now eh a t yes_again one held positive short now_due =
    let some_left : (length t.fheap == 0) ≡ false = ground arith in
    rw (some_left, handle_expired)
      (short_loop answers fuel now eh a t yes_again one held positive short now_due)

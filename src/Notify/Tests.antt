-- ===== src/Notify/Tests.antt =====
-- Runs of the notified queue.
use goev.Prelude.{ℕ, ◌≡◌, refl, true, false, List, [], ◌∷◌, ◌++◌, arith, Run, ok, ◌>>=◌, Ends}
use goev.Ring.{new, push_back, pop_front}
use goev.Ring.Bounds.{contents, new-IsValid}
use goev.Ring.Tests.{wrapped, wrapped-IsValid}
use goev.Notify.{
  Notifier, new_notifier, push, on_read, Act, act_enqueue, act_notify, act_swap, act_hand_over,
  act_read_efd, act_clear, acts,
}
use goev.Notify.Order.{IsValid, history, Extends, all_pushed, acts_in_order}
use goev.Notify.Wake.{IsAwake, leftover_strands, push_all, push_all-on_read, on_read_drains}

-- The poller was told of two items, which wait in `writeq`.
abbrev told : Notifier ℕ
told = record { counter = 1; notified = true; readq = new 0 2; writeq = wrapped; handed = [] }

told-IsValid : IsValid told
told-IsValid = record { reads = new-IsValid 0 2 (omega arith); writes = wrapped-IsValid }

told-IsAwake : IsAwake told
told-IsAwake = record { told = refl; waiting = λ z. absurd (omega arith) }

-- Two items are left over in `readq`, and two wait in `writeq`.
abbrev left_over : Notifier ℕ
left_over = record told { readq = wrapped }

abbrev seen : Notifier ℕ → Run (List ℕ × List ℕ × ℕ)
seen q = ok (contents q.writeq, q.handed, q.counter)

-- Four pushes, and two calls of OnRead for at most two items each: the fourth item is stranded.
stranded_run :
    (push 1 (new_notifier {A = ℕ} 0 4)
      >>= push 2
      >>= push 3
      >>= on_read 2
      >>= push 4
      >>= on_read 2
      >>= seen)
    ≡ ok (4 ∷ [], 1 ∷ 2 ∷ 3 ∷ [], 0)
unfolding push on_read new_notifier new push_back pop_front
stranded_run = refl

abbrev race : List (Act ℕ)
race = act_swap ∷ act_hand_over 256 ∷ act_enqueue 9 ∷ act_notify ∷ act_read_efd ∷ act_clear ∷ []

acts_in_order_example : Ends (Extends (all_pushed race) told) (acts race told)
acts_in_order_example = acts_in_order race told told-IsValid

-- A push of 9 between the last PopFront of OnRead and its read of the eventfd: 9 waits, and no event is left.
abbrev late_push : List (Act ℕ)
late_push =
    act_swap ∷ act_hand_over 256 ∷ act_enqueue 9 ∷ act_notify ∷ act_read_efd ∷ act_clear ∷ []

lost_run : (acts late_push told >>= seen) ≡ ok (9 ∷ [], contents told.writeq, 0)
unfolding acts new pop_front push_back
lost_run = refl

leftover_strands_example :
    Ends
      (λ q'.
        (q'.writeq ≡ left_over.writeq)
        × (q'.readq.len ≡ 0)
        × (q'.counter ≡ 0)
        × (q'.notified ≡ false))
      (on_read 8 left_over)
leftover_strands_example =
    leftover_strands 8 left_over (record { reads = wrapped-IsValid; writes = wrapped-IsValid })
      (omega arith) (omega arith) (omega arith)

push_all-on_read_example :
    Ends
      (λ q'.
        (q'.handed ≡ history told ++ (9 ∷ 8 ∷ []))
        × IsValid q'
        × IsAwake q'
        × (q'.readq.len ≡ 0)
        × (q'.writeq.len ≡ 0))
      (push_all (9 ∷ 8 ∷ []) told >>= on_read 8)
unfolding new
push_all-on_read_example =
    push_all-on_read 8 9 (8 ∷ []) told told-IsValid told-IsAwake refl (omega arith)

on_read_drains_example :
    Ends
      (λ q'.
        (q'.handed ≡ history told)
        × IsValid q'
        × IsAwake q'
        × (q'.readq.len ≡ 0)
        × (q'.writeq.len ≡ 0)
        × (q'.counter ≡ 0))
      (on_read 8 told)
unfolding new
on_read_drains_example = on_read_drains 8 told told-IsValid refl (omega arith) (omega arith)

-- ===== src/Notify.antt =====
-- async_write.go and poll_sync_opt.go: the double-buffered queue that hands items to a poller, and its
-- notification through an eventfd. The mutex makes the push on `writeq` and the swap of the queues
-- one step each; `notified` is atomic.
pub mod Order
pub mod Wake
mod Tests
use goev.Prelude.{
  ℕ, zero, suc, ◌+◌, Bool, true, false, not, Option, none, some, List, [], ◌∷◌, ◌++◌, ◌==◌,
  if◌then◌else◌, Run, ok, ◌>>=◌,
}
use goev.Ring
use goev.Ring.{RingBuffer}

-- asyncWrite and pollSyncOpt. `counter` is the eventfd's, and `handed` are the items that the poller
-- took, in order: the calls of `asyncOrderedWrite` or `doSync`.
pub record Notifier {ℓ} (A : Type ℓ) : Type ℓ where
  pub counter : ℕ
  pub notified : Bool
  pub readq : RingBuffer A
  pub writeq : RingBuffer A
  pub handed : List A

-- What a goroutine does without interruption.
pub data Act {ℓ} (A : Type ℓ) : Type ℓ where
  act_enqueue : A → Act A
  act_notify act_swap : Act A
  act_hand_over : ℕ → Act A
  act_read_efd act_clear : Act A

module _ {ℓ} {A : Type ℓ} where
  -- newAsyncWrite and newPollSyncOpt, with 256 and 4 for the capacity, where the eventfd is made.
  unfoldable pub new_notifier : A → ℕ → Notifier A
  new_notifier z init_cap = record {
    counter = 0;
    notified = false;
    readq = Ring.new z init_cap;
    writeq = Ring.new z init_cap;
    handed = [];
  }

  -- push, under the mutex
  unfoldable pub enqueue : A → Notifier A → Run (Notifier A)
  enqueue x q = Ring.push_back q.writeq x >>= λ w. ok (record q { writeq = w })

  -- push, behind the mutex: the write on the eventfd, repeated after EINTR, adds one.
  unfoldable pub notify : Notifier A → Notifier A
  notify q = if q.notified then q else record q { notified = true; counter = q.counter + 1 }

  -- OnRead, the swap
  unfoldable pub swap_queues : Notifier A → Notifier A
  swap_queues q = if q.readq.len == 0 then record q { readq = q.writeq; writeq = q.readq } else q

  -- OnRead, the loop of `n` rounds
  unfoldable pub hand_over : ℕ → Notifier A → Run (Notifier A)
  hand_over zero q = ok q
  hand_over (suc n) q = Ring.pop_front q.readq >>= λ (item, r). elim item [
    | none ↦ ok (record q { readq = r })
    | some x ↦ hand_over n (record q { readq = r; handed = q.handed ++ (x ∷ []) })
  ]

  -- OnRead, the read of the eventfd, repeated after EINTR: whether it had a value, which becomes 0.
  unfoldable pub read_efd : Notifier A → Bool × Notifier A
  read_efd q = (not (q.counter == 0), record q { counter = 0 })

  -- `notified.Store(0)`
  unfoldable pub clear_notified : Notifier A → Notifier A
  clear_notified q = record q { notified = false }

  -- push, from its begin to its end.
  unfoldable pub push : A → Notifier A → Run (Notifier A)
  unfolding enqueue notify
  push x q = enqueue x q >>= λ q'. ok (notify q')

  -- OnRead for a limit of 256 or 8 items, from its begin to its end. Without a value to read it
  -- returns before the store.
  unfoldable pub on_read : ℕ → Notifier A → Run (Notifier A)
  unfolding swap_queues hand_over read_efd clear_notified
  on_read limit q = hand_over limit (swap_queues q) >>= λ q'.
      let (got, q'') = read_efd q' in
      ok (if q'.readq.len == 0 then (if got then clear_notified q'' else q'') else q')

  unfoldable pub act : Act A → Notifier A → Run (Notifier A)
  unfolding enqueue notify swap_queues hand_over read_efd clear_notified
  act (act_enqueue x) q = enqueue x q
  act act_notify q = ok (notify q)
  act act_swap q = ok (swap_queues q)
  act (act_hand_over n) q = hand_over n q
  act act_read_efd q = ok (read_efd q).1
  act act_clear q = ok (clear_notified q)

  -- An interleaving of the goroutines.
  unfoldable pub acts : List (Act A) → Notifier A → Run (Notifier A)
  unfolding act
  acts [] q = ok q
  acts (a ∷ more) q = act a q >>= acts more

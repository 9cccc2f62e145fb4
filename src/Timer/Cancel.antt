-- ===== src/Timer/Cancel.antt =====
-- cancel: what it changes, and what it does to the order of the heap and to a running callback.
use goev.Prelude.{ℕ, ◌≡◌, ◌≢◌, refl, arith, panic, none, some, false}
use goev.Timer.{Timer, key, cancel, fire, after_timeout}

-- What cancel of a scheduled handler changes: the item loses its handler and its deadline, the
-- handler its item, and the heap keeps its entries where they are.
pub record Cancelled (eh a : ℕ) (t t' : Timer) : Type 0 where
  pub no_handler : (t'.items a).eh ≡ none
  pub no_item : t'.ti eh ≡ none
  pub deadline : key t' a ≡ 1
  pub heap_kept : t'.fheap ≡ t.fheap
  pub not_rearmed : (t'.armed ≡ t.armed) × (t'.timerfd_settime ≡ t.timerfd_settime)
  pub other_items : (b : ℕ) → b ≢ a → t'.items b ≡ t.items b
  pub other_handlers : (g : ℕ) → g ≢ eh → t'.ti g ≡ t.ti g

-- cancel of a handler with a timer cancels that timer and touches no other; of a handler without
-- one it changes nothing.
pub cancel_lem :
    (eh : ℕ) (t : Timer)
    → ((t.ti eh ≡ none) → cancel eh t ≡ t)
      × ((a : ℕ) → t.ti eh ≡ some a → Cancelled eh a t (cancel eh t))
unfolding cancel
cancel_lem eh t = (
  (λ e. rw (e, cancel)),
  λ a e.
      rw (e, cancel)
        (record {
          no_handler = ground arith;
          no_item = ground arith;
          deadline = ground arith;
          heap_kept = refl;
          not_rearmed = (refl, refl);
          other_items = λ b ne. ground arith;
          other_handlers = λ g ne. ground arith;
        }),
)

-- A callback that cancels its own timer and asks for no repetition makes handleExpired panic.
pub self_cancel_panics :
    (now eh a : ℕ) (t : Timer)
    → t.ti eh ≡ some a
    → (t.items a).eh ≡ some eh
    → fire (λ g n u. (false, cancel g u)) now a t ≡ panic
unfolding fire after_timeout cancel
self_cancel_panics now eh a t linked held = rw (held, fire) (ground arith)

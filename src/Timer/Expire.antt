-- ===== src/Timer/Expire.antt =====
-- handleExpired with callbacks that leave the timers alone: it ends, and which timers it keeps.
use mathlib.Core.List.{Mem}
use goev.Prelude.{ℕ, ◌+◌, ◌-◌, ◌<◌, ◌≡◌, ◌↔◌, ◌==◌, if◌then◌else◌, length, Bool, true}
use goev.Heap4.{pos}
use goev.Timer.{Timer, key}
use goev.Timer.Queue.{IsValid}
use goev.Timer.Fire.{stays, next_time}

module _ (answers : ℕ → ℕ → Bool) where
  -- What handleExpired returns and leaves.
  pub record Swept (now : ℕ) (t : Timer) (r : ℕ × Timer) : Type 0 where
    pub valid : IsValid r.1
    pub none_due : (b : ℕ) → Mem b r.1.fheap → now + 2 < key r.1 b
    pub who : (b : ℕ) → Mem b r.1.fheap ↔ (Mem b t.fheap × (stays answers now (t.items b) ≡ true))
    pub times : (b : ℕ) → Mem b r.1.fheap → key r.1 b ≡ next_time answers now (t.items b)
    pub delay : r.0 ≡ (if length r.1.fheap == 0 then 0 else pos (key r.1) r.1.fheap 0 - now)

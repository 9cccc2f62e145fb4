-- ===== src/BufPool/Adjust.antt =====
-- buffPoolAdjust: classes that were used less than five times in a period stop pooling.
use goev.Prelude.{ℕ, ◌<◌, ◌≡◌, ◌^◌, ltb, arith, if◌then◌else◌, subst}
use mathlib.Core.List.{Mem}
use goev.BufPool.{BuffPool, adjust}
use goev.BufPool.Classes.{IsClass}

pool-adjust : (bp : BuffPool) → (adjust bp).pool ≡ bp.pool
unfolding adjust
pool-adjust bp = ground arith

-- After `adjust` a class is disabled exactly if it was allocated from fewer than five times since the
-- last one, the counter starts again, and the pooled slices stay.
pub adjust_lem :
    (size : ℕ) (bp : BuffPool)
    → IsClass size bp
    → bp.alloc_times < 2 ^ 31
    → ((adjust bp).disabled ≡ (if ltb bp.alloc_times 5 then 1 else 0))
      × ((adjust bp).alloc_times ≡ 0)
      × ((adjust bp).pool ≡ bp.pool)
      × IsClass size (adjust bp)
unfolding adjust
adjust_lem size bp v small = (
  ground (arith, v.flag),
  ground arith,
  ground arith,
  record {
    sized = ground (arith, v.sized);
    whole = λ x m. v.whole x (subst (λ p. Mem x p) (pool-adjust bp) m);
    flag = ground (arith, v.flag);
  },
)

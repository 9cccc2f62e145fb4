-- ===== src/BufPool/Tests.antt =====
-- Runs of the buffer pools.
use goev.Prelude.{
  ℕ, ◌≡◌, ◌+◌, ◌*◌, refl, sym, subst, List, [], ◌∷◌, arith, Option, none, some, inl, ok, ◌>>=◌,
  Ends,
}
use mathlib.Core.List.{Mem, not-mem-nil}
use goev.BufPool.{
  make, Slice, SyncPool, BuffPool, alloc, free, init_pool, init_pools, bmalloc, bfree,
}
use goev.BufPool.Classes.{IsClass}
use goev.BufPool.Alloc.{IsValid, Serves, bmalloc_lem}
use goev.BufPool.Free.{Freed, bfree_lem}

abbrev take_last_in : List Slice → Option (Slice × List Slice)
take_last_in [] = none
take_last_in (b ∷ p) = some (b, p)

abbrev items : Option (Slice × List Slice) → List Slice
items none = []
items (some (d, q)) = d ∷ q

pub take_last_in-Mem :
    (p r : List Slice) (b : Slice)
    → take_last_in p ≡ some (b, r)
    → (x : Slice) → Mem x (b ∷ r)
    → Mem x p
take_last_in-Mem [] r b e x m = absurd (ground arith)
take_last_in-Mem (c ∷ p) r b e x m = subst (λ o. Mem x (items o)) (sym e) m

-- A pool that gives out what was put in last.
abbrev pub last_in : SyncPool
last_in = record { pick = take_last_in; pick_from = take_last_in-Mem }

fresh-IsClass : (n : ℕ) → IsClass n (init_pool n)
fresh-IsClass n = record { sized = refl; whole = λ x m. absurd (not-mem-nil m); flag = omega arith }

pub init_pools-IsValid : IsValid init_pools
unfolding init_pools
init_pools-IsValid = record {
  bt = λ i l. fresh-IsClass _;
  kb = λ i l. fresh-IsClass _;
  mb = λ i l.
      subst (λ n. IsClass ((i + 1) * (1024 * 1024)) (init_pool n)) (omega arith) (fresh-IsClass _);
}

-- A freed slice serves the next request of its class.
reuse :
    (bmalloc last_in 300 init_pools >>= λ (b, p).
    bfree b p >>= λ p'. bmalloc last_in 200 p' >>= λ (c, _). ok c)
    ≡ ok (record { len = 200; cap = 256 })
unfolding bmalloc bfree init_pools alloc free
reuse = refl

bmalloc_lem_example : Ends (λ (b, p'). Serves 300 b × IsValid p') (bmalloc last_in 300 init_pools)
bmalloc_lem_example = bmalloc_lem last_in 300 init_pools init_pools-IsValid (inl (omega arith))

bfree_lem_example :
    Ends (λ p'. IsValid p' × Freed (make 384) init_pools p') (bfree (make 384) init_pools)
bfree_lem_example =
    bfree_lem (make 384) init_pools init_pools-IsValid (omega arith) (omega arith)
      (inl (omega arith))

abbrev seldom : BuffPool
seldom = record (init_pool 256) { alloc_times = 3 }

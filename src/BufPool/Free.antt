-- ===== src/BufPool/Free.antt =====
-- BFree over all the classes.
use goev.Prelude.{
  ℕ, suc, ◌+◌, ◌-◌, ◌*◌, ◌/◌, ◌≤◌, ◌<◌, ◌≡◌, ◌⊎◌, ltb, ◌==◌, ◌||◌, ◌∷◌, if◌then◌else◌, arith, false,
  Run, ok, panic, ◌>>=◌, Ends, ends, Ends-bind, Ends-test,
}
use goev.BufPool.{Slice, make, BuffPool, Pools, free, bfree, update_pool, at_index}
use goev.BufPool.Classes.{free_lem}
use goev.BufPool.Alloc.{AreClasses, IsValid, update-AreClasses}

-- The pool of a class of `size` after a slice was freed into it: it has the slice, whole again, if the capacity of
-- the slice is the size.
abbrev pub TakesBack : Slice → ℕ → BuffPool → BuffPool → Type 0
TakesBack bf size old bp = bp.pool ≡ (if bf.cap == size then make size ∷ old.pool else old.pool)

-- What BFree does with a slice: it frees it into the class of its capacity, or, above 16 MiB, leaves it.
pub data Freed (bf : Slice) (p : Pools) : Pools → Type 0 where
  to_bt :
      (i : ℕ) (bp : BuffPool)
      → bf.cap < 128 * 7 + 1
      → (bf.cap + 127) / 128 ≡ suc i
      → TakesBack bf ((i + 1) * 128) (p.bt_pool i) bp
      → Freed bf p (record p { bt_pool = update_pool p.bt_pool i bp })
  to_kb :
      (i : ℕ) (bp : BuffPool)
      → 128 * 7 < bf.cap
      → (bf.cap + 1023) / 1024 ≡ suc i
      → TakesBack bf ((i + 1) * 1024) (p.kb_pool i) bp
      → Freed bf p (record p { kb_pool = update_pool p.kb_pool i bp })
  to_mb :
      (i : ℕ) (bp : BuffPool)
      → 1024 * 1024 < bf.cap
      → (bf.cap + (1024 * 1024 - 1)) / (1024 * 1024) ≡ suc i
      → TakesBack bf ((i + 1) * (1024 * 1024)) (p.mb_pool i) bp
      → Freed bf p (record p { mb_pool = update_pool p.mb_pool i bp })
  left_alone : 1024 * 1024 * 16 < bf.cap → Freed bf p p

to_array :
    (n unit : ℕ) (bf : Slice) (f : ℕ → BuffPool) (k : ℕ → BuffPool → Run Pools) {Q : Pools → Type 0}
    → AreClasses n unit f
    → bf.len ≤ bf.cap
    → (i : ℕ) → (bf.cap + (unit - 1)) / unit ≡ suc i
    → i < n
    → ((bp : BuffPool)
        → AreClasses n unit (update_pool f i bp)
        → TakesBack bf ((i + 1) * unit) (f i) bp
        → Ends Q (k i bp))
    → Ends Q (at_index n ((bf.cap + (unit - 1)) / unit) (λ j. free bf.cap bf (f j) >>= k j))
to_array n unit bf f k v fits i e l next =
    let inside : (suc i == 0 || ltb n (suc i)) ≡ false = ground arith in
    let at : suc i - 1 ≡ i = omega arith in
    rw (e, inside, at)
      (Ends-bind (free_lem ((i + 1) * unit) bf (f i) (v i l) fits)
        λ bp r. next bp (update-AreClasses n unit i f bp v r.0) r.2)

-- BFree returns, without a panic, for every slice that has a capacity, but for those above 1024*1023 and up to
-- 1024*1024, and keeps valid pools valid. The slice, whole again, goes into the class of its capacity, and no
-- other; a slice whose capacity is not that of a class, or is above 16 MiB, goes into none.
pub bfree_lem :
    (bf : Slice) (p : Pools)
    → IsValid p
    → bf.len ≤ bf.cap
    → 0 < bf.cap
    → (bf.cap ≤ 1024 * 1023) ⊎ (1024 * 1024 < bf.cap)
    → Ends (λ p'. IsValid p' × Freed bf p p') (bfree bf p)
unfolding bfree
bfree_lem bf p v fits pos range =
    Ends-test (ltb bf.cap (128 * 7 + 1))
      (λ small.
        let at : (bf.cap + 127) / 128 ≡ suc ((bf.cap + 127) / 128 - 1) = ground arith in
        to_array 7 128 bf p.bt_pool (λ i bp. ok (record p { bt_pool = update_pool p.bt_pool i bp }))
          v.bt fits ((bf.cap + 127) / 128 - 1) at (ground arith)
          λ bp u r. ends (record { bt = u; kb = v.kb; mb = v.mb }, to_bt _ bp (ground arith) at r))
      λ medium.
        Ends-test (ltb bf.cap (1024 * 1024 + 1))
          (λ kilo.
            let at : (bf.cap + 1023) / 1024 ≡ suc ((bf.cap + 1023) / 1024 - 1) = ground arith in
            to_array 1023 1024 bf p.kb_pool
              (λ i bp. ok (record p { kb_pool = update_pool p.kb_pool i bp })) v.kb fits
              ((bf.cap + 1023) / 1024 - 1) at (ground arith)
              λ bp u r.
                ends (record { bt = v.bt; kb = u; mb = v.mb }, to_kb _ bp (ground arith) at r))
          λ big.
            Ends-test (ltb bf.cap (1024 * 1024 * 16 + 1))
              (λ mega.
                let up = (bf.cap + (1024 * 1024 - 1)) / (1024 * 1024) in
                let at : (bf.cap + (1024 * 1024 - 1)) / (1024 * 1024) ≡ suc (up - 1) =
                  ground arith in
                to_array 16 (1024 * 1024) bf p.mb_pool
                  (λ i bp. ok (record p { mb_pool = update_pool p.mb_pool i bp })) v.mb fits
                  (up - 1) at (ground arith)
                  λ bp u r.
                    ends (record { bt = v.bt; kb = v.kb; mb = u }, to_mb _ bp (ground arith) at r))
              (λ huge. ends (v, left_alone (ground arith)))

-- BFree panics on every slice without capacity, as BMalloc(0) returns one.
pub bfree_empty_panics : (bf : Slice) (p : Pools) → bf.cap ≡ 0 → bfree bf p ≡ panic
unfolding bfree
bfree_empty_panics bf p e = rw (e, bfree)

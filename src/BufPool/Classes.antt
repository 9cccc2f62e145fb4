-- ===== src/BufPool/Classes.antt =====
-- bufpool.go: what one size class promises.
use mathlib.Core.List.{Mem, mem-cons, mem-cons_self, mem-cons_of_mem}
use mathlib.Core.Logic.Or
use mathlib.Core.HLevel.{×_prop}
use native.Mathlib.Nat.{ℕ_set}
use goev.Prelude.{
  ℕ, ◌+◌, ◌%◌, ◌^◌, ◌≤◌, ◌<◌, ◌≡◌, refl, ap, List, ◌∷◌, ltb, ◌==◌, arith, true, false,
  if◌then◌else◌, Ends, ends, Ends-test, Option-cases, inl, inr,
}
use goev.BufPool.{Slice, make, SyncPool, BuffPool, take_slice, alloc, free}

-- The pool of a class holds whole slices of the class's size.
pub record IsClass (size : ℕ) (bp : BuffPool) : Type 0 where
  pub sized : bp.size ≡ size
  pub whole : (x : Slice) → Mem x bp.pool → (x.len ≡ size) × (x.cap ≡ size)
  pub flag : bp.disabled < 2

whole_cons :
    (size : ℕ) (b : Slice) (p : List Slice)
    → (b.len ≡ size) × (b.cap ≡ size)
    → ((x : Slice) → Mem x p → (x.len ≡ size) × (x.cap ≡ size))
    → (x : Slice) → Mem x (b ∷ p)
    → (x.len ≡ size) × (x.cap ≡ size)
whole_cons size b p new old x m =
    Or.elim (×_prop (ℕ_set _ _) (ℕ_set _ _)) (mem-cons.0 m) (λ e. rw e new) (old x)

module _ (sync : SyncPool) where
  take_slice_lem :
      (size : ℕ) (bp : BuffPool)
      → IsClass size bp
      → ((take_slice sync bp).0 ≡ make size)
        × IsClass size (take_slice sync bp).1
        × ((take_slice sync bp).1.disabled ≡ bp.disabled)
  unfolding take_slice
  take_slice_lem size bp v = elim (Option-cases (sync.pick bp.pool)) [
    | inl empty ↦ rw (empty, take_slice) (ap make v.sized, v, refl)
    | inr ((b, r), some_left) ↦
        let from = sync.pick_from bp.pool r b some_left in
        let whole_b = v.whole b (from b mem-cons_self) in
        rw (some_left, take_slice)
          (
            ground (arith, whole_b),
            record {
              sized = v.sized;
              whole = λ x m. v.whole x (from x (mem-cons_of_mem b m));
              flag = v.flag;
            },
            refl,
          )
  ]

  -- Allocation in a class: the slice has the requested length, the class's capacity, or exactly the
  -- requested one while the class is disabled.
  pub alloc_lem :
      (size s : ℕ) (bp : BuffPool)
      → IsClass size bp
      → s ≤ size
      → Ends
          (λ (b, bp').
            (b.len ≡ s)
            × (b.cap ≡ (if bp.disabled == 1 then s else size))
            × IsClass size bp'
            × (bp'.disabled ≡ bp.disabled))
          (alloc sync s bp)
  unfolding alloc
  alloc_lem size s bp v fits =
      let counted : BuffPool = record bp { alloc_times = (bp.alloc_times + 1) % 2 ^ 32 } in
      let vc : IsClass size counted = record { sized = v.sized; whole = v.whole; flag = v.flag } in
      let tl = take_slice_lem size counted vc in
      Ends-test (bp.disabled == 1) (λ off. ends (refl, rw off refl, vc, refl))
        (λ on.
          Ends-test (s == bp.size)
            (λ whole.
              ends (ground (arith, tl.0, v.sized), rw on (ground (arith, tl.0)), tl.1, tl.2))
            (λ part.
              let room : ltb (take_slice sync counted).0.cap s ≡ false = ground (arith, tl.0) in
              rw room (ends (refl, rw on (ground (arith, tl.0)), tl.1, tl.2))))

-- Freeing into a class takes a slice back exactly if it has the class's capacity, and never fails
-- on a slice that is no longer than its capacity.
pub free_lem :
    (size : ℕ) (bf : Slice) (bp : BuffPool)
    → IsClass size bp
    → bf.len ≤ bf.cap
    → Ends
        (λ bp'.
          IsClass size bp'
          × (bp'.disabled ≡ bp.disabled)
          × (bp'.pool ≡ (if bf.cap == size then make size ∷ bp.pool else bp.pool)))
        (free bf.cap bf bp)
unfolding free
free_lem size bf bp v fits =
    Ends-test (bf.cap == bp.size)
      (λ fit.
        let e : bf.cap ≡ size = ground (arith, v.sized) in
        let here : (bf.cap == size) ≡ true = ground arith in
        Ends-test (ltb bf.len bf.cap)
          (λ shorter.
            let room : ltb bf.cap bf.cap ≡ false = ground arith in
            rw room (ends (put (record bf { len = bf.cap }) e e, refl, rw here (ground arith))))
          (λ whole.
            let l : bf.len ≡ size = ground arith in
            ends (put bf l e, refl, rw here (ground arith))))
      (λ other.
        let away : (bf.cap == size) ≡ false = ground (arith, v.sized) in
        ends (v, refl, rw away refl))
  where
    put :
        (b : Slice) → b.len ≡ size → b.cap ≡ size → IsClass size (record bp { pool = b ∷ bp.pool })
    put b l c = record {
      sized = v.sized;
      whole = whole_cons size b bp.pool (l, c) v.whole;
      flag = v.flag;
    }

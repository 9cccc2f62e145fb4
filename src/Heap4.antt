-- ===== src/Heap4.antt =====
-- timer_4heap.go, shiftUp and shiftDown: the 4-ary heap in a slice of item addresses.
-- `key` gives the `expiredAt` of the item at an address. Indices stay below four times the length
-- plus five, so `int` does not overflow.
pub mod Order
pub mod Up
pub mod Down
mod Tests
use goev.Prelude.{
  ℕ, zero, suc, ◌+◌, ◌-◌, ◌*◌, ◌/◌, ◌<◌, ◌≡◌, Bool, List, arith, ltb, ◌==◌, if◌then◌else◌, length,
  get_or, Run, ok, out_of_fuel, ◌>>=◌, load, swap, load-ok,
}

abbrev pub parent : ℕ → ℕ
parent c = (c - 1) / 4

module _ (key : ℕ → ℕ) where
  -- `th.fheap[i].expiredAt < th.fheap[j].expiredAt`
  pub less : List ℕ → ℕ → ℕ → Run Bool
  less a i j = do x ← load a i; y ← load a j; ok (ltb (key x) (key y))

  shift_up_loop : ℕ → List ℕ → ℕ → Run (List ℕ)
  shift_up_loop zero a i = out_of_fuel
  shift_up_loop (suc f) a i =
      let rise = swap a i (parent i) >>= λ b. shift_up_loop f b (parent i) in
      let test = less a i (parent i) >>= λ below. if below then rise else ok a in
      if ltb 0 i then test else ok a

  unfoldable pub shift_up : List ℕ → ℕ → Run (List ℕ)
  unfolding shift_up_loop less swap
  shift_up a i = shift_up_loop (i + 1) a i

  -- The inner `for`: `n` rounds are left, from index `i`.
  least_child : List ℕ → ℕ → ℕ → ℕ → Run ℕ
  least_child a zero i smallest = ok smallest
  least_child a (suc n) i smallest =
      let next =
        less a i smallest >>= λ below. least_child a n (i + 1) (if below then i else smallest) in
      if ltb i (length a) then next else ok smallest

  shift_down_loop : ℕ → List ℕ → ℕ → Run (List ℕ)
  shift_down_loop zero a i = out_of_fuel
  shift_down_loop (suc f) a i =
      let step = (do
        smallest ← least_child a 4 (4 * i + 1) i
        let sink = swap a i smallest >>= λ b. shift_down_loop f b smallest
        if smallest == i then ok a else sink) in
      if ltb (4 * i + 1) (length a) then step else ok a

  unfoldable pub shift_down : List ℕ → ℕ → Run (List ℕ)
  unfolding shift_down_loop least_child less swap
  shift_down a i = shift_down_loop (length a + 1) a i

  abbrev pub pos : List ℕ → ℕ → ℕ
  pos a i = key (get_or a i 0)

  pub less-ok :
      (a : List ℕ) (i j : ℕ)
      → i < length a
      → j < length a
      → less a i j ≡ ok (ltb (pos a i) (pos a j))
  unfolding less
  less-ok a i j p q = rw (load-ok a i 0 p, load-ok a j 0 q)

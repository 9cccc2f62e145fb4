-- ===== src/Heap4/Up.antt =====
-- shiftUp restores the heap order.
use mathlib.Core.Logic.{◌≢◌}
use mathlib.Core.List.Perm
use native.Mathlib.Numerals.{add-one}
use goev.Prelude.{
  ℕ, zero, suc, ◌+◌, ◌≤◌, ◌<◌, List, arith, ltb, length, swapped, length-swapped, get_or-swapped,
  swap-ok, ok, ◌≡◌, Ends, ends, Ends-test,
}
use goev.Heap4.{parent, pos, shift_up_loop, shift_up, less-ok}
use goev.Heap4.Order.{IsSpanned, Heaped, Heaped-swapped}

module _ (key : ℕ → ℕ) where
  -- Only the entry at `i` may be due before its parent.
  pub record UpInv (a : List ℕ) (i : ℕ) : Type 0 where
    pub inside : i < length a
    pub edges : (c : ℕ) → 0 < c → c < length a → c ≢ i → pos key a (parent c) ≤ pos key a c
    pub spanned : IsSpanned key a i

  rise-UpInv :
      (a : List ℕ) (i : ℕ)
      → UpInv a i
      → 0 < i
      → pos key a i < pos key a (parent i)
      → UpInv (swapped a i (parent i)) (parent i)
  rise-UpInv a i v up below =
      let above : parent i < length a = omega (arith, v.inside) in
      let at = λ (c : ℕ). get_or-swapped a i (parent i) c v.inside above in
      let size = length-swapped a i (parent i) in
      record {
        inside = omega (arith, size);
        edges = λ c p q r. ground (arith, size, at c, at (parent c), v.edges c, v.spanned c);
        spanned = λ c p q r s.
            ground (arith, size, at c, at (parent (parent i)), v.edges c, v.edges (parent i));
      }

  shift_up_loop_restores :
      (f : ℕ) (a : List ℕ) (i : ℕ)
      → i < f
      → UpInv a i
      → Ends (Heaped key a) (shift_up_loop key f a i)
  unfolding shift_up_loop
  shift_up_loop_restores zero a i l v = absurd (omega arith)
  shift_up_loop_restores (suc f) a i l v =
      let above : parent i < length a = omega (arith, v.inside) in
      rw (less-ok key a i (parent i) v.inside above, swap-ok a i (parent i) v.inside above)
        (Ends-test (ltb 0 i)
          (λ up.
            Ends-test (ltb (pos key a i) (pos key a (parent i)))
              (λ below. Heaped-swapped key a i (parent i) v.inside above (
                shift_up_loop_restores f (swapped a i (parent i)) (parent i) (ground arith)
                  (rise-UpInv a i v (ground arith) (ground arith))))
              (λ still. ends (λ c p q. ground (arith, v.edges c), Perm.rfl)))
          (λ root. ends (λ c p q. v.edges c p q (ground arith), Perm.rfl)))

  -- shiftUp returns, and makes a heap of the same entries from a slice with one entry too low.
  pub shift_up_restores : (a : List ℕ) (i : ℕ) → UpInv a i → Ends (Heaped key a) (shift_up key a i)
  unfolding shift_up
  shift_up_restores a i v = shift_up_loop_restores (i + 1) a i (omega arith) v

  -- An entry that is not due before its parent stays.
  pub shift_up_still :
      (a : List ℕ) (i : ℕ)
      → i < length a
      → pos key a (parent i) ≤ pos key a i
      → shift_up key a i ≡ ok a
  unfolding shift_up shift_up_loop
  shift_up_still a i p q = rw (add-one, less-ok key a i (parent i) p (omega arith)) (ground arith)

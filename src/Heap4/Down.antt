-- ===== src/Heap4/Down.antt =====
-- shiftDown restores the heap order.
use mathlib.Core.Logic.{◌≢◌, ◌⊎◌, inl, inr}
use mathlib.Core.List.Perm
use goev.Prelude.{
  ℕ, zero, suc, ◌+◌, ◌-◌, ◌*◌, ◌≤◌, ◌<◌, ◌≡◌, refl, List, arith, ltb, ◌==◌, length, swapped,
  length-swapped, get_or-swapped, swap-ok, Ends, ends, Ends-test, Ends-bind, Ends-weaken,
  Bool-cases,
}
use goev.Heap4.{parent, pos, least_child, shift_down_loop, shift_down, less-ok}
use goev.Heap4.Order.{IsSpanned, Heaped, Heaped-swapped}

module _ (key : ℕ → ℕ) where
  -- Only the edges below `i` may be out of order.
  pub record DownInv (a : List ℕ) (i : ℕ) : Type 0 where
    pub edges : (c : ℕ) → 0 < c → c < length a → parent c ≢ i → pos key a (parent c) ≤ pos key a c
    pub spanned : IsSpanned key a i

  -- What `n` rounds of the inner loop from index `i` make of `s`.
  record Chosen (a : List ℕ) (n i s m : ℕ) : Type 0 where
    inside : m < length a
    where_from : (m ≡ s) ⊎ ((i ≤ m) × (m < i + n) × (pos key a m < pos key a s))
    below_start : pos key a m ≤ pos key a s
    least : (c : ℕ) → i ≤ c → c < i + n → c < length a → pos key a m ≤ pos key a c

  least_child-Chosen :
      (a : List ℕ) (n i s : ℕ) → s < length a → Ends (Chosen a n i s) (least_child key a n i s)
  unfolding least_child
  least_child-Chosen a zero i s p =
      ends (record {
        inside = p;
        where_from = inl refl;
        below_start = omega arith;
        least = omega arith;
      })
  least_child-Chosen a (suc n) i s p =
      Ends-test (ltb i (length a))
        (λ more.
          let q : i < length a = ground arith in
          rw (less-ok key a i s q p) (elim (Bool-cases (ltb (pos key a i) (pos key a s))) [
            | inl below ↦ rw below (
                Ends-weaken (least_child-Chosen a n (i + 1) i q) λ m ch. record {
                  inside = ch.inside;
                  where_from = inr (
                    ground (arith, ch.where_from),
                    ground (arith, ch.where_from),
                    ground (arith, ch.below_start),
                  );
                  below_start = ground (arith, ch.below_start);
                  least = λ c l h r. ground (arith, ch.least c, ch.below_start);
                })
            | inr still ↦ rw still (
                Ends-weaken (least_child-Chosen a n (i + 1) s p) λ m ch. record {
                  inside = ch.inside;
                  where_from = ground (arith, ch.where_from);
                  below_start = ch.below_start;
                  least = λ c l h r. ground (arith, ch.least c, ch.below_start);
                })
          ]))
        (λ done. ends (record {
          inside = p;
          where_from = inl refl;
          below_start = omega arith;
          least = λ c l h r. absurd (ground arith);
        }))

  sink-DownInv :
      (a : List ℕ) (i m : ℕ)
      → DownInv a i
      → i < length a
      → Chosen a 4 (4 * i + 1) i m
      → m ≢ i
      → DownInv (swapped a i m) m
  sink-DownInv a i m v inside ch moved =
      let at = λ (c : ℕ). get_or-swapped a i m c inside ch.inside in
      let size = length-swapped a i m in
      let child : (4 * i + 1 ≤ m) × (m < 4 * i + 5) × (pos key a m < pos key a i) =
        ground (arith, ch.where_from) in
      record {
        edges = λ c p q r. ground (
          arith,
          size,
          child,
          at c,
          at (parent c),
          v.edges c,
          v.spanned m,
          ch.least c,
          ch.inside,
        );
        spanned = λ c p q r s. ground (arith, size, child, at c, at (parent m), v.edges c);
      }

  shift_down_loop_restores :
      (f : ℕ) (a : List ℕ) (i : ℕ)
      → length a - i < f
      → DownInv a i
      → Ends (Heaped key a) (shift_down_loop key f a i)
  unfolding shift_down_loop
  shift_down_loop_restores zero a i l v = absurd (omega arith)
  shift_down_loop_restores (suc f) a i l v =
      Ends-test (ltb (4 * i + 1) (length a))
        (λ more.
          let inside : i < length a = ground arith in
          Ends-bind (least_child-Chosen a 4 (4 * i + 1) i inside) λ m ch.
            rw (swap-ok a i m inside ch.inside) (
              Ends-test (m == i)
                (λ same. ends (λ c p q. ground (arith, v.edges c, ch.least c), Perm.rfl))
                (λ other.
                  let moved : m ≢ i = ground arith in
                  Heaped-swapped key a i m inside ch.inside (
                    shift_down_loop_restores f (swapped a i m) m
                      (ground (arith, length-swapped a i m, ch.where_from))
                      (sink-DownInv a i m v inside ch moved)))))
        (λ leaf. ends (λ c p q. ground (arith, v.edges c), Perm.rfl))

  -- shiftDown returns, and makes a heap of the same entries from a slice with one entry too high.
  pub shift_down_restores :
      (a : List ℕ) (i : ℕ) → DownInv a i → Ends (Heaped key a) (shift_down key a i)
  unfolding shift_down
  shift_down_restores a i v = shift_down_loop_restores (length a + 1) a i (omega arith) v

-- ===== src/Heap4/Order.antt =====
-- The heap order, and the root as the least entry.
use mathlib.Core.List.{Perm}
use mathlib.Core.List.Perm
use goev.Prelude.{
  ℕ, zero, suc, ◌≤◌, ◌<◌, ◌≡◌, List, arith, length, swapped, swapped-perm, Run, Ends, Ends-weaken,
}
use goev.Heap4.{parent, pos}

module _ (key : ℕ → ℕ) where
  -- No entry is due before its parent.
  abbrev pub IsHeap : List ℕ → Type 0
  IsHeap a = (c : ℕ) → 0 < c → c < length a → pos key a (parent c) ≤ pos key a c

  -- The children of `i` are not due before the parent of `i`.
  abbrev pub IsSpanned : List ℕ → ℕ → Type 0
  IsSpanned a i =
      (c : ℕ) → 0 < c → c < length a → parent c ≡ i → 0 < i → pos key a (parent i) ≤ pos key a c

  -- A heap of the same entries.
  abbrev pub Heaped : List ℕ → List ℕ → Type 0
  Heaped a b = IsHeap b × Perm b a

  pub Heaped-swapped :
      (a : List ℕ) (i j : ℕ) {m : Run (List ℕ)}
      → i < length a
      → j < length a
      → Ends (Heaped (swapped a i j)) m
      → Ends (Heaped a) m
  Heaped-swapped a i j p q e = Ends-weaken e λ b s. (s.0, Perm.trans s.1 (swapped-perm a i j p q))

  root_least_from :
      (f : ℕ) (a : List ℕ) (i : ℕ) → IsHeap a → i < f → i < length a → pos key a 0 ≤ pos key a i
  root_least_from zero a i h l p = absurd (omega arith)
  root_least_from (suc f) a i h l p = ground (arith, h i, root_least_from f a (parent i) h)

  -- The root of a heap is due first.
  pub root_least : (a : List ℕ) (i : ℕ) → IsHeap a → i < length a → pos key a 0 ≤ pos key a i
  root_least a i h p = root_least_from (suc i) a i h (omega arith) p

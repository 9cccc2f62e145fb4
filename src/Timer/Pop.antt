-- ===== src/Timer/Pop.antt =====
-- popOne: the item that it takes out is the first one due.
use mathlib.Core.List.{Mem, Perm, not-mem-nil, mem-cons}
use mathlib.Core.Logic.Or
use mathlib.Core.List.Perm
use native.Mathlib.Bridge.{le_prop}
use goev.Prelude.{
  ℕ, suc, ◌+◌, ◌-◌, ◌≤◌, ◌<◌, ◌≡◌, refl, List, [], ◌∷◌, ◌++◌, arith, ltb, ◌==◌, if◌then◌else◌,
  length, get_or, set, length-set, length-take, get_or-take, get_or-set, load-ok, store-ok, take,
  snoc-perm, set-perm, take-snoc, Ends, ends, Ends-bind, Ends-test, Option, none, some,
}
use goev.Heap4.{parent, pos}
use goev.Heap4.Order.{IsHeap, root_least}
use goev.Heap4.Down.{DownInv, shift_down_restores}
use goev.Timer.{Timer, key, pop_one}

-- The slice that popOne hands to shiftDown.
abbrev cut : List ℕ → ℕ → List ℕ
cut h n = take n (set h 0 (get_or h n 0))

module _ (h : List ℕ) (n : ℕ) (size : length h ≡ suc n) where
  cut-perm : Perm (get_or h 0 0 ∷ cut h n) h
  cut-perm =
      let x = get_or h n 0 in
      let moved = set h 0 x in
      let last : get_or moved n 0 ≡ x = ground (arith, get_or-set h 0 n x 0) in
      let split : cut h n ++ (x ∷ []) ≡ moved =
        rw last at (take-snoc n moved (omega (arith, size, length-set h 0 x))) in
      let traded : Perm (get_or h 0 0 ∷ moved) (x ∷ h) = set-perm h 0 x (omega (arith, size)) in
      let gathered : Perm (x ∷ (get_or h 0 0 ∷ cut h n)) (get_or h 0 0 ∷ moved) =
        Perm.trans (Perm.swap _ x _)
          (Perm.cons _ (rw split at (Perm.symm (snoc-perm (cut h n) x)))) in
      Perm.cons_inv (Perm.trans gathered traded)

  cut-DownInv : (k : ℕ → ℕ) → IsHeap k h → DownInv k (cut h n) 0
  cut-DownInv k v =
      let x = get_or h n 0 in
      let shorter : length (cut h n) ≡ n =
        omega (arith, length-take n (set h 0 x), length-set h 0 x, size) in
      let at = λ (c : ℕ). get_or-set h 0 c x 0 in
      let kept = λ (c : ℕ). get_or-take n (set h 0 x) c 0 in
      record {
        edges = λ c p q r.
            ground (arith, size, shorter, at c, at (parent c), kept c, kept (parent c), v c);
        spanned = omega arith;
      }

-- A result of popOne on a heap that is not empty and whose root is due: the root is out, no item is
-- due before it, and the other items stay, in a heap.
pub record Popped (t : Timer) (a : ℕ) (t' : Timer) : Type 0 where
  pub rest_kept : t' ≡ record t { fheap = t'.fheap }
  pub ordered : IsHeap (key t) t'.fheap
  pub same : Perm (a ∷ t'.fheap) t.fheap
  pub first : (b : ℕ) → Mem b t.fheap → key t a ≤ key t b

pub least_of_Mem :
    (k : ℕ → ℕ) (h : List ℕ) (m : ℕ)
    → ((i : ℕ) → i < length h → m ≤ pos k h i)
    → (b : ℕ) → Mem b h
    → m ≤ k b
least_of_Mem k [] m low b member = absurd (not-mem-nil member)
least_of_Mem k (x ∷ h) m low b member =
    Or.elim le_prop (mem-cons.0 member) (λ e. rw e (low 0 (omega arith)))
      (least_of_Mem k h m (λ i p. low (suc i) (omega arith)) b)

pub no_member : (h : List ℕ) (b : ℕ) → length h ≡ 0 → ¬ (Mem b h)
no_member [] b e = not-mem-nil
no_member (x ∷ h) b e = absurd (omega arith)

-- Every result of popOne: without an item, all items are due later than the tolerance allows, and
-- the delay is the root's; with an item, it was the first one due, within the tolerance.
abbrev pub PopSpec : ℕ → ℕ → Timer → Option ℕ × ℕ × Timer → Type 0
PopSpec now e t (none, delta, t') =
    (t' ≡ t)
    × ((b : ℕ) → Mem b t.fheap → now + e < key t b)
    × (delta ≡ (if length t.fheap == 0 then 0 else pos (key t) t.fheap 0 - now))
PopSpec now e t (some a, delta, t') = Popped t a t' × (key t a ≤ now + e) × (delta ≡ 0)

-- On an ordered heap popOne returns, and meets its specification on every branch.
pub pop_one_lem :
    (now e : ℕ) (t : Timer) → IsHeap (key t) t.fheap → Ends (PopSpec now e t) (pop_one now e t)
unfolding pop_one
pop_one_lem now e t v =
    Ends-test (length t.fheap == 0)
      (λ none_left. ends (refl, λ b m. absurd (no_member t.fheap b (ground arith) m), rw none_left))
      λ some_left.
        let n = length t.fheap - 1 in
        let size : length t.fheap ≡ suc n = ground arith in
        let low =
          least_of_Mem (key t) t.fheap (pos (key t) t.fheap 0)
            (λ i p. root_least (key t) t.fheap i v p) in
        rw
          (
            load-ok t.fheap 0 0 (omega arith),
            load-ok t.fheap n 0 (omega arith),
            store-ok t.fheap 0 (get_or t.fheap n 0) (omega arith),
          )
          (Ends-test (ltb e (pos (key t) t.fheap 0 - now))
            (λ later. ends (refl, (λ b m. ground (arith, low b m)), rw some_left))
            (λ due.
              Ends-bind
                (shift_down_restores (key t) (cut t.fheap n) 0
                  (cut-DownInv t.fheap n size (key t) v))
                λ h s. ends (
                  record {
                    rest_kept = refl;
                    ordered = s.0;
                    same = Perm.trans (Perm.cons _ s.1) (cut-perm t.fheap n size);
                    first = low;
                  },
                  ground arith,
                  refl,
                )))

-- ===== src/Timer/Queue.antt =====
-- timer_4heap.go: the invariant of the heap of timers, and the common steps of its operations.
use mathlib.Core.List.{Mem, Perm, Nodup, mem-cons_self, mem-cons_of_mem}
use mathlib.Core.List.Perm
use goev.Prelude.{
  ℕ, zero, suc, ◌-◌, ◌<◌, ◌≡◌, List, [], ◌∷◌, ◌++◌, arith, length, get_or, length-append,
  get_or-append, snoc-perm, Ends-value, ok,
}
use goev.Heap4.{parent}
use goev.Heap4.Order.{IsHeap}
use goev.Heap4.Up.{UpInv, shift_up_restores}
use goev.Timer.{Timer, key, push_item}

-- The heap is ordered, holds no item twice, and all its addresses have been given out.
pub record IsValid (t : Timer) : Type 0 where
  pub heap : IsHeap (key t) t.fheap
  pub distinct : Nodup t.fheap
  pub allocated : (a : ℕ) → Mem a t.fheap → a < t.next

pub get_or-Mem : (a : List ℕ) (i : ℕ) → i < length a → Mem (get_or a i 0) a
get_or-Mem [] i h = elim h [ ]
get_or-Mem (x ∷ a) zero h = mem-cons_self
get_or-Mem (x ∷ a) (suc i) h = mem-cons_of_mem x (get_or-Mem a i (omega arith))

-- The order depends on the keys of the entries only.
pub IsHeap-ext :
    (k k' : ℕ → ℕ) (a : List ℕ) → ((x : ℕ) → Mem x a → k x ≡ k' x) → IsHeap k a → IsHeap k' a
IsHeap-ext k k' a same h = λ c p q. ground (
  arith,
  h c,
  same (get_or a c 0) (get_or-Mem a c q),
  same (get_or a (parent c) 0) (get_or-Mem a (parent c) (omega arith)),
)

snoc-UpInv : (k : ℕ → ℕ) (h : List ℕ) (a : ℕ) → IsHeap k h → UpInv k (h ++ (a ∷ [])) (length h)
snoc-UpInv k h a v =
    let size = length-append h (a ∷ []) in
    let at = λ (c : ℕ). get_or-append h (a ∷ []) c 0 in
    record {
      inside = omega (arith, size);
      edges = λ c p q r. ground (arith, size, at c, at (parent c), v c);
      spanned = λ c p q r s. absurd (omega (arith, size));
    }

-- Pushing an item returns, and leaves a heap of the old entries and the new one.
pub push_item_lem :
    (a : ℕ) (t : Timer)
    → IsHeap (key t) t.fheap
    → (h : List ℕ) × (push_item a t ≡ ok (record t { fheap = h }))
      × IsHeap (key t) h
      × Perm h (a ∷ t.fheap)
unfolding push_item
push_item_lem a t v =
    let size : length (t.fheap ++ (a ∷ [])) - 1 ≡ length t.fheap =
      omega (arith, length-append t.fheap (a ∷ [])) in
    let (h, e, s) = Ends-value (
      shift_up_restores (key t) (t.fheap ++ (a ∷ [])) (length t.fheap)
        (snoc-UpInv (key t) t.fheap a v)) in
    (h, rw (size, e), s.0, Perm.trans s.1 (snoc-perm t.fheap a))

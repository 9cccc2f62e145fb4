-- ===== src/Heap4/Tests.antt =====
-- Runs of the heap; an address is its own key.
use goev.Prelude.{ℕ, ◌≡◌, refl, List, [], ◌∷◌, arith, ok}
use goev.Heap4.{shift_up, shift_down}
use goev.Heap4.Up.{UpInv}
use goev.Heap4.Down.{DownInv}

abbrev own : ℕ → ℕ
own a = a

-- A heap, but for its last entry.
abbrev new_last : List ℕ
new_last = 4 ∷ 8 ∷ 6 ∷ 1 ∷ []

new_last-UpInv : UpInv own new_last 3
new_last-UpInv = record {
  inside = omega arith;
  edges = λ c p q r. ground arith;
  spanned = λ c p q r s. absurd (omega arith);
}

-- A heap, but for its root.
abbrev late_root : List ℕ
late_root = 9 ∷ 4 ∷ 2 ∷ 6 ∷ 3 ∷ 7 ∷ []

late_root-DownInv : DownInv own late_root 0
late_root-DownInv = record {
  edges = λ c p q r. ground arith;
  spanned = λ c p q r s. absurd (omega arith);
}

shift_up_run : shift_up own new_last 3 ≡ ok (1 ∷ 8 ∷ 6 ∷ 4 ∷ [])
unfolding shift_up
shift_up_run = refl

shift_down_run : shift_down own late_root 0 ≡ ok (2 ∷ 4 ∷ 9 ∷ 6 ∷ 3 ∷ 7 ∷ [])
unfolding shift_down
shift_down_run = refl

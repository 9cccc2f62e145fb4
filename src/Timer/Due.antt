-- ===== src/Timer/Due.antt =====
-- How many entries of the heap are due: the measure by which the loop of handleExpired ends.
use mathlib.Core.List.{Mem, Perm, Permᴰ, mem-cons_self, mem-cons_of_mem}
use mathlib.Core.Logic.{∥∥₁_elim}
use native.Mathlib.Nat.{ℕ_set}
use goev.Prelude.{
  ℕ, suc, ◌+◌, ◌≤◌, ◌≡◌, refl, ◌∙◌, List, [], ◌∷◌, arith, leb, if◌then◌else◌, length, Bool,
}

-- Due by `now`, with the tolerance of handleExpired.
abbrev pub is_due : ℕ → ℕ → Bool
is_due now time = leb time (now + 2)

abbrev pub due : (ℕ → ℕ) → ℕ → List ℕ → ℕ
due k now [] = 0
due k now (a ∷ h) = if is_due now (k a) then suc (due k now h) else due k now h

pub due-le-length : (k : ℕ → ℕ) (now : ℕ) (h : List ℕ) → due k now h ≤ length h
due-le-length k now [] = omega arith
due-le-length k now (a ∷ h) = ground (arith, due-le-length k now h)

due-permᴰ : (k : ℕ → ℕ) (now : ℕ) {g h : List ℕ} → Permᴰ g h → due k now g ≡ due k now h
due-permᴰ k now Permᴰ.nil = refl
due-permᴰ k now (Permᴰ.cons x p) = ground (arith, due-permᴰ k now p)
due-permᴰ k now (Permᴰ.swap x y) = ground arith
due-permᴰ k now (Permᴰ.trans p q) = due-permᴰ k now p ∙ due-permᴰ k now q

pub due-perm : (k : ℕ → ℕ) (now : ℕ) {g h : List ℕ} → Perm g h → due k now g ≡ due k now h
due-perm k now p = ∥∥₁_elim p (ℕ_set _ _) (due-permᴰ k now)

pub due_ext :
    (k k' : ℕ → ℕ) (now : ℕ) (h : List ℕ)
    → ((x : ℕ) → Mem x h → k x ≡ k' x)
    → due k now h ≡ due k' now h
due_ext k k' now [] same = refl
due_ext k k' now (a ∷ h) same =
    ground (arith, same a mem-cons_self, due_ext k k' now h (λ x m. same x (mem-cons_of_mem a m)))

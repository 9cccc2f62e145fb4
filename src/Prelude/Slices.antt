-- ===== src/Prelude/Slices.antt =====
-- Reads, writes and exchanges in a slice, which panic out of range, and the multiset of its entries.
use mathlib.Core.Bool.{true, ◌&&◌}
use mathlib.Core.Path.{◌≡◌, refl, ap}
use mathlib.Core.Logic.{∥∥₁_elim}
use mathlib.Core.List.{List, [], ◌∷◌, ◌++◌, Perm, Permᴰ, append-nil, perm_middle}
use mathlib.Core.List.Perm
use native.Mathlib.Omega.{arith}
use native.Mathlib.Nat.{ℕ_set}
use Prim.Native.Nat.{ℕ, zero, suc, ◌-◌, ◌<◌, ◌≤◌}
use goev.Prelude.Tests.{ltb, leb, ◌==◌, if◌then◌else◌}
use goev.Prelude.Lists.{
  length, get_elem?, get_or, set, take, drop, get_elem?-eq-get_or, length-set, get_or-set,
}
use goev.Prelude.Outcome.{Run, ok, panic, demand, ◌>>=◌, Ends}

module _ {ℓ} {A : Type ℓ} where
  -- `a[i]`
  unfoldable pub load : List A → ℕ → Run A
  load a i = demand (get_elem? a i)

  -- `a[i] = v`
  unfoldable pub store : List A → ℕ → A → Run (List A)
  store a i v = if ltb i (length a) then ok (set a i v) else panic

  -- `a[i:j]` and `a[i:]`: what is behind the length counts as out of range.
  unfoldable pub slice : List A → ℕ → ℕ → Run (List A)
  slice a i j = if leb i j && leb j (length a) then ok (take (j - i) (drop i a)) else panic

  abbrev pub slice_from : List A → ℕ → Run (List A)
  slice_from a i = slice a i (length a)

  pub slice-ok :
      (a : List A) (i j : ℕ) → i ≤ j → j ≤ length a → slice a i j ≡ ok (take (j - i) (drop i a))
  unfolding slice
  slice-ok a i j low high =
      let inside : (leb i j && leb j (length a)) ≡ true = ground arith in rw inside

  pub Ends-slice {κ} :
      {B : Type κ} {P : B → Type κ} (a : List A) (i j : ℕ) (f : List A → Run B)
      → i ≤ j
      → j ≤ length a
      → Ends P (f (take (j - i) (drop i a)))
      → Ends P (slice a i j >>= f)
  unfolding slice
  Ends-slice a i j f low high p =
      let inside : (leb i j && leb j (length a)) ≡ true = ground arith in rw (inside, ◌>>=◌) p

  pub Ends-load {κ} :
      {B : Type κ} {P : B → Type κ} (a : List A) (i : ℕ) (f : A → Run B)
      → i < length a
      → ((x : A) → Ends P (f x))
      → Ends P (load a i >>= f)
  unfolding load
  Ends-load [] i f inside p = absurd (omega arith)
  Ends-load (x ∷ a) zero f inside p = p x
  Ends-load (x ∷ a) (suc i) f inside p = Ends-load a i f (omega arith) p

  pub load-ok : (a : List A) (i : ℕ) (d : A) → i < length a → load a i ≡ ok (get_or a i d)
  unfolding load
  load-ok a i d h = rw (get_elem?-eq-get_or a i d h)

  pub store-ok : (a : List A) (i : ℕ) (v : A) → i < length a → store a i v ≡ ok (set a i v)
  unfolding store
  store-ok a i v h = ground arith

-- `a[i], a[j] = a[j], a[i]`
unfoldable pub swap : List ℕ → ℕ → ℕ → Run (List ℕ)
unfolding load store
swap a i j = do y ← load a j; x ← load a i; b ← store a i y; store b j x

abbrev pub swapped : List ℕ → ℕ → ℕ → List ℕ
swapped a i j = set (set a i (get_or a j 0)) j (get_or a i 0)

pub swap-ok : (a : List ℕ) (i j : ℕ) → i < length a → j < length a → swap a i j ≡ ok (swapped a i j)
unfolding swap
swap-ok a i j p q = rw (
  load-ok a j 0 q,
  load-ok a i 0 p,
  store-ok a i (get_or a j 0) p,
  store-ok (set a i (get_or a j 0)) j (get_or a i 0) (rw length-set q),
)

pub length-swapped : (a : List ℕ) (i j : ℕ) → length (swapped a i j) ≡ length a
length-swapped a i j = simp length-set

pub get_or-swapped :
    (a : List ℕ) (i j c : ℕ)
    → i < length a
    → j < length a
    → get_or (swapped a i j) c 0
      ≡ (if j == c then get_or a i 0 else if i == c then get_or a j 0 else get_or a c 0)
get_or-swapped a i j c p q = rw (
  get_or-set (set a i (get_or a j 0)) j c (get_or a i 0) 0 (rw length-set q),
  get_or-set a i c (get_or a j 0) 0 p,
)

length-permᴰ : {a b : List ℕ} → Permᴰ a b → length a ≡ length b
length-permᴰ Permᴰ.nil = refl
length-permᴰ (Permᴰ.cons _ p) = ap suc (length-permᴰ p)
length-permᴰ (Permᴰ.swap _ _) = refl
length-permᴰ (Permᴰ.trans p q) = omega (arith, length-permᴰ p, length-permᴰ q)

pub length-perm : {a b : List ℕ} → Perm a b → length a ≡ length b
length-perm p = ∥∥₁_elim p (ℕ_set _ _) length-permᴰ

-- A write exchanges the old entry for the new one.
pub set-perm : (a : List ℕ) (i v : ℕ) → i < length a → Perm (get_or a i 0 ∷ set a i v) (v ∷ a)
set-perm [] i v h = elim h [ ]
set-perm (x ∷ a) zero v h = Perm.swap v x a
set-perm (x ∷ a) (suc i) v h =
    Perm.trans (Perm.swap x _ _)
      (Perm.trans (Perm.cons x (set-perm a i v (omega arith))) (Perm.swap v x a))

pub swapped-perm : (a : List ℕ) (i j : ℕ) → i < length a → j < length a → Perm (swapped a i j) a
swapped-perm a i j p q =
    let b = set a i (get_or a j 0) in
    let same : get_or b j 0 ≡ get_or a j 0 = ground (arith, get_or-set a i j (get_or a j 0) 0 p) in
    let once : Perm (get_or a j 0 ∷ swapped a i j) (get_or a i 0 ∷ b) =
      rw same at (set-perm b j (get_or a i 0) (rw length-set q)) in
    Perm.cons_inv (Perm.trans once (set-perm a i (get_or a j 0) p))

pub snoc-perm : (a : List ℕ) (x : ℕ) → Perm (a ++ (x ∷ [])) (x ∷ a)
snoc-perm a x = rw (append-nil a) at (perm_middle {a = x} a [])

pub take-snoc : (n : ℕ) (a : List ℕ) → length a ≡ suc n → take n a ++ (get_or a n 0 ∷ []) ≡ a
take-snoc zero (x ∷ []) h = refl
take-snoc (suc n) (x ∷ a) h = ap (◌∷◌ x) (take-snoc n a (omega arith))
take-snoc n a h = absurd (omega arith)

-- ===== src/Ring/Bounds.antt =====
-- The representation invariant of a ring buffer, and arithmetic round the ring.
use goev.Prelude.{
  ℕ, ◌+◌, ◌-◌, ◌%◌, ◌≤◌, ◌<◌, ◌≡◌, List, arith, ltb, if◌then◌else◌, length, get_or, tabulate,
  length-tabulate, dec_lt, length-replicate,
}
use native.Mathlib.Nat.{mod-eq_of_lt, mod-eq-sub-mod}
use goev.Ring.{RingBuffer, new}

pub record IsValid {ℓ} {A : Type ℓ} (rb : RingBuffer A) : Type 0 where
  pub sized : length rb.buffer ≡ rb.size
  pub head_in : rb.head < rb.size
  pub tail_at : rb.tail ≡ (rb.head + rb.len) % rb.size
  pub len_in : rb.len ≤ rb.size

-- One turn round the ring at most.
pub mod_wrap :
    (h k s : ℕ) → h < s → k ≤ s → (h + k) % s ≡ (if ltb (h + k) s then h + k else h + k - s)
mod_wrap h k s p q = elim (dec_lt (h + k) s) [
  | yes l ↦ ground (arith, mod-eq_of_lt {n = h + k} {m = s} l)
  | no l ↦ ground (
    arith,
    mod-eq-sub-mod {n = h + k} {m = s} (omega arith),
    mod-eq_of_lt {n = h + k - s} {m = s} (omega arith),
  )
]

module _ {ℓ} {A : Type ℓ} where
  -- The items in the order of `PopFront`.
  abbrev pub contents : RingBuffer A → List A
  contents rb = tabulate rb.len (λ k. get_or rb.buffer ((rb.head + k) % rb.size) rb.zero_value)

  pub length-contents : (rb : RingBuffer A) → length (contents rb) ≡ rb.len
  length-contents rb = length-tabulate rb.len _

  pub tail-lt-size : {rb : RingBuffer A} → IsValid rb → rb.tail < rb.size
  tail-lt-size {rb} v =
      ground
        (arith, v.tail_at, mod_wrap rb.head rb.len rb.size v.head_in v.len_in, v.head_in, v.len_in)

  pub new-IsValid : (z : A) (n : ℕ) → 0 < n → IsValid (new z n)
  unfolding new
  new-IsValid z n h = record {
    sized = length-replicate n z;
    head_in = h;
    tail_at = ground (arith, mod_wrap 0 0 n h (omega arith));
    len_in = omega arith;
  }

-- ===== src/Ring/Tests.antt =====
-- Runs of the ring buffer.
use goev.Prelude.{ℕ, ◌≡◌, ◌*◌, ◌==◌, refl, [], ◌∷◌, ◌++◌, arith, if◌then◌else◌, ok, Ends, ◌>>=◌}
use goev.Ring.{RingBuffer, new, push_back, push_front}
use goev.Ring.Bounds.{IsValid, contents}
use goev.Ring.Refine.{push_back_refines}

-- A full ring of 6 and 5, with its head in the middle.
abbrev pub wrapped : RingBuffer ℕ
wrapped = record { size = 2; head = 1; tail = 1; len = 2; zero_value = 0; buffer = 5 ∷ 6 ∷ [] }

pub wrapped-IsValid : IsValid wrapped
wrapped-IsValid = record {
  sized = refl;
  head_in = omega arith;
  tail_at = refl;
  len_in = omega arith;
}

queue_run :
    (push_back (new {A = ℕ} 0 1) 5 >>= λ a. push_back a 6 >>= λ b. push_front b 4)
    ≡ ok (record {
      size = 4;
      head = 3;
      tail = 2;
      len = 3;
      zero_value = 0;
      buffer = 5 ∷ 6 ∷ 0 ∷ 4 ∷ [];
    })
unfolding new push_back push_front
queue_run = refl

push_back_refines_example :
    Ends
      (λ r.
        IsValid r
        × (contents r ≡ contents wrapped ++ (7 ∷ []))
        × (r.size ≡ (if wrapped.len == wrapped.size then wrapped.size * 2 else wrapped.size)))
      (push_back wrapped 7)
push_back_refines_example = push_back_refines wrapped 7 wrapped-IsValid

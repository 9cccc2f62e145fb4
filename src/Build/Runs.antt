-- ===== src/Build/Runs.antt =====
-- The results of the steps of the construction, by the system's answer.
use goev.Prelude.{ℕ, ◌≡◌, arith, false, true, List, [], ◌∷◌, ◌++◌, ok, ltb}
use goev.Prelude.Int.{ℤ, pos, negsuc}
use goev.EvData.{is_pos}
use goev.Timer.{new_timer4_heap}
use goev.Sockets.{Effect, opened}
use goev.Build.{
  Call, timerfd_create, Answer, given, refused, BuildError, Build, Outcome, made, failed, no_timer,
  ask, open_timer, ◌>>=◌,
}

-- The result of a step at the given effects.
pub record Results {ℓ} {A : Type ℓ} (m : Build A) (log : List Effect) (r : Outcome A × List Effect)
    : Type ℓ where
  pub result : m log ≡ ok r

module _ {ℓ κ} {A : Type ℓ} {B : Type κ} where
  pub Results-bind :
      {m : Build A} (f : A → Build B) {log log' : List Effect} {a : A} {r : Outcome B × List Effect}
      → Results m log (made a, log')
      → Results (f a) log' r
      → Results (m >>= f) log r
  Results-bind f e k = record { result = rw (e.result, ◌>>=◌) (k.result) }

  pub Results-failed :
      {m : Build A} (f : A → Build B) {log log' : List Effect} {e : BuildError}
      → Results m log (failed e, log')
      → Results (m >>= f) log (failed e, log')
  Results-failed f k = record { result = rw (k.result, ◌>>=◌) }

module _ (system : Call → ℕ → Answer) (c : Call) (i : ℕ) (error : ℕ → BuildError)
    (log : List Effect) where
  pub ask_granted :
      (fd : ℕ)
      → system c i ≡ given fd
      → Results (ask system c i error) log (made fd, log ++ (opened fd ∷ []))
  unfolding ask
  ask_granted fd e = record { result = rw (e, ask) }

  pub ask_denied :
      (errno : ℕ)
      → system c i ≡ refused errno
      → Results (ask system c i error) log (failed (error errno), log)
  unfolding ask
  ask_denied errno e = record { result = rw (e, ask) }

pub open_timer_run :
    (system : Call → ℕ → Answer) (cap : ℤ) (i fd : ℕ) (log : List Effect)
    → is_pos cap ≡ true
    → system timerfd_create i ≡ given fd
    → Results (open_timer system cap i) log (made (fd, no_timer), log ++ (opened fd ∷ []))
unfolding open_timer new_timer4_heap
open_timer_run system (pos c) i fd log h e =
    let some_cap : ltb c 1 ≡ false = ground arith in
    record { result = rw (e, open_timer, some_cap, new_timer4_heap) }
open_timer_run system (negsuc c) i fd log h e = absurd (cc h)

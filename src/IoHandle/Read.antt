-- ===== src/IoHandle/Read.antt =====
-- io_handle.go (Read, WriteBuff) and epoll.go (read, writeBuff): reading into the buffer of the poller, which
-- all handlers of the poller share. The answers of `syscall.Read`, in order, are a parameter.
use goev.Prelude.{
  ℕ, zero, suc, ◌+◌, ◌≤◌, ◌<◌, ◌≡◌, refl, ap, ◌∙◌, arith, Option, none, some, List, [], ◌∷◌,
  if◌then◌else◌, length, length-copy, take, copy, Run, ok, panic, out_of_fuel, Ends, ends,
}
use goev.Prelude.Int.{ℤ, pos, negsuc}
use goev.EvData.{is_pos}

-- Bytes (none at the end of the stream), or -1 with EINTR or another error.
pub data ReadAnswer : Type 0 where
  took : List ℕ → ReadAnswer
  interrupted : ReadAnswer
  refused : ℕ → ReadAnswer

-- An error number of the kernel, or EBADF of the handler itself.
pub data ReadError : Type 0 where
  ebadf : ReadError
  errno : ℕ → ReadError

-- The results `bf`, `n` and `err`; `none` is a nil slice.
pub record ReadResult : Type 0 where
  pub bf : Option (List ℕ)
  pub n : ℤ
  pub err : Option ReadError

abbrev pub nothing_read : ℤ → Option ReadError → ReadResult
nothing_read n err = record { bf = none; n = n; err = err }

-- `ep.evPollReadBuff[:n]` behind the read of some bytes, and the buffer.
abbrev pub filled : List ℕ → List ℕ → ReadResult × List ℕ
filled bytes buff =
    let buff' = copy buff bytes in
    (record { bf = some (take (length bytes) buff'); n = pos (length bytes); err = none }, buff')

-- read of evPoll, from the answer number `k` on.
unfoldable pub read : (ℕ → ReadAnswer) → ℕ → ℕ → List ℕ → Run (ReadResult × List ℕ)
read answer zero k buff = out_of_fuel
read answer (suc f) k buff = elim (answer k) [
  | took [] ↦ ok (nothing_read (pos 0) none, buff)
  | took (b ∷ bs) ↦ ok (filled (b ∷ bs) buff)
  | interrupted ↦ read answer f (suc k) buff
  | refused e ↦ ok (nothing_read (negsuc 0) (some (errno e)), buff)
]

-- Read of IOHandle, for a handler with or without a poller.
unfoldable pub handle_read :
    (ℕ → ReadAnswer) → ℕ → ℤ → Option (List ℕ) → Run (ReadResult × Option (List ℕ))
unfolding read
handle_read answer fuel fd ep =
    let polled : Run (ReadResult × Option (List ℕ)) = elim ep [
      | none ↦ panic
      | some buff ↦ (elim (read answer fuel 0 buff) [
        | ok (r, buff') ↦ ok (r, some buff')
        | panic ↦ panic
        | out_of_fuel ↦ out_of_fuel
      ])
    ] in
    if is_pos fd then polled else ok (nothing_read (pos 0) (some ebadf), ep)

-- WriteBuff
unfoldable pub write_buff : Option (List ℕ) → Run (List ℕ)
write_buff none = panic
write_buff (some buff) = ok buff

take-copy :
    (buff bytes : List ℕ)
    → length bytes ≤ length buff
    → take (length bytes) (copy buff bytes) ≡ bytes
take-copy [] [] h = refl
take-copy [] (b ∷ bs) h = absurd (omega arith)
take-copy (x ∷ buff) [] h = refl
take-copy (x ∷ buff) (b ∷ bs) h = ap (◌∷◌ b) (take-copy buff bs (omega arith))

-- What a handler sees of an answer.
abbrev pub seen : ReadAnswer → ReadResult
seen (took []) = nothing_read (pos 0) none
seen (took (b ∷ bs)) = record { bf = some (b ∷ bs); n = pos (length (b ∷ bs)); err = none }
seen interrupted = nothing_read (pos 0) none
seen (refused e) = nothing_read (negsuc 0) (some (errno e))

abbrev pub IsFinal : ReadAnswer → Type 0
IsFinal interrupted = ⊥
IsFinal _ = zero ≡ zero

-- The answer is no more than fits in the buffer.
abbrev pub HasRoom : ReadAnswer → ℕ → Type 0
HasRoom (took bytes) size = length bytes ≤ size
HasRoom _ size = zero ≡ zero

one_read :
    (a : ReadAnswer) (again : Run (ReadResult × List ℕ)) (buff : List ℕ)
    → IsFinal a
    → HasRoom a (length buff)
    → Ends {A = ReadResult × List ℕ}
        (λ (r, buff'). (r ≡ seen a) × (length buff' ≡ length buff))
        (elim a [
          | took [] ↦ ok (nothing_read (pos 0) none, buff)
          | took (b ∷ bs) ↦ ok (filled (b ∷ bs) buff)
          | interrupted ↦ again
          | refused e ↦ ok (nothing_read (negsuc 0) (some (errno e)), buff)
        ])
one_read (took []) again buff final room = ends (refl, refl)
one_read (took (b ∷ bs)) again buff final room = ends (
  ap (λ s. record { bf = some s; n = pos (length (b ∷ bs)); err = none })
      (take-copy buff (b ∷ bs) room),
  length-copy buff (b ∷ bs),
)
one_read interrupted again buff final room = absurd final
one_read (refused e) again buff final room = ends (refl, refl)

suc_add : (k i : ℕ) → suc k + i ≡ k + suc i
suc_add k i = omega arith

-- Interrupted so many times, read returns what the first other answer gives, in a buffer of the same size.
pub read_lem :
    (answer : ℕ → ReadAnswer) (a : ReadAnswer) (times f k : ℕ) (buff : List ℕ)
    → times < f
    → ((i : ℕ) → i < times → answer (k + i) ≡ interrupted)
    → answer (k + times) ≡ a
    → IsFinal a
    → HasRoom a (length buff)
    → Ends {A = ReadResult × List ℕ}
        (λ (r, buff'). (r ≡ seen a) × (length buff' ≡ length buff))
        (read answer f k buff)
unfolding read
read_lem answer a times zero k buff h early e final room = absurd (omega arith)
read_lem answer a zero (suc f) k buff h early e final room =
    let same : k ≡ k + 0 = omega arith in
    let here : answer k ≡ a = ap answer same ∙ e in
    rw (here, read) (one_read a (read answer f (suc k) buff) buff final room)
read_lem answer a (suc times) (suc f) k buff h early e final room =
    let same : k ≡ k + 0 = omega arith in
    let here : answer k ≡ interrupted = ap answer same ∙ early 0 (omega arith) in
    rw (here, read)
      (read_lem answer a times f (suc k) buff (omega arith)
        (λ i low. ap answer (suc_add k i) ∙ early (suc i) (omega arith))
        (ap answer (suc_add k times) ∙ e) final room)

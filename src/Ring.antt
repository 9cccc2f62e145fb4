-- ===== src/Ring.antt =====
-- ringbuffer.go: the growing ring that queues asynchronous writes and sync operations.
pub mod Bounds
pub mod Grow
pub mod Refine
pub mod Tests
use goev.Prelude.{
  ℕ, suc, ◌+◌, ◌-◌, ◌*◌, ◌%◌, Bool, true, false, Option, none, some, List, arith, ltb, ◌==◌,
  if◌then◌else◌, length, get_elem?, set, take, drop, replicate, copy, Run, ok, panic, load, store,
  ◌>>=◌, ◌<◌, ◌≡◌, ◌++◌, get_or, get_elem?-eq-get_or,
}

-- `zero_value` is the field `zero`, Go's zero value of the element type.
pub record RingBuffer {ℓ} (A : Type ℓ) : Type ℓ where
  pub size : ℕ
  pub head : ℕ
  pub tail : ℕ
  pub len : ℕ
  pub zero_value : A
  pub buffer : List A

module _ {ℓ} {A : Type ℓ} where
  -- NewRingBuffer. The first argument is Go's zero value of the element type.
  unfoldable pub new : A → ℕ → RingBuffer A
  new z init_cap = record {
    size = init_cap;
    head = 0;
    tail = 0;
    len = 0;
    zero_value = z;
    buffer = replicate init_cap z;
  }

  unfoldable pub is_empty : RingBuffer A → Bool
  is_empty rb = rb.len == 0

  unfoldable pub is_full : RingBuffer A → Bool
  is_full rb = rb.len == rb.size

  -- `buffer[lo:hi]`
  abbrev slice : List A → ℕ → ℕ → List A
  slice a lo hi = take (hi - lo) (drop lo a)

  -- The `copy` calls of `grow`, by the order of `tail` and `head`: the new buffer and `n`.
  grow_copy : RingBuffer A → List A → List A × ℕ
  grow_copy rb fresh =
      if ltb rb.head rb.tail
      then (let part = slice rb.buffer rb.head rb.tail in (copy fresh part, length part))
      else (let part = drop rb.head rb.buffer in
          let rest = take rb.tail rb.buffer in
          let n = length part in
          (take n (copy fresh part) ++ copy (drop n (copy fresh part)) rest, n + length rest))

  pub grow : RingBuffer A → RingBuffer A
  unfolding grow_copy
  grow rb =
      let (buf, n) = grow_copy rb (replicate (rb.size * 2) rb.zero_value) in
      record rb { size = rb.size * 2; head = 0; tail = n; buffer = buf }

  unfoldable pub push_back : RingBuffer A → A → Run (RingBuffer A)
  unfolding store grow
  push_back rb x = do
    let r = if rb.len == rb.size then grow rb else rb
    buf ← store r.buffer r.tail x
    ok (record r { buffer = buf; tail = (r.tail + 1) % r.size; len = r.len + 1 })

  -- `none` is the result with `ok` false.
  unfoldable pub pop_front : RingBuffer A → Run (Option A × RingBuffer A)
  unfolding load store
  pop_front rb = if rb.len == 0 then ok (none, rb) else do
    x ← load rb.buffer rb.head
    buf ← store rb.buffer rb.head rb.zero_value
    ok (some x, record rb { buffer = buf; head = (rb.head + 1) % rb.size; len = rb.len - 1 })

  unfoldable pub push_front : RingBuffer A → A → Run (RingBuffer A)
  unfolding store grow
  push_front rb x = do
    let r = if rb.len == rb.size then grow rb else rb
    let head = (r.size + r.head - 1) % r.size
    buf ← store r.buffer head x
    ok (record r { buffer = buf; head = head; len = r.len + 1 })

-- ===== src/IoHandle/Queue.antt =====
-- The queue of a handle as the list of its buffers: what a push and an allocation leave.
use goev.Prelude.{
  ℕ, zero, ◌*◌, ◌≤◌, ◌<◌, ◌≡◌, ◌==◌, inl, refl, sym, ap, ◌∙◌, subst, arith, true, false, not, List,
  [], ◌∷◌, ◌++◌, append_assoc, append-nil, length, length-append, Option, none, some, Run, ◌>>=◌,
  Ends, ends, Ends-test, Ends-bind-bind, Ends-weaken,
}
use goev.Ring
use goev.Ring.{RingBuffer}
use goev.Ring.Bounds as Bounds
use goev.Ring.Bounds.{contents, length-contents, new-IsValid}
use goev.Ring.Refine.{push_back_refines}
use goev.BufPool.{Slice, Pools}
use goev.BufPool.Alloc as Alloc
use goev.BufPool.Alloc.{Serves, bmalloc_lem}
use goev.IoHandle.{
  AsyncWriteBuf, Env, Io, zero_buf, part, has_queued, io_alloc_buff, copy_buf, push_buf,
}
use goev.IoHandle.Pending.{IsFreeable, IsPending, ArePending, unsent, part_whole}

abbrev pub buffers : Option (RingBuffer AsyncWriteBuf) → List AsyncWriteBuf
buffers none = []
buffers (some q) = contents q

-- A nil queue, or a valid ring of buffers with bytes left.
abbrev pub IsQueue : Option (RingBuffer AsyncWriteBuf) → Type 0
IsQueue none = zero ≡ zero
IsQueue (some q) = Bounds.IsValid q × ArePending (contents q)

-- The bytes that wait, in order.
abbrev pub waiting : Io → List ℕ
waiting h = unsent (buffers h.async_write_buf_q)

-- The state between the calls: the queue and the pools are valid, and the poller has been asked for
-- EvOut exactly while buffers wait.
pub record IsSound (h : Io) : Type 0 where
  pub queue : IsQueue h.async_write_buf_q
  pub pools_valid : Alloc.IsValid h.pools
  pub asked : h.async_write_waiting ≡ has_queued h

-- A size that the pools serve and take back.
abbrev pub IsServed : ℕ → Type 0
IsServed n = (0 < n) × (n ≤ 1024 * 1023)

unsent-append :
    (bs : List AsyncWriteBuf) (b : AsyncWriteBuf) → unsent (bs ++ (b ∷ [])) ≡ unsent bs ++ part b
unsent-append [] b = append-nil (part b)
unsent-append (c ∷ bs) b =
    ap (λ xs. part c ++ xs) (unsent-append bs b) ∙ sym (append_assoc (part c) (unsent bs) (part b))

ArePending-append :
    (bs : List AsyncWriteBuf) (b : AsyncWriteBuf)
    → ArePending bs
    → IsPending b
    → ArePending (bs ++ (b ∷ []))
ArePending-append [] b p q = (q, refl)
ArePending-append (c ∷ bs) b p q = (p.0, ArePending-append bs b p.1 q)

-- An empty queue, or none, holds no bytes.
pub none_waits :
    (o : Option (RingBuffer AsyncWriteBuf))
    → (elim o [ none ↦ false | some rb ↦ not (rb.len == 0) ]) ≡ false
    → unsent (buffers o) ≡ []
none_waits none e = refl
none_waits (some q) e =
    let empty : q.len ≡ 0 = ground arith in
    ap (λ n. unsent (Bounds.contents (record q { len = n }))) empty

some_held :
    (q : RingBuffer AsyncWriteBuf) (bs : List AsyncWriteBuf) (b : AsyncWriteBuf)
    → contents q ≡ bs ++ (b ∷ [])
    → 0 < q.len
some_held q bs b e = omega (arith, length-contents q, ap length e, length-append bs (b ∷ []))

pushed_ring :
    (init_cap : ℕ) (o : Option (RingBuffer AsyncWriteBuf)) (b : AsyncWriteBuf)
    → 0 < init_cap
    → IsQueue o
    → IsPending b
    → Ends
        (λ q. IsQueue (some q) × (contents q ≡ buffers o ++ (b ∷ [])) × (0 < q.len))
        (Ring.push_back (elim o [ none ↦ Ring.new zero_buf init_cap | some q ↦ q ]) b)
unfolding Ring.new
pushed_ring init_cap none b c v p =
    Ends-weaken (push_back_refines (Ring.new zero_buf init_cap) b (new-IsValid zero_buf init_cap c))
      λ q r. ((r.0, subst ArePending (sym r.1) (p, refl)), r.1, some_held q [] b r.1)
pushed_ring init_cap (some q) b c v p = Ends-weaken (push_back_refines q b v.0) λ r s. (
  (s.0, subst ArePending (sym s.1) (ArePending-append (contents q) b v.1 p)),
  s.1,
  some_held r (contents q) b s.1,
)

module _ (env : Env) where
  -- What follows a push goes on with the queue that has one more buffer.
  pub push_buf_then {κ} :
      {B : Type 0} {Q : B → Type κ} (k : Io → Run B) (init_cap : ℕ) (b : AsyncWriteBuf) (h : Io)
      → 0 < init_cap
      → IsQueue h.async_write_buf_q
      → IsPending b
      → ((q : RingBuffer AsyncWriteBuf)
          → IsQueue (some q)
          → not (q.len == 0) ≡ true
          → unsent (contents q) ≡ waiting h ++ part b
          → Ends Q (k (record h { async_write_buf_q = some q })))
      → Ends Q (push_buf env init_cap b h >>= k)
  unfolding push_buf
  push_buf_then k init_cap b h c v p next =
      Ends-bind-bind _ _ (pushed_ring init_cap h.async_write_buf_q b c v p) λ q r.
        next q r.0 (ground (arith, r.2))
          (ap unsent r.1 ∙ unsent-append (buffers h.async_write_buf_q) b)

  io_alloc_buff_lem :
      (n : ℕ) (p : Pools)
      → Alloc.IsValid p
      → IsServed n
      → Ends (λ (b, p'). IsFreeable b × Alloc.IsValid p') (io_alloc_buff env n p)
  unfolding io_alloc_buff
  io_alloc_buff_lem n p v s =
      Ends-test env.io_buff_use_pool
        (λ pooled. Ends-weaken (bmalloc_lem env.sync n p v (inl s.1)) λ (b, p') (q, w).
          ((omega (arith, q.0, q.1), omega (arith, q.1, s.0), inl (small b q)), w))
        (λ plain. ends ((omega arith, s.0, inl s.1), v))
    where
      small : (b : Slice) → Serves n b → b.cap ≤ 1024 * 1023
      small b q = ground (arith, q, s)

  -- What follows a copy of the bytes goes on with a buffer of them, in a slice of its own.
  pub copy_buf_then {κ} :
      {B : Type 0} {Q : B → Type κ} (k : AsyncWriteBuf × Io → Run B) (bytes : List ℕ) (h : Io)
      → Alloc.IsValid h.pools
      → IsServed (length bytes)
      → ((b : AsyncWriteBuf) (p : Pools)
          → IsPending b
          → (part b ≡ bytes) × (b.len ≡ length bytes) × (b.writen ≡ 0)
          → Alloc.IsValid p
          → Ends Q (k (b, record h { pools = p })))
      → Ends Q (copy_buf env bytes h >>= k)
  unfolding copy_buf
  copy_buf_then k bytes h v s next =
      Ends-bind-bind _ _ (io_alloc_buff_lem (length bytes) h.pools v s) λ (bf, p) (f, w).
        let b : AsyncWriteBuf = record {
          writen = 0;
          len = length bytes;
          bytes = bytes;
          slice = bf;
        } in
        next b p (record { filled = refl; some_left = s.0; freeable = f })
          (part_whole b refl, refl, refl) w

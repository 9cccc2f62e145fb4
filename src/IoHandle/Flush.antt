-- ===== src/IoHandle/Flush.antt =====
-- AsyncOrderedFlush: no byte is lost, repeated or reordered.
use goev.Prelude.{
  ℕ, zero, suc, ◌-◌, ◌≤◌, ◌≡◌, ◌==◌, ltb, refl, sym, ap, ap₂, ◌∙◌, subst, arith, Bool, true, false,
  not, Option, none, some, List, [], ◌∷◌, ◌++◌, append_assoc, append-nil, length, take, Run, ok,
  ◌>>=◌, if◌then◌else◌, Ends, ends, Ends-test, Ends-bind, Ends-weaken,
}
use goev.Ring
use goev.Ring.{RingBuffer}
use goev.Ring.Bounds as Bounds
use goev.Ring.Bounds.{contents}
use goev.Ring.Refine.{uncons, pop_front_refines, push_front_refines}
use goev.BufPool.Alloc as Alloc
use goev.IoHandle.{
  AsyncWriteBuf, Env, Io, WriteResult, wrote, interrupted, failed, part, after_write, sys_write,
  flush_loop, async_ordered_flush, has_queued, is_closed, remove_out,
}
use goev.IoHandle.Pending.{
  IsPending, ArePending, unsent, advanced, part-advanced, part_all, length-part, free_buf_lem,
}

-- A handle with the given queue, after the given buffers were waiting when `h` began: the bytes sent and
-- those still waiting are the same ones in the same order, and the wish for EvOut is untouched.
pub record Flushed (waiting : List AsyncWriteBuf) (h h' : Io) : Type 0 where
  pub queue : RingBuffer AsyncWriteBuf
  pub queued : h'.async_write_buf_q ≡ some queue
  pub ring : Bounds.IsValid queue
  pub pending : ArePending (contents queue)
  pub pools_valid : Alloc.IsValid h'.pools
  pub bytes : h'.sent ++ unsent (contents queue) ≡ h.sent ++ unsent waiting
  pub wish :
      (h'.async_write_waiting ≡ h.async_write_waiting)
      × (h'.poll_calls ≡ h.poll_calls)
      × (h'.fd ≡ h.fd)

-- The loop continues from `h1` after the first buffer is sent.
Flushed-sent :
    (b : AsyncWriteBuf) (rest : List AsyncWriteBuf) (h h1 h' : Io)
    → h1.sent ≡ h.sent ++ part b
    → (h1.async_write_waiting ≡ h.async_write_waiting)
      × (h1.poll_calls ≡ h.poll_calls)
      × (h1.fd ≡ h.fd)
    → Flushed rest h1 h'
    → Flushed (b ∷ rest) h h'
Flushed-sent b rest h h1 h' s w f = record {
  queue = f.queue;
  queued = f.queued;
  ring = f.ring;
  pending = f.pending;
  pools_valid = f.pools_valid;
  bytes = f.bytes ∙ ap (λ xs. xs ++ unsent rest) s ∙ append_assoc h.sent (part b) (unsent rest);
  wish = (f.wish.0 ∙ w.0, f.wish.1 ∙ w.1, f.wish.2 ∙ w.2);
}

choose :
    {P : Io → Type 0} (x y : Io) (c : Bool)
    → (c ≡ true → P x)
    → (c ≡ false → P y)
    → Ends P (ok (if c then x else y))
choose x y true p r = ends (p refl)
choose x y false p r = ends (r refl)

module _ (env : Env) where
  -- A buffer goes back to the front after `xs` of it were sent.
  back_lem :
      (b b' : AsyncWriteBuf) (xs : List ℕ) (q : RingBuffer AsyncWriteBuf) (h h1 : Io)
      → Bounds.IsValid q
      → ArePending (contents q)
      → IsPending b'
      → Alloc.IsValid h1.pools
      → xs ++ part b' ≡ part b
      → h1.sent ≡ h.sent ++ xs
      → (h1.async_write_waiting ≡ h.async_write_waiting)
        × (h1.poll_calls ≡ h.poll_calls)
        × (h1.fd ≡ h.fd)
      → Ends
          (Flushed (b ∷ contents q) h)
          (Ring.push_front q b' >>= λ q'. ok (record h1 { async_write_buf_q = some q' }))
  back_lem b b' xs q h h1 v p p' pools e s w = Ends-bind (push_front_refines q b' v) λ q' (u, c, z).
      ends (record {
        queue = q';
        queued = refl;
        ring = u;
        pending = subst ArePending (sym c) (p', p);
        pools_valid = pools;
        bytes =
            ap₂ (λ a bs. a ++ unsent bs) s c
            ∙ append_assoc h.sent xs (part b' ++ unsent (contents q))
            ∙ ap (λ ys. h.sent ++ ys)
                (sym (append_assoc xs (part b') (unsent (contents q)))
                  ∙ ap (λ ys. ys ++ unsent (contents q)) e);
        wish = w;
      })

  -- The first buffer, after the kernel answered `r`.
  one_lem :
      (b : AsyncWriteBuf) (q : RingBuffer AsyncWriteBuf) (h : Io) (go_on : Io → Run Io)
      → Bounds.IsValid q
      → ArePending (contents q)
      → IsPending b
      → Alloc.IsValid h.pools
      → ((g : Io) → Alloc.IsValid g.pools → Ends (Flushed (contents q) g) (go_on g))
      → (r : WriteResult) (calls : ℕ) → ((k : ℕ) → r ≡ wrote k → k ≤ length (part b))
      → Ends (Flushed (b ∷ contents q) h) (
          after_write env r b q go_on (record h {
            calls = calls;
            sent = elim r [
              | wrote n ↦ h.sent ++ take n (part b)
              | interrupted ↦ h.sent
              | failed ↦ h.sent
            ];
          }))
  unfolding after_write
  one_lem b q h go_on v p pb pools ih (wrote k) calls within =
      Ends-test (ltb 0 k)
        (λ some_sent.
          Ends-test (k == (b.len - b.writen))
            (λ all.
              let e = part_all k b pb.filled (ground arith) in
              Ends-bind (free_buf_lem env b _ pools pb.freeable) λ h1 f.
                Ends-weaken (ih h1 f.1) λ h' g.
                  Flushed-sent b (contents q) h h1 h'
                    (ap (λ u. u.sent) f.0 ∙ ap (λ xs. h.sent ++ xs) e)
                    (
                      ap (λ u. u.async_write_waiting) f.0,
                      ap (λ u. u.poll_calls) f.0,
                      ap (λ u. u.fd) f.0,
                    )
                    g)
            (λ partly.
              back_lem b (advanced k b) (take k (part b)) q h
                (record h {
                  calls = calls;
                  sent = h.sent ++ take k (part b);
                  async_write_buf_size = h.async_write_buf_size - k;
                })
                v p
                (record {
                  filled = pb.filled;
                  some_left = ground (arith, within k refl, length-part b pb.filled);
                  freeable = pb.freeable;
                })
                pools (part-advanced k b pb.filled) refl (refl, refl, refl)))
        (λ none_sent.
          let e : k ≡ 0 = ground arith in
          back_lem b b (take k (part b)) q h
            (record h { calls = calls; sent = h.sent ++ take k (part b) }) v p pb pools
            (ap (λ j. take j (part b) ++ part b) e) refl (refl, refl, refl))
  one_lem b q h go_on v p pb pools ih interrupted calls within =
      back_lem b b [] q h (record h { calls = calls }) v p pb pools refl (sym (append-nil h.sent))
        (refl, refl, refl)
  one_lem b q h go_on v p pb pools ih failed calls within =
      back_lem b b [] q h (record h { calls = calls }) v p pb pools refl (sym (append-nil h.sent))
        (refl, refl, refl)

  pub taken_first :
      (xs rest : List AsyncWriteBuf) (b : AsyncWriteBuf)
      → (some b, rest) ≡ uncons xs
      → xs ≡ b ∷ rest
  unfolding uncons
  taken_first [] rest b e = absurd (ground (arith, ap (λ p. p.0) e))
  taken_first (x ∷ xs) rest b e =
      sym (ap₂ ◌∷◌ (ap (λ p. elim p.0 [ none ↦ b | some y ↦ y ]) e) (ap (λ p. p.1) e))

  pub none_taken : (xs rest : List AsyncWriteBuf) → (none, rest) ≡ uncons xs → xs ≡ rest
  unfolding uncons
  none_taken [] rest e = sym (ap (λ p. p.1) e)
  none_taken (x ∷ xs) rest e = absurd (ground (arith, ap (λ p. p.0) e))

  pub flush_loop_lem :
      (n : ℕ) (q : RingBuffer AsyncWriteBuf) (h : Io)
      → Bounds.IsValid q
      → ArePending (contents q)
      → Alloc.IsValid h.pools
      → Ends (Flushed (contents q) h) (flush_loop env n q h)
  unfolding flush_loop sys_write
  flush_loop_lem zero q h v p pools = ends (record {
    queue = q;
    queued = refl;
    ring = v;
    pending = p;
    pools_valid = pools;
    bytes = refl;
    wish = (refl, refl, refl);
  })
  flush_loop_lem (suc n) q h v p pools = Ends-bind (pop_front_refines q v) (next (flush_loop_lem n))
    where
      next :
          ((r : RingBuffer AsyncWriteBuf) (g : Io)
            → Bounds.IsValid r
            → ArePending (contents r)
            → Alloc.IsValid g.pools
            → Ends (Flushed (contents r) g) (flush_loop env n r g))
          → (t : Option AsyncWriteBuf × RingBuffer AsyncWriteBuf)
          → Bounds.IsValid t.1 × ((t.0, contents t.1) ≡ uncons (contents q)) × (t.1.size ≡ q.size)
          → Ends (Flushed (contents q) h) (elim t.0 [
            | none ↦ ok (record h { async_write_buf_q = some t.1 })
            | some b ↦
                (let (a, h') = sys_write env (part b) h in
                  after_write env a b t.1 (flush_loop env n t.1) h')
          ])
      next ih (none, r) (w, e, z) =
          let same = none_taken (contents q) (contents r) e in
          ends (record {
            queue = r;
            queued = refl;
            ring = w;
            pending = subst ArePending same p;
            pools_valid = pools;
            bytes = ap (λ xs. h.sent ++ unsent xs) (sym same);
            wish = (refl, refl, refl);
          })
      next ih (some b, r) (w, e, z) =
          let first = taken_first (contents q) (contents r) b e in
          let all : ArePending (b ∷ contents r) = subst ArePending first p in
          subst
            (λ xs. Ends (Flushed xs h) (
              let (a, h') = sys_write env (part b) h in
              after_write env a b r (flush_loop env n r) h'))
            (sym first)
            (one_lem b r h (flush_loop env n r) w all.1 all.0 pools (λ g v'. ih r g w all.1 v')
              (env.writer.answer h.calls (part b)) (suc h.calls)
              (λ k f. env.writer.within h.calls k (part b) f))

  -- AsyncOrderedFlush of an open handle whose queue is valid, its buffers with bytes left and freeable,
  -- returns. Whatever the kernel takes of each write, the bytes sent and those that still wait are the
  -- ones of before, in order, and the queue stays valid. Exactly if it is empty then, the flag is cleared
  -- and EvOut is taken away at the poller.
  pub async_ordered_flush_lem :
      (q : RingBuffer AsyncWriteBuf) (h : Io)
      → is_closed h ≡ false
      → h.async_write_buf_q ≡ some q
      → Bounds.IsValid q
      → ArePending (contents q)
      → Alloc.IsValid h.pools
      → Ends
          (λ h'.
            (q' : RingBuffer AsyncWriteBuf) × (h'.async_write_buf_q ≡ some q')
            × Bounds.IsValid q'
            × ArePending (contents q')
            × Alloc.IsValid h'.pools
            × (h'.sent ++ unsent (contents q') ≡ h.sent ++ unsent (contents q))
            × (h'.async_write_waiting ≡ (if q'.len == 0 then false else h.async_write_waiting))
            × (h'.poll_calls
                ≡ (if q'.len == 0 then h.poll_calls ++ (remove_out ∷ []) else h.poll_calls))
            × (h'.fd ≡ h.fd))
          (async_ordered_flush env h)
  unfolding async_ordered_flush
  async_ordered_flush_lem q h open_fd queued v p pools =
      rw (open_fd, queued)
        (Ends-bind (flush_loop_lem q.len q h v p pools) λ u f.
          let more : has_queued u ≡ not (f.queue.len == 0) =
            ap
              (λ (o : Option (RingBuffer AsyncWriteBuf)). elim o [
                | none ↦ false
                | some rb ↦ not (rb.len == 0)
              ])
              f.queued in
          choose u _ (has_queued u)
            (λ held.
              let some_wait : (f.queue.len == 0) ≡ false = ground (arith, more, held) in
              (
                f.queue,
                f.queued,
                f.ring,
                f.pending,
                f.pools_valid,
                f.bytes,
                rw some_wait f.wish.0,
                rw some_wait f.wish.1,
                f.wish.2,
              ))
            (λ drained.
              let none_wait : (f.queue.len == 0) ≡ true = ground (arith, more, drained) in
              (
                f.queue,
                f.queued,
                f.ring,
                f.pending,
                f.pools_valid,
                f.bytes,
                rw none_wait refl,
                rw none_wait (ap (λ xs. xs ++ (remove_out ∷ [])) f.wish.1),
                f.wish.2,
              )))

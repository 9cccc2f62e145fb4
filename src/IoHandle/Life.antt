-- ===== src/IoHandle/Life.antt =====
-- The end of a handle and its use again: Destroy and Init of io_handle.go.
use goev.Prelude.{
  ℕ, zero, suc, ◌<◌, ◌≡◌, ◌==◌, refl, sym, ap, ◌∙◌, subst, arith, Bool, true, false, not, ◌∷◌,
  length, Option, none, some, Run, ok, out_of_fuel, ◌>>=◌, if◌then◌else◌, Ends, ends, Ends-test,
  Ends-bind, Ends-weaken,
}
use goev.Prelude.Int.{ℤ, negsuc}
use goev.EvData.{is_pos}
use goev.Ring
use goev.Ring.{RingBuffer}
use goev.Ring.Bounds as Bounds
use goev.Ring.Bounds.{contents, length-contents}
use goev.Ring.Refine.{uncons, none_left, pop_front_refines}
use goev.BufPool.Alloc as Alloc
use goev.IoHandle.{AsyncWriteBuf, Env, Io, has_queued, is_closed, free_buf}
use goev.IoHandle.Pending.{ArePending, free_buf_lem}
use goev.IoHandle.Queue.{IsSound, IsQueue, buffers}
use goev.IoHandle.Flush.{taken_first}

module _ (env : Env) where
  drain_loop : ℕ → RingBuffer AsyncWriteBuf → Io → Run Io
  drain_loop zero q h = out_of_fuel
  drain_loop (suc f) q h = Ring.pop_front q >>= λ (item, q'). elim item [
    | none ↦ ok (record h { async_write_buf_q = some q' })
    | some b ↦ free_buf env b h >>= drain_loop f q'
  ]

  -- Destroy: the descriptor is closed, and the queued buffers are freed.
  unfoldable pub destroy : ℕ → Io → Run Io
  unfolding drain_loop
  destroy fuel h =
      let closed : Io = if is_pos h.fd then record h { fd = negsuc 0 } else h in
      let drained : Run Io = elim h.async_write_buf_q [
        | none ↦ ok closed
        | some q ↦ drain_loop fuel q closed
      ] in
      if has_queued h then drained else ok closed

-- Init: the descriptor and the three pointers, of which none is a field here.
unfoldable pub init : Io → Io
init h = record h { fd = negsuc 0 }

-- setFd
unfoldable pub set_fd : ℤ → Io → Io
set_fd fd h = record h { fd = fd }

abbrev holds : Option (RingBuffer AsyncWriteBuf) → Bool
holds o = elim o [ none ↦ false | some q ↦ not (q.len == 0) ]

-- What the loop of Destroy leaves: the queue is empty, and nothing else than it and the pools changed.
record Drained (h h' : Io) : Type 0 where
  queue : RingBuffer AsyncWriteBuf
  queued : h'.async_write_buf_q ≡ some queue
  empty : queue.len ≡ 0
  pools_valid : Alloc.IsValid h'.pools
  kept : h' ≡ record h { async_write_buf_q = h'.async_write_buf_q; pools = h'.pools }

module _ (env : Env) where
  drain_loop_lem :
      (f : ℕ) (q : RingBuffer AsyncWriteBuf) (h : Io)
      → Bounds.IsValid q
      → ArePending (contents q)
      → Alloc.IsValid h.pools
      → q.len < f
      → Ends (Drained h) (drain_loop env f q h)
  unfolding drain_loop
  drain_loop_lem zero q h v p w l = absurd (omega arith)
  drain_loop_lem (suc f) q h v p w l = Ends-bind (pop_front_refines q v) (next (drain_loop_lem f))
    where
      next :
          ((r : RingBuffer AsyncWriteBuf) (g : Io)
            → Bounds.IsValid r
            → ArePending (contents r)
            → Alloc.IsValid g.pools
            → r.len < f
            → Ends (Drained g) (drain_loop env f r g))
          → (t : Option AsyncWriteBuf × RingBuffer AsyncWriteBuf)
          → Bounds.IsValid t.1 × ((t.0, contents t.1) ≡ uncons (contents q)) × (t.1.size ≡ q.size)
          → Ends (Drained h) (elim t.0 [
            | none ↦ ok (record h { async_write_buf_q = some t.1 })
            | some b ↦ free_buf env b h >>= drain_loop env f t.1
          ])
      next ih (none, r) (u, e, z) = ends (record {
        queue = r;
        queued = refl;
        empty = omega (arith, length-contents r, none_left (contents q) (contents r) e);
        pools_valid = w;
        kept = refl;
      })
      next ih (some b, r) (u, e, z) =
          let first = taken_first env (contents q) (contents r) b e in
          let all : ArePending (b ∷ contents r) = subst ArePending first p in
          Ends-bind (free_buf_lem env b h w all.0.freeable) λ g (same, w').
            Ends-weaken
              (ih r g u all.1 w'
                (omega (arith, ap length first, length-contents q, length-contents r)))
              λ h' d. record {
                queue = d.queue;
                queued = d.queued;
                empty = d.empty;
                pools_valid = d.pools_valid;
                kept =
                    d.kept
                    ∙ ap
                        (λ (u : Io). record u {
                          async_write_buf_q = h'.async_write_buf_q;
                          pools = h'.pools;
                        })
                        same;
              }

  -- What Destroy leaves of a handle: it is closed, nothing is queued, and the flag, the count of the
  -- waiting bytes and the wishes are those of before.
  abbrev pub IsDestroyed : Io → Io → Type 0
  IsDestroyed h h' =
      (is_closed h' ≡ true)
      × (has_queued h' ≡ false)
      × Alloc.IsValid h'.pools
      × (h'.async_write_waiting ≡ h.async_write_waiting)
      × (h'.async_write_buf_size ≡ h.async_write_buf_size)
      × (h'.poll_calls ≡ h.poll_calls)

  -- With the descriptor closed, in `c`.
  drained_lem :
      (fuel : ℕ) (o : Option (RingBuffer AsyncWriteBuf)) (h c : Io)
      → h.async_write_buf_q ≡ o
      → IsQueue o
      → Alloc.IsValid h.pools
      → c ≡ record h { fd = c.fd }
      → is_closed c ≡ true
      → length (buffers o) < fuel
      → Ends (IsDestroyed h) (
          if (elim o [ none ↦ false | some q ↦ not (q.len == 0) ])
          then (elim o [ none ↦ ok c | some q ↦ drain_loop env fuel q c ])
          else ok c)
  drained_lem fuel none h c e v w same gone l =
      let idle : has_queued c ≡ false = ap (λ u. has_queued u) same ∙ ap holds e in
      ends (
        gone,
        idle,
        subst Alloc.IsValid (sym (ap (λ u. u.pools) same)) w,
        ap (λ u. u.async_write_waiting) same,
        ap (λ u. u.async_write_buf_size) same,
        ap (λ u. u.poll_calls) same,
      )
  drained_lem fuel (some q) h c e v w same gone l =
      let pools : Alloc.IsValid c.pools = subst Alloc.IsValid (sym (ap (λ u. u.pools) same)) w in
      Ends-test (not (q.len == 0))
        (λ held.
          Ends-weaken (drain_loop_lem fuel q c v.0 v.1 pools (omega (arith, length-contents q, l)))
            λ h' d.
              let idle : not (d.queue.len == 0) ≡ false = ground (arith, d.empty) in
              (
                ap (λ u. is_closed u) d.kept ∙ gone,
                ap holds d.queued ∙ idle,
                d.pools_valid,
                ap (λ u. u.async_write_waiting) d.kept ∙ ap (λ u. u.async_write_waiting) same,
                ap (λ u. u.async_write_buf_size) d.kept ∙ ap (λ u. u.async_write_buf_size) same,
                ap (λ u. u.poll_calls) d.kept ∙ ap (λ u. u.poll_calls) same,
              ))
        (λ idle. ends (
          gone,
          ap (λ u. has_queued u) same ∙ ap holds e ∙ idle,
          pools,
          ap (λ u. u.async_write_waiting) same,
          ap (λ u. u.async_write_buf_size) same,
          ap (λ u. u.poll_calls) same,
        ))

  -- Destroy of a handle in a sound state returns, where the fuel is more than there are buffers; then
  -- the descriptor is closed, every queued buffer has been freed, and the pools are valid. It touches
  -- neither the flag nor the count of the waiting bytes nor the wishes for EvOut.
  pub destroy_lem :
      (fuel : ℕ) (h : Io)
      → IsSound h
      → length (buffers h.async_write_buf_q) < fuel
      → Ends (IsDestroyed h) (destroy env fuel h)
  unfolding destroy
  destroy_lem fuel h v l = closing (is_pos h.fd) refl
    where
      closing :
          (b : Bool)
          → is_pos h.fd ≡ b
          → Ends (IsDestroyed h) (
              let c : Io = if b then record h { fd = negsuc 0 } else h in
              if has_queued h
              then (elim h.async_write_buf_q [ none ↦ ok c | some q ↦ drain_loop env fuel q c ])
              else ok c)
      closing true e =
          drained_lem fuel h.async_write_buf_q h (record h { fd = negsuc 0 }) refl v.queue
            v.pools_valid refl refl l
      closing false e =
          drained_lem fuel h.async_write_buf_q h h refl v.queue v.pools_valid refl (ap not e) l

  -- Init and setFd of a handle that is closed while buffers wait leave the flag of the old connection:
  -- for the new descriptor nothing waits, and yet the flag says that EvOut is asked for.
  pub init-destroy :
      (fuel : ℕ) (h : Io) (fd : ℤ)
      → IsSound h
      → has_queued h ≡ true
      → length (buffers h.async_write_buf_q) < fuel
      → Ends
          (λ h'. (has_queued h' ≡ false) × (h'.async_write_waiting ≡ true) × (h'.fd ≡ fd))
          (destroy env fuel h >>= λ h'. ok (set_fd fd (init h')))
  unfolding init set_fd
  init-destroy fuel h fd v held l =
      Ends-bind (destroy_lem fuel h v l) λ h' d. ends (d.1, d.3 ∙ v.asked ∙ held, refl)

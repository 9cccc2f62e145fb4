-- ===== src/IoHandle/Send.antt =====
-- Write and asyncOrderedWrite: what the kernel does not take waits in the queue, in order.
use goev.Prelude.{
  ℕ, suc, ◌+◌, ◌-◌, ◌≤◌, ◌<◌, ◌≡◌, ◌≢◌, ◌==◌, ltb, refl, sym, ap, ap₂, ◌∙◌, arith, Bool, true,
  false, List, [], ◌∷◌, ◌++◌, append_assoc, append-nil, length, take, Option, ok, ◌>>=◌,
  if◌then◌else◌, Ends, ends, Ends-test, Ends-tail,
}
use goev.BufPool.Alloc as Alloc
use goev.IoHandle.{
  PollCall, append_out, AsyncWriteBuf, Env, Io, WriteResult, WriteError, wrote, interrupted, failed,
  part, is_closed, has_queued, push_buf, free_buf, sys_write, want_out, async_ordered_write,
}
use goev.IoHandle.Pending.{IsPending, advanced, part-advanced, part_all, length-part, free_buf_then}
use goev.IoHandle.Queue.{IsQueue, IsSound, waiting, none_waits, push_buf_then}

-- The calls on the poller where the flag goes from one value to the other: EvOut is added once.
abbrev pub asking : Bool → Bool → List PollCall
asking false true = append_out ∷ []
asking _ _ = []

asking_same : (b : Bool) → asking b b ≡ []
asking_same true = refl
asking_same false = refl

-- No call is made where the flag stays.
still_asked : (b : Bool) (cs : List PollCall) → cs ≡ cs ++ asking b b
still_asked b cs = sym (append-nil cs) ∙ ap (λ xs. cs ++ xs) (sym (asking_same b))

-- What an accepted write leaves: the new bytes behind those sent and waiting, in a sound state. The poller was
-- asked for EvOut if buffers wait now and none did before.
pub record Accepted (bytes : List ℕ) (h h' : Io) : Type 0 where
  pub sound : IsSound h'
  pub stream : h'.sent ++ waiting h' ≡ (h.sent ++ waiting h) ++ bytes
  pub same_fd : h'.fd ≡ h.fd
  pub asks : h'.poll_calls ≡ h.poll_calls ++ asking h.async_write_waiting h'.async_write_waiting

-- The stream of a handle that had nothing to wait: `t` was sent, and `d` waits now.
joined :
    (s w t d : List ℕ) {u sent all : List ℕ}
    → w ≡ []
    → sent ≡ s ++ t
    → u ≡ w ++ d
    → t ++ d ≡ all
    → sent ++ u ≡ (s ++ w) ++ all
joined s w t d {u} {sent} {all} idle e f g =
    ap₂ ◌++◌ e (f ∙ ap (λ xs. xs ++ d) idle)
    ∙ append_assoc s t d
    ∙ ap (λ xs. s ++ xs) g
    ∙ ap (λ xs. xs ++ all) (sym (append-nil s) ∙ ap (λ xs. s ++ xs) (sym idle))

-- The state after one write that the kernel answered so.
abbrev answered : List ℕ → WriteResult → Io → Io
answered bytes r h = record h {
  calls = suc h.calls;
  sent = elim r [ wrote n ↦ h.sent ++ take n bytes | interrupted ↦ h.sent | failed ↦ h.sent ];
}

module _ (env : Env) where
  -- Within `fuel` answers, from the call number `c` on, one is not EINTR.
  abbrev pub Answers : ℕ → ℕ → List ℕ → Type 0
  Answers fuel c bytes = (k : ℕ) × (k < fuel) × (env.writer.answer (c + k) bytes ≢ interrupted)

  -- What the loop of Write leaves.
  record Looped (bytes : List ℕ) (h : Io) (r : ℕ × Option WriteError × Io) : Type 0 where
    within : r.0 ≤ length bytes
    sent : r.2.sent ≡ h.sent ++ take r.0 bytes
    kept : r.2 ≡ record h { calls = r.2.calls; sent = r.2.sent }

  -- What is queued last: the poller is asked for EvOut.
  want_out-Accepted :
      (bytes : List ℕ) (h h' : Io)
      → IsQueue h'.async_write_buf_q
      → Alloc.IsValid h'.pools
      → h'.sent ++ waiting h' ≡ (h.sent ++ waiting h) ++ bytes
      → h'.fd ≡ h.fd
      → has_queued h' ≡ true
      → h'.async_write_waiting ≡ h.async_write_waiting
      → h'.poll_calls ≡ h.poll_calls
      → Accepted bytes h (want_out env h')
  unfolding want_out
  want_out-Accepted bytes h h' q p s f up flag calls =
      either h'.async_write_waiting
        (λ asked. record {
          sound = record { queue = q; pools_valid = p; asked = asked ∙ sym up };
          stream = s;
          same_fd = f;
          asks =
              calls
              ∙ still_asked h.async_write_waiting h.poll_calls
              ∙ ap (λ b. h.poll_calls ++ asking h.async_write_waiting b) (sym flag);
        })
        (λ idle. record {
          sound = record { queue = q; pools_valid = p; asked = sym up };
          stream = s;
          same_fd = f;
          asks =
              ap (λ xs. xs ++ (append_out ∷ [])) calls
              ∙ ap (λ b. h.poll_calls ++ asking b true) (sym idle ∙ flag);
        })
    where
      either :
          {x y : Io} (b : Bool)
          → (b ≡ true → Accepted bytes h x)
          → (b ≡ false → Accepted bytes h y)
          → Accepted bytes h (if b then x else y)
      either true p q = p refl
      either false p q = q refl

  -- What is left of a buffer after `xs` of it were sent is queued.
  queue_rest :
      (b b' : AsyncWriteBuf) (xs sent : List ℕ) (c size : ℕ) (h : Io)
      → IsSound h
      → has_queued h ≡ false
      → IsPending b'
      → sent ≡ h.sent ++ xs
      → xs ++ part b' ≡ part b
      → Ends (Accepted (part b) h) (
          push_buf env 4 b' (record h { calls = c; sent = sent; async_write_buf_size = size })
          >>= λ g. ok (want_out env g))
  queue_rest b b' xs sent c size h v idle pb e f =
      push_buf_then env _ 4 b' (record h { calls = c; sent = sent; async_write_buf_size = size })
        (omega arith) v.queue pb
        λ q vq up g. ends (
          want_out-Accepted (part b) h _ vq v.pools_valid
            (joined h.sent (waiting h) xs (part b') (none_waits h.async_write_buf_q idle) e g f)
            refl up refl refl)

  -- What follows the answer to the write of asyncOrderedWrite.
  ordered_step :
      (b : AsyncWriteBuf) (h : Io) (size : ℕ) (r : WriteResult)
      → ((n : ℕ) → r ≡ wrote n → n ≤ length (part b))
      → IsSound h
      → has_queued h ≡ false
      → IsPending b
      → Ends (Accepted (part b) h) (
          let h' : Io = record (answered (part b) r h) { async_write_buf_size = size } in
          let queue =
            λ (b' : AsyncWriteBuf) (g : Io). push_buf env 4 b' g >>= λ g'. ok (want_out env g') in
          elim r [
            | wrote k ↦
                (let g : Io = record h' { async_write_buf_size = h'.async_write_buf_size - k } in
                  if ltb 0 k
                  then (if k == (b.len - b.writen)
                      then free_buf env b g
                      else queue (record b { writen = b.writen + k }) g)
                  else queue b h')
            | interrupted ↦ queue b h'
            | failed ↦ queue b h'
          ])
  ordered_step b h size (wrote k) within v idle pb =
      Ends-test (ltb 0 k)
        (λ some_sent.
          Ends-test (k == (b.len - b.writen))
            (λ all.
              let whole = part_all k b pb.filled (ground arith) in
              free_buf_then env b
                (record (answered (part b) (wrote k) h) { async_write_buf_size = size - k })
                v.pools_valid pb.freeable
                λ p w. record {
                  sound = record { queue = v.queue; pools_valid = w; asked = v.asked };
                  stream =
                      joined h.sent (waiting h) (part b) [] (none_waits h.async_write_buf_q idle)
                        (ap (λ xs. h.sent ++ xs) whole) (sym (append-nil (waiting h)))
                        (append-nil (part b));
                  same_fd = refl;
                  asks = still_asked h.async_write_waiting h.poll_calls;
                })
            (λ partly.
              queue_rest b (advanced k b) (take k (part b)) _ _ _ h v idle
                (record {
                  filled = pb.filled;
                  some_left = ground (arith, within k refl, length-part b pb.filled);
                  freeable = pb.freeable;
                })
                refl (part-advanced k b pb.filled)))
        (λ none_sent.
          let z : k ≡ 0 = ground arith in
          queue_rest b b (take k (part b)) _ _ _ h v idle pb refl
            (ap (λ j. take j (part b) ++ part b) z))
  ordered_step b h size interrupted within v idle pb =
      queue_rest b b [] _ _ _ h v idle pb (sym (append-nil h.sent)) refl
  ordered_step b h size failed within v idle pb =
      queue_rest b b [] _ _ _ h v idle pb (sym (append-nil h.sent)) refl

  -- asyncOrderedWrite of an open handle in a sound state, for a buffer with bytes left: the
  -- kernel gets it only where no buffers wait. What is left of it joins the stream behind those that wait,
  -- and the poller is asked for EvOut, once, if buffers wait now and none did before.
  pub async_ordered_write_lem :
      (b : AsyncWriteBuf) (h : Io)
      → is_closed h ≡ false
      → IsSound h
      → IsPending b
      → Ends (Accepted (part b) h) (async_ordered_write env b h)
  unfolding async_ordered_write sys_write
  async_ordered_write_lem b h open_fd v pb =
      Ends-test (is_closed h) (λ shut. absurd (ground arith))
        λ _.
          Ends-test (has_queued h)
            (λ held. Ends-tail _ (
              push_buf_then env _ 4 b
                (record h { async_write_buf_size = h.async_write_buf_size + b.len }) (omega arith)
                v.queue pb
                λ q vq up e. ends (record {
                  sound = record {
                    queue = vq;
                    pools_valid = v.pools_valid;
                    asked = v.asked ∙ held ∙ sym up;
                  };
                  stream =
                      ap (λ xs. h.sent ++ xs) e ∙ sym (append_assoc h.sent (waiting h) (part b));
                  same_fd = refl;
                  asks = still_asked h.async_write_waiting h.poll_calls;
                })))
            (λ idle.
              ordered_step b h (h.async_write_buf_size + b.len) (env.writer.answer h.calls (part b))
                (λ n e. env.writer.within h.calls n (part b) e) v idle pb)

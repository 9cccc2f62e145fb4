-- ===== src/IoHandle/Tests.antt =====
-- Runs of the queued writes.
use goev.Prelude.{
  ℕ, zero, suc, ◌+◌, ◌<◌, ◌≤◌, ◌≡◌, ltb, refl, inl, arith, true, false, none, some, ◌++◌, ◌==◌,
  Option, List, Run, ok, ◌>>=◌, [], ◌∷◌, length, if◌then◌else◌, Ends,
}
use goev.Prelude.Int.{pos}
use goev.BufPool
use goev.Ring
use goev.Ring.{RingBuffer}
use goev.Ring.Bounds as Bounds
use goev.Ring.Bounds.{contents}
use goev.BufPool.{make, init_pools}
use goev.BufPool.Tests.{last_in, init_pools-IsValid}
use goev.IoHandle.{
  AsyncWriteBuf, Env, Io, WriteResult, WriteError, PollCall, write, async_ordered_write,
  async_ordered_flush, remove_out, wrote, zero_buf, has_queued, free_buf,
}
use goev.IoHandle.Pending.{ArePending, unsent}
use goev.BufPool.Alloc as Alloc
use goev.IoHandle.Queue.{IsSound}
use goev.IoHandle.Send.{Accepted, async_ordered_write_lem}
use goev.IoHandle.Flush.{async_ordered_flush_lem}
use goev.IoHandle.Read
use goev.IoHandle.Read.{ReadAnswer, took, ReadResult, seen, read, read_lem}
use goev.IoHandle.Life.{destroy, init, set_fd, init-destroy}

-- A kernel that takes two bytes at most.
abbrev two_at_most : ℕ → List ℕ → WriteResult
two_at_most c bytes = wrote (if ltb 2 (length bytes) then 2 else length bytes)

two_at_most-within : (c n : ℕ) (bytes : List ℕ) → two_at_most c bytes ≡ wrote n → n ≤ length bytes
two_at_most-within c n bytes e = ground (arith, e)

abbrev env : Env
env = record {
  io_buff_use_pool = true;
  sync = last_in;
  writer = record { answer = two_at_most; within = two_at_most-within };
}

abbrev buf : ℕ → List ℕ → AsyncWriteBuf
buf n bytes = record { writen = 0; len = n; bytes = bytes; slice = make 128 }

abbrev queue : RingBuffer AsyncWriteBuf
queue = record {
  size = 2;
  head = 0;
  tail = 0;
  len = 2;
  zero_value = zero_buf;
  buffer = buf 2 (1 ∷ 2 ∷ []) ∷ buf 3 (3 ∷ 4 ∷ 5 ∷ []) ∷ [];
}

queue-IsValid : Bounds.IsValid queue
queue-IsValid = record { sized = refl; head_in = omega arith; tail_at = refl; len_in = omega arith }

queue-ArePending : ArePending (contents queue)
queue-ArePending = (
  record {
    filled = refl;
    some_left = omega arith;
    freeable = (omega arith, omega arith, inl (omega arith));
  },
  (
    record {
      filled = refl;
      some_left = omega arith;
      freeable = (omega arith, omega arith, inl (omega arith));
    },
    refl,
  ),
)

abbrev handle : Io
handle = record {
  fd = pos 5;
  async_write_waiting = true;
  async_write_buf_size = 5;
  async_write_buf_q = some queue;
  pools = init_pools;
  calls = 0;
  sent = [];
  poll_calls = [];
}

handle-IsSound : IsSound handle
handle-IsSound = record {
  queue = (queue-IsValid, queue-ArePending);
  pools_valid = init_pools-IsValid;
  asked = refl;
}

-- The handle before anything waits.
abbrev idle : Io
idle = record handle { async_write_waiting = false; async_write_buf_q = none }

idle-IsSound : IsSound idle
idle-IsSound = record { queue = refl; pools_valid = init_pools-IsValid; asked = refl }

async_ordered_write_lem_example :
    Ends (Accepted (9 ∷ 9 ∷ 9 ∷ []) idle) (async_ordered_write env (buf 3 (9 ∷ 9 ∷ 9 ∷ [])) idle)
async_ordered_write_lem_example =
    async_ordered_write_lem env (buf 3 (9 ∷ 9 ∷ 9 ∷ [])) idle refl idle-IsSound (record {
      filled = refl;
      some_left = omega arith;
      freeable = (omega arith, omega arith, inl (omega arith));
    })

async_ordered_flush_lem_example :
    Ends
      (λ h'.
        (q' : RingBuffer AsyncWriteBuf) × (h'.async_write_buf_q ≡ some q')
        × Bounds.IsValid q'
        × ArePending (contents q')
        × Alloc.IsValid h'.pools
        × (h'.sent ++ unsent (contents q') ≡ handle.sent ++ unsent (contents queue))
        × (h'.async_write_waiting ≡ (if q'.len == 0 then false else handle.async_write_waiting))
        × (h'.poll_calls
            ≡ (if q'.len == 0 then handle.poll_calls ++ (remove_out ∷ []) else handle.poll_calls))
        × (h'.fd ≡ handle.fd))
      (async_ordered_flush env handle)
async_ordered_flush_lem_example =
    async_ordered_flush_lem env queue handle refl refl queue-IsValid queue-ArePending
      init_pools-IsValid

init-destroy_example :
    Ends
      (λ h'. (has_queued h' ≡ false) × (h'.async_write_waiting ≡ true) × (h'.fd ≡ pos 9))
      (destroy env 3 handle >>= λ h'. ok (set_fd (pos 9) (init h')))
init-destroy_example = init-destroy env 3 handle (pos 9) handle-IsSound refl (omega arith)

-- Three bytes written to the handle in its next life, of which the kernel takes two: nobody asks for EvOut.
abbrev wishes : Run (ℕ × Option WriteError × Io) → List PollCall
wishes (ok (n, e, h)) = h.poll_calls
wishes _ = []

next_life_example :
    wishes (destroy env 3 handle >>= λ h. write env 1 (1 ∷ 2 ∷ 3 ∷ []) (set_fd (pos 9) (init h)))
    ≡ []
unfolding destroy write init set_fd Ring.pop_front free_buf BufPool.bfree BufPool.free init_pools
    BufPool.bmalloc BufPool.alloc Ring.push_back
next_life_example = refl

-- Two interruptions, and two bytes.
abbrev answers : ℕ → ReadAnswer
answers zero = Read.interrupted
answers (suc zero) = Read.interrupted
answers (suc (suc k)) = took (7 ∷ 8 ∷ [])

answers_early : (i : ℕ) → i < 2 → answers (0 + i) ≡ Read.interrupted
answers_early zero low = refl
answers_early (suc zero) low = refl
answers_early (suc (suc k)) low = absurd (omega arith)

read_lem_example :
    Ends {A = ReadResult × List ℕ}
      (λ (r, buff'). (r ≡ seen (took (7 ∷ 8 ∷ []))) × (length buff' ≡ 3))
      (read answers 3 0 (0 ∷ 0 ∷ 0 ∷ []))
read_lem_example =
    read_lem answers (took (7 ∷ 8 ∷ [])) 2 3 0 (0 ∷ 0 ∷ 0 ∷ []) (omega arith) answers_early refl
      refl (omega arith)

-- ===== src/IoHandle.antt =====
-- io_handle.go and io_handle_async.go: a handler's own writes, and the queue of what was not sent.
-- `syscall.Write` is the kernel's: its answer to the calls, in order, is a parameter. Counts stay far
-- below 2 ^ 63. `asyncWriteBufSize` is a natural number: each write takes off it bytes that were added before.
pub mod Pending
pub mod Queue
pub mod Send
pub mod Life
pub mod Read
pub mod Flush
mod Tests
use goev.Prelude.{
  ℕ, zero, suc, ◌+◌, ◌-◌, ◌≤◌, ◌≡◌, Bool, true, false, not, Option, none, some, List, [], ◌∷◌, ◌++◌,
  ltb, ◌==◌, if◌then◌else◌, length, take, drop, Run, ok, panic, out_of_fuel, ◌>>=◌,
}
use goev.Prelude.Int.{ℤ, pos, negsuc}
use goev.EvData.{is_pos}
use goev.Ring
use goev.Ring.{RingBuffer}
use goev.BufPool.{Slice, SyncPool, Pools, make, bmalloc, bfree}

-- asyncWriteBuf: its bytes, and the slice that holds them.
pub record AsyncWriteBuf : Type 0 where
  pub writen : ℕ
  pub len : ℕ
  pub bytes : List ℕ
  pub slice : Slice

abbrev pub zero_buf : AsyncWriteBuf
zero_buf = record { writen = 0; len = 0; bytes = []; slice = make 0 }

-- The calls of `h.ep` for EvOut.
pub data PollCall : Type 0 where
  append_out remove_out : PollCall

-- What `syscall.Write` answers: a count, or -1 with EINTR or another error.
pub data WriteResult : Type 0 where
  wrote : ℕ → WriteResult
  interrupted : WriteResult
  failed : WriteResult

-- The answer to the call number `n` for the given bytes: at most as many bytes as were given.
pub record Writer : Type 0 where
  pub answer : ℕ → List ℕ → WriteResult
  pub within : (c n : ℕ) (bytes : List ℕ) → answer c bytes ≡ wrote n → n ≤ length bytes

pub data WriteError : Type 0 where
  ebadf write_failed : WriteError

-- The fields of IOHandle that the writes use, and the world: the buffer pools, the writes made so far,
-- the bytes that the kernel took, and the calls of the poller.
pub record Io : Type 0 where
  pub fd : ℤ
  pub async_write_waiting : Bool
  pub async_write_buf_size : ℕ
  pub async_write_buf_q : Option (RingBuffer AsyncWriteBuf)
  pub pools : Pools
  pub calls : ℕ
  pub sent : List ℕ
  pub poll_calls : List PollCall

-- `fd < 1`
abbrev pub is_closed : Io → Bool
is_closed h = not (is_pos h.fd)

-- `h.asyncWriteBufQ != nil && !h.asyncWriteBufQ.IsEmpty()`
abbrev pub has_queued : Io → Bool
has_queued h = elim h.async_write_buf_q [ none ↦ false | some rb ↦ not (rb.len == 0) ]

-- `abf.buf[abf.writen:abf.len]`
abbrev pub part : AsyncWriteBuf → List ℕ
part b = take (b.len - b.writen) (drop b.writen b.bytes)

-- `ioBuffUsePool`, and the choices of the pools and of the kernel.
pub record Env : Type 0 where
  pub io_buff_use_pool : Bool
  pub sync : SyncPool
  pub writer : Writer

module _ (env : Env) where
  pub io_alloc_buff : ℕ → Pools → Run (Slice × Pools)
  io_alloc_buff s p = if env.io_buff_use_pool then bmalloc env.sync s p else ok (make s, p)

  pub io_free_buff : Slice → Pools → Run Pools
  io_free_buff bf p = if env.io_buff_use_pool then bfree bf p else ok p

  -- `abf := ioAllocBuff(len(bytes)); n := copy(abf, bytes)`
  pub copy_buf : List ℕ → Io → Run (AsyncWriteBuf × Io)
  unfolding io_alloc_buff
  copy_buf bytes h = do
    (bf, p) ← io_alloc_buff (length bytes) h.pools
    ok (
      record { writen = 0; len = length bytes; bytes = bytes; slice = bf },
      record h { pools = p },
    )

  pub free_buf : AsyncWriteBuf → Io → Run Io
  unfolding io_free_buff
  free_buf b h = io_free_buff b.slice h.pools >>= λ p. ok (record h { pools = p })

  -- One `syscall.Write`.
  pub sys_write : List ℕ → Io → WriteResult × Io
  sys_write bytes h =
      let r = env.writer.answer h.calls bytes in
      (
        r,
        record h {
          calls = suc h.calls;
          sent = elim r [
            | wrote n ↦ h.sent ++ take n bytes
            | interrupted ↦ h.sent
            | failed ↦ h.sent
          ];
        },
      )

  -- The loop of `Write`: again after EINTR. A failure counts as no byte.
  write_loop : ℕ → List ℕ → Io → Run (ℕ × Option WriteError × Io)
  write_loop zero bytes h = out_of_fuel
  write_loop (suc f) bytes h =
      let (r, h') = sys_write bytes h in
      let again = write_loop f bytes h' in
      elim r [
        | wrote n ↦ ok (n, none, h')
        | interrupted ↦ again
        | failed ↦ ok (0, some write_failed, h')
      ]

  -- `h.asyncWriteBufQ.PushBack(b)`, on a new queue of the given size if there is none.
  pub push_buf : ℕ → AsyncWriteBuf → Io → Run Io
  push_buf init_cap b h =
      let rb : RingBuffer AsyncWriteBuf = elim h.async_write_buf_q [
        | none ↦ Ring.new zero_buf init_cap
        | some q ↦ q
      ] in
      Ring.push_back rb b >>= λ q. ok (record h { async_write_buf_q = some q })

  -- The wish for EvOut, once.
  pub want_out : Io → Io
  want_out h =
      if h.async_write_waiting
      then h
      else record h { async_write_waiting = true; poll_calls = h.poll_calls ++ (append_out ∷ []) }

  -- Write: the count, the error, and the handle; with fuel for the loop.
  unfoldable pub write : ℕ → List ℕ → Io → Run (ℕ × Option WriteError × Io)
  unfolding copy_buf push_buf write_loop want_out sys_write
  write fuel bf h =
      let behind : Run (ℕ × Option WriteError × Io) = do
        (b, h1) ← copy_buf bf h
        h2 ← push_buf 2 b h1
        ok (
          length bf,
          none,
          record h2 { async_write_buf_size = h2.async_write_buf_size + length bf },
        )
      in let direct : Run (ℕ × Option WriteError × Io) = do
        (n, err, h1) ← write_loop fuel bf h
        let keep : Run (ℕ × Option WriteError × Io) = do
          (b, h2) ← copy_buf (drop n bf) h1
          h3 ← push_buf 2 b h2
          ok (
            length bf,
            err,
            want_out (record h3 { async_write_buf_size = h3.async_write_buf_size + b.len }),
          )
        if ltb n (length bf) then keep else ok (n, err, h1)
        in if is_closed h then ok (0, some ebadf, h) else if has_queued h then behind else direct

  -- What AsyncOrderedFlush does with the first buffer, which it took out of the queue `q`, after the
  -- write: it goes on, or puts the buffer back and stops.
  pub after_write :
      WriteResult → AsyncWriteBuf → RingBuffer AsyncWriteBuf → (Io → Run Io) → Io → Run Io
  unfolding free_buf
  after_write r b q go_on h =
      let back : AsyncWriteBuf → Io → Run Io =
        λ b' h'. Ring.push_front q b' >>= λ q'. ok (record h' { async_write_buf_q = some q' }) in
      elim r [
        | wrote k ↦
            (let h' : Io = record h { async_write_buf_size = h.async_write_buf_size - k } in
              let whole = free_buf b h' >>= go_on in
              let rest = back (record b { writen = b.writen + k }) h' in
              if ltb 0 k then (if k == (b.len - b.writen) then whole else rest) else back b h)
        | interrupted ↦ back b h
        | failed ↦ back b h
      ]

  -- The loop of AsyncOrderedFlush, with the rounds that are left.
  pub flush_loop : ℕ → RingBuffer AsyncWriteBuf → Io → Run Io
  flush_loop zero q h = ok (record h { async_write_buf_q = some q })
  flush_loop (suc n) q h = Ring.pop_front q >>= λ (item, q'). elim item [
    | none ↦ ok (record h { async_write_buf_q = some q' })
    | some b ↦ (let (r, h') = sys_write (part b) h in after_write r b q' (flush_loop n q') h')
  ]

  -- AsyncOrderedFlush. A nil queue is a panic.
  unfoldable pub async_ordered_flush : Io → Run Io
  unfolding flush_loop sys_write
  async_ordered_flush h =
      let flushed : Run Io = elim h.async_write_buf_q [
        | none ↦ panic
        | some q ↦ flush_loop q.len q h >>= λ h'. ok (
            if has_queued h' then h' else record h' {
              async_write_waiting = false;
              poll_calls = h'.poll_calls ++ (remove_out ∷ []);
            })
      ] in
      if is_closed h then ok h else flushed

  -- AsyncWrite up to `h.ep.push`: the buffer to be pushed, or none if the handle is closed. `eh_fd` is
  -- `eh.Fd()`.
  unfoldable pub async_write : ℤ → List ℕ → Io → Run (Option AsyncWriteBuf × Io)
  unfolding copy_buf
  async_write eh_fd buf h =
      let pushed : Run (Option AsyncWriteBuf × Io) =
        copy_buf buf h >>= λ (b, h'). ok (some b, h') in
      if is_closed h then ok (none, h) else if same_fd h.fd eh_fd then pushed else panic
    where
      same_fd : ℤ → ℤ → Bool
      same_fd (pos a) (pos b) = a == b
      same_fd (negsuc a) (negsuc b) = a == b
      same_fd _ _ = false

  unfoldable pub async_ordered_write : AsyncWriteBuf → Io → Run Io
  unfolding free_buf push_buf want_out sys_write
  async_ordered_write b h =
      let counted : Io = record h { async_write_buf_size = h.async_write_buf_size + b.len } in
      let (r, h1) = sys_write (part b) counted in
      let queue = λ (b' : AsyncWriteBuf) (h' : Io). push_buf 4 b' h' >>= λ h''. ok (want_out h'') in
      let direct : Run Io = elim r [
        | wrote k ↦
            (let h2 : Io = record h1 { async_write_buf_size = h1.async_write_buf_size - k } in
              if ltb 0 k
              then (if k == (b.len - b.writen)
                  then free_buf b h2
                  else queue (record b { writen = b.writen + k }) h2)
              else queue b h1)
        | interrupted ↦ queue b h1
        | failed ↦ queue b h1
      ] in
      if is_closed h then free_buf b h else if has_queued h then push_buf 4 b counted else direct

  unfoldable pub async_wait_write_q_len : Io → ℕ
  async_wait_write_q_len h = elim h.async_write_buf_q [ none ↦ 0 | some q ↦ q.len ]

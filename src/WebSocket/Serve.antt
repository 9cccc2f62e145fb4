-- ===== src/WebSocket/Serve.antt =====
-- The connection of example/websocket.go: the frames written, and onFrame.
use goev.Prelude.{
  ℕ, zero, suc, ◌+◌, ◌-◌, ◌/◌, ◌%◌, ◌^◌, Bool, true, false, List, [], ◌∷◌, ◌++◌, ltb, leb, ◌==◌,
  if◌then◌else◌, length, drop, Run, ok, panic, out_of_fuel, slice, ◌>>=◌, Option, none, some,
}
use goev.WebSocket.{
  WsFrame, Conn, refused, partial, parsed, parse_frame_header, mask_bytes, is_control_frame,
  is_message_frame, max_control_frame_payload_size, max_frame_payload_size, frame_continue,
  frame_text, frame_close, frame_ping, frame_pong,
}

-- `c.Write(buf)`
abbrev pub written : List ℕ → Conn → Conn
written frame c = record c { sent = c.sent ++ (frame ∷ []) }

unfoldable pub write_control_frame : ℕ → List ℕ → Conn → Conn
write_control_frame opcode payload c =
    if c.closed
    then c
    else if ltb max_control_frame_payload_size (length payload)
    then c
    else written ((opcode + 128) ∷ length payload ∷ payload) c

-- The bytes of a number, from the high end.
abbrev pub put_big_endian : ℕ → ℕ → List ℕ
put_big_endian zero v = []
put_big_endian (suc n) v = (v / 256 ^ n) % 256 ∷ put_big_endian n v

-- The size of WriteBuff, the write buffer of the pollers, which `main` sets.
abbrev pub write_buff_size : ℕ
write_buff_size = max_frame_payload_size + 32

-- writeMessageFrame, whose `flate` is false at its one call: a frame that is larger than WriteBuff is a panic
unfoldable pub write_message_frame : ℕ → List ℕ → Bool → Conn → Run Conn
write_message_frame opcode data' fin c =
    let payload_len = length data' in
    let b0 = if fin then opcode + 128 else opcode in
    let size =
      if leb 65535 payload_len
      then 127 ∷ put_big_endian 8 payload_len
      else if ltb 125 payload_len
      then 126 ∷ put_big_endian 2 payload_len
      else payload_len ∷ [] in
    let frame = b0 ∷ size ++ data' in
    if c.closed
    then ok c
    else if ltb max_frame_payload_size payload_len
    then ok c
    else if ltb write_buff_size (length frame)
    then panic
    else ok (written frame c)

abbrev pub on_message : ℕ → List ℕ → Conn → Run Conn
on_message opcode data' c = write_message_frame opcode data' true c

abbrev pub on_ping : List ℕ → Conn → Conn
on_ping data' c = write_control_frame frame_pong data' c

-- OnCloseFrame: 1000 is CloseNormalClosure.
abbrev pub on_close_frame : Conn → Conn
on_close_frame c =
    if c.closed
    then c
    else record (write_control_frame frame_close (put_big_endian 2 1000) c) { closed = true }

-- What follows a complete frame: the return of onFrame, or its next round.
pub data Next : Type 0 where
  stop : Bool → Conn → Next
  go_on : Conn → Next

unfoldable pub control : ℕ → List ℕ → Conn → Next
control opcode payload c =
    if opcode == frame_ping
    then go_on (on_ping payload c)
    else if opcode == frame_pong
    then go_on c
    else if opcode == frame_close
    then stop true (on_close_frame c)
    else go_on c

unfoldable pub message : ℕ → List ℕ → Conn → Run Next
message opcode payload c =
    let ended = record c { continue_buf = []; start = false } in
    let whole : Run Next =
      on_message frame_text (c.continue_buf ++ payload) ended >>= λ c'. ok (go_on c') in
    let single : Run Next = on_message opcode payload c >>= λ c'. ok (go_on c') in
    if opcode == frame_continue
    then (if c.start then whole else ok (stop false c))
    else if is_message_frame opcode
    then single
    else ok (go_on c)

unfoldable pub fragment : ℕ → List ℕ → Conn → Next
fragment opcode payload c =
    if opcode == frame_continue
    then (if c.start
        then go_on (record c { continue_buf = c.continue_buf ++ payload })
        else stop false c)
    else go_on (record c { start = true; continue_buf = payload })

-- The rest of the round of onFrame, with a complete frame.
unfoldable pub complete : WsFrame → List ℕ → Conn → Run Next
complete wsf payload_buf c =
    let payload =
      if ltb 0 (length payload_buf) then mask_bytes payload_buf wsf.mask_key else payload_buf in
    if wsf.isfin
    then (if is_control_frame wsf.opcode
        then ok (control wsf.opcode payload c)
        else message wsf.opcode payload c)
    else ok (fragment wsf.opcode payload_buf c)

-- The payload of a frame, or none where it is not whole yet.
unfoldable pub payload_of : WsFrame → List ℕ → Run (Option (List ℕ))
payload_of wsf buf =
    let whole : Run (Option (List ℕ)) =
      slice buf wsf.hlen (wsf.hlen + wsf.payload) >>= λ p. ok (some p) in
    if ltb 0 wsf.payload
    then (if ltb (length buf - wsf.hlen) wsf.payload then ok none else whole)
    else ok (some [])

-- The loop of onFrame over the rest of the buffer.
unfoldable pub frame_loop : ℕ → List ℕ → Conn → Run (Bool × Conn)
frame_loop fuel [] c = ok (true, c)
frame_loop zero (b ∷ bs) c = out_of_fuel
frame_loop (suc f) (b ∷ bs) c =
    let buf = b ∷ bs in
    let kept : Run (Bool × Conn) = ok (true, record c { partial_buf = c.partial_buf ++ buf }) in
    parse_frame_header c.compress_enabled buf >>= λ h. elim h [
      | refused ↦ ok (false, c)
      | partial ↦ kept
      | parsed wsf ↦
          (payload_of wsf buf >>= λ o. elim o [
            | none ↦ kept
            | some payload_buf ↦
                (complete wsf payload_buf c >>= λ next. elim next [
                  | stop alive c' ↦ ok (alive, c')
                  | go_on c' ↦ frame_loop f (drop (wsf.hlen + wsf.payload) buf) c'
                ])
          ])
    ]

unfoldable pub on_frame : ℕ → List ℕ → Conn → Run (Bool × Conn)
unfolding frame_loop
on_frame fuel buf c =
    if ltb 0 (length c.partial_buf)
    then frame_loop fuel (c.partial_buf ++ buf) (record c { partial_buf = [] })
    else frame_loop fuel buf c

-- ===== src/WebSocket/Frame.antt =====
-- onFrame returns, and keeps at most one frame that is not complete.
use goev.Prelude.{ℕ, zero, ◌+◌, ◌-◌, ◌<◌, ◌≡◌, Bool, List, length, Option, none, some}
use goev.WebSocket.{WsFrame, Conn, max_frame_payload_size}
use goev.WebSocket.Serve.{Next, stop, go_on}

abbrev conn_of : Next → Conn
conn_of (stop alive c) = c
conn_of (go_on c) = c

-- The end of a round leaves what was kept of a frame.
record KeepsPartial (c : Conn) (n : Next) : Type 0 where
  same : (conn_of n).partial_buf ≡ c.partial_buf

-- A payload that is not whole yet is longer than what there is.
abbrev MayWait : WsFrame → ℕ → Option (List ℕ) → Type 0
MayWait wsf n none = n - wsf.hlen < wsf.payload
MayWait wsf n (some p) = zero ≡ zero

-- The most that is kept of a frame: one byte less than a header and a payload may have.
abbrev pub kept_at_most : ℕ
kept_at_most = 14 + max_frame_payload_size

abbrev pub KeepsLittle : Bool × Conn → Type 0
KeepsLittle (alive, c) = length c.partial_buf < kept_at_most

-- ===== src/WebSocket.antt =====
-- example/websocket.go: the frames of the WebSocket protocol at the server's side, after the upgrade.
-- Bytes are numbers below 256, and what is left of a buffer is a list. A uint64 is given by its eight bytes
-- from the low end, on which `^` acts byte by byte. `sent` has the arguments of the calls of Write.
-- A slice of a buffer that goes beyond its bytes is a panic.
pub mod Mask
pub mod Serve
pub mod Upgrade
pub mod Handshake
pub mod Bounds
pub mod Frame
mod Tests
use goev.Prelude.{
  ℕ, zero, suc, ◌+◌, ◌-◌, ◌*◌, ◌/◌, ◌%◌, ◌^◌, Bool, true, false, not, ◌&&◌, ◌||◌, List, [], ◌∷◌,
  ◌++◌, ltb, leb, ◌==◌, if◌then◌else◌, length, take, drop, get_or, Run, ok, slice, ◌>>=◌,
}
use Prim.Native.Nat.{bit_xor}

abbrev pub frame_continue : ℕ
frame_continue = 0

abbrev pub frame_text : ℕ
frame_text = 1

abbrev pub frame_binary : ℕ
frame_binary = 2

abbrev pub frame_close : ℕ
frame_close = 8

abbrev pub frame_ping : ℕ
frame_ping = 9

abbrev pub frame_pong : ℕ
frame_pong = 10

abbrev pub max_frame_payload_size : ℕ
max_frame_payload_size = 4 * 1024 * 1024

abbrev pub max_control_frame_payload_size : ℕ
max_control_frame_payload_size = 125

-- wsFrame: the fields that are read.
pub record WsFrame : Type 0 where
  pub isfin : Bool
  pub hlen : ℕ
  pub opcode : ℕ
  pub payload : ℕ
  pub mask_key : List ℕ

-- Conn, with the fields of `continueWsFrame` that are read, and the writes so far.
pub record Conn : Type 0 where
  pub compress_enabled : Bool
  pub closed : Bool
  pub partial_buf : List ℕ
  pub start : Bool
  pub continue_buf : List ℕ
  pub sent : List (List ℕ)

abbrev pub is_control_frame : ℕ → Bool
is_control_frame t = (t == frame_close) || (t == frame_ping) || (t == frame_pong)

abbrev pub is_message_frame : ℕ → Bool
is_message_frame t = (t == frame_binary) || (t == frame_text) || (t == frame_continue)

-- `v ^ key64` of as many bytes as both have
abbrev pub xor_bytes : List ℕ → List ℕ → List ℕ
xor_bytes (b ∷ bs) (k ∷ ks) = bit_xor b k ∷ xor_bytes bs ks
xor_bytes _ _ = []

-- The last loop of maskBytes, from the index `i`.
abbrev pub mask_from : List ℕ → ℕ → List ℕ → List ℕ
mask_from key i [] = []
mask_from key i (b ∷ bs) = bit_xor b (get_or key (i % 4) 0) ∷ mask_from key (suc i) bs

-- `n` words of eight bytes, masked one after the other
unfoldable pub mask_words : List ℕ → ℕ → List ℕ → List ℕ
mask_words key64 zero b = []
mask_words key64 (suc n) b = xor_bytes (take 8 b) key64 ++ mask_words key64 n (drop 8 b)

-- The loop over eight words at a time, and the one over words.
unfoldable pub mask_blocks : List ℕ → ℕ → List ℕ → List ℕ
unfolding mask_words
mask_blocks key64 zero b = []
mask_blocks key64 (suc n) b = mask_words key64 8 (take 64 b) ++ mask_blocks key64 n (drop 64 b)

-- maskBytes, with a key of four bytes
unfoldable pub mask_bytes : List ℕ → List ℕ → List ℕ
unfolding mask_blocks
mask_bytes b key =
    let key64 = key ++ key in
    let blocks = length b / 64 in
    let b' = drop (64 * blocks) b in
    let words = length b' / 8 in
    mask_blocks key64 blocks b
    ++ (mask_words key64 words b' ++ mask_from key 0 (drop (8 * words) b'))

-- binary.BigEndian.Uint16 and Uint64
abbrev pub big_endian : ℕ → List ℕ → ℕ
big_endian acc [] = acc
big_endian acc (b ∷ bs) = big_endian (acc * 256 + b) bs

-- What parseFrameHeader returns: an error, a frame whose `hlen` is 0, or a frame.
pub data Header : Type 0 where
  refused partial : Header
  parsed : WsFrame → Header

-- The part of parseFrameHeader that follows the length of the payload. An int64 from 2 ^ 63 on is negative.
unfoldable pub sized : List ℕ → Bool → ℕ → ℕ → ℕ → Run Header
unfolding slice
sized buf isfin opcode payload buf_offset =
    let whole : Run Header = slice buf buf_offset (buf_offset + 4) >>= λ key. ok (
      parsed (record {
        isfin = isfin;
        hlen = buf_offset + 4;
        opcode = opcode;
        payload = payload;
        mask_key = key;
      })) in
    if leb (2 ^ 63) payload
    then ok refused
    else if ltb max_frame_payload_size payload
    then ok refused
    else if is_control_frame opcode && ltb max_control_frame_payload_size payload
    then ok refused
    else if ltb (length buf) (buf_offset + 4)
    then ok partial
    else whole

-- A length in `n` bytes behind the first two.
unfoldable pub long_length : List ℕ → Bool → ℕ → ℕ → Run Header
unfolding sized slice
long_length buf isfin opcode n =
    let found : Run Header =
      slice buf 2 (2 + n) >>= λ bytes. sized buf isfin opcode (big_endian 0 bytes) (2 + n) in
    if ltb (length buf) (2 + n) then ok partial else found

-- The lengths of the payload, by the second byte.
unfoldable pub with_length : List ℕ → Bool → ℕ → ℕ → Run Header
unfolding long_length sized
with_length buf isfin opcode n =
    if n == 126
    then long_length buf isfin opcode 2
    else if n == 127
    then long_length buf isfin opcode 8
    else sized buf isfin opcode n 2

-- `b & (1 << n) != 0`
abbrev pub has_bit : ℕ → ℕ → Bool
has_bit n b = (b / 2 ^ n) % 2 == 1

-- parseFrameHeader; the first two bytes are `buf[0]` and `buf[1]`.
unfoldable pub parse_frame_header : Bool → List ℕ → Run Header
unfolding with_length
parse_frame_header compress_enabled [] = ok partial
parse_frame_header compress_enabled (b1 ∷ []) = ok partial
parse_frame_header compress_enabled (b1 ∷ b2 ∷ rest) =
    let isfin = has_bit 7 b1 in
    let opcode = b1 % 16 in
    if not compress_enabled && (has_bit 6 b1 || has_bit 5 b1 || has_bit 4 b1)
    then ok refused
    else if not (is_control_frame opcode) && not (is_message_frame opcode)
    then ok refused
    else if is_control_frame opcode && not isfin
    then ok refused
    else if not (has_bit 7 b2)
    then ok refused
    else with_length (b1 ∷ b2 ∷ rest) isfin opcode (b2 % 128)

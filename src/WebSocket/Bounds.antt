-- ===== src/WebSocket/Bounds.antt =====
-- parseFrameHeader: the bounds of what it finds.
use goev.Prelude.{
  ℕ, zero, ◌+◌, ◌-◌, ◌≤◌, ◌<◌, ◌≡◌, refl, arith, Bool, true, false, not, ◌&&◌, ◌||◌, List, [], ◌∷◌,
  ltb, leb, ◌==◌, ◌^◌, ◌%◌, length, take, drop, ok, Ends, ends, Ends-test, Ends-slice,
}
use goev.WebSocket.{
  WsFrame, Header, refused, partial, parsed, sized, long_length, with_length, parse_frame_header,
  max_frame_payload_size, max_control_frame_payload_size, is_control_frame, is_message_frame,
  has_bit, big_endian,
}

-- What a header says of the buffer: a frame has a header of at least six bytes, which are there, and a
-- payload of at most 4 MiB; a partial header has fewer than 14 bytes.
abbrev pub IsHeaderOf : ℕ → Header → Type 0
IsHeaderOf n refused = zero ≡ zero
IsHeaderOf n partial = n < 14
IsHeaderOf n (parsed wsf) =
    (6 ≤ wsf.hlen) × (wsf.hlen ≤ n) × (wsf.hlen ≤ 14) × (wsf.payload ≤ max_frame_payload_size)

pub record Fits (n : ℕ) (h : Header) : Type 0 where
  pub is : IsHeaderOf n h

Fits-refused : {n : ℕ} → Ends (Fits n) (ok refused)
Fits-refused = ends (record { is = refl })

Fits-partial : (n k : ℕ) → k ≤ 14 → ltb n k ≡ true → Ends (Fits n) (ok partial)
Fits-partial n k l e = ends (record { is = ground arith })

Fits-parsed :
    (n buf_offset : ℕ) (wsf : WsFrame)
    → 2 ≤ buf_offset
    → buf_offset ≤ 10
    → wsf.hlen ≡ buf_offset + 4
    → ltb max_frame_payload_size wsf.payload ≡ false
    → ltb n (buf_offset + 4) ≡ false
    → Fits n (parsed wsf)
Fits-parsed n buf_offset wsf low high at small long = record {
  is = (omega (arith, at), ground arith, omega (arith, at), ground arith);
}

sized-Fits :
    (buf : List ℕ) (isfin : Bool) (opcode payload buf_offset : ℕ)
    → 2 ≤ buf_offset
    → buf_offset ≤ 10
    → Ends (Fits (length buf)) (sized buf isfin opcode payload buf_offset)
unfolding sized
sized-Fits buf isfin opcode payload buf_offset low high =
    Ends-test (leb (2 ^ 63) payload) (λ _. Fits-refused)
      λ _.
        Ends-test (ltb max_frame_payload_size payload) (λ _. Fits-refused)
          λ small.
            Ends-test (is_control_frame opcode && ltb max_control_frame_payload_size payload)
              (λ _. Fits-refused)
              λ _.
                Ends-test (ltb (length buf) (buf_offset + 4))
                  (λ short. Fits-partial _ (buf_offset + 4) (omega arith) short)
                  λ long.
                    Ends-slice buf buf_offset (buf_offset + 4) _ (omega arith) (ground arith)
                      (ends (Fits-parsed _ buf_offset _ low high refl small long))

long_length-Fits :
    (buf : List ℕ) (isfin : Bool) (opcode n : ℕ)
    → n ≤ 8
    → Ends (Fits (length buf)) (long_length buf isfin opcode n)
unfolding long_length
long_length-Fits buf isfin opcode n few =
    Ends-test (ltb (length buf) (2 + n)) (λ short. Fits-partial _ (2 + n) (omega arith) short)
      λ long. Ends-slice buf 2 (2 + n) _ (omega arith) (ground arith) (
        sized-Fits buf isfin opcode (big_endian 0 (take (2 + n - 2) (drop 2 buf))) (2 + n)
          (omega arith) (omega arith))

with_length-Fits :
    (buf : List ℕ) (isfin : Bool) (opcode n : ℕ)
    → Ends (Fits (length buf)) (with_length buf isfin opcode n)
unfolding with_length
with_length-Fits buf isfin opcode n =
    Ends-test (n == 126) (λ _. long_length-Fits buf isfin opcode 2 (omega arith))
      λ _.
        Ends-test (n == 127) (λ _. long_length-Fits buf isfin opcode 8 (omega arith))
          (λ _. sized-Fits buf isfin opcode n 2 (omega arith) (omega arith))

-- parseFrameHeader returns, and what it answers fits the bytes that it was given.
pub parse_frame_header-Fits :
    (compress_enabled : Bool) (buf : List ℕ)
    → Ends (Fits (length buf)) (parse_frame_header compress_enabled buf)
unfolding parse_frame_header
parse_frame_header-Fits compress_enabled [] = ends (record { is = omega arith })
parse_frame_header-Fits compress_enabled (b1 ∷ []) = ends (record { is = omega arith })
parse_frame_header-Fits compress_enabled (b1 ∷ b2 ∷ rest) =
    let opcode = b1 % 16 in
    Ends-test (not compress_enabled && (has_bit 6 b1 || has_bit 5 b1 || has_bit 4 b1))
      (λ _. Fits-refused)
      λ _.
        Ends-test (not (is_control_frame opcode) && not (is_message_frame opcode))
          (λ _. Fits-refused)
          λ _.
            Ends-test (is_control_frame opcode && not (has_bit 7 b1)) (λ _. Fits-refused)
              λ _.
                Ends-test (not (has_bit 7 b2)) (λ _. Fits-refused)
                  λ _. with_length-Fits (b1 ∷ b2 ∷ rest) (has_bit 7 b1) opcode (b2 % 128)

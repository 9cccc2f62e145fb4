-- ===== src/WebSocket/Tests.antt =====
-- Runs of the frames and of the upgrade.
use Prim.Native.Char.{code}
use Prim.Native.String.{String}
use goev.Prelude.{ℕ, ◌≡◌, refl, Bool, true, false, some, List, [], ◌∷◌, ◌++◌, Run, ok}
use goev.WebSocket.{Conn, mask_bytes, mask_from, parse_frame_header}
use goev.WebSocket.Mask.{mask_bytes_lem}
use goev.WebSocket.Serve.{on_frame, complete, payload_of, message, fragment, write_message_frame}
use goev.Http.Text.{equal_fold}
use goev.WebSocket.Upgrade.{
  Upgradable, switch_header, header_of, read_headers, check_header, contains, on_upgrade, on_read,
}

abbrev new_conn : Conn
new_conn = record {
  compress_enabled = false;
  closed = false;
  partial_buf = [];
  start = false;
  continue_buf = [];
  sent = [];
}

abbrev sent_by : Run (Bool × Conn) → List (List ℕ)
sent_by (ok (alive, c)) = c.sent
sent_by _ = []

-- "ab" in one text frame, masked with 1, 2, 3, 4, comes back.
abbrev one_frame : List ℕ
one_frame = 129 ∷ 130 ∷ 1 ∷ 2 ∷ 3 ∷ 4 ∷ 96 ∷ 96 ∷ []

echo_run : sent_by (on_frame 8 one_frame new_conn) ≡ (129 ∷ 2 ∷ 97 ∷ 98 ∷ []) ∷ []
unfolding on_frame complete message write_message_frame parse_frame_header mask_bytes payload_of
echo_run = refl

-- "a" and "b" in two fragments of a binary message, each masked: "a" stays masked, and it comes back as text.
abbrev two_fragments : List ℕ
two_fragments = 2 ∷ 129 ∷ 1 ∷ 2 ∷ 3 ∷ 4 ∷ 96 ∷ 128 ∷ 129 ∷ 1 ∷ 2 ∷ 3 ∷ 4 ∷ 99 ∷ []

fragments_run : sent_by (on_frame 14 two_fragments new_conn) ≡ (129 ∷ 2 ∷ 96 ∷ 98 ∷ []) ∷ []
unfolding on_frame complete message fragment write_message_frame parse_frame_header mask_bytes
    payload_of
fragments_run = refl

mask_bytes_lem_example :
    mask_bytes two_fragments (1 ∷ 2 ∷ 3 ∷ 4 ∷ []) ≡ mask_from (1 ∷ 2 ∷ 3 ∷ 4 ∷ []) 0 two_fragments
mask_bytes_lem_example = mask_bytes_lem 1 2 3 4 two_fragments

abbrev codes : String → List ℕ
codes String.[] = []
codes (String.◌∷◌ c s) = code c ∷ codes s

abbrev end_line : List ℕ → List ℕ
end_line rest = 13 ∷ 10 ∷ rest

abbrev lines : List (List ℕ) → List ℕ
lines [] = end_line []
lines (l ∷ ls) = l ++ end_line (lines ls)

-- A client that asks for two protocols.
abbrev asking : List ℕ
asking = lines (
    codes "GET /chat HTTP/1.1"
    ∷ codes "Host: h"
    ∷ codes "upgrade: WebSocket"
    ∷ codes "Connection: Upgrade"
    ∷ codes "Sec-WebSocket-Version: 13"
    ∷ codes "Sec-WebSocket-Key: abc"
    ∷ codes "Sec-WebSocket-Protocol: x, y"
    ∷ [])

abbrev fresh : Upgradable
fresh = record { upgraded = false; conn = new_conn }

-- In place of SHA-1 and Base64.
abbrev marked : List ℕ → List ℕ
marked key = b'!' ∷ key

-- The line of the protocols in the answer has no colon.
upgrade_run :
    on_read marked (some asking) fresh
    ≡ ok (
      true,
      record {
        upgraded = true;
        conn = record new_conn {
          sent =
              (switch_header
                ++ (codes "!abc"
                    ++ end_line (codes "Sec-Websocket-Protocolx,y" ++ end_line (end_line []))))
              ∷ [];
        };
      },
    )
unfolding on_read check_header header_of equal_fold contains read_headers
upgrade_run = refl

-- The value of Connection is compared whole, so a list of tokens is not accepted.
token_list_run :
    on_upgrade marked
      (lines (
        codes "GET / HTTP/1.1"
        ∷ codes "Connection: keep-alive, Upgrade"
        ∷ codes "Upgrade: websocket"
        ∷ codes "Sec-WebSocket-Version: 13"
        ∷ codes "Sec-WebSocket-Key: abc"
        ∷ []))
      fresh
    ≡ ok (false, fresh)
unfolding on_upgrade check_header header_of equal_fold contains read_headers
token_list_run = refl

-- ===== src/WebSocket/Upgrade.antt =====
-- example/websocket.go: the upgrade of a connection, onUpgrade, and OnRead, which begins with it.
-- The helpers of the standard library are those of Http. An index or a slice that leaves the bytes is a panic.
-- `accept_key` is genAcceptKey: SHA-1 and Base64 of the key.
use goev.Prelude.{
  ℕ, zero, suc, ◌+◌, Bool, true, false, not, ◌&&◌, ◌||◌, Option, none, some, List, [], ◌∷◌, ◌++◌,
  ltb, ◌==◌, if◌then◌else◌, length, load, slice, slice_from, Run, ok, out_of_fuel, ◌>>=◌,
}
use goev.Address.{index_byte, split, bytes_equal}
use goev.Http.Text.{index_crlf, trim_space, equal_fold}
use goev.Http.{is_letter, is_blank}
use goev.WebSocket.{Conn}
use goev.WebSocket.Serve.{on_frame}

abbrev pub get_name : List ℕ
get_name = 103 ∷ 101 ∷ 116 ∷ []

-- The names and values of headers, for which `EqualFold` looks.
abbrev pub connection_name : List ℕ
connection_name = 99 ∷ 111 ∷ 110 ∷ 110 ∷ 101 ∷ 99 ∷ 116 ∷ 105 ∷ 111 ∷ 110 ∷ []

abbrev pub host_name : List ℕ
host_name = 104 ∷ 111 ∷ 115 ∷ 116 ∷ []

abbrev pub upgrade_name : List ℕ
upgrade_name = 117 ∷ 112 ∷ 103 ∷ 114 ∷ 97 ∷ 100 ∷ 101 ∷ []

abbrev pub websocket_name : List ℕ
websocket_name = 119 ∷ 101 ∷ 98 ∷ 115 ∷ 111 ∷ 99 ∷ 107 ∷ 101 ∷ 116 ∷ []

abbrev pub version_name : List ℕ
version_name =
    115 ∷ 101 ∷ 99 ∷ 45 ∷ 119 ∷ 101 ∷ 98 ∷ 115 ∷ 111 ∷ 99 ∷ 107 ∷ 101 ∷ 116 ∷ 45 ∷ 118 ∷ 101 ∷ 114
    ∷ 115 ∷ 105 ∷ 111 ∷ 110 ∷ []

abbrev pub thirteen : List ℕ
thirteen = 49 ∷ 51 ∷ []

abbrev pub extensions_name : List ℕ
extensions_name =
    115 ∷ 101 ∷ 99 ∷ 45 ∷ 119 ∷ 101 ∷ 98 ∷ 115 ∷ 111 ∷ 99 ∷ 107 ∷ 101 ∷ 116 ∷ 45 ∷ 101 ∷ 120 ∷ 116
    ∷ 101 ∷ 110 ∷ 115 ∷ 105 ∷ 111 ∷ 110 ∷ 115 ∷ []

abbrev pub deflate_name : List ℕ
deflate_name =
    112 ∷ 101 ∷ 114 ∷ 109 ∷ 101 ∷ 115 ∷ 115 ∷ 97 ∷ 103 ∷ 101 ∷ 45 ∷ 100 ∷ 101 ∷ 102 ∷ 108 ∷ 97 ∷ 116
    ∷ 101 ∷ []

abbrev pub key_name : List ℕ
key_name =
    115 ∷ 101 ∷ 99 ∷ 45 ∷ 119 ∷ 101 ∷ 98 ∷ 115 ∷ 111 ∷ 99 ∷ 107 ∷ 101 ∷ 116 ∷ 45 ∷ 107 ∷ 101 ∷ 121
    ∷ []

-- subProtocol
abbrev pub protocol_name : List ℕ
protocol_name =
    83 ∷ 101 ∷ 99 ∷ 45 ∷ 87 ∷ 101 ∷ 98 ∷ 115 ∷ 111 ∷ 99 ∷ 107 ∷ 101 ∷ 116 ∷ 45 ∷ 80 ∷ 114 ∷ 111
    ∷ 116 ∷ 111 ∷ 99 ∷ 111 ∷ 108 ∷ []

-- switchHeaderS
abbrev pub switch_header : List ℕ
switch_header =
    72 ∷ 84 ∷ 84 ∷ 80 ∷ 47 ∷ 49 ∷ 46 ∷ 49 ∷ 32 ∷ 49 ∷ 48 ∷ 49 ∷ 32 ∷ 83 ∷ 119 ∷ 105 ∷ 116 ∷ 99 ∷ 104
    ∷ 105 ∷ 110 ∷ 103 ∷ 32 ∷ 80 ∷ 114 ∷ 111 ∷ 116 ∷ 111 ∷ 99 ∷ 111 ∷ 108 ∷ 115 ∷ 13 ∷ 10 ∷ 85 ∷ 112
    ∷ 103 ∷ 114 ∷ 97 ∷ 100 ∷ 101 ∷ 58 ∷ 32 ∷ 119 ∷ 101 ∷ 98 ∷ 115 ∷ 111 ∷ 99 ∷ 107 ∷ 101 ∷ 116 ∷ 13
    ∷ 10 ∷ 67 ∷ 111 ∷ 110 ∷ 110 ∷ 101 ∷ 99 ∷ 116 ∷ 105 ∷ 111 ∷ 110 ∷ 58 ∷ 32 ∷ 85 ∷ 112 ∷ 103 ∷ 114
    ∷ 97 ∷ 100 ∷ 101 ∷ 13 ∷ 10 ∷ 83 ∷ 101 ∷ 99 ∷ 45 ∷ 87 ∷ 101 ∷ 98 ∷ 83 ∷ 111 ∷ 99 ∷ 107 ∷ 101
    ∷ 116 ∷ 45 ∷ 65 ∷ 99 ∷ 99 ∷ 101 ∷ 112 ∷ 116 ∷ 58 ∷ 32 ∷ []

abbrev pub crlf : List ℕ
crlf = 13 ∷ 10 ∷ []

-- strings.Contains
abbrev pub is_prefix : List ℕ → List ℕ → Bool
is_prefix [] s = true
is_prefix (x ∷ xs) [] = false
is_prefix (x ∷ xs) (c ∷ s) = (x == c) && is_prefix xs s

unfoldable pub contains : List ℕ → List ℕ → Bool
contains part [] = is_prefix part []
contains part (c ∷ s) = is_prefix part (c ∷ s) || contains part s

-- strings.Join
abbrev pub join : List ℕ → List (List ℕ) → List ℕ
join sep [] = []
join sep (x ∷ []) = x
join sep (x ∷ y ∷ ys) = x ++ (sep ++ join sep (y ∷ ys))

abbrev pub Field : Type 0
Field = List ℕ × List ℕ

-- A header line without its CRLF, or none where it is refused.
unfoldable pub header_of : List ℕ → Run (Option Field)
unfolding trim_space load slice
header_of line = load line 0 >>= λ c.
    let split_at : Run (Option Field) = elim (index_byte 58 line) [
      | none ↦ ok none
      | some p ↦ do
        name ← slice line 0 p
        value ← slice_from line (p + 1)
        ok (some (trim_space name, trim_space value))
    ] in
    if is_letter c then split_at else ok none

-- The loop over the header lines; none is a request that is refused.
unfoldable pub read_headers : ℕ → List ℕ → List Field → Run (Option (List Field))
unfolding slice
read_headers fuel [] headers = ok (some headers)
read_headers zero (c ∷ cs) headers = out_of_fuel
read_headers (suc f) (c ∷ cs) headers = elim (index_crlf (c ∷ cs)) [
  | none ↦ ok none
  | some zero ↦ ok (some headers)
  | some (suc p) ↦
      (slice (c ∷ cs) 0 (suc p) >>= λ line. header_of line >>= λ o. elim o [
        | none ↦ ok none
        | some header ↦
            (slice_from (c ∷ cs) (suc p + 2) >>= λ rest.
            read_headers f rest (headers ++ (header ∷ [])))
      ])
]

-- The part of onUpgrade from the URI to the headers, behind a method of three letters and a blank.
unfoldable pub after_method : List ℕ → Run (Option (List Field))
unfolding read_headers load slice
after_method buf = load buf 4 >>= λ c.
    let found : Run (Option (List Field)) = slice_from buf 5 >>= λ target.
    elim (index_byte 32 target) [
      | none ↦ ok none
      | some p ↦ do
        uri ← if p == 0 then ok (47 ∷ []) else slice buf 4 (5 + p)
        line ← slice_from buf (6 + p)
        elim (index_crlf line) [
          | none ↦ ok none
          | some q ↦ (slice_from buf (6 + p + q + 2) >>= λ rest. read_headers (length buf) rest [])
        ]
    ] in
    if c == 47 then found else ok none

-- `(buf[i] == 'X' || buf[i] == 'x') && …`, for the small letters
abbrev pub reads_letters : List ℕ → ℕ → List ℕ → Run Bool
reads_letters [] i buf = ok true
reads_letters (x ∷ xs) i buf = load buf i >>= λ c. elim ((c + 32 == x) || (c == x)) [
  | true ↦ reads_letters xs (suc i) buf
  | false ↦ ok false
]

-- The part of onUpgrade that reads the request.
unfoldable pub request_headers : List ℕ → Run (Option (List Field))
unfolding after_method load
request_headers buf =
    let known : Run (Option (List Field)) = reads_letters get_name 0 buf >>= λ get.
    let blank : Run (Option (List Field)) =
      load buf 3 >>= λ c. if is_blank c then after_method buf else ok none in
    if get then blank else ok none in
    if ltb (length buf) 18 then ok none else known

-- The local variables of the checks, and `c.compressEnabled`.
pub record Checks : Type 0 where
  pub ok_upgrade : Bool
  pub ok_websocket : Bool
  pub ok_version : Bool
  pub compress_enabled : Bool
  pub key : List ℕ
  pub sub_protocols : List (List ℕ)

abbrev pub add_protocols : List (List ℕ) → List (List ℕ) → List (List ℕ)
add_protocols [] protocols = protocols
add_protocols (p ∷ ps) protocols =
    add_protocols ps
      (if ltb 0 (length (trim_space p)) then protocols ++ (trim_space p ∷ []) else protocols)

-- The body of the loop over the headers.
unfoldable pub check_header : Field → Checks → Checks
check_header (name, value) c =
    if equal_fold name connection_name && equal_fold value upgrade_name
    then record c { ok_upgrade = true }
    else if equal_fold name host_name
    then c
    else if equal_fold name upgrade_name && equal_fold value websocket_name
    then record c { ok_websocket = true }
    else if equal_fold name version_name && bytes_equal value thirteen
    then record c { ok_version = true }
    else if equal_fold name extensions_name
    then (if contains deflate_name value then record c { compress_enabled = true } else c)
    else if equal_fold name key_name
    then record c { key = value }
    else if equal_fold name protocol_name
    then record c { sub_protocols = add_protocols (split 44 value) c.sub_protocols }
    else c

unfoldable pub check_headers : List Field → Checks → Checks
unfolding check_header
check_headers [] c = c
check_headers (h ∷ hs) c = check_headers hs (check_header h c)

-- The answer of 101. The name of the protocols is followed by them without a colon.
abbrev pub response : List ℕ → List (List ℕ) → List ℕ
response accepted protocols =
    switch_header
    ++ (accepted
        ++ (crlf
            ++ ((if ltb 0 (length protocols)
                  then protocol_name ++ (join (44 ∷ []) protocols ++ crlf)
                  else [])
                ++ crlf)))

-- Conn with `upgraded`.
pub record Upgradable : Type 0 where
  pub upgraded : Bool
  pub conn : Conn

module _ (accept_key : List ℕ → List ℕ) where
  -- The part of onUpgrade behind the checks of the headers.
  unfoldable pub answer : Checks → Upgradable → Bool × Upgradable
  answer k u =
      let seen : Conn = record (u.conn) { compress_enabled = k.compress_enabled } in
      if not (k.ok_upgrade && k.ok_websocket && k.ok_version)
      then (false, record u { conn = seen })
      else if length k.key == 0
      then (false, record u { conn = seen })
      else (
        true,
        record {
          upgraded = true;
          conn = record seen {
            compress_enabled = false;
            sent = seen.sent ++ (response (accept_key k.key) k.sub_protocols ∷ []);
          };
        },
      )

  abbrev pub unchecked : Upgradable → Checks
  unchecked u = record {
    ok_upgrade = false;
    ok_websocket = false;
    ok_version = false;
    compress_enabled = u.conn.compress_enabled;
    key = [];
    sub_protocols = [];
  }

  unfoldable pub on_upgrade : List ℕ → Upgradable → Run (Bool × Upgradable)
  unfolding request_headers check_headers answer
  on_upgrade buf u = request_headers buf >>= λ found. elim found [
    | none ↦ ok (false, u)
    | some headers ↦ ok (answer (check_headers headers (unchecked u)) u)
  ]

  -- OnRead with the bytes read: none for an interrupted read, and [] where the peer is gone.
  unfoldable pub on_read : Option (List ℕ) → Upgradable → Run (Bool × Upgradable)
  unfolding on_upgrade
  on_read none u = ok (true, u)
  on_read (some []) u = ok (false, u)
  on_read (some (b ∷ bs)) u =
      let bytes = b ∷ bs in
      let frames : Run (Bool × Upgradable) =
        on_frame (length u.conn.partial_buf + length bytes) bytes u.conn >>= λ (alive, c).
        ok (alive, record u { conn = c }) in
      if u.upgraded then frames else on_upgrade bytes u

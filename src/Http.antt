-- ===== src/Http.antt =====
-- example/techempower.go: the requests that the HTTP server of the benchmark reads, and its answers.
-- An index or a slice that leaves the bytes is a panic. The date in the
-- answer changes with time; `reply` is the whole answer.
pub mod Text
pub mod Bounds
pub mod Serve
pub mod Print
mod Tests
use goev.Prelude.{
  ℕ, zero, suc, ◌+◌, ◌-◌, Bool, true, false, not, ◌&&◌, ◌||◌, Option, none, some, List, [], ◌∷◌,
  ◌++◌, ltb, leb, ◌==◌, if◌then◌else◌, length, drop, load, slice, slice_from, Run, ok, panic,
  out_of_fuel, ◌>>=◌,
}
use goev.Prelude.Int.{ℤ, pos, negsuc}
use goev.Http.Text.{index_crlf, trim_space, equal_fold}
use goev.Address.{index_byte, bytes_equal, parse_uint, minus}

-- "Content-Length" and "Host"
abbrev pub content_length_name : List ℕ
content_length_name =
    99 ∷ 111 ∷ 110 ∷ 116 ∷ 101 ∷ 110 ∷ 116 ∷ 45 ∷ 108 ∷ 101 ∷ 110 ∷ 103 ∷ 116 ∷ 104 ∷ []

abbrev pub host_name : List ℕ
host_name = 104 ∷ 111 ∷ 115 ∷ 116 ∷ []

-- Request; `post` is method 2, else it is 1.
pub record Request : Type 0 where
  pub post : Bool
  pub content_length : ℤ
  pub uri : List ℕ
  pub host : List ℕ
  pub headers : List (List ℕ × List ℕ)

-- The results of parseHeader: res 1, res -1, or a request and its headerLen.
pub data Parsed : Type 0 where
  partial refused : Parsed
  request : Request → ℕ → Parsed

abbrev pub is_letter : ℕ → Bool
is_letter c = (leb 65 c && leb c 90) || (leb 97 c && leb c 122)

-- strconv.ParseInt(s, 10, 64) of at most ten bytes, which is in range; none is an error.
unfoldable pub short_int : List ℕ → Option ℤ
unfolding parse_uint minus
short_int [] = none
short_int (c ∷ cs) =
    let plus : List ℕ → Option ℤ =
      λ s. elim (parse_uint s) [ none ↦ none | some n ↦ some (pos n) ] in
    let negative : Option ℤ = elim (parse_uint cs) [ none ↦ none | some n ↦ some (minus n) ] in
    if c == 45 then negative else if c == 43 then plus cs else plus (c ∷ cs)

-- `if l, err := strconv.ParseInt(…); err == nil { req.contentLength = int(l) }`
abbrev pub set_length : List ℕ → Request → Request
set_length value req = elim (short_int value) [
  | none ↦ req
  | some l ↦ record req { content_length = l }
]

-- What a header changes of the request, or none where it is refused.
unfoldable pub add_header : List ℕ → List ℕ → Request → Option Request
unfolding equal_fold short_int
add_header name value req =
    let added : Request = record req { headers = req.headers ++ ((name, value) ∷ []) } in
    let sized : Option Request =
      if not req.post
      then none
      else if ltb 10 (length value)
      then none
      else some (set_length value added) in
    if equal_fold name content_length_name
    then sized
    else if equal_fold name host_name
    then some (record added { host = value })
    else some added

-- A header line without its CRLF, or none where it is refused.
unfoldable pub add_line : List ℕ → Request → Run (Option Request)
unfolding add_header trim_space load slice
add_line line req = load line 0 >>= λ c.
    let split_at : Run (Option Request) = elim (index_byte 58 line) [
      | none ↦ ok none
      | some p ↦ do
        name ← slice line 0 p
        value ← slice_from line (p + 1)
        ok (add_header (trim_space name) (trim_space value) req)
    ] in
    if is_letter c then split_at else ok none

-- The loop over the header lines, with the offset and the bytes from there on.
unfoldable pub header_lines : ℕ → ℕ → List ℕ → Request → Run Parsed
unfolding slice
header_lines fuel offset [] req = ok (request req offset)
header_lines zero offset (c ∷ cs) req = out_of_fuel
header_lines (suc f) offset (c ∷ cs) req = elim (index_crlf (c ∷ cs)) [
  | none ↦ ok partial
  | some zero ↦ ok (request req (offset + 2))
  | some (suc p) ↦
      (slice (c ∷ cs) 0 (suc p) >>= λ line. add_line line req >>= λ o. elim o [
        | none ↦ ok refused
        | some req' ↦
            (slice_from (c ∷ cs) (suc p + 2) >>= λ rest.
            header_lines f (offset + suc p + 2) rest req')
      ])
]

-- Behind the URI, which ends before `after`: the rest of the request line, and the headers.
unfoldable pub after_uri : ℕ → List ℕ → Request → Run Parsed
unfolding header_lines slice
after_uri after buf start =
    let lines : Run Parsed = slice_from buf after >>= λ line. elim (index_crlf line) [
      | none ↦ ok partial
      | some q ↦
          (slice_from buf (after + q + 2) >>= λ rest.
          header_lines (length buf) (after + q + 2) rest start)
    ] in
    if leb (length buf) after then ok partial else lines

-- Behind the method: the URI, the rest of the request line, and the headers.
unfoldable pub request_line : Bool → ℕ → List ℕ → Run Parsed
unfolding after_uri load slice
request_line post offset buf = load buf offset >>= λ c.
    let found : Run Parsed = slice_from buf (offset + 1) >>= λ rest. elim (index_byte 32 rest) [
      | none ↦ ok partial
      | some p ↦ do
        uri ← if p == 0 then ok (47 ∷ []) else slice buf offset (offset + 1 + p)
        after_uri (offset + 2 + p) buf
            (record { post = post; content_length = pos 0; uri = uri; host = []; headers = [] })
    ] in
    if c == 47 then found else ok refused

abbrev pub is_blank : ℕ → Bool
is_blank c = (c == 32) || (c == 9)

-- `buf[i] == x && buf[i+1] == y && …`
abbrev pub reads_at : List ℕ → ℕ → List ℕ → Run Bool
reads_at [] i buf = ok true
reads_at (x ∷ xs) i buf =
    load buf i >>= λ c. elim (c == x) [ true ↦ reads_at xs (suc i) buf | false ↦ ok false ]

-- Behind a method of so many bytes
abbrev pub method_end : Bool → ℕ → List ℕ → Run Parsed
method_end post n buf =
    load buf n >>= λ c. if is_blank c then request_line post (n + 1) buf else ok refused

-- parseHeader
unfoldable pub parse_header : List ℕ → Run Parsed
unfolding request_line load
parse_header buf =
    let known : Run Parsed = do
      get ← reads_at (71 ∷ 69 ∷ 84 ∷ []) 0 buf
      post ← reads_at (80 ∷ 79 ∷ 83 ∷ 84 ∷ []) 0 buf
      if get then method_end false 3 buf else if post then method_end true 4 buf else ok refused
    in if ltb (length buf) 18 then ok partial else known

-- Http, and the answers that it wrote.
pub record Http : Type 0 where
  pub partial_buf : List ℕ
  pub sent : List (List ℕ)

-- What follows the header of a request: the payload is not whole, the connection is closed, or so many bytes
-- are answered. A slice with a negative length is a panic.
pub data Served : Type 0 where
  incomplete close : Served
  answered : ℕ → Served

unfoldable pub serve_request : Request → ℕ → List ℕ → Run Served
unfolding slice
serve_request req header_len raw = elim req.content_length [
  | negsuc _ ↦ panic
  | pos n ↦
      (let whole : Run Served = slice raw header_len (header_len + n) >>= λ payload.
      ok (if req.post then close else answered (header_len + n)) in
        if ltb (length raw - header_len) n then ok incomplete else whole)
]

module _ (reply : List ℕ) where
  -- The loop of OnRead2 over the bytes that are left.
  unfoldable pub request_loop : ℕ → List ℕ → Http → Run (Bool × Http)
  unfolding parse_header serve_request
  request_loop fuel [] h = ok (true, h)
  request_loop zero (b ∷ bs) h = out_of_fuel
  request_loop (suc f) (b ∷ bs) h = parse_header (b ∷ bs) >>= λ parsed. elim parsed [
    | refused ↦ ok (false, h)
    | partial ↦ ok (true, record h { partial_buf = h.partial_buf ++ (b ∷ bs) })
    | request req header_len ↦ serve_request req header_len (b ∷ bs) >>= λ served. elim served [
      | incomplete ↦ ok (true, record h { partial_buf = h.partial_buf ++ (b ∷ bs) })
      | close ↦ ok (false, h)
      | answered n ↦ request_loop f (drop n (b ∷ bs)) (record h { sent = h.sent ++ (reply ∷ []) })
    ]
  ]

  -- OnRead2 with the bytes read: none where the read fails (n < 0), and [] for n = 0.
  unfoldable pub on_read2 : Option (List ℕ) → Http → Run (Bool × Http)
  unfolding request_loop
  on_read2 none h = ok (true, h)
  on_read2 (some []) h = ok (false, h)
  on_read2 (some (b ∷ bs)) h =
      let raw = h.partial_buf ++ (b ∷ bs) in
      request_loop (length raw) raw (record h { partial_buf = [] })

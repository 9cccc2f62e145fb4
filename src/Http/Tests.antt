-- ===== src/Http/Tests.antt =====
-- Requests, as texts.
use Prim.Native.Char.{code}
use Prim.Native.String.{String}
use goev.Prelude.{
  ℕ, ◌≡◌, refl, arith, false, some, List, [], ◌∷◌, ◌++◌, Run, ok, panic, ◌>>=◌, Ends,
}
use goev.Prelude.Int.{ℤ, pos}
use goev.Http.{Http, Parsed, request, parse_header, add_line, on_read2}
use goev.Http.Bounds.{Fits, parse_header_lem}
use goev.Http.Print.{IsField, print_request, with_fields, get_of, parse_header-print}
use goev.Http.Text.{trim_space, equal_fold}

abbrev codes : String → List ℕ
codes String.[] = []
codes (String.◌∷◌ c s) = code c ∷ codes s

abbrev crlf : List ℕ
crlf = 13 ∷ 10 ∷ []

abbrev get_request : List ℕ
get_request = codes "GET /a HTTP/1.1" ++ (crlf ++ (codes "Host: h" ++ (crlf ++ crlf)))

abbrev minus_one : List ℕ
minus_one = codes "POST / HTTP/1.1" ++ (crlf ++ (codes "Content-Length: -1" ++ (crlf ++ crlf)))

abbrev reply : List ℕ
reply = codes "HTTP/1.1 200 OK"

abbrev opened : Http
opened = record { partial_buf = []; sent = [] }

get_parsed :
    parse_header get_request
    ≡ ok (
        request
          (record {
            post = false;
            content_length = pos 0;
            uri = codes "/a";
            host = codes "h";
            headers = (codes "Host", codes "h") ∷ [];
          })
          28)
unfolding parse_header add_line
get_parsed = refl

parse_header_lem_example : Ends (Fits 28) (parse_header get_request)
parse_header_lem_example = parse_header_lem get_request

-- The request in two pieces that part behind a header line: it is answered before its end, and what follows
-- closes the connection.
first_piece : List ℕ
first_piece = codes "GET /a HTTP/1.1" ++ (crlf ++ (codes "Host: h" ++ crlf))

pieces_run :
    (on_read2 reply (some first_piece) opened >>= λ (_, h).
    on_read2 reply (some crlf) h >>= λ (_, h'). on_read2 reply (some get_request) h')
    ≡ ok (false, record { partial_buf = []; sent = reply ∷ [] })
unfolding on_read2 add_line first_piece
pieces_run = refl

-- A negative length is not refused, and then OnRead2 panics.
negative_run : on_read2 reply (some minus_one) opened ≡ panic
unfolding on_read2 add_line
negative_run = refl

-- The shortest request: nothing shorter is parsed.
abbrev shortest : List ℕ
shortest = codes "GET / HTTP/1.1" ++ (crlf ++ crlf)

length_of : Run Parsed → ℤ
length_of (ok (request req n)) = req.content_length
length_of _ = pos 0

host-IsField : IsField (codes "Host") (codes "h")
unfolding trim_space equal_fold
host-IsField = record {
  letter = (b'H', codes "ost", refl, refl);
  no_colon = omega arith;
  no_cr = (omega arith, omega arith);
  trimmed = (refl, refl);
  no_length = refl;
}

parse_header-print_example :
    parse_header
      (print_request (codes "a") (codes "HTTP/1.1") ((codes "Host", codes "h") ∷ []) (codes "next"))
    ≡ ok (request (with_fields ((codes "Host", codes "h") ∷ []) (get_of (codes "a"))) 28)
parse_header-print_example =
    parse_header-print (codes "a") (codes "HTTP/1.1") ((codes "Host", codes "h") ∷ [])
      (codes "next") (omega arith) (omega arith) (host-IsField, tt) (omega arith)

-- ===== src/Http/Serve.antt =====
-- OnRead2: the requests that are answered, and what is kept of the last one.
use goev.Prelude.{
  ℕ, suc, ◌+◌, ◌≤◌, ◌<◌, ◌≡◌, Bool, true, false, List, [], ◌++◌, length, drop, replicate, Run, ok,
  ◌-◌, if◌then◌else◌,
}
use goev.Prelude.Int.{pos}
use goev.Http.{
  Http, Request, partial, refused, request, Served, incomplete, close, answered, parse_header,
}

-- No request that is found in the bytes has a negative content length.
abbrev pub NoNegative : List ℕ → Type 0
NoNegative raw =
    (n header_len : ℕ) (req : Request)
    → parse_header (drop n raw) ≡ ok (request req header_len)
    → (m : ℕ) × (req.content_length ≡ pos m)

-- What serve_request says of a request whose header lies in the bytes.
data IsServed (req : Request) (header_len m : ℕ) (raw : List ℕ) : Served → Type 0 where
  waits : length raw - header_len < m → IsServed req header_len m raw incomplete
  closes : req.post ≡ true → IsServed req header_len m raw close
  answers_get :
      req.post ≡ false
      → header_len + m ≤ length raw
      → IsServed req header_len m raw (answered (header_len + m))

-- So many requests stand one behind the other at the front of the bytes, all of them GET and whole, and take so
-- many bytes.
pub data Requests : List ℕ → ℕ → ℕ → Type 0 where
  no_request : (raw : List ℕ) → Requests raw 0 0
  one_request :
      (raw : List ℕ) (req : Request) (header_len m k taken : ℕ)
      → parse_header raw ≡ ok (request req header_len)
      → req.post ≡ false
      → req.content_length ≡ pos m
      → header_len + m ≤ length raw
      → Requests (drop (header_len + m) raw) k taken
      → Requests raw (suc k) (header_len + m + taken)

-- Why the loop ends with these bytes left: there are none, or their request is not whole, so that the connection
-- goes on; or it is refused, or a POST, so that it is closed.
pub data IsEnd (raw : List ℕ) : Bool → Type 0 where
  all_taken : raw ≡ [] → IsEnd raw true
  partial_header : parse_header raw ≡ ok partial → IsEnd raw true
  partial_payload :
      (req : Request) (header_len m : ℕ)
      → parse_header raw ≡ ok (request req header_len)
      → req.content_length ≡ pos m
      → length raw - header_len < m
      → IsEnd raw true
  bad_request : parse_header raw ≡ ok refused → IsEnd raw false
  post_request :
      (req : Request) (header_len : ℕ)
      → parse_header raw ≡ ok (request req header_len)
      → req.post ≡ true
      → IsEnd raw false

module _ (reply : List ℕ) where
  -- The requests at the front are answered, once each, up to the end of the loop; where the connection goes on, the
  -- bytes behind them are kept, and else none.
  pub record Done (raw : List ℕ) (h : Http) (alive : Bool) (h' : Http) : Type 0 where
    pub answers : ℕ
    pub taken : ℕ
    pub requests : Requests raw answers taken
    pub at_end : IsEnd (drop taken raw) alive
    pub same_sent : h'.sent ≡ h.sent ++ replicate answers reply
    pub kept : h'.partial_buf ≡ (if alive then drop taken raw else [])

  module _ (raw : List ℕ) (h : Http) (empty : h.partial_buf ≡ [])
      (again : ℕ → Run (Bool × Http)) where
    abbrev after_serve : Served → Run (Bool × Http)
    after_serve incomplete = ok (true, record h { partial_buf = h.partial_buf ++ raw })
    after_serve close = ok (false, h)
    after_serve (answered n) = again n

-- ===== src/Http/Bounds.antt =====
-- parseHeader returns, and its bounds.
use goev.Prelude.{
  ℕ, zero, suc, ◌+◌, ◌-◌, ◌≤◌, ◌<◌, ◌≡◌, refl, ap, ◌∙◌, arith, Bool, true, false, Option, none,
  some, List, [], ◌∷◌, ltb, leb, ◌==◌, if◌then◌else◌, length, length-drop, take, drop, slice,
  slice_from, Run, ok, ◌>>=◌, Ends, ends, Ends-bind, Ends-slice, Ends-load, Ends-tail, Ends-test,
  Option-cases, Bool-cases, inl, inr,
}
use goev.Prelude.Int.{pos}
use goev.Address.{index_byte}
use goev.Http.Text.{index_crlf, trim_space, equal_fold}
use goev.Http.{
  Request, Parsed, partial, refused, request, add_header, add_line, header_lines, after_uri,
  request_line, reads_at, method_end, parse_header, is_blank, is_letter, content_length_name,
}

-- What is left of a buffer from an index on.
abbrev pub rest_of : List ℕ → ℕ → List ℕ
rest_of buf i = take (length buf - i) (drop i buf)

take-length : (n : ℕ) (xs : List ℕ) → length xs ≤ n → length (take n xs) ≡ length xs
take-length zero [] h = refl
take-length (suc n) [] h = refl
take-length zero (x ∷ xs) h = absurd (omega arith)
take-length (suc n) (x ∷ xs) h = ap suc (take-length n xs (omega arith))

pub length-rest : (buf : List ℕ) (i : ℕ) → i ≤ length buf → length (rest_of buf i) ≡ length buf - i
length-rest buf i h =
    take-length (length buf - i) (drop i buf) (omega (arith, length-drop i buf)) ∙ length-drop i buf

pub slice-Ends :
    (buf : List ℕ) (i j : ℕ) → i ≤ j → j ≤ length buf → Ends (λ s. zero ≡ zero) (slice buf i j)
slice-Ends buf i j low high = Ends-tail (slice buf i j) (Ends-slice buf i j ok low high (ends refl))

-- A GET request has no payload.
abbrev pub IsSized : Request → Type 0
IsSized req = req.post ≡ false → req.content_length ≡ pos 0

-- What is found in `n` bytes: the header of a request is whole, and lies in them.
abbrev pub IsParsedOf : ℕ → Parsed → Type 0
IsParsedOf n partial = zero ≡ zero
IsParsedOf n refused = zero ≡ zero
IsParsedOf n (request req header_len) = (8 ≤ header_len) × (header_len ≤ n) × IsSized req

pub record Fits (n : ℕ) (p : Parsed) : Type 0 where
  pub is : IsParsedOf n p

Fits-partial : {n : ℕ} → Ends (Fits n) (ok partial)
Fits-partial = ends (record { is = refl })

Fits-refused : {n : ℕ} → Ends (Fits n) (ok refused)
Fits-refused = ends (record { is = refl })

pub index_crlf-lt : (s : List ℕ) (i : ℕ) → index_crlf s ≡ some i → i + 2 ≤ length s
index_crlf-lt [] i h = absurd (cc h)
index_crlf-lt (c ∷ []) i h = absurd (cc h)
index_crlf-lt (c ∷ d ∷ cs) i h = elim (Option-cases (index_crlf (d ∷ cs))) [
  | inl missing ↦ ground arith
  | inr (j, found) ↦ ground (arith, index_crlf-lt (d ∷ cs) j found)
]

pub index_byte-lt : (b : ℕ) (s : List ℕ) (i : ℕ) → index_byte b s ≡ some i → i < length s
index_byte-lt b [] i h = absurd (cc h)
index_byte-lt b (c ∷ cs) i h = elim (Option-cases (index_byte b cs)) [
  | inl missing ↦ ground arith
  | inr (j, found) ↦ ground (arith, index_byte-lt b cs j found)
]

add_header-IsSized :
    (name value : List ℕ) (req : Request) {req' : Request}
    → add_header name value req ≡ some req'
    → IsSized req
    → IsSized req'
unfolding add_header
add_header-IsSized name value req h v = elim (Bool-cases (equal_fold name content_length_name)) [
  | inl length_line ↦ ground arith
  | inr other ↦ ground arith
]

-- A header line that is accepted, where the request has a fitting length before it.
abbrev MayAdd : Option Request → Type 0
MayAdd o = (req' : Request) → o ≡ some req' → IsSized req'

add_line_split :
    (line : List ℕ) (req : Request) (o : Option ℕ)
    → IsSized req
    → ((p : ℕ) → o ≡ some p → p < length line)
    → Ends MayAdd (elim o [
      | none ↦ ok none
      | some p ↦
          (slice line 0 p >>= λ name. slice_from line (p + 1) >>= λ value.
          ok (add_header (trim_space name) (trim_space value) req))
    ])
add_line_split line req none v inside = ends (λ req' e. absurd (cc e))
add_line_split line req (some p) v inside =
    let low = inside p refl in
    Ends-slice line 0 p _ (omega arith) (omega arith) (
      Ends-slice line (p + 1) (length line) _ (omega arith) (omega arith)
        (ends (λ req' e. add_header-IsSized _ _ req e v)))

add_line_lem :
    (line : List ℕ) (req : Request)
    → 0 < length line
    → IsSized req
    → Ends MayAdd (add_line line req)
unfolding add_line
add_line_lem line req some_byte v = Ends-load line 0 _ some_byte λ c.
    Ends-test (is_letter c)
      (λ _. add_line_split line req (index_byte 58 line) v (index_byte-lt 58 line))
      (λ _. ends (λ req' e. absurd (cc e)))

pub some_line : (p c : ℕ) (cs : List ℕ) → 0 < length (take (suc p - 0) (drop 0 (c ∷ cs)))
some_line p c cs = let same : suc p - 0 ≡ suc p = omega arith in rw same (omega arith)

-- What follows a header line.
line_then :
    (n : ℕ) (o : Option Request) (k : Request → Run Parsed)
    → MayAdd o
    → ((req : Request) → IsSized req → Ends (Fits n) (k req))
    → Ends (Fits n) (elim o [ none ↦ ok refused | some req ↦ k req ])
line_then n none k sized next = Fits-refused
line_then n (some req) k sized next = next req (sized req refl)

header_lines_lem :
    (f offset n : ℕ) (rest : List ℕ) (req : Request)
    → length rest ≤ f
    → 8 ≤ offset
    → offset + length rest ≡ n
    → IsSized req
    → Ends (Fits n) (header_lines f offset rest req)
unfolding header_lines
header_lines_lem zero offset n [] req room low at v = ends (record { is = (low, omega arith, v) })
header_lines_lem (suc f) offset n [] req room low at v =
    ends (record { is = (low, omega arith, v) })
header_lines_lem zero offset n (c ∷ cs) req room low at v = absurd (omega arith)
header_lines_lem (suc f) offset n (c ∷ cs) req room low at v =
    found (index_crlf (c ∷ cs)) (index_crlf-lt (c ∷ cs)) λ p rest req' size inside sized.
      header_lines_lem f (offset + suc p + 2) n rest req' (omega (arith, size)) (omega arith)
        (omega (arith, size)) sized
  where
    found :
        (o : Option ℕ)
        → ((i : ℕ) → o ≡ some i → i + 2 ≤ length (c ∷ cs))
        → ((p : ℕ) (rest : List ℕ) (req' : Request)
            → length rest ≡ length (c ∷ cs) - (suc p + 2)
            → suc p + 2 ≤ length (c ∷ cs)
            → IsSized req'
            → Ends (Fits n) (header_lines f (offset + suc p + 2) rest req'))
        → Ends (Fits n) (elim o [
          | none ↦ ok partial
          | some zero ↦ ok (request req (offset + 2))
          | some (suc p) ↦
              (slice (c ∷ cs) 0 (suc p) >>= λ line. add_line line req >>= λ o'. elim o' [
                | none ↦ ok refused
                | some req' ↦
                    (slice_from (c ∷ cs) (suc p + 2) >>= λ rest.
                    header_lines f (offset + suc p + 2) rest req')
              ])
        ])
    found none inside next = Fits-partial
    found (some zero) inside next =
        ends (record { is = (omega arith, omega (arith, inside 0 refl), v) })
    found (some (suc p)) inside next =
        let low = inside (suc p) refl in
        Ends-slice (c ∷ cs) 0 (suc p) _ (omega arith) (omega arith) (
          Ends-bind (add_line_lem _ req (some_line p c cs) v) λ o' may.
            line_then n o' _ may λ req' sized.
              Ends-slice (c ∷ cs) (suc p + 2) (length (c ∷ cs)) _ (omega arith) (omega arith)
                (next p _ req' (length-rest (c ∷ cs) (suc p + 2) low) low sized))

module _ (post : Bool) (offset : ℕ) (buf : List ℕ) (low : 4 ≤ offset) where
  -- The header lines behind the end of the request line.
  lines_after :
      (after : ℕ) (start : Request) (o : Option ℕ)
      → offset + 2 ≤ after
      → after ≤ length buf
      → ((i : ℕ) → o ≡ some i → i + 2 ≤ length buf - after)
      → IsSized start
      → Ends (Fits (length buf)) (elim o [
        | none ↦ ok partial
        | some q ↦
            (slice_from buf (after + q + 2) >>= λ rest.
            header_lines (length buf) (after + q + 2) rest start)
      ])
  lines_after after start none high within inside v = Fits-partial
  lines_after after start (some q) high within inside v =
      let room = inside q refl in
      let left = length-rest buf (after + q + 2) (omega arith) in
      Ends-slice buf (after + q + 2) (length buf) _ (omega arith) (omega arith) (
        header_lines_lem (length buf) (after + q + 2) (length buf) _ start (omega (arith, left))
          (omega arith) (omega (arith, left)) v)

  after_uri_lem :
      (after : ℕ) (start : Request)
      → offset + 2 ≤ after
      → IsSized start
      → Ends (Fits (length buf)) (after_uri after buf start)
  unfolding after_uri
  after_uri_lem after start high v =
      Ends-test (leb (length buf) after) (λ _. Fits-partial)
        λ long.
          let within : after ≤ length buf = ground arith in
          Ends-slice buf after (length buf) _ within (omega arith) (
            lines_after after start (index_crlf (rest_of buf after)) high within
              (λ i e.
                omega (arith, index_crlf-lt (rest_of buf after) i e, length-rest buf after within))
              v)

  request_line_lem : offset < length buf → Ends (Fits (length buf)) (request_line post offset buf)
  unfolding request_line
  request_line_lem inside = Ends-load buf offset _ inside λ c.
      Ends-test (c == 47)
        (λ _. Ends-slice buf (offset + 1) (length buf) _ (omega arith) (omega arith) (
          uri_end (index_byte 32 (rest_of buf (offset + 1))) λ p e. omega (
            arith,
            index_byte-lt 32 (rest_of buf (offset + 1)) p e,
            length-rest buf (offset + 1) (omega arith),
          )))
        (λ _. Fits-refused)
    where
      uri_end :
          (o : Option ℕ)
          → ((p : ℕ) → o ≡ some p → offset + 1 + p < length buf)
          → Ends (Fits (length buf)) (elim o [
            | none ↦ ok partial
            | some p ↦
                ((if p == 0 then ok (47 ∷ []) else slice buf offset (offset + 1 + p)) >>= λ uri.
                after_uri (offset + 2 + p) buf (record {
                  post = post;
                  content_length = pos 0;
                  uri = uri;
                  host = [];
                  headers = [];
                }))
          ])
      uri_end none within = Fits-partial
      uri_end (some p) within =
          Ends-bind
            (Ends-test (p == 0) (λ _. ends refl)
              (λ _.
                slice-Ends buf offset (offset + 1 + p) (omega arith)
                  (omega (arith, within p refl))))
            λ uri (e : zero ≡ zero). after_uri_lem (offset + 2 + p) _ (omega arith) (λ _. refl)

reads_at_lem :
    (xs : List ℕ) (i : ℕ) (buf : List ℕ)
    → i + length xs ≤ length buf
    → Ends (λ b. zero ≡ zero) (reads_at xs i buf)
reads_at_lem [] i buf inside = ends refl
reads_at_lem (x ∷ xs) i buf inside =
    Ends-load buf i _ (omega arith) λ c. at (c == x) (reads_at_lem xs (suc i) buf (omega arith))
  where
    at :
        (b : Bool) {r : Run Bool}
        → Ends (λ b. zero ≡ zero) r
        → Ends {A = Bool} (λ b. zero ≡ zero) (elim b [ true ↦ r | false ↦ ok false ])
    at true p = p
    at false p = ends refl

method_end_lem :
    (post : Bool) (n : ℕ) (buf : List ℕ)
    → 3 ≤ n
    → n + 1 < length buf
    → Ends (Fits (length buf)) (method_end post n buf)
method_end_lem post n buf low inside = Ends-load buf n _ (omega arith) λ c.
    Ends-test (is_blank c) (λ _. request_line_lem post (n + 1) buf (omega arith) inside)
      (λ _. Fits-refused)

-- parseHeader returns, without a panic, for any bytes: no index and no slice leaves them. The header of a request
-- that it finds has at least eight bytes and lies in the buffer, and the content length of a GET request is 0.
pub parse_header_lem : (buf : List ℕ) → Ends (Fits (length buf)) (parse_header buf)
unfolding parse_header
parse_header_lem buf =
    Ends-test (ltb (length buf) 18) (λ _. Fits-partial)
      λ long. Ends-bind (reads_at_lem (71 ∷ 69 ∷ 84 ∷ []) 0 buf (ground arith)) λ get _.
        Ends-bind (reads_at_lem (80 ∷ 79 ∷ 83 ∷ 84 ∷ []) 0 buf (ground arith)) λ post _.
          Ends-test get (λ _. method_end_lem false 3 buf (omega arith) (ground arith))
            λ _.
              Ends-test post (λ _. method_end_lem true 4 buf (omega arith) (ground arith))
                (λ _. Fits-refused)

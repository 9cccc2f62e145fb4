-- ===== src/Http/Print.antt =====
-- parseHeader finds in a printed request what was printed.
use goev.Prelude.{
  ℕ, zero, suc, ◌+◌, ◌-◌, ◌≤◌, ◌≡◌, ◌≢◌, refl, sym, ap, ◌∙◌, arith, true, false, Option, none, some,
  List, [], ◌∷◌, ◌++◌, ltb, leb, ◌==◌, if◌then◌else◌, length, length-append, length-drop, take,
  drop, load, slice, slice_from, slice-ok, get_elem?, Run, ok, ◌>>=◌, Bool-cases, inl, inr,
  append_assoc, append-nil,
}
use goev.Prelude.Int.{pos}
use goev.Address.{index_byte}
use goev.Http.Text.{index_crlf, trim_space, equal_fold}
use goev.Http.{
  Request, Parsed, partial, refused, request, add_header, add_line, header_lines, after_uri,
  request_line, parse_header, is_letter, content_length_name, host_name,
}

abbrev pub Lacks : ℕ → List ℕ → Type 0
Lacks b [] = Unit {0}
Lacks b (x ∷ xs) = (x ≢ b) × Lacks b xs

index_byte-append :
    (b : ℕ) (xs ys : List ℕ) → Lacks b xs → index_byte b (xs ++ (b ∷ ys)) ≡ some (length xs)
index_byte-append b [] ys free = ground arith
index_byte-append b (x ∷ xs) ys (ne, free) = ground (arith, index_byte-append b xs ys free)

index_crlf-append :
    (xs ys : List ℕ) → Lacks 13 xs → index_crlf (xs ++ (13 ∷ 10 ∷ ys)) ≡ some (length xs)
index_crlf-append [] ys free = refl
index_crlf-append (x ∷ []) ys (ne, free) = ground arith
index_crlf-append (x ∷ y ∷ xs) ys (ne, free) = ground (arith, index_crlf-append (y ∷ xs) ys free)

take-append : (xs ys : List ℕ) → take (length xs) (xs ++ ys) ≡ xs
take-append [] ys = refl
take-append (x ∷ xs) ys = ap (◌∷◌ x) (take-append xs ys)

drop-append : (k : ℕ) (xs ys : List ℕ) → drop (length xs + k) (xs ++ ys) ≡ drop k ys
drop-append k [] ys = let same : 0 + k ≡ k = omega arith in ap (λ n. drop n ys) same
drop-append k (x ∷ xs) ys =
    let same : suc (length xs) + k ≡ suc (length xs + k) = omega arith in
    ap (λ n. drop n (x ∷ (xs ++ ys))) same ∙ drop-append k xs ys

take-all : (n : ℕ) (xs : List ℕ) → length xs ≤ n → take n xs ≡ xs
take-all zero [] h = refl
take-all (suc n) [] h = refl
take-all zero (x ∷ xs) h = absurd (omega arith)
take-all (suc n) (x ∷ xs) h = ap (◌∷◌ x) (take-all n xs (omega arith))

-- `xs[n:]` of a text that begins with `n` bytes.
slice_from-append :
    (n : ℕ) (xs ys zs : List ℕ) → n ≤ length xs → drop n xs ≡ zs → slice_from xs n ≡ ok zs
slice_from-append n xs ys zs low e =
    slice-ok xs n (length xs) low (omega arith)
    ∙ ap ok (take-all (length xs - n) (drop n xs) (omega (arith, length-drop n xs)) ∙ e)

-- `xs[:n]` of a text that begins with `n` bytes.
slice-append : (xs ys : List ℕ) → slice (xs ++ ys) 0 (length xs) ≡ ok xs
slice-append xs ys =
    let same : length xs - 0 ≡ length xs = omega arith in
    slice-ok (xs ++ ys) 0 (length xs) (omega arith) (omega (arith, length-append xs ys))
    ∙ ap (λ n. ok (take n (xs ++ ys))) same
    ∙ ap ok (take-append xs ys)

abbrev pub Field : Type 0
Field = List ℕ × List ℕ

-- A header as `name: value`.
abbrev pub print_field : Field → List ℕ
print_field (name, value) = name ++ (58 ∷ 32 ∷ value)

-- The header lines with their CRLF, the empty line, and what follows.
abbrev pub print_fields : List Field → List ℕ → List ℕ
print_fields [] rest = 13 ∷ 10 ∷ rest
print_fields (x ∷ xs) rest = print_field x ++ (13 ∷ 10 ∷ print_fields xs rest)

abbrev pub fields_size : List Field → ℕ
fields_size [] = 2
fields_size (x ∷ xs) = length (print_field x) + 2 + fields_size xs

-- A name that begins with a letter and holds no colon, and a value, both without CR and without white space at
-- their ends, and the name not that of the content length.
pub record IsField (name value : List ℕ) : Type 0 where
  pub letter : (c : ℕ) × (cs : List ℕ) × (name ≡ c ∷ cs) × (is_letter c ≡ true)
  pub no_colon : Lacks 58 name
  pub no_cr : Lacks 13 name × Lacks 13 value
  pub trimmed : (trim_space name ≡ name) × (trim_space (32 ∷ value) ≡ value)
  pub no_length : equal_fold name content_length_name ≡ false

abbrev pub AreFields : List Field → Type 0
AreFields [] = Unit {0}
AreFields ((name, value) ∷ xs) = IsField name value × AreFields xs

-- The value of the last header that is called Host.
abbrev pub host_of : List ℕ → List Field → List ℕ
host_of host [] = host
host_of host ((name, value) ∷ xs) = host_of (if equal_fold name host_name then value else host) xs

-- The request with more headers.
abbrev pub with_fields : List Field → Request → Request
with_fields xs req = record req { headers = req.headers ++ xs; host = host_of req.host xs }

module _ (name value : List ℕ) (req : Request) (v : IsField name value) where
  add_header-field : add_header name value req ≡ some (with_fields ((name, value) ∷ []) req)
  unfolding add_header
  add_header-field =
      let other = v.no_length in
      elim (Bool-cases (equal_fold name host_name)) [
        | inl host ↦ rw (other, host) refl
        | inr no_host ↦ rw (other, no_host) refl
      ]

  pub add_line-field :
      add_line (print_field (name, value)) req ≡ ok (some (with_fields ((name, value) ∷ []) req))
  unfolding add_line load
  add_line-field =
      let (c, cs, e, l) = v.letter in
      let line = print_field (name, value) in
      let size = length-append name (58 ∷ 32 ∷ value) in
      let start : get_elem? line 0 ≡ some c = ap (λ n. get_elem? (n ++ (58 ∷ 32 ∷ value)) 0) e in
      let behind : slice_from line (length name + 1) ≡ ok (32 ∷ value) =
        slice_from-append (length name + 1) line [] (32 ∷ value) (omega (arith, size))
          (drop-append 1 name (58 ∷ 32 ∷ value)) in
      rw
        (
          start,
          l,
          index_byte-append 58 name (32 ∷ value) v.no_colon,
          slice-append name (58 ∷ 32 ∷ value),
          behind,
          v.trimmed.0,
          v.trimmed.1,
          add_header-field,
        )
        refl

Lacks-append : (b : ℕ) (xs ys : List ℕ) → Lacks b xs → Lacks b ys → Lacks b (xs ++ ys)
Lacks-append b [] ys p q = q
Lacks-append b (x ∷ xs) ys (ne, p) q = (ne, Lacks-append b xs ys p q)

with_fields-cons :
    (x : Field) (xs : List Field) (req : Request)
    → with_fields xs (with_fields (x ∷ []) req) ≡ with_fields (x ∷ xs) req
with_fields-cons x xs req =
    ap (λ hs. record req { headers = hs; host = host_of req.host (x ∷ xs) })
      (append_assoc req.headers (x ∷ []) xs)

-- What a round of the loop does with a line that ends at `suc p`.
one_line :
    (f offset p c : ℕ) (cs : List ℕ) (req : Request)
    → index_crlf (c ∷ cs) ≡ some (suc p)
    → header_lines (suc f) offset (c ∷ cs) req ≡ (
        slice (c ∷ cs) 0 (suc p) >>= λ line. add_line line req >>= λ o. elim o [
          | none ↦ ok refused
          | some req' ↦
              (slice_from (c ∷ cs) (suc p + 2) >>= λ rest.
              header_lines f (offset + suc p + 2) rest req')
        ])
unfolding header_lines
one_line f offset p c cs req e =
    ap
      (λ (o : Option ℕ). elim o as (λ _. Run Parsed) [
        | none ↦ ok partial
        | some zero ↦ ok (request req (offset + 2))
        | some (suc q) ↦
            (slice (c ∷ cs) 0 (suc q) >>= λ line. add_line line req >>= λ o'. elim o' [
              | none ↦ ok refused
              | some req' ↦
                  (slice_from (c ∷ cs) (suc q + 2) >>= λ rest.
                  header_lines f (offset + suc q + 2) rest req')
            ])
      ])
      e

header_lines-print :
    (f offset : ℕ) (fields : List Field) (rest : List ℕ) (req : Request)
    → length (print_fields fields rest) ≤ f
    → AreFields fields
    → header_lines f offset (print_fields fields rest) req
      ≡ ok (request (with_fields fields req) (offset + fields_size fields))
unfolding header_lines
header_lines-print zero offset [] rest req room are = absurd (omega arith)
header_lines-print (suc f) offset [] rest req room are =
    ap (λ hs. ok (request (record req { headers = hs }) (offset + 2)))
      (sym (append-nil req.headers))
header_lines-print f offset (([], value) ∷ xs) rest req room (v, are) =
    let (c, cs, e, l) = v.letter in absurd (cc e)
header_lines-print zero offset ((c ∷ cs, value) ∷ xs) rest req room (v, are) = absurd (omega arith)
header_lines-print (suc f) offset ((c ∷ cs, value) ∷ xs) rest req room (v, are) =
    let line = print_field (c ∷ cs, value) in
    let more = print_fields xs rest in
    let size = length-append line (13 ∷ 10 ∷ more) in
    let found : index_crlf (line ++ (13 ∷ 10 ∷ more)) ≡ some (length line) =
      index_crlf-append line more (
        Lacks-append 13 (c ∷ cs) (58 ∷ 32 ∷ value) v.no_cr.0
          ((λ e. absurd (omega (arith, e))), ((λ e. absurd (omega (arith, e))), v.no_cr.1))) in
    let behind : slice_from (line ++ (13 ∷ 10 ∷ more)) (length line + 2) ≡ ok more =
      slice_from-append (length line + 2) (line ++ (13 ∷ 10 ∷ more)) [] more (omega (arith, size))
        (drop-append 2 line (13 ∷ 10 ∷ more)) in
    let at : offset + length line + 2 + fields_size xs
        ≡ offset + fields_size ((c ∷ cs, value) ∷ xs) =
      omega arith in
    one_line f offset (length (cs ++ (58 ∷ 32 ∷ value))) c _ req found
    ∙ rw
        (
          slice-append line (13 ∷ 10 ∷ more),
          ◌>>=◌,
          add_line-field (c ∷ cs) value req v,
          ◌>>=◌,
          behind,
          ◌>>=◌,
        )
        (header_lines-print f (offset + length line + 2) xs rest
          (with_fields ((c ∷ cs, value) ∷ []) req) (omega (arith, size)) are)
    ∙ ap (λ r. ok (request r (offset + length line + 2 + fields_size xs)))
        (with_fields-cons (c ∷ cs, value) xs req)
    ∙ ap (λ n. ok (request (with_fields ((c ∷ cs, value) ∷ xs) req) n)) at

length_zero : (xs : List ℕ) → length xs ≡ 0 → xs ≡ []
length_zero [] h = refl
length_zero (x ∷ xs) h = absurd (omega arith)

-- A GET request for "/" and the rest of a URI.
abbrev pub print_request : List ℕ → List ℕ → List Field → List ℕ → List ℕ
print_request uri version fields rest =
    71 ∷ 69 ∷ 84 ∷ 32 ∷ 47 ∷ (uri ++ (32 ∷ (version ++ (13 ∷ 10 ∷ print_fields fields rest))))

abbrev pub get_of : List ℕ → Request
get_of uri = record {
  post = false;
  content_length = pos 0;
  uri = 47 ∷ uri;
  host = [];
  headers = [];
}

module _ (uri version : List ℕ) (fields : List Field) (rest : List ℕ) where
  abbrev printed : List ℕ
  printed = print_request uri version fields rest

  abbrev behind : List ℕ
  behind = version ++ (13 ∷ 10 ∷ print_fields fields rest)

  abbrev size : ℕ
  size = 6 + length uri + length version + 2

  room : length printed ≡ 6 + length uri + length behind
  room = omega (arith, length-append uri (32 ∷ behind))

  room_behind : length behind ≡ length version + 2 + length (print_fields fields rest)
  room_behind = omega (arith, length-append version (13 ∷ 10 ∷ print_fields fields rest))

  target_found : slice_from printed 5 ≡ ok (uri ++ (32 ∷ behind))
  target_found = slice_from-append 5 printed [] _ (omega (arith, room)) refl

  behind_uri : slice_from printed (6 + length uri) ≡ ok behind
  behind_uri =
      let same : 6 + length uri ≡ suc (suc (suc (suc (suc (length uri + 1))))) = omega arith in
      slice_from-append (6 + length uri) printed [] behind (omega (arith, room))
        (ap (λ n. drop n printed) same ∙ drop-append 1 uri (32 ∷ behind))

  behind_version : slice_from printed size ≡ ok (print_fields fields rest)
  behind_version =
      let same : size ≡ suc (suc (suc (suc (suc (length uri + suc (length version + 2)))))) =
        omega arith in
      slice_from-append size printed [] _ (omega (arith, room, room_behind)) (
        ap (λ n. drop n printed) same
        ∙ drop-append (suc (length version + 2)) uri (32 ∷ behind)
        ∙ drop-append 2 version (13 ∷ 10 ∷ print_fields fields rest))

  -- The URI that is found.
  uri_found :
      (if length uri == 0 then ok (47 ∷ []) else slice printed 4 (5 + length uri)) ≡ ok (47 ∷ uri)
  uri_found =
      let same : 5 + length uri - 4 ≡ suc (length uri) = omega arith in
      let whole : slice printed 4 (5 + length uri) ≡ ok (47 ∷ uri) =
        slice-ok printed 4 (5 + length uri) (omega arith) (omega (arith, room))
        ∙ ap (λ n. ok (take n (47 ∷ (uri ++ (32 ∷ behind))))) same
        ∙ ap (λ xs. ok (47 ∷ xs)) (take-append uri (32 ∷ behind)) in
      elim (Bool-cases (length uri == 0)) [
        | inl none_left ↦
            rw none_left (ap (λ xs. ok (47 ∷ xs)) (sym (length_zero uri (ground arith))))
        | inr some_left ↦ rw some_left whole
      ]

  -- parseHeader of a printed GET request of 18 bytes or more, with no space in the URI, no CR in the version, and
  -- headers printed as `name: value`, none of them for the content length, gives back the URI and exactly
  -- these headers, in order, with the last one called Host, and the length of what was printed for the
  -- request, whatever follows.
  pub parse_header-print :
      Lacks 32 uri
      → Lacks 13 version
      → AreFields fields
      → 18 ≤ length printed
      → parse_header printed
        ≡ ok (request (with_fields fields (get_of uri)) (size + fields_size fields))
  unfolding parse_header request_line after_uri load
  parse_header-print no_space no_cr are long =
      let enough : ltb (length printed) 18 ≡ false = ground arith in
      let inside : leb (length printed) (6 + length uri) ≡ false =
        ground (arith, room, room_behind) in
      rw
        (
          enough,
          target_found,
          ◌>>=◌,
          index_byte-append 32 uri behind no_space,
          uri_found,
          ◌>>=◌,
          inside,
          behind_uri,
          ◌>>=◌,
          index_crlf-append version (print_fields fields rest) no_cr,
          behind_version,
        )
        (header_lines-print (length printed) size fields rest (get_of uri)
          (omega (arith, room, room_behind)) are)

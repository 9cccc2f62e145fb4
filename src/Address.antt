-- ===== src/Address.antt =====
-- The addresses of connector.go and acceptor.go: "192.168.0.1:8080", ":8080" or "unix:/tmp/x.sock", as bytes.
-- `strings.Index`, `strings.Split`, `net.ParseIP` (of a text without a colon) and `strconv.ParseInt` in base 10
-- are those of Go 1.19.
pub mod Range
mod Tests
use goev.Prelude.{
  ℕ, zero, suc, ◌+◌, ◌-◌, ◌*◌, ◌^◌, Bool, true, false, ◌&&◌, ◌||◌, Option, none, some, List, [],
  ◌∷◌, ltb, leb, ◌==◌, if◌then◌else◌, length, take, drop,
}
use goev.Prelude.Int.{ℤ, pos, negsuc}

pub data Sockaddr : Type 0 where
  inet4 : List ℕ → ℕ → Sockaddr
  unix_path : List ℕ → Sockaddr

pub data AddressError : Type 0 where
  ip_invalid port_invalid : AddressError

pub data Resolved : Type 0 where
  bad : AddressError → Resolved
  address : List ℕ → ℕ → Resolved

-- What an address asks for: a Unix socket with its path, or TCP with the whole text.
pub data Target : Type 0 where
  uds : List ℕ → Target
  tcp : List ℕ → Target

-- strings.Index of one byte
abbrev pub index_byte : ℕ → List ℕ → Option ℕ
index_byte b [] = none
index_byte b (c ∷ cs) =
    let rest : Option ℕ = elim (index_byte b cs) [ none ↦ none | some i ↦ some (suc i) ] in
    if c == b then some 0 else rest

-- strings.Split at one byte
abbrev pub prepend : ℕ → List (List ℕ) → List (List ℕ)
prepend c [] = (c ∷ []) ∷ []
prepend c (x ∷ xs) = (c ∷ x) ∷ xs

abbrev pub split : ℕ → List ℕ → List (List ℕ)
split sep [] = [] ∷ []
split sep (c ∷ cs) = let rest = split sep cs in if c == sep then [] ∷ rest else prepend c rest

abbrev pub colon : ℕ
colon = 58

abbrev pub full_stop : ℕ
full_stop = 46

abbrev pub is_digit : ℕ → Bool
is_digit c = leb 48 c && leb c 57

-- ParseUint: the digits after `n`. A number too large ends it before a later byte is looked at.
unfoldable pub parse_digits : ℕ → List ℕ → Option ℕ
parse_digits n [] = some n
parse_digits n (c ∷ cs) =
    let next = n * 10 + (c - 48) in
    let rest : Option ℕ = parse_digits next cs in
    if is_digit c then (if ltb next (2 ^ 64) then rest else some (2 ^ 64 - 1)) else none

unfoldable pub parse_uint : List ℕ → Option ℕ
unfolding parse_digits
parse_uint [] = none
parse_uint (c ∷ cs) = parse_digits 0 (c ∷ cs)

unfoldable pub minus : ℕ → ℤ
minus zero = pos 0
minus (suc n) = negsuc n

-- The value of strconv.ParseInt(s, 10, 64), whose error is not looked at: 0 for what is no number, and
-- the nearest value for one out of range.
unfoldable pub parse_int : List ℕ → ℤ
unfolding parse_uint minus
parse_int [] = pos 0
parse_int (c ∷ cs) =
    let positive : List ℕ → ℤ = λ s. elim (parse_uint s) [
      | none ↦ pos 0
      | some n ↦ pos (if ltb n (2 ^ 63) then n else 2 ^ 63 - 1)
    ] in
    let negative : ℤ = elim (parse_uint cs) [
      | none ↦ pos 0
      | some n ↦ minus (if leb n (2 ^ 63) then n else 2 ^ 63)
    ] in
    if c == 45 then negative else if c == 43 then positive cs else positive (c ∷ cs)

abbrev pub leading_zero : List ℕ → Bool
leading_zero (c ∷ d ∷ ds) = c == 48
leading_zero _ = false

-- One field of a dotted address: digits without a leading zero, at most 255.
unfoldable pub octet : List ℕ → Option ℕ
unfolding parse_uint
octet s = elim (parse_uint s) [
  | none ↦ none
  | some n ↦ (if leading_zero s || ltb 255 n then none else some n)
]

abbrev pub octets : List (List ℕ) → Option (List ℕ)
octets [] = some []
octets (f ∷ fs) = elim (octet f) [
  | none ↦ none
  | some n ↦ (elim (octets fs) [ none ↦ none | some ns ↦ some (n ∷ ns) ])
]

-- `net.ParseIP(ip).To4()` of a text without a colon
unfoldable pub parse_ip : List ℕ → Option (List ℕ)
unfolding octet
parse_ip s = let fields = split full_stop s in if length fields == 4 then octets fields else none

-- "0.0.0.0"
abbrev pub any_ip : List ℕ
any_ip = 48 ∷ 46 ∷ 48 ∷ 46 ∷ 48 ∷ 46 ∷ 48 ∷ []

-- `port < 1 || port > 65535`
abbrev pub with_port : List ℕ → ℤ → Resolved
with_port ip (negsuc _) = bad port_invalid
with_port ip (pos port) = if ltb port 1 || ltb 65535 port then bad port_invalid else address ip port

abbrev pub with_ip : List ℕ → Option (List ℕ) → Resolved
with_ip port none = bad ip_invalid
with_ip port (some ip4) = with_port ip4 (parse_int port)

abbrev pub from_parts : List (List ℕ) → Resolved
from_parts (ip ∷ port ∷ []) =
    (let ip' = if ltb 0 (length ip) then ip else any_ip in with_ip port (parse_ip ip'))
from_parts _ = bad ip_invalid

-- From `strings.Split(addr, ":")` to the address of the socket.
unfoldable pub tcp_address : List ℕ → Resolved
unfolding parse_ip parse_int
tcp_address addr = from_parts (split colon addr)

-- "unix:"
abbrev pub unix_prefix : List ℕ
unix_prefix = 117 ∷ 110 ∷ 105 ∷ 120 ∷ 58 ∷ []

abbrev pub bytes_equal : List ℕ → List ℕ → Bool
bytes_equal [] [] = true
bytes_equal (x ∷ xs) (y ∷ ys) = (x == y) && bytes_equal xs ys
bytes_equal _ _ = false

-- The checks of an address, and the choice by its prefix.
unfoldable pub target : List ℕ → Option Target
target addr =
    let chosen : Target =
      if ltb 5 (length addr) && bytes_equal (take 5 addr) unix_prefix
      then uds (drop 5 addr)
      else tcp addr in
    elim (index_byte colon addr) [
      | none ↦ none
      | some p ↦ (if leb (length addr - 1) p then none else some chosen)
    ]

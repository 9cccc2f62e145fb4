-- ===== src/Address/Range.antt =====
-- The addresses that are accepted.
use goev.Prelude.{
  ℕ, zero, ◌≤◌, ◌≡◌, refl, subst, arith, Bool, true, false, ◌||◌, List, [], ◌∷◌, Option, none, some,
  length, ltb, ◌==◌, if◌then◌else◌,
}
use goev.Prelude.Int.{ℤ, pos, negsuc}
use goev.Address.{
  tcp_address, Resolved, address, bad, port_invalid, octet, octets, parse_ip, parse_uint,
  leading_zero, split, full_stop, colon, with_port, with_ip, from_parts, parse_int, any_ip,
}

abbrev pub AreOctets : List ℕ → Type 0
AreOctets [] = zero ≡ zero
AreOctets (n ∷ ns) = (n ≤ 255) × AreOctets ns

-- Four octets, and a port that is not 0 and has 16 bits.
abbrev pub IsInRange : Resolved → Type 0
IsInRange (bad e) = zero ≡ zero
IsInRange (address ip port) = (length ip ≡ 4) × AreOctets ip × (1 ≤ port) × (port ≤ 65535)

abbrev IsIp : ℕ → Option (List ℕ) → Type 0
IsIp k none = zero ≡ zero
IsIp k (some ip) = (length ip ≡ k) × AreOctets ip

octet-le : (f : List ℕ) (n : ℕ) → octet f ≡ some n → n ≤ 255
unfolding octet
octet-le f n e = at (parse_uint f) e
  where
    at :
        (o : Option ℕ)
        → (elim o [ none ↦ none | some m ↦ (if leading_zero f || ltb 255 m then none else some m) ])
          ≡ some n
        → n ≤ 255
    at none e' = ground arith
    at (some m) e' = ground arith

octets-IsIp : (fs : List (List ℕ)) → IsIp (length fs) (octets fs)
octets-IsIp [] = (refl, refl)
octets-IsIp (f ∷ fs) = at (octet f) (octets fs) (octet-le f) (octets-IsIp fs)
  where
    at :
        (o : Option ℕ) (rest : Option (List ℕ))
        → ((n : ℕ) → o ≡ some n → n ≤ 255)
        → IsIp (length fs) rest
        → IsIp (length (f ∷ fs)) (elim o [
          | none ↦ none
          | some n ↦ (elim rest [ none ↦ none | some ns ↦ some (n ∷ ns) ])
        ])
    at none rest low v = refl
    at (some n) none low v = refl
    at (some n) (some ns) low v = (omega (arith, v.0), (low n refl, v.1))

parse_ip-IsIp : (s : List ℕ) → IsIp 4 (parse_ip s)
unfolding parse_ip
parse_ip-IsIp s = at (split full_stop s)
  where
    four :
        (fs : List (List ℕ)) (b : Bool)
        → (b ≡ true → length fs ≡ 4)
        → IsIp 4 (if b then octets fs else none)
    four fs true e = subst (λ k. IsIp k (octets fs)) (e refl) (octets-IsIp fs)
    four fs false e = refl

    at : (fs : List (List ℕ)) → IsIp 4 (if length fs == 4 then octets fs else none)
    at fs = four fs (length fs == 4) (λ e. ground (arith, e))

-- Every address that the parsing accepts has four octets and a port from 1 to 65535.
pub tcp_address-IsInRange : (addr : List ℕ) → IsInRange (tcp_address addr)
unfolding tcp_address
tcp_address-IsInRange addr = parts (split colon addr)
  where
    port_lem :
        (ip : List ℕ) (port : ℤ) → (length ip ≡ 4) × AreOctets ip → IsInRange (with_port ip port)
    port_lem ip (negsuc n) v = refl
    port_lem ip (pos n) v = in_range (ltb n 1 || ltb 65535 n) refl
      where
        in_range :
            (b : Bool)
            → (ltb n 1 || ltb 65535 n) ≡ b
            → IsInRange (if b then bad port_invalid else address ip n)
        in_range true e = refl
        in_range false e = (v.0, v.1, ground (arith, e), ground (arith, e))

    ip_lem : (port : List ℕ) (o : Option (List ℕ)) → IsIp 4 o → IsInRange (with_ip port o)
    ip_lem port none v = refl
    ip_lem port (some ip) v = port_lem ip (parse_int port) v

    parts : (ps : List (List ℕ)) → IsInRange (from_parts ps)
    parts [] = refl
    parts (ip ∷ []) = refl
    parts (ip ∷ port ∷ []) =
        (let ip' = if ltb 0 (length ip) then ip else any_ip in
          ip_lem port (parse_ip ip') (parse_ip-IsIp ip'))
    parts (ip ∷ port ∷ x ∷ rest) = refl

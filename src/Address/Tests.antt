-- ===== src/Address/Tests.antt =====
-- Runs of the parsing of addresses.
use goev.Prelude.{◌≡◌, refl, [], ◌∷◌, some}
use goev.Prelude.Int.{negsuc}
use goev.Address.{tcp_address, address, bad, port_invalid, ip_invalid, target, uds, parse_int}

-- "10.0.255.1:8080"
dotted :
    tcp_address (49 ∷ 48 ∷ 46 ∷ 48 ∷ 46 ∷ 50 ∷ 53 ∷ 53 ∷ 46 ∷ 49 ∷ 58 ∷ 56 ∷ 48 ∷ 56 ∷ 48 ∷ [])
    ≡ address (10 ∷ 0 ∷ 255 ∷ 1 ∷ []) 8080
unfolding tcp_address
dotted = refl

-- ":80"
no_ip : tcp_address (58 ∷ 56 ∷ 48 ∷ []) ≡ address (0 ∷ 0 ∷ 0 ∷ 0 ∷ []) 80
unfolding tcp_address
no_ip = refl

-- ":8x", and "1.2.3.256:80"
no_port : tcp_address (58 ∷ 56 ∷ 120 ∷ []) ≡ bad port_invalid
unfolding tcp_address
no_port = refl

large_octet :
    tcp_address (49 ∷ 46 ∷ 50 ∷ 46 ∷ 51 ∷ 46 ∷ 50 ∷ 53 ∷ 54 ∷ 58 ∷ 56 ∷ 48 ∷ []) ≡ bad ip_invalid
unfolding tcp_address
large_octet = refl

-- "unix:/a"
unix_socket : target (117 ∷ 110 ∷ 105 ∷ 120 ∷ 58 ∷ 47 ∷ 97 ∷ []) ≡ some (uds (47 ∷ 97 ∷ []))
unfolding target
unix_socket = refl

-- "-12"
negative : parse_int (45 ∷ 49 ∷ 50 ∷ []) ≡ negsuc 11
unfolding parse_int
negative = refl

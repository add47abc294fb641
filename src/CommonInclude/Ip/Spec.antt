-- ===== src/CommonInclude/Ip/Spec.antt =====
-- What an IPv4 address in dotted notation is, independently of the parser.
use sneso_ip.Common.{ℕ, ◌+◌, ◌-◌, ◌*◌, ◌≤◌, ◌≡◌, ◌≢◌, [], ◌∷◌, ◌++◌, Bytes, All}
use sneso_ip.Cstring.{dot, print_u8}

abbrev pub IsDigit : ℕ → Type 0
IsDigit c = (b'0' ≤ c) × (c ≤ b'9')

-- The number that digits spell behind `n`.
abbrev pub value : ℕ → Bytes → ℕ
value n [] = n
value n (c ∷ s) = value (n * 10 + (c - b'0')) s

-- Digits that keep the number at most 255. No digit at all counts as 0.
abbrev pub OctetFrom : ℕ → Bytes → Type 0
OctetFrom n s = All IsDigit s × (value n s ≤ 255)

abbrev pub IsOctet : Bytes → Type 0
IsOctet = OctetFrom 0

abbrev pub join4 : Bytes → Bytes → Bytes → Bytes → Bytes
join4 a b c d = a ++ (dot ∷ (b ++ (dot ∷ (c ++ (dot ∷ d)))))

-- Four octets with dots between them, of which the two in the middle are not empty.
abbrev pub IsDotted : Bytes → Type 0
IsDotted s =
    (a : Bytes) × (b : Bytes) × (c : Bytes) × (d : Bytes) × (s ≡ join4 a b c d)
    × IsOctet a
    × IsOctet b
    × IsOctet c
    × IsOctet d
    × (b ≢ [])
    × (c ≢ [])

-- The text of an address, as `inet_ntop` is documented to write it.
abbrev pub dotted_quad : ℕ → ℕ → ℕ → ℕ → Bytes
dotted_quad a b c d = join4 (print_u8 a) (print_u8 b) (print_u8 c) (print_u8 d)

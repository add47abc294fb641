-- ===== src/Login/Mysql/Size.antt =====
-- The queries fit into the buffers that they are printed into.
use sneso_ip.Common.{
  ℕ, zero, suc, ◌+◌, ◌-◌, ◌*◌, ◌/◌, ◌%◌, ◌≤◌, ◌<◌, ◌≡◌, refl, ap, ◌∙◌, true, false, some, List, [],
  ◌∷◌, arith, Bytes, length, take, length-append,
}
use sneso_ip.Common.Int.{ℤ, pos, negsuc}
use sneso_ip.Login.{set_online, set_ip, set_port, set_date}
use sneso_ip.Login.Mysql.{
  Query, user_id, user_online, opponent, client_key, dest_addr, auth, mode, free_port, write,
  all_offline, all_ip_none, all_port_zero, digits, print_int, Piece, code, fixed, given,
  update_format, format, text, size, query_text,
}
use sneso_ip.Login.Mysql.Literals.{Escapes, read, outside, meant, read-format}

-- The sizes of the arguments: a user name of a session has 20 bytes at most, an address 15, a password
-- 30, and what the database gave for an opponent 31.
unfoldable pub IsShort : Query → Type 0
IsShort (user_id user) = length user ≤ 20
IsShort (user_online user) = length user ≤ 31
IsShort (opponent user) = length user ≤ 31
IsShort (client_key user) = length user ≤ 20
IsShort (dest_addr user) = length user ≤ 31
IsShort (auth user pass) = (length user ≤ 20) × (length pass ≤ 30)
IsShort (mode user dest) = (length user ≤ 20) × (length dest ≤ 20)
IsShort (free_port ip port) = length ip ≤ 15
IsShort (write (set_online user b)) = length user ≤ 20
IsShort (write (set_port user port)) = length user ≤ 20
IsShort (write (set_date user)) = length user ≤ 20
IsShort (write (set_ip user ip)) = (length user ≤ 20) × (length ip ≤ 15)
IsShort all_offline = 0 ≤ 0
IsShort all_ip_none = 0 ≤ 0
IsShort all_port_zero = 0 ≤ 0

length-digits : (n k : ℕ) → length (digits n k) ≤ n
unfolding digits
length-digits zero k = omega arith
length-digits (suc n) k =
    ground
      (arith, length-append (digits n (k / 10)) ((b'0' + k % 10) ∷ []), length-digits n (k / 10))

pub length-print_int : (z : ℤ) → length (print_int z) ≤ 11
unfolding print_int
length-print_int (pos n) = omega (arith, length-digits 10 n)
length-print_int (negsuc n) = omega (arith, length-digits 10 (n + 1))

-- The bytes that a format needs, if escaping doubles the length at most.
cost : List Piece → ℕ
cost [] = 0
cost (code t ∷ ps) = length t + cost ps
cost (fixed t ∷ ps) = 2 + length t + cost ps
cost (given t ∷ ps) = 2 + 2 * length t + cost ps

length-text :
    (escape : Bytes → Bytes) (ps : List Piece)
    → ((s : Bytes) → length (escape s) ≤ 2 * length s)
    → length (text escape ps) ≤ cost ps
unfolding text cost
length-text escape [] h = omega arith
length-text escape (code t ∷ ps) h =
    omega (arith, length-append t (text escape ps), length-text escape ps h)
length-text escape (fixed t ∷ ps) h =
    omega (arith, length-append t (39 ∷ text escape ps), length-text escape ps h)
length-text escape (given t ∷ ps) h =
    omega (arith, length-append (escape t) (39 ∷ text escape ps), h t, length-text escape ps h)

cost-format : (q : Query) → IsShort q → cost (format q) < size q
unfolding cost format update_format IsShort size
cost-format (user_id user) h = omega arith
cost-format (user_online user) h = omega arith
cost-format (opponent user) h = omega arith
cost-format (client_key user) h = omega arith
cost-format (dest_addr user) h = omega arith
cost-format (auth user pass) h = omega (arith, h.0, h.1)
cost-format (mode user dest) h = omega (arith, h.0, h.1)
cost-format (free_port ip port) h = omega (arith, length-print_int port)
cost-format (write (set_online user true)) h = omega arith
cost-format (write (set_online user false)) h = omega arith
cost-format (write (set_port user port)) h = omega (arith, length-print_int port)
cost-format (write (set_date user)) h = omega arith
cost-format (write (set_ip user ip)) h = omega (arith, h.0, h.1)
cost-format all_offline h = omega arith
cost-format all_ip_none h = omega arith
cost-format all_port_zero h = omega arith

pub take_all : (n : ℕ) (s : Bytes) → length s ≤ n → take n s ≡ s
take_all zero [] h = refl
take_all zero (c ∷ s) h = absurd (omega arith)
take_all (suc n) [] h = refl
take_all (suc n) (c ∷ s) h = ap (λ (t : Bytes). c ∷ t) (take_all n s (omega arith))

-- A query whose texts have the sizes of IsShort is not cut off by its buffer, and the database reads
-- the query that is meant, with exactly the given texts in its quotes, if escaping does what is
-- documented and doubles a text at most.
pub query_text-read :
    (escape : Bytes → Bytes) (q : Query)
    → Escapes escape
    → ((s : Bytes) → length (escape s) ≤ 2 * length s)
    → IsShort q
    → (query_text escape q ≡ text escape (format q))
      × (read outside [] (query_text escape q) ≡ some (meant (format q)))
unfolding query_text
query_text-read escape q h doubles short =
    let fits = cost-format q short in
    let len = length-text escape (format q) doubles in
    let whole = take_all (size q - 1) (text escape (format q)) (omega arith) in
    (whole, ap (read outside []) whole ∙ read-format escape q h)

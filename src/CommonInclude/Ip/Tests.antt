-- ===== src/CommonInclude/Ip/Tests.antt =====
-- Runs of the address parser, and its theorems at concrete inputs.
use sneso_ip.Common.{
  ℕ, zero, suc, ◌+◌, ◌*◌, ◌≡◌, ◌≢◌, ◌↔◌, refl, Bool, true, false, some, none, [], ◌∷◌, arith, codes,
  replicate, All,
}
use sneso_ip.Cstring.{dot, tokens, tokens_from, atoi}
use sneso_ip.CommonInclude.Ip.{ip_is_valid, ip_is_valid_fuel, parse_ip, str_to_ip, write_tokens}
use sneso_ip.CommonInclude.Ip.Spec.{IsDotted, join4, dotted_quad}
use sneso_ip.CommonInclude.Ip.Scan.{ip_is_valid_endless}
use sneso_ip.CommonInclude.Ip.Valid.{ip_is_valid-IsDotted}
use sneso_ip.CommonInclude.Ip.Read.{str_to_ip-join4, str_to_ip-dotted_quad}

All-replicate : (n : ℕ) → All (λ c. (c ≢ 0) × (c ≢ dot)) (replicate n b'1')
All-replicate zero = tt
All-replicate (suc n) = ((omega arith, omega arith), All-replicate n)

accepts : ip_is_valid (codes "10.0.0.3") ≡ some true
unfolding ip_is_valid ip_is_valid_fuel
accepts = refl

-- A dot at the end, or at the start, is accepted.
accepts_open : ip_is_valid (codes "1.2.3.") ≡ some true
unfolding ip_is_valid ip_is_valid_fuel
accepts_open = refl

refuses : ip_is_valid (codes "1.2..3") ≡ some false
unfolding ip_is_valid ip_is_valid_fuel
refuses = refl

reads : str_to_ip (codes "10.0.0.3") (9 ∷ 9 ∷ 9 ∷ 9 ∷ []) ≡ 10 ∷ 0 ∷ 0 ∷ 3 ∷ []
unfolding str_to_ip tokens tokens_from write_tokens atoi
reads = refl

out_wraps : parse_ip (codes "1.2.3.4") ≡ (true, 3 * 256 + 4)
unfolding parse_ip
out_wraps = refl

ip_is_valid-IsDotted_example :
    ((r : Bool) × (ip_is_valid (codes "10.0.0.3") ≡ some r))
    × ((ip_is_valid (codes "10.0.0.3") ≡ some true) ↔ IsDotted (codes "10.0.0.3"))
ip_is_valid-IsDotted_example = ip_is_valid-IsDotted (codes "10.0.0.3") (omega arith) (omega arith)

ip_is_valid_endless_example : ip_is_valid_fuel 5000 (replicate 300 b'1') ≡ none
ip_is_valid_endless_example =
    ip_is_valid_endless 5000 (replicate 300 b'1') (All-replicate 300) (omega arith)

str_to_ip-join4_example :
    str_to_ip (join4 (codes "10") (codes "0") (codes "007") (codes "3")) (1 ∷ 1 ∷ 1 ∷ 1 ∷ 5 ∷ [])
    ≡ 10 ∷ 0 ∷ 7 ∷ 3 ∷ 5 ∷ []
str_to_ip-join4_example =
    str_to_ip-join4 (codes "10") (codes "0") (codes "007") (codes "3") (omega arith)
      ((λ e. cc), (λ e. cc), (λ e. cc), (λ e. cc)) 1 1 1 1 (5 ∷ [])

str_to_ip-dotted_quad_example :
    (ip_is_valid (dotted_quad 192 168 100 1) ≡ some true)
    × (str_to_ip (dotted_quad 192 168 100 1) (0 ∷ 0 ∷ 0 ∷ 0 ∷ []) ≡ 192 ∷ 168 ∷ 100 ∷ 1 ∷ [])
str_to_ip-dotted_quad_example =
    str_to_ip-dotted_quad 192 168 100 1 0 0 0 0 [] (omega arith) (omega arith) (omega arith)
      (omega arith)

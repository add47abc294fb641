-- ===== src/Vsnesoip/Master.antt =====
-- The master's address in Archive/Rev2/utils/vsnesoip/login.c, as the login server sends it to a
-- slave. There the address is the format of `snprintf`; what it prints for a format is a parameter.
use sneso_ip.Common.{
  ℕ, ◌≤◌, ◌<◌, ◌≡◌, refl, ap, ◌∙◌, true, false, Option, none, some, [], ◌∷◌, ◌++◌, append_assoc,
  arith, Bytes, ◌==◌, if◌then◌else◌, length, length-append, take,
}
use sneso_ip.Common.Int.{ℤ, pos}
use sneso_ip.Cstring.{atoi, lacks, PrintsPlain}
use sneso_ip.Login.Port.{addr_line}
use sneso_ip.Login.Mysql.{digits, print_int}
use sneso_ip.Login.Mysql.Print.{all_digits, digits-all_digits, atoi-print_int}
use sneso_ip.Login.Mysql.Size.{length-print_int, take_all}

-- `strtok`: the separators in front are left out; then the token goes up to the next one, which is
-- left out too.
unfoldable pub skip : ℕ → Bytes → Bytes
skip sep [] = []
skip sep (c ∷ s) = let rest = skip sep s in if c == sep then rest else c ∷ s

unfoldable pub token : ℕ → Bytes → Bytes
token sep [] = []
token sep (c ∷ s) = let rest = token sep s in if c == sep then [] else c ∷ rest

unfoldable pub behind_token : ℕ → Bytes → Bytes
behind_token sep [] = []
behind_token sep (c ∷ s) = let rest = behind_token sep s in if c == sep then s else rest

abbrev pub cut_token : ℕ → Bytes → Option (Bytes × Bytes)
cut_token sep [] = none
cut_token sep (c ∷ s) = some (token sep (c ∷ s), behind_token sep (c ∷ s))

unfoldable pub strtok : ℕ → Bytes → Option (Bytes × Bytes)
strtok sep s = cut_token sep (skip sep s)

-- `_SNESoIP_master_addr` and `_SNESoIP_master_port`, with what `snprintf` prints for a format; a token
-- that is not there is a NULL.
module _ (printed : Bytes → Bytes) where
  unfoldable pub port_of : Bytes → Option (Bytes × Bytes) → Option (Bytes × ℤ)
  port_of host none = none
  port_of host (some (port, rest)) = some (take 15 (printed host), atoi port)

  unfoldable pub master_of : Option (Bytes × Bytes) → Option (Bytes × ℤ)
  unfolding port_of
  master_of none = none
  master_of (some (host, rest)) = port_of host (strtok 32 rest)

  unfoldable pub master_addr : Bytes → Option (Bytes × ℤ)
  master_addr buffer = master_of (strtok b':' buffer)

token_lem : (sep : ℕ) (s t : Bytes) → lacks sep s ≡ true → token sep (s ++ sep ∷ t) ≡ s
unfolding token lacks
token_lem sep [] t h = ground arith
token_lem sep (c ∷ s) t h =
    let other : (c == sep) ≡ false = ground arith in
    rw (other, token_lem sep s t (ground arith)) refl

behind_token_lem :
    (sep : ℕ) (s t : Bytes) → lacks sep s ≡ true → behind_token sep (s ++ sep ∷ t) ≡ t
unfolding behind_token lacks
behind_token_lem sep [] t h = ground arith
behind_token_lem sep (c ∷ s) t h =
    let other : (c == sep) ≡ false = ground arith in
    rw (other, behind_token_lem sep s t (ground arith)) refl

token_whole : (sep : ℕ) (s : Bytes) → lacks sep s ≡ true → token sep s ≡ s
unfolding token lacks
token_whole sep [] h = refl
token_whole sep (c ∷ s) h =
    let other : (c == sep) ≡ false = ground arith in
    rw (other, token_whole sep s (ground arith)) refl

strtok_first :
    (sep : ℕ) (s t : Bytes)
    → 0 < length s
    → lacks sep s ≡ true
    → strtok sep (s ++ sep ∷ t) ≡ some (s, t)
unfolding strtok skip
strtok_first sep [] t nonempty h = absurd (omega arith)
strtok_first sep (c ∷ s) t nonempty h =
    let other : (c == sep) ≡ false = unfold lacks in ground arith in
    rw (other, token_lem sep (c ∷ s) t h, behind_token_lem sep (c ∷ s) t h) refl

strtok_whole :
    (sep : ℕ) (s : Bytes)
    → 0 < length s
    → lacks sep s ≡ true
    → strtok sep s ≡ some (s, behind_token sep s)
unfolding strtok skip
strtok_whole sep [] nonempty h = absurd (omega arith)
strtok_whole sep (c ∷ s) nonempty h =
    let other : (c == sep) ≡ false = unfold lacks in ground arith in
    rw (other, token_whole sep (c ∷ s) h) refl

digits-lacks : (s : Bytes) → all_digits s ≡ true → lacks 32 (s ++ (10 ∷ [])) ≡ true
unfolding lacks
digits-lacks [] h = refl
digits-lacks (c ∷ s) h = ground (arith, digits-lacks s)

lacks-append :
    (sep : ℕ) (s t : Bytes) → lacks sep s ≡ true → lacks sep t ≡ true → lacks sep (s ++ t) ≡ true
unfolding lacks
lacks-append sep [] t h e = e
lacks-append sep (c ∷ s) t h e = ground (arith, lacks-append sep s t)

percent_free : (s : Bytes) → all_digits s ≡ true → lacks b'%' s ≡ true
unfolding lacks
percent_free [] h = refl
percent_free (c ∷ s) h = ground (arith, percent_free s)

digits-lacks_percent : (port : ℕ) → lacks b'%' (b':' ∷ print_int (pos port)) ≡ true
unfolding lacks print_int
digits-lacks_percent port = percent_free (digits 10 port) (digits-all_digits 10 port)

master_addr_lem :
    (printed : Bytes → Bytes) (host port : Bytes)
    → PrintsPlain printed
    → lacks b'%' host ≡ true
    → 0 < length host
    → lacks b':' host ≡ true
    → 0 < length port
    → lacks 32 port ≡ true
    → length host ≤ 15
    → master_addr printed (host ++ b':' ∷ port) ≡ some (host, atoi port)
unfolding master_addr master_of port_of
master_addr_lem printed host port plain no_format some_host no_colon some_port no_space short =
    rw
      (
        strtok_first b':' host port some_host no_colon,
        strtok_whole 32 port some_port no_space,
        plain host no_format,
        take_all 15 host short,
      )
      refl

-- The slave reads back the address and the port of the master that the login server sends it, for an
-- address of 1 to 15 bytes without a colon and a percent sign, and a port of 16 bits. Of `snprintf`
-- this takes that it prints a format without a percent sign as it is, on both sides.
pub master_addr-addr_line :
    (printed printed' : Bytes → Bytes) (ip : Bytes) (port : ℕ)
    → PrintsPlain printed
    → PrintsPlain printed'
    → lacks b'%' ip ≡ true
    → 0 < length ip
    → length ip ≤ 15
    → lacks b':' ip ≡ true
    → port < 65536
    → master_addr printed (addr_line (printed' (ip ++ b':' ∷ print_int (pos port))))
      ≡ some (ip, pos port)
master_addr-addr_line printed printed' ip port plain plain' no_format nonempty short no_colon lt =
    let number = print_int (pos port) in
    let text = ip ++ b':' ∷ number in
    let line = number ++ (10 ∷ []) in
    let size = length-print_int (pos port) in
    let sum = length-append ip (b':' ∷ number) in
    let sum' = length-append text (10 ∷ []) in
    let sum'' = length-append number (10 ∷ []) in
    let joined : text ++ (10 ∷ []) ≡ ip ++ b':' ∷ line =
      append_assoc ip (b':' ∷ number) (10 ∷ []) in
    let digits_only : lacks 32 line ≡ true =
      unfold print_int in (digits-lacks (digits 10 port) (digits-all_digits 10 port)) in
    let whole_plain : lacks b'%' text ≡ true =
      lacks-append b'%' ip (b':' ∷ number) no_format (digits-lacks_percent port) in
    rw
      (
        plain' text whole_plain,
        take_all 31 text (omega arith),
        take_all 31 (text ++ (10 ∷ [])) (omega arith),
        joined,
      )
      (master_addr_lem printed ip line plain no_format nonempty no_colon (omega arith) digits_only
          short
        ∙ ap (λ (z : ℤ). some (ip, z)) (atoi-print_int port [] (omega arith)))

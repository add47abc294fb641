-- ===== src/Vsnesoip/Ports.antt =====
-- The end of the login in Archive/Rev2/utils/vsnesoip/login.c: the search for a free port, and the
-- address of the master.
use sneso_ip.Common.{
  ℕ, zero, suc, ◌+◌, ◌-◌, subst, ◌++◌, take, leb, ◌≤◌, ◌<◌, ◌≡◌, refl, sym, ap, ◌∙◌, Bool, true,
  false, ◌||◌, Option, none, some, List, [], ◌∷◌, arith, Bytes, ◌==◌, if◌then◌else◌, bytes_eq,
  bytes_eq_sound, Bool-cases, inl, inr,
}
use sneso_ip.Common.Int.{pos}
use sneso_ip.Cstring.{c_string}
use sneso_ip.Login.Mysql.{print_int}
use sneso_ip.Login.Port.{slave_text, master_text}

-- Whether a text ends with a line feed.
unfoldable pub ends_line : Bytes → Bool
ends_line [] = false
ends_line (c ∷ []) = c == 10
ends_line (c ∷ d ∷ s) = ends_line (d ∷ s)

-- `recv` until a piece ends with a line feed: this piece, and the pieces after it. No piece, or an
-- empty one, is an error.
unfoldable pub receive_line : List Bytes → Option (Bytes × List Bytes)
receive_line [] = none
receive_line ([] ∷ more) = none
receive_line ((c ∷ s) ∷ more) =
    let later = receive_line more in if ends_line (c ∷ s) then some (c ∷ s, more) else later

-- The port that was found with the part that the client plays, the end of the range, or an error.
pub data Found : Type 0 where
  found : ℕ → Bool → List Bytes → Found
  no_port : Found
  broken : Found

-- "PORT %i\n", as it is sent, with its NUL.
abbrev pub port_message : ℕ → Bytes
port_message port =
    take 1023 (b'P' ∷ b'O' ∷ b'R' ∷ b'T' ∷ 32 ∷ (print_int (pos port) ++ (10 ∷ []))) ++ (0 ∷ [])

-- What follows from an answer, with the result for the next port; the messages that are sent then
-- come with a result.
unfoldable pub on_answer : ℕ → Bytes → List Bytes → Found × List Bytes → Found × List Bytes
on_answer port answer more next =
    if bytes_eq master_text (c_string answer)
    then (found port true more, [])
    else if bytes_eq slave_text (c_string answer)
    then (found port false more, [])
    else next

unfoldable pub ask_port :
    ℕ → Option (Bytes × List Bytes) → (List Bytes → Found × List Bytes) → Found × List Bytes
ask_port port none next = (broken, [])
ask_port port (some (answer, more)) next = on_answer port answer more (next more)

-- The loop from a port on up to `_SNESoIP_tcp_max`, for as many rounds as the fuel allows: each round
-- sends PORT and waits for the answer. Where `send` fails is left out.
unfoldable pub find_port : ℕ → ℕ → ℕ → List Bytes → Found × List Bytes
find_port zero tcp_max port pieces = (no_port, [])
find_port (suc fuel) tcp_max port pieces =
    let (r, out) =
      ask_port port (receive_line pieces) (λ more. find_port fuel tcp_max (port + 1) more) in
    if leb port tcp_max then (r, port_message port ∷ out) else (no_port, [])

-- The search from `_SNESoIP_tcp_min` on, with fuel for one round more than it has ports.
abbrev pub search : ℕ → ℕ → List Bytes → Found × List Bytes
search tcp_min tcp_max pieces = find_port (tcp_max + 2 - tcp_min) tcp_max tcp_min pieces

-- One answer for each port.
unfoldable pub replies : (ℕ → Bytes) → ℕ → ℕ → List Bytes
replies reply zero port = []
replies reply (suc n) port = reply port ∷ replies reply n (port + 1)

abbrev pub part_text : Bool → Bytes
part_text true = master_text
part_text false = slave_text

abbrev pub accepts : Bytes → Bool
accepts answer = bytes_eq master_text (c_string answer) || bytes_eq slave_text (c_string answer)

-- The first port from `lo` on, of `n` ports, whose answer gives the client a part.
unfoldable pub IsFirst : (ℕ → Bytes) → ℕ → ℕ → Found → Type 0
IsFirst reply n lo (found port part more) =
    (lo ≤ port)
    × (port < lo + n)
    × (c_string (reply port) ≡ part_text part)
    × ((q : ℕ) → lo ≤ q → q < port → accepts (reply q) ≡ false)
IsFirst reply n lo no_port = (q : ℕ) → lo ≤ q → q < lo + n → accepts (reply q) ≡ false
IsFirst reply n lo broken = ⊥

receive_line_lem :
    (s : Bytes) (more : List Bytes) → ends_line s ≡ true → receive_line (s ∷ more) ≡ some (s, more)
unfolding receive_line ends_line
receive_line_lem [] more h = absurd (ground arith)
receive_line_lem (c ∷ s) more h = rw h refl

later-IsFirst :
    (reply : ℕ → Bytes) (n lo : ℕ) (r : Found)
    → accepts (reply lo) ≡ false
    → IsFirst reply n (lo + 1) r
    → IsFirst reply (suc n) lo r
unfolding IsFirst
later-IsFirst reply n lo (found port part more) h (low, high, text, before) = (
  omega arith,
  omega arith,
  text,
  λ q a b. elim (Bool-cases (q == lo)) [
    | inl same ↦ ap (λ (j : ℕ). accepts (reply j)) (ground arith) ∙ h
    | inr other ↦ before q (ground arith) b
  ],
)
later-IsFirst reply n lo no_port h before = λ q a b. elim (Bool-cases (q == lo)) [
  | inl same ↦ ap (λ (j : ℕ). accepts (reply j)) (ground arith) ∙ h
  | inr other ↦ before q (ground arith) (omega arith)
]
later-IsFirst reply n lo broken h wrong = wrong

-- PORT for each of `n` ports from `lo` on.
abbrev pub asked : ℕ → ℕ → List Bytes
asked zero lo = []
asked (suc n) lo = port_message lo ∷ asked n (lo + 1)

-- How many of `n` ports from `lo` on are asked for with a result.
abbrev pub rounds_of : ℕ → ℕ → Found → ℕ
rounds_of n lo (found port part more) = port + 1 - lo
rounds_of n lo no_port = n
rounds_of n lo broken = 0

-- The result is the first port of the range that is accepted, and the ports up to it are asked for.
abbrev pub IsSearch : (ℕ → Bytes) → ℕ → ℕ → Found × List Bytes → Type 0
IsSearch reply n lo (r, out) = IsFirst reply n lo r × (out ≡ asked (rounds_of n lo r) lo)

asked-suc :
    (k lo : ℕ) (out : List Bytes)
    → out ≡ asked k (lo + 1)
    → port_message lo ∷ out ≡ asked (suc k) lo
asked-suc k lo out e = ap (λ (ms : List Bytes). port_message lo ∷ ms) e

asked_one : (lo : ℕ) → port_message lo ∷ [] ≡ asked (lo + 1 - lo) lo
asked_one lo = let one : 1 ≡ lo + 1 - lo = omega arith in ap (λ (k : ℕ). asked k lo) one

-- The messages of a later result, with the one for this port.
later_asked :
    (reply : ℕ → Bytes) (n lo : ℕ) (r : Found) (out : List Bytes)
    → IsSearch reply n (lo + 1) (r, out)
    → port_message lo ∷ out ≡ asked (rounds_of (suc n) lo r) lo
later_asked reply n lo (found port part more) out (first, sent) =
    let low : lo + 1 ≤ port = unfold IsFirst in first.0 in
    let count : suc (port + 1 - (lo + 1)) ≡ port + 1 - lo = omega arith in
    asked-suc (port + 1 - (lo + 1)) lo out sent ∙ ap (λ (k : ℕ). asked k lo) count
later_asked reply n lo no_port out (first, sent) = asked-suc n lo out sent
later_asked reply n lo broken out (first, sent) = absurd (unfold IsFirst in first)

-- One round.
on_answer-IsSearch :
    (reply : ℕ → Bytes) (n lo : ℕ) (more : List Bytes) (next : Found × List Bytes)
    → IsSearch reply n (lo + 1) next
    → let (r, out) = on_answer lo (reply lo) more next in
      IsSearch reply (suc n) lo (r, port_message lo ∷ out)
unfolding on_answer
on_answer-IsSearch reply n lo more next h =
    elim (Bool-cases (bytes_eq master_text (c_string (reply lo)))) [
      | inl master ↦ rw master (
        unfold IsFirst in
            (
              omega arith,
              omega arith,
              sym (bytes_eq_sound master_text (c_string (reply lo)) master),
              λ q a b. absurd (omega arith),
            ),
        asked_one lo,
      )
      | inr other ↦ elim (Bool-cases (bytes_eq slave_text (c_string (reply lo)))) [
        | inl slave ↦
            rw (other, slave)
              (
                unfold IsFirst in
                    (
                      omega arith,
                      omega arith,
                      sym (bytes_eq_sound slave_text (c_string (reply lo)) slave),
                      λ q a b. absurd (omega arith),
                    ),
                asked_one lo,
              )
        | inr neither ↦
            rw (other, neither)
              (
                later-IsFirst reply n lo next.0 (ground (arith, other, neither)) h.0,
                later_asked reply n lo next.0 next.1 h,
              )
      ]
    ]

find_port-IsSearch :
    (reply : ℕ → Bytes) (n tcp_max lo : ℕ)
    → ((q : ℕ) → ends_line (reply q) ≡ true)
    → lo + n ≡ tcp_max + 1
    → IsSearch reply n lo (find_port (suc n) tcp_max lo (replies reply n lo))
unfolding find_port ask_port replies
find_port-IsSearch reply zero tcp_max lo h e =
    let over : leb lo tcp_max ≡ false = ground arith in
    rw over (unfold IsFirst in (λ q a b. absurd (omega arith)), refl)
find_port-IsSearch reply (suc n) tcp_max lo h e =
    let rest = find_port-IsSearch reply n tcp_max (lo + 1) h (omega arith) in
    let line = receive_line_lem (reply lo) (replies reply n (lo + 1)) (h lo) in
    let inside : leb lo tcp_max ≡ true = ground arith in
    rw (inside, line) (on_answer-IsSearch reply n lo (replies reply n (lo + 1)) _ rest)

-- If every answer of the server arrives as one line, the client takes the first port from the lowest
-- to the highest of its range that the server answers with MASTER or SLAVE, and that part; it
-- finds none only if the server accepts none of the range. It sends PORT for each port up to the one
-- that it takes, or of the whole range, in order, and nothing else.
pub find_port-IsFirst :
    (reply : ℕ → Bytes) (tcp_min tcp_max : ℕ)
    → ((q : ℕ) → ends_line (reply q) ≡ true)
    → tcp_min ≤ tcp_max + 1
    → let n = tcp_max + 1 - tcp_min in
      IsSearch reply n tcp_min (search tcp_min tcp_max (replies reply n tcp_min))
find_port-IsFirst reply tcp_min tcp_max h le =
    let n = tcp_max + 1 - tcp_min in
    let fuel : suc n ≡ tcp_max + 2 - tcp_min = omega arith in
    subst
      (λ (k : ℕ). IsSearch reply n tcp_min (find_port k tcp_max tcp_min (replies reply n tcp_min)))
      fuel (find_port-IsSearch reply n tcp_max tcp_min h (omega arith))

-- ===== src/Rev2/Cli/Editor/Line.antt =====
-- What a typed line does.
use sneso_ip.Common.{
  ℕ, zero, suc, ◌+◌, ◌≤◌, ◌<◌, ◌≡◌, ◌≢◌, refl, ap, sym, ◌∙◌, true, false, [], ◌∷◌, ◌++◌, arith,
  Bytes, ltb, ◌==◌, get_or, set, drop, length, All, length-append, append-nil, append_assoc,
  All-append, lt→ltb,
}
use sneso_ip.Cstring.{c_string}
use sneso_ip.Rev2.Cli.{Eeprom, exec_command}
use sneso_ip.Rev2.Cli.Editor.{Next, reads, blank_from, after_command, run_line, key, keys}

-- A character that is stored: neither the NUL, nor a backspace, nor a carriage return.
abbrev pub IsText : ℕ → Type 0
IsText c = (c ≢ 0) × (c ≢ 8) × (c ≢ 13)

abbrev at_text : Bytes → Bytes → ℕ → Eeprom → Next
at_text pre old n e = reads (record { buffer = pre ++ old; index = n }) e

set_next :
    (pre : Bytes) (x c : ℕ) (old : Bytes) (n : ℕ)
    → n ≡ length pre
    → set (pre ++ (x ∷ old)) n c ≡ pre ++ (c ∷ old)
set_next [] x c old zero e = refl
set_next [] x c old (suc n) e = absurd (omega arith)
set_next (p ∷ pre) x c old zero e = absurd (omega arith)
set_next (p ∷ pre) x c old (suc n) e = ap (λ s. p ∷ s) (set_next pre x c old n (omega arith))

key-text :
    (stack : Bytes) (e : Eeprom) (pre : Bytes) (c x : ℕ) (old : Bytes) (n : ℕ)
    → IsText c
    → n ≡ length pre
    → n + 1 ≤ 96
    → key stack (record { buffer = pre ++ (x ∷ old); index = n }) e c
      ≡ at_text (pre ++ (c ∷ [])) old (n + 1) e
unfolding key
key-text stack e pre c x old n h en le =
    let not_8 : (c == 8) ≡ false = ground arith in
    let not_13 : (c == 13) ≡ false = ground arith in
    let fits : ltb 96 (n + 1) ≡ false = ground arith in
    rw (set_next pre x c old n en, not_8, not_13, fits, append_assoc pre (c ∷ []) old) refl

-- Characters of a text are stored one behind the other.
keys-text :
    (stack : Bytes) (e : Eeprom) (pre s used old more : Bytes) (n : ℕ)
    → All IsText s
    → n ≡ length pre
    → n + length s ≤ 96
    → length s ≡ length used
    → keys stack (at_text pre (used ++ old) n e) (s ++ more)
      ≡ keys stack (at_text (pre ++ s) old (n + length s) e) more
unfolding keys
keys-text stack e pre [] [] old more n h en le lt =
    let same : n + 0 ≡ n = omega arith in rw (append-nil pre, same) refl
keys-text stack e pre [] (x ∷ used) old more n h en le lt = absurd (omega arith)
keys-text stack e pre (c ∷ s) [] old more n h en le lt = absurd (omega arith)
keys-text stack e pre (c ∷ s) (x ∷ used) old more n h en le lt =
    let one = length-append pre (c ∷ []) in
    let next =
      keys-text stack e (pre ++ (c ∷ [])) s used old more (n + 1) h.1 (omega (arith, one))
        (omega arith) (omega arith) in
    let sum : n + 1 + length s ≡ n + suc (length s) = omega arith in
    let last : at_text ((pre ++ (c ∷ [])) ++ s) old (n + 1 + length s) e
        ≡ at_text (pre ++ (c ∷ s)) old (n + suc (length s)) e =
      rw (sum, append_assoc pre (c ∷ []) s) refl in
    ap (λ k. keys stack k (s ++ more))
      (key-text stack e pre c x (used ++ old) n h.0 en (omega arith))
    ∙ (next ∙ ap (λ k. keys stack k more) last)

get_or-middle :
    (pre : Bytes) (c : ℕ) (r : Bytes) (n : ℕ) → n ≡ length pre → get_or (pre ++ (c ∷ r)) n 0 ≡ c
get_or-middle [] c r zero e = refl
get_or-middle [] c r (suc n) e = absurd (omega arith)
get_or-middle (p ∷ pre) c r zero e = absurd (omega arith)
get_or-middle (p ∷ pre) c r (suc n) e = get_or-middle pre c r n (omega arith)

blank_from-word :
    (pre w r : Bytes) (m t : ℕ)
    → t ≡ length pre
    → All (λ c. c ≢ b' ') w
    → length w < m
    → blank_from m (pre ++ (w ++ (b' ' ∷ r))) t ≡ t + length w
unfolding blank_from
blank_from-word pre w r zero t e h lt = absurd (omega arith)
blank_from-word pre [] r (suc m) t e h lt =
    let same : t + 0 ≡ t = omega arith in rw (get_or-middle pre b' ' r t e, same) refl
blank_from-word pre (c ∷ w) r (suc m) t e h lt =
    let one = length-append pre (c ∷ []) in
    let next =
      blank_from-word (pre ++ (c ∷ [])) w r m (t + 1) (omega (arith, one)) h.1 (omega arith) in
    let move = append_assoc pre (c ∷ []) (w ++ (b' ' ∷ r)) in
    let not_blank : (c == b' ') ≡ false = ground arith in
    let sum : t + 1 + length w ≡ t + suc (length w) = omega arith in
    rw (get_or-middle pre c (w ++ (b' ' ∷ r)) t e, not_blank, sym move, next, sum) refl

c_string-word : (w r : Bytes) → All IsText w → c_string (w ++ (0 ∷ r)) ≡ w
c_string-word [] r h = refl
c_string-word (c ∷ w) r h =
    let given : (c == 0) ≡ false = ground arith in rw (given, c_string-word w r h.1) refl

drop-word : (w : Bytes) (x : ℕ) (r : Bytes) → drop (suc (length w)) (w ++ (x ∷ r)) ≡ r
drop-word [] x r = refl
drop-word (c ∷ w) x r = drop-word w x r

first_given : (w : Bytes) (r : Bytes) → w ≢ [] → All IsText w → (get_or (w ++ r) 0 0 == 0) ≡ false
first_given [] r ne h = absurd (ne refl)
first_given (c ∷ w) r ne h = ground arith

-- The carriage return behind a command and its parameter.
key-return :
    (stack : Bytes) (e : Eeprom) (w a : Bytes) (x : ℕ) (old : Bytes) (n : ℕ)
    → w ≢ []
    → All IsText w
    → All (λ c. c ≢ b' ') w
    → n ≡ length (w ++ (b' ' ∷ a))
    → key stack (record { buffer = (w ++ (b' ' ∷ a)) ++ (x ∷ old); index = n }) e 13
      ≡ after_command (w ++ (0 ∷ (a ++ (0 ∷ old)))) (exec_command stack e w (a ++ (0 ∷ old)))
unfolding key run_line
key-return stack e w a x old n ne text word en =
    let line = w ++ (b' ' ∷ a) in
    let split = append_assoc w (b' ' ∷ a) (0 ∷ old) in
    let size = length-append w (b' ' ∷ a) in
    let blank = blank_from-word [] w (a ++ (0 ∷ old)) n 0 refl word (omega (arith, size)) in
    let zero_left : 0 + length w ≡ length w = omega arith in
    let inside : ltb (length w) n ≡ true = lt→ltb _ _ (omega (arith, size)) in
    let one : length w + 1 ≡ suc (length w) = omega arith in
    rw
      (
        set_next line x 13 old n en,
        set_next line 13 0 old n en,
        split,
        first_given w (b' ' ∷ (a ++ (0 ∷ old))) ne text,
        blank,
        zero_left,
        inside,
        set_next w b' ' 0 (a ++ (0 ∷ old)) (length w) refl,
        one,
        c_string-word w (a ++ (0 ∷ old)) text,
        drop-word w 0 (a ++ (0 ∷ old)),
      )
      refl

-- A command that is not empty and has no blank, a blank, a parameter and a carriage return, typed on
-- an empty line, at most 96 characters without NUL, backspace and carriage return, into a buffer with
-- room for them: `execCommand` gets the command and a buffer with the parameter, and its result
-- decides what follows.
pub keys_line :
    (stack : Bytes) (e : Eeprom) (w a used : Bytes) (x : ℕ) (old : Bytes)
    → w ≢ []
    → All IsText w
    → All (λ c. c ≢ b' ') w
    → All IsText a
    → length used ≡ length w + 1 + length a
    → length used ≤ 96
    → keys stack
        (reads (record { buffer = used ++ (x ∷ old); index = 0 }) e)
        ((w ++ (b' ' ∷ a)) ++ (13 ∷ []))
      ≡ after_command (w ++ (0 ∷ (a ++ (0 ∷ old)))) (exec_command stack e w (a ++ (0 ∷ old)))
unfolding keys
keys_line stack e w a used x old ne text word param size le =
    let line = w ++ (b' ' ∷ a) in
    let total = length-append w (b' ' ∷ a) in
    let typed =
      keys-text stack e [] line used (x ∷ old) (13 ∷ []) 0
        (All-append IsText w (b' ' ∷ a) text ((omega arith, omega arith, omega arith), param)) refl
        (omega (arith, total)) (omega (arith, total)) in
    typed ∙ key-return stack e w a x old (0 + length line) ne text word (omega arith)

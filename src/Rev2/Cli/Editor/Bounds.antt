-- ===== src/Rev2/Cli/Editor/Bounds.antt =====
-- What the command line keeps, whatever is typed.
use sneso_ip.Common.{
  ℕ, zero, suc, ◌+◌, ◌-◌, ◌≤◌, ◌≡◌, ◌∙◌, refl, Bool, true, false, none, some, [], ◌∷◌, ◌++◌, Bytes,
  arith, ltb, ◌==◌, if◌then◌else◌, get_or, set, drop, length, length-append, length-set, replicate,
  All, All-append,
}
use sneso_ip.Common.Int.{pos, negsuc}
use sneso_ip.Cstring.{c_string}
use sneso_ip.Rev2.Cli.{Eeprom, Result, exec_command}
use sneso_ip.Rev2.Cli.Store.{IsByte, HoldsBytes, GivesBytes, set-IsByte, exec_command-GivesBytes}
use sneso_ip.Rev2.Cli.Editor.{
  Editor, Next, reads, quits, hangs, blank_from, after_command, run_line, key, keys,
}

-- A buffer of `n` bytes, an index that a character can be written at, and an EEPROM of bytes.
pub record Fits (n : ℕ) (b : Bytes) (i : ℕ) (e : Eeprom) : Type 0 where
  pub bytes : All IsByte b
  pub size : length b ≡ n
  pub inside : i ≤ 96
  pub stored : HoldsBytes e

abbrev pub IsFit : ℕ → Next → Type 0
IsFit n (reads ed e) = Fits n ed.buffer ed.index e
IsFit n (quits e) = HoldsBytes e
IsFit n hangs = Unit {0}

drop-IsByte : (n : ℕ) (s : Bytes) → All IsByte s → All IsByte (drop n s)
drop-IsByte zero s h = h
drop-IsByte (suc n) [] h = tt
drop-IsByte (suc n) (c ∷ s) h = drop-IsByte n s h.1

length-drop : (n : ℕ) (s : Bytes) → length (drop n s) ≡ length s - n
length-drop zero s = omega arith
length-drop (suc n) [] = omega arith
length-drop (suc n) (c ∷ s) = omega (arith, length-drop n s)

set-Fits :
    {n i : ℕ} {b : Bytes} {e : Eeprom} (k v j : ℕ)
    → Fits n b i e
    → IsByte v
    → j ≤ 96
    → Fits n (set b k v) j e
set-Fits {b = b} k v j f small inside = record {
  bytes = set-IsByte b k v f.bytes small;
  size = length-set b k v ∙ f.size;
  inside = inside;
  stored = f.stored;
}

if-Fits :
    {n j : ℕ} {e : Eeprom} (t : Bool) (b b' : Bytes)
    → Fits n b j e
    → Fits n b' j e
    → Fits n (if t then b else b') j e
if-Fits true b b' f f' = f
if-Fits false b b' f f' = f'

if-IsFit :
    (n : ℕ) (t : Bool) (a b : Next)
    → (t ≡ true → IsFit n a)
    → (t ≡ false → IsFit n b)
    → IsFit n (if t then a else b)
if-IsFit n true a b h h' = h refl
if-IsFit n false a b h h' = h' refl

module _ (n : ℕ) (room : 97 ≤ n) where
  cleared-Fits :
      (b : Bytes) (e : Eeprom)
      → All IsByte b
      → length b ≡ n
      → HoldsBytes e
      → Fits n (replicate 96 0 ++ drop 96 b) 0 e
  cleared-Fits b e bytes size stored = record {
    bytes = All-append IsByte (replicate 96 0) (drop 96 b) (omega arith) (drop-IsByte 96 b bytes);
    size = omega (arith, length-append (replicate 96 0) (drop 96 b), length-drop 96 b);
    inside = omega arith;
    stored = stored;
  }

  after_command-IsFit :
      (b : Bytes) (r : Result)
      → All IsByte b
      → length b ≡ n
      → GivesBytes r
      → IsFit n (after_command b r)
  unfolding after_command
  after_command-IsFit b none bytes size h = tt
  after_command-IsFit b (some (pos zero, e)) bytes size h = cleared-Fits b e bytes size h
  after_command-IsFit b (some (pos (suc zero), e)) bytes size h = h
  after_command-IsFit b (some (pos (suc (suc k)), e)) bytes size h = cleared-Fits b e bytes size h
  after_command-IsFit b (some (negsuc k, e)) bytes size h = cleared-Fits b e bytes size h

  module _ (stack : Bytes) (stack_bytes : All IsByte stack) where
    run_line-IsFit :
        (e : Eeprom) (b : Bytes) (i j : ℕ) → Fits n b j e → IsFit n (run_line stack e b i)
    unfolding run_line
    run_line-IsFit e b i j f =
        let tmp = blank_from i b 0 in
        let b' = if ltb tmp i then set b tmp 0 else b in
        let f' =
          if-Fits (ltb tmp i) (set b tmp 0) b (set-Fits tmp 0 j f (omega arith) f.inside) f in
        after_command-IsFit b' (exec_command stack e (c_string b') (drop (tmp + 1) b')) f'.bytes
          f'.size
          (exec_command-GivesBytes e f.stored stack (c_string b') (drop (tmp + 1) b') stack_bytes
            (drop-IsByte (tmp + 1) b' f'.bytes))

    key-IsFit :
        (ed : Editor) (e : Eeprom) (c : ℕ)
        → IsByte c
        → Fits n ed.buffer ed.index e
        → IsFit n (key stack ed e c)
    unfolding key
    key-IsFit ed e c small f =
        let i = ed.index in
        let b = set ed.buffer i c in
        let typed = λ (j : ℕ) (inside : j ≤ 96). set-Fits i c j f small inside in
        let first = typed 0 (omega arith) in
        let b' = set b i 0 in
        let ended = set-Fits i 0 0 first (omega arith) (omega arith) in
        let bound = f.inside in
        if-IsFit n (c == 8) _ _
          (λ t.
            if-IsFit n (ltb 0 i) _ _
              (λ t. set-Fits (i - 1) 0 (i - 1) first (omega arith) (omega arith)) (λ t. first))
          (λ t.
            if-IsFit n (c == 13) _ _
              (λ t.
                if-IsFit n (get_or b' 0 0 == 0) _ _ (λ t. ended)
                  (λ t. run_line-IsFit e b' i 0 ended))
              (λ t.
                if-IsFit n (ltb 96 (i + 1)) _ _ (λ t. first) (λ t. typed (i + 1) (ground arith))))

    keys-step : (m : Next) (cs : Bytes) → IsFit n m → All IsByte cs → IsFit n (keys stack m cs)
    unfolding keys
    keys-step m [] f h = f
    keys-step (reads ed e) (c ∷ cs) f h =
        keys-step (key stack ed e c) cs (key-IsFit ed e c h.0 f) h.1
    keys-step (quits e) (c ∷ cs) f h = f
    keys-step hangs (c ∷ cs) f h = tt

-- Whatever bytes are typed on the command line, from a buffer of at least 97 bytes on: the buffer
-- keeps its size, the index stays at most 96, so that each character is written inside the buffer,
-- and the buffer and the EEPROM hold values of 8 bits, if they do at the start and the local
-- buffer of `execCommand` does.
pub keys-IsFit :
    (n : ℕ) (stack : Bytes) (ed : Editor) (e : Eeprom) (cs : Bytes)
    → 97 ≤ n
    → All IsByte stack
    → Fits n ed.buffer ed.index e
    → All IsByte cs
    → IsFit n (keys stack (reads ed e) cs)
keys-IsFit n stack ed e cs room stack_bytes f h =
    keys-step n room stack stack_bytes (reads ed e) cs f h

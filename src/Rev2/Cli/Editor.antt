-- ===== src/Rev2/Cli/Editor.antt =====
-- The command line `initCLI` of Archive/Rev2/firmware/src/cli.c: what one character from the UART
-- does. The echo is left out.
pub mod Line
pub mod Bounds
use sneso_ip.Common.{
  ℕ, zero, suc, ◌+◌, ◌-◌, Bool, true, false, Option, none, some, [], ◌∷◌, ◌++◌, Bytes, ltb, ◌==◌,
  if◌then◌else◌, get_or, set, drop, replicate,
}
use sneso_ip.Common.Int.{ℤ, pos, negsuc}
use sneso_ip.Cstring.{c_string}
use sneso_ip.Rev2.Cli.{Eeprom, Result, exec_command}

-- The buffer and `i`, which is never negative where a character is read.
pub record Editor : Type 0 where
  pub buffer : Bytes
  pub index : ℕ

-- What follows a character: the next one, the return from `initCLI`, or a check that does not end.
pub data Next : Type 0 where
  reads : Editor → Eeprom → Next
  quits : Eeprom → Next
  hangs : Next

-- The loop over `tmp`: the first of `n` indices from `tmp` on with a blank, or the end.
unfoldable pub blank_from : ℕ → Bytes → ℕ → ℕ
blank_from zero b tmp = tmp
blank_from (suc n) b tmp =
    let rest = blank_from n b (tmp + 1) in if get_or b tmp 0 == b' ' then tmp else rest

-- What is done with the result of `execCommand`.
unfoldable pub after_command : Bytes → Result → Next
after_command b none = hangs
after_command b (some (pos (suc zero), e)) = quits e
after_command b (some (_, e)) = reads (record { buffer = replicate 96 0 ++ drop 96 b; index = 0 }) e

-- A full line; `b` holds it, with its NUL at `i`.
unfoldable pub run_line : Bytes → Eeprom → Bytes → ℕ → Next
run_line stack e b i =
    let tmp = blank_from i b 0 in
    let b' = if ltb tmp i then set b tmp 0 else b in
    after_command b' (exec_command stack e (c_string b') (drop (tmp + 1) b'))

-- One round of the loop; `stack` is for `execCommand`.
unfoldable pub key : Bytes → Editor → Eeprom → ℕ → Next
key stack ed e c =
    let i = ed.index in
    let b = set ed.buffer i c in
    let at = λ (b' : Bytes) (j : ℕ). reads (record { buffer = b'; index = j }) e in
    if c == 8
    then (if ltb 0 i then at (set b (i - 1) 0) (i - 1) else at b 0)
    else if c == 13
    then (let b' = set b i 0 in if get_or b' 0 0 == 0 then at b' 0 else run_line stack e b' i)
    else (if ltb 96 (i + 1) then at b 0 else at b (i + 1))

-- The loop over what is typed.
unfoldable pub keys : Bytes → Next → Bytes → Next
keys stack n [] = n
keys stack (reads ed e) (c ∷ cs) = keys stack (key stack ed e c) cs
keys stack (quits e) (c ∷ cs) = quits e
keys stack hangs (c ∷ cs) = hangs

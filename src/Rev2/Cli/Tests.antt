-- ===== src/Rev2/Cli/Tests.antt =====
-- The settings commands at concrete inputs.
use sneso_ip.Common.{
  Bool, ◌≢◌, ltb, ◌&&◌, ap, length, replicate, All, ◌<◌, ◌≡◌, refl, true, some, [], ◌∷◌, ◌++◌,
  arith, Bytes, codes,
}
use sneso_ip.Common.Int.{pos}
use sneso_ip.CommonInclude.Ip.{scan_dots}
use sneso_ip.Cstring.{c_string}
use sneso_ip.Rev2.Network.{ip_is_valid, mac_is_valid, mac_digits}
use sneso_ip.Rev2.Cli.{Eeprom, exec_command, get_config_param}
use sneso_ip.Rev2.Cli.Settings.{Answers, judge, commands, exec_command-Answers}
use sneso_ip.Rev2.Cli.Editor.{Editor, reads, keys, after_command}
use sneso_ip.Rev2.Cli.Editor.Bounds.{Fits, IsFit, keys-IsFit}
use sneso_ip.Rev2.Cli.Editor.Line.{IsText, keys_line}
use sneso_ip.Rev2.Cli.Mac.{mac_text, mymac_stores}

abbrev blank : Eeprom
blank j = 255

-- Four dots are accepted, since -1 is not 0.
accepts_dots : ip_is_valid (codes "1.2.3.4.5") ≡ some 255
unfolding ip_is_valid scan_dots
accepts_dots = refl

accepts_mac : mac_is_valid (codes "00:1a:2B:3c:4D:5e") ≡ 1
unfolding mac_is_valid mac_digits
accepts_mac = refl

-- Instead of a colon the fifth separator may be a digit.
accepts_digit : mac_is_valid (codes "00:1a:2B:3c:4D05e") ≡ 1
unfolding mac_is_valid mac_digits
accepts_digit = refl

exec_command-Answers_example :
    Answers blank
      (judge commands (codes "key") (c_string (codes "short")))
      (exec_command [] blank (codes "key") (codes "short"))
exec_command-Answers_example = exec_command-Answers [] blank (codes "key") (codes "short")

mymac_stores_example :
    (m' : Eeprom) × (exec_command [] blank (codes "mymac") (mac_text true 0 26 43 60 77 94 [])
      ≡ some (pos 0, m'))
    × (get_config_param m' 0x01 6 ≡ 0 ∷ 26 ∷ 43 ∷ 60 ∷ 77 ∷ 94 ∷ [])
mymac_stores_example =
    mymac_stores true 0 26 43 60 77 94 [] [] blank
      (omega arith, omega arith, omega arith, omega arith, omega arith, omega arith)

abbrev mask_name : Bytes
mask_name = codes "netmask"

abbrev mask_value : Bytes
mask_value = codes "255.0.0.0"

mask_name_given : mask_name ≢ []
mask_name_given e = absurd (omega (arith, ap length e))

abbrev visible : Bytes → Bool
visible [] = true
visible (c ∷ s) = ltb 32 c && visible s

visible-IsText : (s : Bytes) → visible s ≡ true → All IsText s
visible-IsText [] h = tt
visible-IsText (c ∷ s) h =
    let above : 32 < c = ground arith in
    ((omega arith, omega arith, omega arith), visible-IsText s (ground arith))

visible_word : (s : Bytes) → visible s ≡ true → All (λ c. c ≢ b' ') s
visible_word [] h = tt
visible_word (c ∷ s) h =
    let above : 32 < c = ground arith in (omega arith, visible_word s (ground arith))

-- A line for the network mask, typed into a buffer of 500 bytes.
keys_line_example :
    keys []
      (reads (record { buffer = replicate 17 0 ++ (0 ∷ replicate 482 0); index = 0 }) blank)
      ((mask_name ++ (b' ' ∷ mask_value)) ++ (13 ∷ []))
    ≡ after_command
        (mask_name ++ (0 ∷ (mask_value ++ (0 ∷ replicate 482 0))))
        (exec_command [] blank mask_name (mask_value ++ (0 ∷ replicate 482 0)))
keys_line_example =
    keys_line [] blank mask_name mask_value (replicate 17 0) 0 (replicate 482 0) mask_name_given
      (visible-IsText mask_name refl) (visible_word mask_name refl) (visible-IsText mask_value refl)
      refl (omega arith)

abbrev typed : Bytes
typed = codes "key 0123456789" ++ (13 ∷ [])

abbrev empty_line : Editor
empty_line = record { buffer = replicate 97 0; index = 0 }

empty_line-Fits : Fits 97 (replicate 97 0) 0 blank
empty_line-Fits = record {
  bytes = omega arith;
  size = refl;
  inside = omega arith;
  stored = λ j. omega arith;
}

keys-IsFit_example : IsFit 97 (keys [] (reads empty_line blank) typed)
keys-IsFit_example =
    keys-IsFit 97 [] empty_line blank typed (omega arith) tt empty_line-Fits (omega arith)

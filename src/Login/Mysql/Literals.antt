-- ===== src/Login/Mysql/Literals.antt =====
-- The queries as the database reads them: what stands in quotes is the texts that were given, and
-- nothing of them gets out of the quotes.
use sneso_ip.Common.{
  ℕ, zero, suc, ◌+◌, ◌/◌, ◌%◌, ◌<◌, ◌≡◌, refl, ap, ◌∙◌, Bool, true, false, not, ◌&&◌, Option, none,
  some, List, [], ◌∷◌, ◌++◌, append-nil, append_assoc, arith, Bytes, ◌==◌, if◌then◌else◌,
}
use sneso_ip.Common.Int.{ℤ, pos, negsuc}
use sneso_ip.Login.{Update, set_online, set_ip, set_port, set_date}
use sneso_ip.Login.Mysql.{
  Query, user_id, user_online, opponent, client_key, dest_addr, auth, mode, free_port, write,
  all_offline, all_ip_none, all_port_zero, digits, print_int, Piece, code, fixed, given,
  update_format, format, text,
}

-- Where the reader is: between texts in quotes, in one, or behind a backslash in one.
pub data Place : Type 0 where
  outside inside behind_backslash : Place

-- The byte that a backslash and a letter stand for.
abbrev pub unescape : ℕ → ℕ
unescape c =
    if c == b'0'
    then 0
    else if c == b'n'
    then 10
    else if c == b'r'
    then 13
    else if c == b'Z'
    then 26
    else c

abbrev pub add_code : ℕ → Option (Bytes × List Bytes) → Option (Bytes × List Bytes)
add_code c none = none
add_code c (some (shape, texts)) = some (c ∷ shape, texts)

abbrev pub add_text : Bytes → Option (Bytes × List Bytes) → Option (Bytes × List Bytes)
add_text t none = none
add_text t (some (shape, texts)) = some (39 ∷ shape, t ∷ texts)

-- A query without the texts in quotes, each replaced by one quote, and those texts.
unfoldable pub read : Place → Bytes → Bytes → Option (Bytes × List Bytes)
read outside cur [] = some ([], [])
read inside cur [] = none
read behind_backslash cur [] = none
read outside cur (c ∷ s) =
    let text = read inside [] s in
    let more = add_code c (read outside [] s) in if c == 39 then text else more
read inside cur (c ∷ s) =
    let escaped = read behind_backslash cur s in
    let ends = add_text cur (read outside [] s) in
    let more = read inside (cur ++ (c ∷ [])) s in
    if c == 92 then escaped else if c == 39 then ends else more
read behind_backslash cur (c ∷ s) = read inside (cur ++ (unescape c ∷ [])) s

-- What is documented of `mysql_real_escape_string`: in quotes the result stands for the text.
abbrev pub Escapes : (Bytes → Bytes) → Type 0
Escapes escape =
    (s cur rest : Bytes) → read inside cur (escape s ++ rest) ≡ read inside (cur ++ s) rest

-- The shape and the texts that a format is meant to have.
unfoldable pub meant : List Piece → Bytes × List Bytes
meant [] = ([], [])
meant (code t ∷ ps) = let (shape, texts) = meant ps in (t ++ shape, texts)
meant (fixed t ∷ ps) = let (shape, texts) = meant ps in (39 ∷ shape, t ∷ texts)
meant (given t ∷ ps) = let (shape, texts) = meant ps in (39 ∷ shape, t ∷ texts)

unfoldable no_quote : Bytes → Bool
no_quote [] = true
no_quote (c ∷ s) = not (c == 39) && not (c == 92) && no_quote s

unfoldable clean : List Piece → Bool
clean [] = true
clean (code t ∷ ps) = no_quote t && clean ps
clean (fixed t ∷ ps) = no_quote t && clean ps
clean (given t ∷ ps) = clean ps

add_codes : Bytes → Bytes × List Bytes → Bytes × List Bytes
add_codes t (shape, texts) = (t ++ shape, texts)

read-code :
    (t rest shape : Bytes) (texts : List Bytes)
    → no_quote t ≡ true
    → read outside [] rest ≡ some (shape, texts)
    → read outside [] (t ++ rest) ≡ some (t ++ shape, texts)
unfolding read no_quote
read-code [] rest shape texts h e = e
read-code (c ∷ t) rest shape texts h e =
    let more = read-code t rest shape texts (ground arith) e in
    let other : (c == 39) ≡ false = ground arith in rw (other, more) refl

read-fixed :
    (t cur rest : Bytes)
    → no_quote t ≡ true
    → read inside cur (t ++ rest) ≡ read inside (cur ++ t) rest
unfolding read no_quote
read-fixed [] cur rest h = rw (append-nil cur) refl
read-fixed (c ∷ t) cur rest h =
    let no_backslash : (c == 92) ≡ false = ground arith in
    let other : (c == 39) ≡ false = ground arith in
    rw
      (
        no_backslash,
        other,
        read-fixed t (cur ++ (c ∷ [])) rest (ground arith),
        append_assoc cur (c ∷ []) t,
      )
      refl

read-close : (t rest : Bytes) → read inside t (39 ∷ rest) ≡ add_text t (read outside [] rest)
unfolding read
read-close t rest = refl

read-open : (rest : Bytes) → read outside [] (39 ∷ rest) ≡ read inside [] rest
unfolding read
read-open rest = refl

read-text :
    (escape : Bytes → Bytes) (ps : List Piece)
    → Escapes escape
    → clean ps ≡ true
    → read outside [] (text escape ps) ≡ some (meant ps)
unfolding text meant clean
read-text escape [] h ok = unfold read in refl
read-text escape (code t ∷ ps) h ok =
    read-code t (text escape ps) (meant ps).0 (meant ps).1 (ground arith)
      (read-text escape ps h (ground arith))
read-text escape (fixed t ∷ ps) h ok =
    let more = read-text escape ps h (ground arith) in
    read-open (t ++ 39 ∷ text escape ps)
    ∙ (read-fixed t [] (39 ∷ text escape ps) (ground arith)
        ∙ (read-close t (text escape ps) ∙ ap (add_text t) more))
read-text escape (given t ∷ ps) h ok =
    let more = read-text escape ps h (ground arith) in
    read-open (escape t ++ 39 ∷ text escape ps)
    ∙ (h t [] (39 ∷ text escape ps) ∙ (read-close t (text escape ps) ∙ ap (add_text t) more))

no_quote-append : (s t : Bytes) → no_quote s ≡ true → no_quote t ≡ true → no_quote (s ++ t) ≡ true
unfolding no_quote
no_quote-append [] t h e = e
no_quote-append (c ∷ s) t h e = ground (arith, no_quote-append s t)

digit-no_quote : (k : ℕ) → k < 10 → no_quote ((b'0' + k) ∷ []) ≡ true
unfolding no_quote
digit-no_quote k h = ground arith

digits-no_quote : (n k : ℕ) → no_quote (digits n k) ≡ true
unfolding digits no_quote
digits-no_quote zero k = refl
digits-no_quote (suc n) k =
    ground (
      arith,
      no_quote-append (digits n (k / 10)) ((b'0' + k % 10) ∷ []),
      digits-no_quote n (k / 10),
    )

print_int-no_quote : (z : ℤ) → no_quote (print_int z) ≡ true
unfolding print_int no_quote
print_int-no_quote (pos n) = digits-no_quote 10 n
print_int-no_quote (negsuc n) = digits-no_quote 10 (n + 1)

update_format-clean : (up : Update) → clean (update_format up) ≡ true
unfolding update_format clean no_quote
update_format-clean (set_online user true) = refl
update_format-clean (set_online user false) = refl
update_format-clean (set_port user port) = rw (print_int-no_quote port) refl
update_format-clean (set_date user) = refl
update_format-clean (set_ip user ip) = refl

format-clean : (q : Query) → clean (format q) ≡ true
unfolding format clean no_quote
format-clean (user_id user) = refl
format-clean (user_online user) = refl
format-clean (opponent user) = refl
format-clean (client_key user) = refl
format-clean (dest_addr user) = refl
format-clean (auth user pass) = refl
format-clean (mode user dest) = refl
format-clean (free_port ip port) = rw (print_int-no_quote port) refl
format-clean (write up) = update_format-clean up
format-clean all_offline = refl
format-clean all_ip_none = refl
format-clean all_port_zero = refl

-- Whatever names, passwords and addresses a query is given, the database reads the query that is
-- meant, with exactly these texts in its quotes, if escaping does what is documented and the text is
-- not cut off.
pub read-format :
    (escape : Bytes → Bytes) (q : Query)
    → Escapes escape
    → read outside [] (text escape (format q)) ≡ some (meant (format q))
read-format escape q h = read-text escape (format q) h (format-clean q)

-- ===== src/Vsnesoip/Login/Agree/Answers.antt =====
-- What the client does with the answers of the server, and the whole login.
use sneso_ip.Common.{
  ℕ, zero, suc, sym, replicate, ◌+◌, ◌-◌, ◌*◌, ◌/◌, ◌%◌, ◌≤◌, ◌≡◌, ◌≢◌, refl, ap, ◌∙◌, true, false,
  List, [], ◌∷◌, ◌++◌, Bytes, if◌then◌else◌, ◌==◌, arith, take, drop, length, length-append,
  append_assoc, get_or, get_or-append_right,
}
use sneso_ip.Cstring.{IsCstring, lacks, PrintsPlain}
use sneso_ip.CommonInclude.Number.Hex.{hex_digit}
use sneso_ip.Login.{Setting, World, running, sent}
use sneso_ip.Login.Credentials.{challenge, ok_text, mix, plain, key_bytes}
use sneso_ip.Login.Mysql.Size.{take_all}
use sneso_ip.Login.Run.{peer_text, connected}
use sneso_ip.Login.Run.Sizes.{peer_text-short}
use sneso_ip.Vsnesoip.Password.{IsBytes, hex_text, raw_crypt, plain-raw_crypt, length-hex_text}
use sneso_ip.Vsnesoip.Login.{
  client_key, Account, Client, Stage, greeting, naming, proving, logged_in, refused, message,
  user_message, user_text, pass_text, go, on_piece, step, steps, connect, receive, ok_answer,
  helo_message,
}
use sneso_ip.Vsnesoip.Login.Agree.{serve, texts, talk}
use sneso_ip.Vsnesoip.Login.Agree.Rounds.{
  state, Knows, Trusts, asked, received, granted, serve-helo_message, serve-user_message,
  serve-pass_text, hello,
}

hex_digit-nonzero : (n : ℕ) → hex_digit false n ≢ 0
hex_digit-nonzero n = ground arith

hex_text-IsCstring : (s : Bytes) → IsCstring (hex_text s)
unfolding hex_text
hex_text-IsCstring [] = tt
hex_text-IsCstring (c ∷ s) =
    (hex_digit-nonzero (c / 16), (hex_digit-nonzero (c % 16), hex_text-IsCstring s))

length-mix : (stream : ℕ → ℕ) (i : ℕ) (s : Bytes) → length (mix stream i s) ≡ length s
unfolding mix
length-mix stream i [] = refl
length-mix stream i (c ∷ s) = ap suc (length-mix stream (i + 1) s)

-- A client at a stage, with what its buffer holds.
abbrev at : Stage → Bytes → Client
at stage buffer = record { stage = stage; buffer = buffer; total = 0 }

module _ (printed : Bytes → Bytes) (keystream : Bytes → Bytes → ℕ → ℕ) (a : Account) where
  -- A piece that ends in a line feed, behind which the buffer goes on.
  last_byte :
      (s rest : Bytes) → get_or ((s ++ (10 ∷ [])) ++ rest) (0 + length (s ++ (10 ∷ [])) - 1) 0 ≡ 10
  last_byte s rest =
      let m = s ++ (10 ∷ []) in
      let n : 0 + length m - 1 ≡ length s + 0 = omega (arith, length-append s (10 ∷ [])) in
      rw n (
        rw (append_assoc s (10 ∷ []) rest)
          (get_or-append_right s (10 ∷ rest) (length s + 0) 0 0 refl))

  greet :
      (s garbage : Bytes)
      → steps printed keystream a (at greeting garbage) ((s ++ (10 ∷ [])) ∷ [])
        ≡ (go (receive (at greeting garbage) (s ++ (10 ∷ []))) naming, user_message a ∷ [])
  unfolding steps step on_piece receive
  greet s garbage =
      let m = s ++ (10 ∷ []) in
      let some_bytes : (length m == 0) ≡ false = ground (arith, length-append s (10 ∷ [])) in
      let last = last_byte s (0 ∷ drop (length m + 1) garbage) in rw (some_bytes, last) refl

  -- The message with the password for an initial vector.
  abbrev pub answer_to : Bytes → Bytes
  answer_to iv =
      let stream = keystream (client_key a) (take 10 iv) in
      message (pass_text ++ raw_crypt stream (take 255 (printed a.password)))

  -- "OK\n" and the initial vector, in two pieces.
  name_ok :
      (buffer : Bytes) (rand : ℕ → ℕ)
      → (buffer' : Bytes) × (steps printed keystream a
            (at naming buffer)
            (ok_answer ∷ challenge rand 10 0 ∷ [])
          ≡ (at proving buffer', answer_to (challenge rand 10 0) ∷ []))
  unfolding steps step on_piece receive challenge
  name_ok buffer rand = (challenge rand 10 0 ++ 0 ∷ drop 12 (ok_answer ++ 0 ∷ drop 4 buffer), refl)

  prove_ok :
      (buffer : Bytes)
      → steps printed keystream a (at proving buffer) (ok_answer ∷ [])
        ≡ (at logged_in (ok_answer ++ 0 ∷ drop 4 buffer), [])
  unfolding steps step on_piece receive
  prove_ok buffer = refl

  -- If "OK\n" and the initial vector arrive in one piece, the client gives up without another message.
  pub steps-refused :
      (buffer : Bytes) (rand : ℕ → ℕ)
      → let (c, out) =
          steps printed keystream a
            (record { stage = naming; buffer = buffer; total = 0 })
            ((ok_answer ++ challenge rand 10 0) ∷ []) in
        (c.stage ≡ refused) × (out ≡ [])
  unfolding steps step on_piece receive challenge
  steps-refused buffer rand =
      let c = b'0' + rand 0 % 72 in
      let some_char : ((if c == 92 then b'c' else c) == 0) ≡ false = ground arith in
      rw some_char (refl, refl)

-- An account that the server's limits admit: a name of 3 to 20 characters, a password of 10 to 30
-- bytes other than NUL, and a key of 10 bytes or more, both without a percent sign.
pub record IsAccount (a : Account) : Type 0 where
  pub name_string : IsCstring a.username
  pub name_min : 3 ≤ length a.username
  pub name_max : length a.username ≤ 20
  pub password_bytes : IsBytes a.password
  pub password_string : IsCstring a.password
  pub password_min : 10 ≤ length a.password
  pub password_max : length a.password ≤ 30
  pub password_plain : lacks b'%' a.password ≡ true
  pub key_plain : lacks b'%' a.key ≡ true
  pub key_min : 10 ≤ length a.key

take_longer : (n : ℕ) (s t : Bytes) → n ≤ length s → take n (s ++ t) ≡ take n s
take_longer zero s t h = refl
take_longer (suc n) [] t h = absurd (omega arith)
take_longer (suc n) (c ∷ s) t h = ap (λ (r : Bytes). c ∷ r) (take_longer n s t (omega arith))

take-take : (n : ℕ) (s t : Bytes) → n ≤ length s → take n (take n s ++ t) ≡ take n s
take-take zero s t h = refl
take-take (suc n) [] t h = absurd (omega arith)
take-take (suc n) (c ∷ s) t h = ap (λ (r : Bytes). c ∷ r) (take-take n s t (omega arith))

-- The server and the client use the same ten bytes of the key.
keys_agree :
    {Db : Type 0} (env : Setting Db) (a : Account)
    → PrintsPlain env.printed
    → IsAccount a
    → key_bytes env a.key ≡ client_key a
keys_agree env a prints ok =
    rw (prints a.key ok.key_plain)
      (take-take 10 a.key _ ok.key_min ∙ sym (take_longer 10 a.key (replicate 10 0) ok.key_min))

module _ {Db : Type 0} (env : Setting Db) (rand : ℕ → ℕ) (a : Account) where
  talk-suc :
      (n : ℕ) (c c' : Client) (w w' : World Db) (m : Bytes) (out : List Bytes)
      → serve env rand m w ≡ w'
      → steps env.printed env.keystream a c (texts w'.acts) ≡ (c', out)
      → talk env rand a (suc n) c w (m ∷ []) ≡ talk env rand a n c' w' out
  unfolding talk
  talk-suc n c c' w w' m out e e' =
      ap
        (λ (v : World Db).
          let (d, more) = steps env.printed env.keystream a c (texts v.acts) in
          talk env rand a n d v more)
        e
      ∙ ap (λ (p : Client × List Bytes). talk env rand a n p.0 w' p.1) e'

  -- What the client sends as its password, and what the server reads.
  module _ (iv : Bytes) where
    abbrev hex : Bytes
    hex = raw_crypt (env.keystream (client_key a) (take 10 iv)) a.password

    length-hex : length hex ≡ 2 * length a.password
    unfolding raw_crypt
    length-hex =
        let stream = env.keystream (client_key a) (take 10 iv) in
        omega (arith, length-hex_text (mix stream 0 a.password), length-mix stream 0 a.password)

    hex-IsCstring : IsCstring hex
    unfolding raw_crypt
    hex-IsCstring =
        hex_text-IsCstring (mix (env.keystream (client_key a) (take 10 iv)) 0 a.password)

  -- The client's buffer and the session's after the greeting, and after the name.
  abbrev greeted : Bytes → Bytes
  greeted buffer = let s = hello env.peer ++ (10 ∷ []) in s ++ 0 ∷ drop (length s + 1) buffer

  abbrev buf_greeted : Bytes → Bytes
  buf_greeted garbage = helo_message ++ drop 15 garbage

  abbrev buf_named : Bytes → Bytes
  buf_named garbage = received env rand (user_text ++ a.username) (buf_greeted garbage)

  abbrev own_ip : Bytes
  own_ip = take 31 (peer_text env.peer)

  helo_round :
      (n : ℕ) (db : Db) (garbage buffer name : Bytes)
      → talk env rand a (suc n) (at greeting buffer) (connected db garbage name) (helo_message ∷ [])
        ≡ talk env rand a n
            (at naming (greeted buffer))
            (record (state db (buf_greeted garbage) own_ip name [] false false) {
              acts = sent (hello env.peer ++ (10 ∷ [])) ∷ [];
            })
            (user_message a ∷ [])
  unfolding receive
  helo_round n db garbage buffer name =
      let s = hello env.peer ++ (10 ∷ []) in
      let w = state db (buf_greeted garbage) own_ip name [] false false in
      let short : length s ≤ 63 =
        omega (arith, peer_text-short env.peer, length-append (peer_text env.peer) (10 ∷ [])) in
      talk-suc n (at greeting buffer) (at naming (greeted buffer)) (connected db garbage name)
        (record w { acts = sent s ∷ [] }) helo_message (user_message a ∷ [])
        (serve-helo_message env rand db garbage name
          ∙ ap (λ (t : Bytes). record w { acts = sent t ∷ [] }) (take_all 63 s short))
        (greet env.printed env.keystream a (hello env.peer) buffer)

  -- A client and a session of the server, neither of which has read anything, come to the end of the
  -- login in three messages: the client is logged in, and the session has granted the user's name.
  -- This is for an account in the limits, whose password and key have no percent sign and whose key has
  -- at least 10 bytes, which the database knows, and whose user is away, for a NUL behind the server's
  -- array, an `snprintf` that prints a format without a percent sign as it is, and messages that
  -- arrive one by one.
  pub talk-logged_in :
      (db : Db) (garbage buffer name rest : Bytes)
      → IsAccount a
      → PrintsPlain env.printed
      → env.behind ≡ 0 ∷ rest
      → Knows env a.username db
      → Trusts env a (asked env a.username db)
      → let (c, ms) = connect buffer in
        let (c', w) = talk env rand a 3 c (connected db garbage name) ms in
        (c'.stage ≡ logged_in)
        × (w.session.auth_set ≡ true)
        × (w.session.username ≡ a.username)
        × (w.status ≡ running)
  unfolding connect talk
  talk-logged_in db garbage buffer name rest ok prints behind knows trusts =
      let iv = challenge rand 10 0 in
      let code = hex iv in
      let w1 = record (state db (buf_greeted garbage) own_ip name [] false false) {
        acts = sent (hello env.peer ++ (10 ∷ [])) ∷ [];
      } in
      let db' = asked env a.username db in
      let w2 = record (state db' (buf_named garbage) own_ip a.username iv true false) {
        acts = sent ok_text ∷ sent iv ∷ [];
      } in
      let w3 =
        granted env rand db' (received env rand (pass_text ++ code) (buf_named garbage)) own_ip a
          iv in
      let (buffer', named) = name_ok env.printed env.keystream a (greeted buffer) rand in
      let same =
        ap (λ (k : Bytes). plain env k iv code) (keys_agree env a prints ok)
        ∙ plain-raw_crypt env (client_key a) iv a.password rest ok.password_bytes ok.password_string
            behind in
      let whole =
        helo_round 2 db garbage buffer name
        ∙ talk-suc 1 (at naming (greeted buffer)) (at proving buffer') w1 w2 (user_message a)
            (answer_to env.printed env.keystream a iv ∷ [])
            (serve-user_message env rand a db (buf_greeted garbage) own_ip name ok.name_string
              ok.name_min ok.name_max knows)
            named
        ∙ ap
            (λ (t : Bytes).
              talk env rand a 1 (at proving buffer') w2 (
                message (pass_text ++ raw_crypt (env.keystream (client_key a) (take 10 iv)) t)
                ∷ []))
            (ap (take 255) (prints a.password ok.password_plain)
              ∙ take_all 255 a.password (omega (arith, ok.password_max)))
        ∙ talk-suc 0 (at proving buffer') (at logged_in (ok_answer ++ 0 ∷ drop 4 buffer')) w2 w3
            (message (pass_text ++ code)) []
            (serve-pass_text env rand a db' (buf_named garbage) own_ip iv code (hex-IsCstring iv)
              (omega (arith, length-hex iv, ok.password_min))
              (omega (arith, length-hex iv, ok.password_max)) same trusts)
            (prove_ok env.printed env.keystream a buffer') in
      rw whole (refl, refl, refl, refl)

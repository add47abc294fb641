-- ===== src/Login/Credentials.antt =====
-- The commands USER and PASS of `tcp_server_read`.
use sneso_ip.Common.{
  ℕ, zero, suc, ◌+◌, ◌-◌, ◌*◌, ◌/◌, ◌%◌, Bool, true, false, not, ◌&&◌, Option, none, some, [], ◌∷◌,
  ◌++◌, Bytes, leb, ◌==◌, if◌then◌else◌, take, drop, length, set,
}
use sneso_ip.Common.Int.{ℤ, pos, negsuc, eq_ℤ}
use sneso_ip.Cstring.{c_string, memcmp_eq, strtol16, to_u8}
use sneso_ip.Login.{
  Setting, Session, answered, set_ip, World, crashed, is_running, say, update, stop, fail,
}

-- `USERNAME_MIN`, `USERNAME_MAX`, `PASSWORD_MIN` and `PASSWORD_MAX`.
abbrev pub username_min : ℕ
username_min = 3

abbrev pub username_max : ℕ
username_max = 20

abbrev pub password_min : ℕ
password_min = 10

abbrev pub password_max : ℕ
password_max = 30

abbrev pub ok_text : Bytes
ok_text = b'O' ∷ b'K' ∷ 10 ∷ []

-- `buf[i] = '\0'`. Behind the buffer there is nothing that the model sees.
abbrev pub cut_at : {Db : Type 0} → ℕ → World Db → World Db
cut_at i w = record w { session = record w.session { buf = set w.session.buf i 0 } }

-- `session_string` from ten results of `rand`.
unfoldable pub challenge : (ℕ → ℕ) → ℕ → ℕ → Bytes
challenge rand zero i = 10 ∷ []
challenge rand (suc n) i =
    let c = b'0' + rand i % 72 in (if c == 92 then b'c' else c) ∷ challenge rand n (i + 1)

abbrev pub set_user : {Db : Type 0} → Bool → World Db → World Db
set_user b w = record w { session = record w.session { user_set = b } }

-- A user that is there and not online.
abbrev pub accept_user : {Db : Type 0} → (ℕ → ℕ) → World Db → World Db
accept_user rand w =
    let text = challenge rand 10 0 in
    let w' = say ok_text w in
    say text (record w' { session = record w'.session { user_set = true; session_string = text } })

-- The answers of `userMySQLQuery` and `isPlayerOnlineMySQLQuery`.
unfoldable pub check_user : {Db : Type 0} → Setting Db → (ℕ → ℕ) → World Db → World Db
check_user env rand w =
    let (db, exist) = env.database.user_query w.db w.session.username in
    let (db', online) = env.database.online_query db w.session.username in
    let w1 = record w { db = db } in
    let w2 = record w { db = db' } in
    if eq_ℤ exist (negsuc 0)
    then fail 114 (set_user false w1)
    else if eq_ℤ exist (pos 0)
    then fail 113 (set_user false w1)
    else if eq_ℤ online (pos 1)
    then fail 115 (set_user false w2)
    else accept_user rand w2

abbrev pub user_word : Bytes
user_word = b'U' ∷ b'S' ∷ b'E' ∷ b'R' ∷ []

abbrev pub is_user : Session → Bool
is_user s = memcmp_eq s.buf user_word 4 && (s.greet_set && not s.user_set)

-- USER, for a read of `n` bytes.
unfoldable pub user_command : {Db : Type 0} → Setting Db → (ℕ → ℕ) → ℕ → World Db → World Db
user_command env rand n w =
    let w' = cut_at (n - 1) w in
    let text = c_string w'.session.buf in
    let named = record w' { session = record w'.session { username = take 31 (drop 5 text) } } in
    if is_running w.status && is_user w.session
    then (if leb (5 + username_min) (length text)
        then (if leb (length text) (5 + username_max)
            then check_user env rand named
            else fail 111 (set_user false w'))
        else fail 112 (set_user false w'))
    else w

-- Two characters of the password as one byte; the last may stand alone.
unfoldable pub unhex : Bytes → Bytes
unhex [] = []
unhex (c ∷ []) = to_u8 (strtol16 (b'0' ∷ b'x' ∷ c ∷ [])) ∷ []
unhex (c ∷ d ∷ s) = to_u8 (strtol16 (b'0' ∷ b'x' ∷ c ∷ d ∷ [])) ∷ unhex s

-- `a ^ b`, digit by digit.
abbrev pub xor_digit : ℕ → ℕ → ℕ
xor_digit a b = if a == b then 0 else 1

unfoldable pub xor_from : ℕ → ℕ → ℕ → ℕ
xor_from zero a b = 0
xor_from (suc n) a b = xor_digit (a % 2) (b % 2) + 2 * xor_from n (a / 2) (b / 2)

abbrev pub xor_u8 : ℕ → ℕ → ℕ
xor_u8 = xor_from 8

unfoldable pub mix : (ℕ → ℕ) → ℕ → Bytes → Bytes
mix stream i [] = []
mix stream i (c ∷ s) = xor_u8 c (stream i) ∷ mix stream (i + 1) s

-- What `authMySQLQuery` gets as the password: `strlen(passwd_hex) / 2` bytes, and as they have no NUL
-- behind them, what lies there.
unfoldable pub plain : {Db : Type 0} → Setting Db → Bytes → Bytes → Bytes → Bytes
plain env key iv passwd_hex =
    let crypt = take (length passwd_hex / 2) (unhex passwd_hex) in
    c_string (mix (env.keystream key (take 10 iv)) 0 crypt ++ env.behind)

abbrev pub grant : {Db : Type 0} → Setting Db → World Db → World Db
grant env w =
    let w' = record w { session = record w.session { auth_set = true } } in
    say ok_text (update env (set_ip w'.session.username w'.session.curr_ip) w')

abbrev pub refuse : {Db : Type 0} → World Db → World Db
refuse w = fail 123 (record w {
  session = record w.session {
    user_set = false;
    brutforce_counter = w.session.brutforce_counter + 1;
  };
})

-- The answer of `authMySQLQuery`.
unfoldable pub check_answer : {Db : Type 0} → Setting Db → ℤ → World Db → World Db
check_answer env auth w =
    let w' = record w { acts = w.acts ++ (answered w.session.username auth ∷ []) } in
    if eq_ℤ auth (negsuc 0)
    then fail 124 w'
    else if eq_ℤ auth (pos 0)
    then refuse w'
    else grant env w'

-- The first ten bytes of `key[11]`, which `trivium_init` reads: the text from the database is the
-- format that is printed there, and behind a shorter one stands what the array held before.
abbrev pub key_bytes : {Db : Type 0} → Setting Db → Bytes → Bytes
key_bytes env text =
    let t = take 10 (env.printed text) in take 10 (t ++ 0 ∷ drop (length t + 1) env.stale_key)

-- The client's key, and the password.
unfoldable pub check_key :
    {Db : Type 0} → Setting Db → Bytes → Db × Option Bytes → World Db → World Db
check_key env passwd_hex (db, none) w = stop crashed (record w { db = db })
check_key env passwd_hex (db, some text) w =
    let s = w.session in
    let password = plain env (key_bytes env text) s.session_string passwd_hex in
    let (db', auth) = env.database.auth_query db s.username password in
    check_answer env auth (record w { db = db' })

abbrev pub pass_word : Bytes
pass_word = b'P' ∷ b'A' ∷ b'S' ∷ b'S' ∷ []

abbrev pub is_pass : Session → Bool
is_pass s = memcmp_eq s.buf pass_word 4 && (s.greet_set && (s.user_set && not s.auth_set))

-- PASS, for a read of `n` bytes.
unfoldable pub pass_command : {Db : Type 0} → Setting Db → ℕ → World Db → World Db
pass_command env n w =
    let w' = cut_at (n - 1) w in
    let text = c_string w'.session.buf in
    let key = env.database.client_key_query w'.db w'.session.username in
    if is_running w.status && is_pass w.session
    then (if leb (5 + password_min * 2) (length text)
        then (if leb (length text) (5 + password_max * 2)
            then check_key env (take 127 (drop 5 text)) key w'
            else fail 121 w')
        else fail 122 w')
    else w

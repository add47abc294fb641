-- ===== src/Vsnesoip/Login/Agree/Rounds.antt =====
-- The rounds of the login server for the messages of the client.
use sneso_ip.Common.{
  ℕ, suc, ◌-◌, ◌≤◌, ◌≡◌, refl, ap, ◌∙◌, Bool, true, false, Option, some, [], ◌∷◌, ◌++◌, Bytes, ◌==◌,
  leb, List, arith, All-append, ◌≢◌, set, take, drop, length, length-append, append_assoc,
}
use sneso_ip.Common.Int.{ℤ, pos, negsuc, eq_ℤ}
use sneso_ip.Cstring.{IsCstring, c_string, memcmp_eq}
use sneso_ip.Login.{Setting, World, running, Act, sent, changed, answered, set_ip}
use sneso_ip.Login.Credentials.{
  challenge, check_user, user_command, check_key, key_bytes, check_answer, pass_command, plain,
  ok_text, user_word, pass_word,
}
use sneso_ip.Login.Port.{port_command}
use sneso_ip.Login.Mysql.Size.{take_all}
use sneso_ip.Login.Run.{peer_text, helo_command, quit_command, commands, round, connected}
use sneso_ip.Login.Watch.{right}
use sneso_ip.Vsnesoip.Login.{Account, message, user_text, pass_text, helo_message, user_message}
use sneso_ip.Vsnesoip.Login.Agree.{serve}

-- A session that does not lack a greeting, with what matters for the next message.
abbrev pub state : {Db : Type 0} → Db → Bytes → Bytes → Bytes → Bytes → Bool → Bool → World Db
state db buf ip name iv user_set auth_set = record {
  db = db;
  session = record {
    buf = buf;
    username = name;
    curr_ip = ip;
    session_string = iv;
    user_set = user_set;
    greet_set = true;
    auth_set = auth_set;
    brutforce_counter = 0;
  };
  acts = [];
  status = running;
}

-- A cut at the NUL of a message.
cut-message : (s rest : Bytes) → IsCstring s → c_string (set (s ++ 0 ∷ rest) (length s) 0) ≡ s
cut-message [] rest h = refl
cut-message (c ∷ s) rest (nonzero, h) =
    let other : (c == 0) ≡ false = ground arith in rw (other, cut-message s rest h) refl

-- The greeting of the server.
abbrev pub hello : ℕ → Bytes
hello peer =
    b'H' ∷ b'E' ∷ b'L' ∷ b'O' ∷ 32 ∷ b'c' ∷ b'l' ∷ b'i' ∷ b'e' ∷ b'n' ∷ b't' ∷ b':' ∷ peer_text peer

pub serve-helo_message :
    {Db : Type 0} (env : Setting Db) (rand : ℕ → ℕ) (db : Db) (garbage name : Bytes)
    → serve env rand helo_message (connected db garbage name)
      ≡ record (state db
          (helo_message ++ drop 15 garbage)
          (take 31 (peer_text env.peer))
          name
          []
          false
          false) { acts = sent (take 63 (hello env.peer ++ (10 ∷ []))) ∷ [] }
unfolding round commands user_command pass_command port_command helo_command quit_command connected
serve-helo_message env rand db garbage name = refl

-- The text of a message in the session.
message-text :
    (s buf : Bytes) (n : ℕ)
    → IsCstring s
    → n ≡ length s
    → c_string (set ((s ++ (0 ∷ [])) ++ buf) n 0) ≡ s
message-text s buf n h e = rw (e, append_assoc s (0 ∷ []) buf) (cut-message s buf h)

-- The number of a user is neither an error nor nobody's.
right-error : (z : ℤ) → right z ≡ true → eq_ℤ z (negsuc 0) ≡ false
right-error z h = ground arith

right-nobody : (z : ℤ) → right z ≡ true → eq_ℤ z (pos 0) ≡ false
right-nobody z h = ground arith

-- The database knows the user, who is away, in the state `db` and after that question.
pub record Knows {Db : Type 0} (env : Setting Db) (user : Bytes) (db : Db) : Type 0 where
  pub there : right (env.database.user_query db user).1 ≡ true
  pub away :
      eq_ℤ (env.database.online_query (env.database.user_query db user).0 user).1 (pos 1) ≡ false

abbrev pub asked : {Db : Type 0} → Setting Db → Bytes → Db → Db
asked env user db = (env.database.online_query (env.database.user_query db user).0 user).0

-- It knows the key and the password too, in the state `db`.
pub record Trusts {Db : Type 0} (env : Setting Db) (a : Account) (db : Db) : Type 0 where
  pub key : (env.database.client_key_query db a.username).1 ≡ some a.key
  pub password :
      right
        (env.database.auth_query
          (env.database.client_key_query db a.username).0
          a.username
          a.password).1
      ≡ true

abbrev pub checked : {Db : Type 0} → Setting Db → Account → Db → Db
checked env a db =
    (env.database.auth_query (env.database.client_key_query db a.username).0 a.username
      a.password).0

module _ {Db : Type 0} (env : Setting Db) (rand : ℕ → ℕ) where
  accepts :
      (n i : ℕ) (db : Db) (buf ip name user : Bytes)
      → n - 1 ≡ i
      → memcmp_eq buf user_word 4 ≡ true
      → c_string (set buf i 0) ≡ user_text ++ user
      → 3 ≤ length user
      → length user ≤ 20
      → Knows env user db
      → user_command env rand n (state db buf ip name [] false false)
        ≡ record (state
            (asked env user db)
            (set buf i 0)
            ip
            user
            (challenge rand 10 0)
            true
            false) { acts = sent ok_text ∷ sent (challenge rand 10 0) ∷ [] }
  unfolding user_command check_user
  accepts n i db buf ip name user last word text min max knows =
      let enough : leb 8 (length (user_text ++ user)) ≡ true = ground arith in
      let few : leb (length (user_text ++ user)) 25 ≡ true = ground arith in
      let error = right-error (env.database.user_query db user).1 knows.there in
      let nobody = right-nobody (env.database.user_query db user).1 knows.there in
      let away = knows.away in
      rw (last, word, text, enough, few, take_all 31 user (omega arith), error, nobody, away) refl

  -- After the answer to the password.
  abbrev pub granted : Db → Bytes → Bytes → Account → Bytes → World Db
  granted db buf ip a iv =
      let up = set_ip a.username ip in
      record (state (env.database.update_query (checked env a db) up).0 buf ip a.username iv true
        true) {
          acts =
              answered a.username
                (env.database.auth_query (env.database.client_key_query db a.username).0 a.username
                  a.password).1
              ∷ changed up
              ∷ sent ok_text
              ∷ [];
        }

  answers :
      (auth : Db × ℤ) (db : Db) (user buf ip iv : Bytes)
      → right auth.1 ≡ true
      → check_answer env auth.1 (state auth.0 buf ip user iv true false)
        ≡ record (state
            (env.database.update_query auth.0 (set_ip user ip)).0
            buf
            ip
            user
            iv
            true
            true) { acts = answered user auth.1 ∷ changed (set_ip user ip) ∷ sent ok_text ∷ [] }
  unfolding check_answer
  answers auth db user buf ip iv h = rw (right-error auth.1 h, right-nobody auth.1 h) refl

  grants :
      (n i : ℕ) (db : Db) (a : Account) (buf ip iv hex : Bytes)
      → n - 1 ≡ i
      → memcmp_eq buf pass_word 4 ≡ true
      → c_string (set buf i 0) ≡ pass_text ++ hex
      → 20 ≤ length hex
      → length hex ≤ 60
      → plain env (key_bytes env a.key) iv hex ≡ a.password
      → Trusts env a db
      → pass_command env n (state db buf ip a.username iv true false)
        ≡ granted db (set buf i 0) ip a iv
  unfolding pass_command check_key
  grants n i db a buf ip iv hex last word text min max same trusts =
      let enough : leb 25 (length (pass_text ++ hex)) ≡ true = ground arith in
      let few : leb (length (pass_text ++ hex)) 65 ≡ true = ground arith in
      let key = env.database.client_key_query db a.username in
      let auth = env.database.auth_query key.0 a.username a.password in
      let buf' = set buf i 0 in
      let w = state db buf' ip a.username iv true false in
      rw (last, word, text, enough, few, take_all 127 hex (omega arith))
        (ap (λ (k : Option Bytes). check_key env hex (key.0, k) w) trusts.key
          ∙ ap
              (λ (p : Bytes).
                let (db', answer) = env.database.auth_query key.0 a.username p in
                check_answer env answer (state db' buf' ip a.username iv true false))
              same
          ∙ answers auth db a.username buf' ip iv trusts.password)

  -- The buffer of the session after a message.
  abbrev pub received : Bytes → Bytes → Bytes
  received s buf = let m = s ++ (0 ∷ []) in set (m ++ drop (length m) buf) (length s) 0

  received-text : (s buf : Bytes) → IsCstring s → c_string (received s buf) ≡ s
  received-text s buf h = message-text s (drop (length (s ++ (0 ∷ []))) buf) (length s) h refl

  -- What follows the command USER in a round.
  later_commands : ℕ → World Db → World Db
  later_commands n w =
      quit_command env (helo_command env (port_command env n (pass_command env n w)))

  serve-commands :
      (c : ℕ) (s : Bytes) (db : Db) (buf ip name iv : Bytes) (u g : Bool)
      → let m : Bytes = c ∷ s in
        serve env rand m (state db buf ip name iv u g)
        ≡ later_commands
            (length m)
            (user_command env rand (length m) (state db (m ++ drop (length m) buf) ip name iv u g))
  unfolding round commands later_commands
  serve-commands c s db buf ip name iv u g =
      let some_bytes : (suc (length s) == 0) ≡ false = ground arith in rw some_bytes refl

  only_user :
      (n : ℕ) (db : Db) (t ip name iv : Bytes) (u g : Bool) (acts : List Act)
      → let w : World Db = record (state db (85 ∷ t) ip name iv u g) { acts = acts } in
        later_commands n w ≡ w
  unfolding later_commands pass_command port_command helo_command quit_command
  only_user n db t ip name iv u g acts = refl

  pub serve-user_message :
      (a : Account) (db : Db) (buf ip name : Bytes)
      → IsCstring a.username
      → 3 ≤ length a.username
      → length a.username ≤ 20
      → Knows env a.username db
      → serve env rand (user_message a) (state db buf ip name [] false false)
        ≡ record (state
            (asked env a.username db)
            (received (user_text ++ a.username) buf)
            ip
            a.username
            (challenge rand 10 0)
            true
            false) { acts = sent ok_text ∷ sent (challenge rand 10 0) ∷ [] }
  serve-user_message a db buf ip name cstring min max knows =
      let s = user_text ++ a.username in
      let m = s ++ (0 ∷ []) in
      let text = All-append (λ c. c ≢ 0) user_text a.username (omega arith) cstring in
      let short = take_all 1023 s (omega arith) in
      ap (λ (t : Bytes). serve env rand (t ++ (0 ∷ [])) (state db buf ip name [] false false)) short
      ∙ (serve-commands 85 (drop 1 m) db buf ip name [] false false
          ∙ (ap (later_commands (length m)) (
                accepts (length m) (length s) db (m ++ drop (length m) buf) ip name a.username
                  (omega (arith, length-append s (0 ∷ []))) refl (received-text s buf text) min max
                  knows)
              ∙ only_user (length m) (asked env a.username db) (drop 1 (received s buf)) ip
                  a.username (challenge rand 10 0) true false
                  (sent ok_text ∷ sent (challenge rand 10 0) ∷ [])))

  before_pass :
      (n : ℕ) (db : Db) (t ip name iv : Bytes)
      → let w : World Db = state db (80 ∷ t) ip name iv true false in user_command env rand n w ≡ w
  unfolding user_command
  before_pass n db t ip name iv = refl

  after_pass :
      (n : ℕ) (db : Db) (t ip iv : Bytes) (a : Account)
      → let w = granted db (80 ∷ 65 ∷ t) ip a iv in
        quit_command env (helo_command env (port_command env n w)) ≡ w
  unfolding port_command helo_command quit_command
  after_pass n db t ip iv a = refl

  pub serve-pass_text :
      (a : Account) (db : Db) (buf ip iv hex : Bytes)
      → IsCstring hex
      → 20 ≤ length hex
      → length hex ≤ 60
      → plain env (key_bytes env a.key) iv hex ≡ a.password
      → Trusts env a db
      → serve env rand (message (pass_text ++ hex)) (state db buf ip a.username iv true false)
        ≡ granted db (received (pass_text ++ hex) buf) ip a iv
  unfolding later_commands
  serve-pass_text a db buf ip iv hex cstring min max same trusts =
      let s = pass_text ++ hex in
      let m = s ++ (0 ∷ []) in
      let n = length m in
      let buf' = m ++ drop n buf in
      let text = All-append (λ c. c ≢ 0) pass_text hex (omega arith) cstring in
      let short = take_all 1023 s (omega arith) in
      ap (λ (t : Bytes). serve env rand (t ++ (0 ∷ [])) (state db buf ip a.username iv true false))
        short
      ∙ (serve-commands 80 (drop 1 m) db buf ip a.username iv true false
          ∙ (ap (later_commands n) (before_pass n db (drop 1 buf') ip a.username iv)
              ∙ (ap (λ (w : World Db). quit_command env (helo_command env (port_command env n w)))
                    (grants n (length s) db a buf' ip iv hex
                      (omega (arith, length-append s (0 ∷ []))) refl (received-text s buf text) min
                      max same trusts)
                  ∙ after_pass n db (drop 2 (received s buf)) ip iv a)))

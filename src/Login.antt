-- ===== src/Login.antt =====
-- The login server of Archive/Rev0-1/server/2nd-prototype: the state of a session of
-- `tcp_server_read` in src/tcp.c, what it does to its client and to the database, and the database
-- operations of src/mysql.c that it calls.
pub mod Credentials
pub mod Port
pub mod Run
pub mod Watch
pub mod Mysql
mod Tests
use sneso_ip.Common.{
  ℕ, zero, suc, ◌+◌, ◌*◌, ◌/◌, ◌%◌, Bool, true, false, Option, none, some, List, [], ◌∷◌, ◌++◌,
  Bytes, if◌then◌else◌, ltb, ◌==◌,
}
use sneso_ip.Common.Int.{ℤ, pos, negsuc}

-- `setOnlineMySQLQuery`, `setIPMySQLQuery`, `setPortMySQLQuery` and `setDateMySQLQuery`.
pub data Update : Type 0 where
  set_online : Bytes → Bool → Update
  set_ip : Bytes → Bytes → Update
  set_port : Bytes → ℤ → Update
  set_date : Bytes → Update

-- The operations of mysql.c that a session calls. A text that is not there is NULL.
pub record Database (Db : Type 0) : Type 0 where
  pub user_query : Db → Bytes → Db × ℤ
  pub online_query : Db → Bytes → Db × ℤ
  pub auth_query : Db → Bytes → Bytes → Db × ℤ
  pub free_port_query : Db → Bytes → ℤ → Db × ℤ
  pub client_key_query : Db → Bytes → Db × Option Bytes
  pub opponent_query : Db → Bytes → Db × Option Bytes
  pub dest_addr_query : Db → Bytes → Db × Option Bytes
  pub update_query : Db → Update → Db × ℤ

-- What a session finds around it: the database, the keystream of `trivium_getbyte` for a key and an
-- initial vector, the bytes behind the decrypted password, the client's address `s_addr`, what
-- `snprintf` prints for a text that it is given as its format, and what the local `key` holds.
pub record Setting (Db : Type 0) : Type 0 where
  pub database : Database Db
  pub keystream : Bytes → Bytes → ℕ → ℕ
  pub behind : Bytes
  pub peer : ℕ
  pub printed : Bytes → Bytes
  pub stale_key : Bytes

-- The variables of `tcp_server_read`.
pub record Session : Type 0 where
  pub buf : Bytes
  pub username : Bytes
  pub curr_ip : Bytes
  pub session_string : Bytes
  pub user_set : Bool
  pub greet_set : Bool
  pub auth_set : Bool
  pub brutforce_counter : ℕ

-- What a session does: a write to the client, a change of the database, and a question to it
-- whether a password is right, with the answer.
pub data Act : Type 0 where
  sent : Bytes → Act
  changed : Update → Act
  answered : Bytes → ℤ → Act

-- `crashed` is a NULL from the database that is used as a string.
pub data Status : Type 0 where
  running ended crashed : Status

pub record World (Db : Type 0) : Type 0 where
  pub db : Db
  pub session : Session
  pub acts : List Act
  pub status : Status

abbrev pub is_running : Status → Bool
is_running running = true
is_running ended = false
is_running crashed = false

-- `write_tcp`.
abbrev pub say : {Db : Type 0} → Bytes → World Db → World Db
say text w = record w { acts = w.acts ++ (sent text ∷ []) }

-- A change of the database; its result is not used.
abbrev pub update : {Db : Type 0} → Setting Db → Update → World Db → World Db
update env u w = record w {
  db = (env.database.update_query w.db u).0;
  acts = w.acts ++ (changed u ∷ []);
}

abbrev pub stop : {Db : Type 0} → Status → World Db → World Db
stop status w = record w { status = status }

-- "ERROR %d\n" for an error below 1000.
abbrev pub error_text : ℕ → Bytes
error_text n =
    b'E'
    ∷ b'R'
    ∷ b'R'
    ∷ b'O'
    ∷ b'R'
    ∷ 32
    ∷ (b'0' + n / 100 % 10)
    ∷ (b'0' + n / 10 % 10)
    ∷ (b'0' + n % 10)
    ∷ 10
    ∷ []

abbrev pub fail : {Db : Type 0} → ℕ → World Db → World Db
fail n w = say (error_text n) w

abbrev pub none_text : Bytes
none_text = b'n' ∷ b'o' ∷ b'n' ∷ b'e' ∷ []

-- The three changes when a session ends after a user name.
unfoldable pub clean_up : {Db : Type 0} → Setting Db → World Db → World Db
clean_up env w =
    let user = w.session.username in
    if w.session.user_set
    then update env (set_port user (pos 0))
        (update env (set_ip user none_text) (update env (set_online user false) w))
    else w

-- ===== src/Login/Mysql.antt =====
-- The database of the login server, src/mysql.c of the second prototype: the texts of its queries,
-- and what each function makes of the answer.
pub mod Literals
pub mod Meaning
pub mod Size
pub mod Print
use sneso_ip.Common.{
  ℕ, zero, suc, ◌+◌, ◌-◌, ◌/◌, ◌%◌, Bool, true, false, Option, none, some, List, [], ◌∷◌, ◌++◌,
  Bytes, ltb, if◌then◌else◌, take,
}
use sneso_ip.Common.Int.{ℤ, pos, negsuc, ◌+ℤ◌}
use sneso_ip.Cstring.{atoi}
use sneso_ip.Login.{Update, set_online, set_ip, set_port, set_date, Database}

-- What `mysql_store_result` and `mysql_fetch_row` give: NULL, or the first column.
pub data Rows : Type 0 where
  no_result no_row : Rows
  row : Bytes → Rows

-- The client library of MySQL: `mysql_query` with whether it returns 0, what it has found, and
-- `mysql_real_escape_string`.
pub record Mysql (Db : Type 0) : Type 0 where
  pub mysql_query : Db → Bytes → Db × Bool
  pub first_row : Db → Rows
  pub escape : Bytes → Bytes

pub data Query : Type 0 where
  user_id user_online opponent client_key dest_addr : Bytes → Query
  auth : Bytes → Bytes → Query
  mode : Bytes → Bytes → Query
  free_port : Bytes → ℤ → Query
  write : Update → Query
  all_offline all_ip_none all_port_zero : Query

-- The digits of a number, ten at most.
unfoldable pub digits : ℕ → ℕ → Bytes
digits zero k = []
digits (suc n) k =
    let high = digits n (k / 10) in
    if ltb k 10 then (b'0' + k) ∷ [] else high ++ ((b'0' + k % 10) ∷ [])

-- `"%i"` for an `int`.
unfoldable pub print_int : ℤ → Bytes
print_int (pos n) = digits 10 n
print_int (negsuc n) = b'-' ∷ digits 10 (n + 1)

-- A part of the format of a query: text, a text in quotes, and `'%s'` for a text that is escaped.
pub data Piece : Type 0 where
  code fixed given : Bytes → Piece

abbrev word_true : Bytes
word_true = b't' ∷ b'r' ∷ b'u' ∷ b'e' ∷ []

abbrev word_false : Bytes
word_false = b'f' ∷ b'a' ∷ b'l' ∷ b's' ∷ b'e' ∷ []

abbrev word_none : Bytes
word_none = b'n' ∷ b'o' ∷ b'n' ∷ b'e' ∷ []

abbrev pub where_user : Bytes → List Piece
where_user user =
    code (
      32 ∷ b'W' ∷ b'H' ∷ b'E' ∷ b'R' ∷ b'E' ∷ 32 ∷ b'u' ∷ b's' ∷ b'e' ∷ b'r' ∷ b'n' ∷ b'a' ∷ b'm'
      ∷ b'e' ∷ 32 ∷ b'=' ∷ 32 ∷ [])
    ∷ given user
    ∷ []

-- The format of an update with its arguments.
unfoldable pub update_format : Update → List Piece
update_format (set_online user b) =
    code (
      b'U' ∷ b'P' ∷ b'D' ∷ b'A' ∷ b'T' ∷ b'E' ∷ 32 ∷ b's' ∷ b'n' ∷ b'e' ∷ b's' ∷ b'o' ∷ b'i' ∷ b'p'
      ∷ b'.' ∷ b'u' ∷ b's' ∷ b'e' ∷ b'r' ∷ 32 ∷ b'S' ∷ b'E' ∷ b'T' ∷ 32 ∷ b'o' ∷ b'n' ∷ b'l' ∷ b'i'
      ∷ b'n' ∷ b'e' ∷ 32 ∷ b'=' ∷ 32 ∷ [])
    ∷ code (if b then word_true else word_false)
    ∷ where_user user
update_format (set_port user port) =
    code (
      b'U' ∷ b'P' ∷ b'D' ∷ b'A' ∷ b'T' ∷ b'E' ∷ 32 ∷ b's' ∷ b'n' ∷ b'e' ∷ b's' ∷ b'o' ∷ b'i' ∷ b'p'
      ∷ b'.' ∷ b'u' ∷ b's' ∷ b'e' ∷ b'r' ∷ 32 ∷ b'S' ∷ b'E' ∷ b'T' ∷ 32 ∷ b'p' ∷ b'o' ∷ b'r' ∷ b't'
      ∷ 32 ∷ b'=' ∷ 32 ∷ [])
    ∷ code (print_int port)
    ∷ where_user user
update_format (set_date user) =
    code (
      b'U' ∷ b'P' ∷ b'D' ∷ b'A' ∷ b'T' ∷ b'E' ∷ 32 ∷ b's' ∷ b'n' ∷ b'e' ∷ b's' ∷ b'o' ∷ b'i' ∷ b'p'
      ∷ b'.' ∷ b'u' ∷ b's' ∷ b'e' ∷ b'r' ∷ 32 ∷ b'S' ∷ b'E' ∷ b'T' ∷ 32 ∷ b'a' ∷ b'u' ∷ b't' ∷ b'h'
      ∷ b'_' ∷ b't' ∷ b'i' ∷ b'm' ∷ b'e' ∷ 32 ∷ b'=' ∷ 32 ∷ b'N' ∷ b'O' ∷ b'W' ∷ b'(' ∷ b')' ∷ [])
    ∷ where_user user
update_format (set_ip user ip) =
    code (
      b'U' ∷ b'P' ∷ b'D' ∷ b'A' ∷ b'T' ∷ b'E' ∷ 32 ∷ b's' ∷ b'n' ∷ b'e' ∷ b's' ∷ b'o' ∷ b'i' ∷ b'p'
      ∷ b'.' ∷ b'u' ∷ b's' ∷ b'e' ∷ b'r' ∷ 32 ∷ b'S' ∷ b'E' ∷ b'T' ∷ 32 ∷ b'c' ∷ b'u' ∷ b'r' ∷ b'r'
      ∷ b'_' ∷ b'i' ∷ b'p' ∷ 32 ∷ b'=' ∷ 32 ∷ [])
    ∷ given ip
    ∷ where_user user

-- The format of a query with its arguments.
unfoldable pub format : Query → List Piece
format (auth user pass) =
    code (
      b'S' ∷ b'E' ∷ b'L' ∷ b'E' ∷ b'C' ∷ b'T' ∷ 32 ∷ b'u' ∷ b's' ∷ b'e' ∷ b'r' ∷ b'i' ∷ b'd' ∷ 32
      ∷ b'F' ∷ b'R' ∷ b'O' ∷ b'M' ∷ 32 ∷ b's' ∷ b'n' ∷ b'e' ∷ b's' ∷ b'o' ∷ b'i' ∷ b'p' ∷ b'.'
      ∷ b'u' ∷ b's' ∷ b'e' ∷ b'r' ∷ 32 ∷ b'W' ∷ b'H' ∷ b'E' ∷ b'R' ∷ b'E' ∷ 32 ∷ b'u' ∷ b's' ∷ b'e'
      ∷ b'r' ∷ b'n' ∷ b'a' ∷ b'm' ∷ b'e' ∷ 32 ∷ b'=' ∷ 32 ∷ [])
    ∷ given user
    ∷ code (
        32 ∷ b'A' ∷ b'N' ∷ b'D' ∷ 32 ∷ b'p' ∷ b'a' ∷ b's' ∷ b's' ∷ b'w' ∷ b'o' ∷ b'r' ∷ b'd' ∷ 32
        ∷ b'=' ∷ 32 ∷ b'(' ∷ b'S' ∷ b'H' ∷ b'A' ∷ b'1' ∷ b'(' ∷ b'C' ∷ b'O' ∷ b'N' ∷ b'C' ∷ b'A'
        ∷ b'T' ∷ b'_' ∷ b'W' ∷ b'S' ∷ b'(' ∷ [])
    ∷ fixed (b':' ∷ [])
    ∷ code (b',' ∷ [])
    ∷ given user
    ∷ code (b',' ∷ [])
    ∷ given pass
    ∷ code (b')' ∷ b')' ∷ b')' ∷ [])
    ∷ []
format (user_id user) =
    code (
      b'S' ∷ b'E' ∷ b'L' ∷ b'E' ∷ b'C' ∷ b'T' ∷ 32 ∷ b'u' ∷ b's' ∷ b'e' ∷ b'r' ∷ b'i' ∷ b'd' ∷ 32
      ∷ b'F' ∷ b'R' ∷ b'O' ∷ b'M' ∷ 32 ∷ b's' ∷ b'n' ∷ b'e' ∷ b's' ∷ b'o' ∷ b'i' ∷ b'p' ∷ b'.'
      ∷ b'u' ∷ b's' ∷ b'e' ∷ b'r' ∷ [])
    ∷ where_user user
format (mode user dest) =
    code (
      b'S' ∷ b'E' ∷ b'L' ∷ b'E' ∷ b'C' ∷ b'T' ∷ 32 ∷ b'C' ∷ b'A' ∷ b'S' ∷ b'E' ∷ 32 ∷ b'W' ∷ b'H'
      ∷ b'E' ∷ b'N' ∷ 32 ∷ b'(' ∷ b'S' ∷ b'E' ∷ b'L' ∷ b'E' ∷ b'C' ∷ b'T' ∷ 32 ∷ b'a' ∷ b'u' ∷ b't'
      ∷ b'h' ∷ b'_' ∷ b't' ∷ b'i' ∷ b'm' ∷ b'e' ∷ 32 ∷ b'f' ∷ b'r' ∷ b'o' ∷ b'm' ∷ 32 ∷ b's' ∷ b'n'
      ∷ b'e' ∷ b's' ∷ b'o' ∷ b'i' ∷ b'p' ∷ b'.' ∷ b'u' ∷ b's' ∷ b'e' ∷ b'r' ∷ 32 ∷ b'W' ∷ b'H'
      ∷ b'E' ∷ b'R' ∷ b'E' ∷ 32 ∷ b'u' ∷ b's' ∷ b'e' ∷ b'r' ∷ b'n' ∷ b'a' ∷ b'm' ∷ b'e' ∷ b'=' ∷ [])
    ∷ given user
    ∷ code (
        b')' ∷ b'>' ∷ b'(' ∷ b'S' ∷ b'E' ∷ b'L' ∷ b'E' ∷ b'C' ∷ b'T' ∷ 32 ∷ b'a' ∷ b'u' ∷ b't'
        ∷ b'h' ∷ b'_' ∷ b't' ∷ b'i' ∷ b'm' ∷ b'e' ∷ 32 ∷ b'f' ∷ b'r' ∷ b'o' ∷ b'm' ∷ 32 ∷ b's'
        ∷ b'n' ∷ b'e' ∷ b's' ∷ b'o' ∷ b'i' ∷ b'p' ∷ b'.' ∷ b'u' ∷ b's' ∷ b'e' ∷ b'r' ∷ 32 ∷ b'w'
        ∷ b'h' ∷ b'e' ∷ b'r' ∷ b'e' ∷ 32 ∷ b'u' ∷ b's' ∷ b'e' ∷ b'r' ∷ b'n' ∷ b'a' ∷ b'm' ∷ b'e'
        ∷ b'=' ∷ [])
    ∷ given dest
    ∷ code (b')' ∷ 32 ∷ b'T' ∷ b'H' ∷ b'E' ∷ b'N' ∷ 32 ∷ [])
    ∷ fixed word_true
    ∷ code (32 ∷ b'E' ∷ b'L' ∷ b'S' ∷ b'E' ∷ 32 ∷ [])
    ∷ fixed word_false
    ∷ code (32 ∷ b'E' ∷ b'N' ∷ b'D' ∷ [])
    ∷ []
format (user_online user) =
    code (
      b'S' ∷ b'E' ∷ b'L' ∷ b'E' ∷ b'C' ∷ b'T' ∷ 32 ∷ b'o' ∷ b'n' ∷ b'l' ∷ b'i' ∷ b'n' ∷ b'e' ∷ 32
      ∷ b'f' ∷ b'r' ∷ b'o' ∷ b'm' ∷ 32 ∷ b's' ∷ b'n' ∷ b'e' ∷ b's' ∷ b'o' ∷ b'i' ∷ b'p' ∷ b'.'
      ∷ b'u' ∷ b's' ∷ b'e' ∷ b'r' ∷ 32 ∷ b'w' ∷ b'h' ∷ b'e' ∷ b'r' ∷ b'e' ∷ 32 ∷ b'u' ∷ b's' ∷ b'e'
      ∷ b'r' ∷ b'n' ∷ b'a' ∷ b'm' ∷ b'e' ∷ b'=' ∷ [])
    ∷ given user
    ∷ []
format (dest_addr user) =
    code (
      b'S' ∷ b'E' ∷ b'L' ∷ b'E' ∷ b'C' ∷ b'T' ∷ 32 ∷ b'C' ∷ b'O' ∷ b'N' ∷ b'C' ∷ b'A' ∷ b'T' ∷ b'('
      ∷ b'u' ∷ b's' ∷ b'e' ∷ b'r' ∷ b'.' ∷ b'c' ∷ b'u' ∷ b'r' ∷ b'r' ∷ b'_' ∷ b'i' ∷ b'p' ∷ b','
      ∷ [])
    ∷ fixed (b':' ∷ [])
    ∷ code (
        b',' ∷ b'u' ∷ b's' ∷ b'e' ∷ b'r' ∷ b'.' ∷ b'p' ∷ b'o' ∷ b'r' ∷ b't' ∷ b')' ∷ 32 ∷ b'F'
        ∷ b'R' ∷ b'O' ∷ b'M' ∷ 32 ∷ b'u' ∷ b's' ∷ b'e' ∷ b'r' ∷ 32 ∷ b'W' ∷ b'H' ∷ b'E' ∷ b'R'
        ∷ b'E' ∷ 32 ∷ b'u' ∷ b's' ∷ b'e' ∷ b'r' ∷ b'n' ∷ b'a' ∷ b'm' ∷ b'e' ∷ b'=' ∷ [])
    ∷ given user
    ∷ []
format (client_key user) =
    code (
      b'S' ∷ b'E' ∷ b'L' ∷ b'E' ∷ b'C' ∷ b'T' ∷ 32 ∷ b'u' ∷ b's' ∷ b'e' ∷ b'r' ∷ b'.' ∷ b'k' ∷ b'e'
      ∷ b'y' ∷ 32 ∷ b'F' ∷ b'R' ∷ b'O' ∷ b'M' ∷ 32 ∷ b'u' ∷ b's' ∷ b'e' ∷ b'r' ∷ 32 ∷ b'W' ∷ b'H'
      ∷ b'E' ∷ b'R' ∷ b'E' ∷ 32 ∷ b'u' ∷ b's' ∷ b'e' ∷ b'r' ∷ b'n' ∷ b'a' ∷ b'm' ∷ b'e' ∷ b'=' ∷ [])
    ∷ given user
    ∷ []
format (opponent user) =
    code (
      b'S' ∷ b'E' ∷ b'L' ∷ b'E' ∷ b'C' ∷ b'T' ∷ 32 ∷ b'u' ∷ b's' ∷ b'e' ∷ b'r' ∷ b'.' ∷ b'd' ∷ b'e'
      ∷ b's' ∷ b't' ∷ b'_' ∷ b'u' ∷ b's' ∷ b'e' ∷ b'r' ∷ b'n' ∷ b'a' ∷ b'm' ∷ b'e' ∷ 32 ∷ b'F'
      ∷ b'R' ∷ b'O' ∷ b'M' ∷ 32 ∷ b'u' ∷ b's' ∷ b'e' ∷ b'r' ∷ 32 ∷ b'W' ∷ b'H' ∷ b'E' ∷ b'R' ∷ b'E'
      ∷ 32 ∷ b'u' ∷ b's' ∷ b'e' ∷ b'r' ∷ b'n' ∷ b'a' ∷ b'm' ∷ b'e' ∷ b'=' ∷ [])
    ∷ given user
    ∷ []
format (free_port ip port) =
    code (
      b'S' ∷ b'E' ∷ b'L' ∷ b'E' ∷ b'C' ∷ b'T' ∷ 32 ∷ b'u' ∷ b's' ∷ b'e' ∷ b'r' ∷ b'i' ∷ b'd' ∷ 32
      ∷ b'F' ∷ b'R' ∷ b'O' ∷ b'M' ∷ 32 ∷ b's' ∷ b'n' ∷ b'e' ∷ b's' ∷ b'o' ∷ b'i' ∷ b'p' ∷ b'.'
      ∷ b'u' ∷ b's' ∷ b'e' ∷ b'r' ∷ 32 ∷ b'W' ∷ b'H' ∷ b'E' ∷ b'R' ∷ b'E' ∷ 32 ∷ b'c' ∷ b'u' ∷ b'r'
      ∷ b'r' ∷ b'_' ∷ b'i' ∷ b'p' ∷ 32 ∷ b'=' ∷ 32 ∷ [])
    ∷ given ip
    ∷ code (32 ∷ b'A' ∷ b'N' ∷ b'D' ∷ 32 ∷ b'p' ∷ b'o' ∷ b'r' ∷ b't' ∷ 32 ∷ b'=' ∷ 32 ∷ [])
    ∷ code (print_int port)
    ∷ []
format (write up) = update_format up
format all_offline =
    code (
      b'U' ∷ b'P' ∷ b'D' ∷ b'A' ∷ b'T' ∷ b'E' ∷ 32 ∷ b's' ∷ b'n' ∷ b'e' ∷ b's' ∷ b'o' ∷ b'i' ∷ b'p'
      ∷ b'.' ∷ b'u' ∷ b's' ∷ b'e' ∷ b'r' ∷ 32 ∷ b'S' ∷ b'E' ∷ b'T' ∷ 32 ∷ b'o' ∷ b'n' ∷ b'l' ∷ b'i'
      ∷ b'n' ∷ b'e' ∷ 32 ∷ b'=' ∷ 32 ∷ b'f' ∷ b'a' ∷ b'l' ∷ b's' ∷ b'e' ∷ [])
    ∷ []
format all_ip_none =
    code (
      b'U' ∷ b'P' ∷ b'D' ∷ b'A' ∷ b'T' ∷ b'E' ∷ 32 ∷ b's' ∷ b'n' ∷ b'e' ∷ b's' ∷ b'o' ∷ b'i' ∷ b'p'
      ∷ b'.' ∷ b'u' ∷ b's' ∷ b'e' ∷ b'r' ∷ 32 ∷ b'S' ∷ b'E' ∷ b'T' ∷ 32 ∷ b'c' ∷ b'u' ∷ b'r' ∷ b'r'
      ∷ b'_' ∷ b'i' ∷ b'p' ∷ 32 ∷ b'=' ∷ 32 ∷ [])
    ∷ fixed word_none
    ∷ []
format all_port_zero =
    code (
      b'U' ∷ b'P' ∷ b'D' ∷ b'A' ∷ b'T' ∷ b'E' ∷ 32 ∷ b's' ∷ b'n' ∷ b'e' ∷ b's' ∷ b'o' ∷ b'i' ∷ b'p'
      ∷ b'.' ∷ b'u' ∷ b's' ∷ b'e' ∷ b'r' ∷ 32 ∷ b'S' ∷ b'E' ∷ b'T' ∷ 32 ∷ b'p' ∷ b'o' ∷ b'r' ∷ b't'
      ∷ 32 ∷ b'=' ∷ 32 ∷ b'0' ∷ [])
    ∷ []

-- What `snprintf` prints for it, if there is room.
unfoldable pub text : (Bytes → Bytes) → List Piece → Bytes
text escape [] = []
text escape (code t ∷ ps) = t ++ text escape ps
text escape (fixed t ∷ ps) = 39 ∷ t ++ 39 ∷ text escape ps
text escape (given t ∷ ps) = 39 ∷ escape t ++ 39 ∷ text escape ps

-- The size that `snprintf` is given.
unfoldable pub size : Query → ℕ
size (user_id user) = 128
size (free_port ip port) = 128
size (write up) = 128
size all_offline = 128
size all_ip_none = 128
size all_port_zero = 128
size (user_online user) = 256
size (opponent user) = 256
size (client_key user) = 256
size (dest_addr user) = 256
size (auth user pass) = 256
size (mode user dest) = 256

unfoldable pub query_text : (Bytes → Bytes) → Query → Bytes
query_text escape q = take (size q - 1) (text escape (format q))

module _ {Db : Type 0} (api : Mysql Db) where
  -- A query, and what it has found if it succeeds.
  unfoldable pub ask : Db → Query → Db × Rows
  ask db q =
      let (db', ok) = api.mysql_query db (query_text api.escape q) in
      (db', if ok then api.first_row db' else no_result)

  abbrev number_of : Rows → ℤ
  number_of no_result = negsuc 0
  number_of no_row = pos 0
  number_of (row c) = atoi c

  abbrev text_of : Rows → Option Bytes
  text_of no_result = none
  text_of no_row = none
  text_of (row c) = some c

  abbrev number : Db → Query → Db × ℤ
  number db q = let (db', rows) = ask db q in (db', number_of rows)

  abbrev string : Db → Query → Db × Option Bytes
  string db q = let (db', rows) = ask db q in (db', text_of rows)

  -- The same for a query without rows.
  unfoldable pub change : Db → Query → Db × ℤ
  change db q =
      let (db', ok) = api.mysql_query db (query_text api.escape q) in
      (db', if ok then pos 0 else negsuc 0)

  unfoldable pub auth_query : Db → Bytes → Bytes → Db × ℤ
  auth_query db user pass = number db (auth user pass)

  unfoldable pub user_query : Db → Bytes → Db × ℤ
  user_query db user = number db (user_id user)

  unfoldable pub mode_query : Db → Bytes → Bytes → Db × Option Bytes
  mode_query db user dest = string db (mode user dest)

  unfoldable pub online_query : Db → Bytes → Db × ℤ
  online_query db user = number db (user_online user)

  unfoldable pub dest_addr_query : Db → Bytes → Db × Option Bytes
  dest_addr_query db user = string db (dest_addr user)

  unfoldable pub client_key_query : Db → Bytes → Db × Option Bytes
  client_key_query db user = string db (client_key user)

  unfoldable pub opponent_query : Db → Bytes → Db × Option Bytes
  opponent_query db user = string db (opponent user)

  unfoldable pub free_port_query : Db → Bytes → ℤ → Db × ℤ
  free_port_query db ip port = number db (free_port ip port)

  -- `setOnlineMySQLQuery`, `setPortMySQLQuery`, `setDateMySQLQuery` and `setIPMySQLQuery`.
  unfoldable pub update_query : Db → Update → Db × ℤ
  update_query db up = change db (write up)

  -- `resetAllMySQLQuery`.
  unfoldable pub reset_all : Db → Db × ℤ
  reset_all db =
      let (db1, a) = change db all_offline in
      let (db2, b) = change db1 all_ip_none in
      let (db3, c) = change db2 all_port_zero in (db3, a +ℤ b +ℤ c)

  -- The operations for the sessions.
  unfoldable pub database : Database Db
  database = record {
    user_query = user_query;
    online_query = online_query;
    auth_query = auth_query;
    free_port_query = free_port_query;
    client_key_query = client_key_query;
    opponent_query = opponent_query;
    dest_addr_query = dest_addr_query;
    update_query = update_query;
  }

-- ===== src/Login/Port.antt =====
-- The command PORT of `tcp_server_read`: the port and the opponent.
use sneso_ip.Common.{
  ℕ, ◌+◌, Bool, true, not, ◌&&◌, Option, none, some, [], ◌∷◌, ◌++◌, Bytes, leb, if◌then◌else◌, take,
  drop, length, bytes_eq,
}
use sneso_ip.Common.Int.{ℤ, pos, negsuc, eq_ℤ, geb_ℤ}
use sneso_ip.Cstring.{c_string, memcmp_eq, atoi}
use sneso_ip.Login.{
  Setting, Session, set_port, set_online, set_date, World, ended, crashed, is_running, say, update,
  stop, fail, clean_up,
}
use sneso_ip.Login.Credentials.{cut_at}

-- `PORT_STR_MIN`.
abbrev pub port_str_min : ℕ
port_str_min = 2

abbrev pub slave_text : Bytes
slave_text = b'S' ∷ b'L' ∷ b'A' ∷ b'V' ∷ b'E' ∷ 10 ∷ []

abbrev pub master_text : Bytes
master_text = b'M' ∷ b'A' ∷ b'S' ∷ b'T' ∷ b'E' ∷ b'R' ∷ 10 ∷ []

abbrev pub gameserver : Bytes
gameserver = b'g' ∷ b'a' ∷ b'm' ∷ b'e' ∷ b's' ∷ b'e' ∷ b'r' ∷ b'v' ∷ b'e' ∷ b'r' ∷ []

-- `tcpip_addr`.
abbrev pub addr_line : Bytes → Bytes
addr_line text = take 31 (take 31 text ++ (10 ∷ []))

-- `getDestAddrMySQLQuery`, for the slave. The texts from the database are formats of `snprintf`.
unfoldable pub send_dest_addr : {Db : Type 0} → Setting Db → Db × Option Bytes → World Db → World Db
send_dest_addr env (db, none) w = stop crashed (record w { db = db })
send_dest_addr env (db, some text) w = say (addr_line (env.printed text)) (record w { db = db })

-- Which part the client plays, from whether its opponent is online.
unfoldable pub assign : {Db : Type 0} → Setting Db → Bytes → Bool → World Db → World Db
assign env dest_user hosted_game w =
    let (db, online) = env.database.online_query w.db dest_user in
    let w' = record w { db = db } in
    let slave = say slave_text w' in
    if eq_ℤ online (negsuc 0)
    then fail 142 w'
    else if eq_ℤ online (pos 1)
    then send_dest_addr env (env.database.dest_addr_query db dest_user) slave
    else if hosted_game
    then fail 142 w'
    else say master_text w'

-- The opponent's opponent must be the user, or "gameserver".
unfoldable pub check_reverse :
    {Db : Type 0} → Setting Db → Bytes → Db × Option Bytes → World Db → World Db
check_reverse env dest_user (db, none) w = stop crashed (record w { db = db })
check_reverse env dest_user (db, some text) w =
    let w' = record w { db = db } in
    let reverse = take 31 (env.printed text) in
    let hosted_game = bytes_eq gameserver reverse in
    if not (bytes_eq w.session.username reverse) && not hosted_game
    then stop ended (clean_up env (fail 141 w'))
    else assign env dest_user hosted_game w'

-- `getOpponentMySQLQuery`.
unfoldable pub check_opponent : {Db : Type 0} → Setting Db → Db × Option Bytes → World Db → World Db
check_opponent env (db, none) w = stop crashed (record w { db = db })
check_opponent env (db, some text) w =
    let dest_user = take 31 (env.printed text) in
    check_reverse env dest_user (env.database.opponent_query db dest_user) (record w { db = db })

-- A free port: the user is online from here on.
unfoldable pub take_port : {Db : Type 0} → Setting Db → ℤ → World Db → World Db
take_port env port w =
    let user = w.session.username in
    let w' =
      update env (set_date user)
        (update env (set_online user true) (update env (set_port user port) w)) in
    check_opponent env (env.database.opponent_query w'.db user) w'

abbrev port_word : Bytes
port_word = b'P' ∷ b'O' ∷ b'R' ∷ b'T' ∷ []

-- The outer `port_set` is never set: the one that the command sets is its own.
abbrev pub is_port : Session → Bool
is_port s = memcmp_eq s.buf port_word 4 && (s.greet_set && (s.user_set && s.auth_set))

-- PORT, for a read of `n` bytes.
unfoldable pub port_command : {Db : Type 0} → Setting Db → ℕ → World Db → World Db
port_command env n w =
    let w' = cut_at n w in
    let text = c_string w'.session.buf in
    let port = atoi (drop 5 text) in
    let (db, uid) = env.database.free_port_query w'.db w'.session.curr_ip port in
    let asked = record w' { db = db } in
    if is_running w.status && is_port w.session
    then (if leb (5 + port_str_min) (length text)
        then (if geb_ℤ (pos 65535) port && geb_ℤ port (pos 10)
            then (if eq_ℤ uid (pos 0) then take_port env port asked else fail 133 asked)
            else fail 131 w')
        else fail 132 w')
    else w

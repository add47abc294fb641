-- ===== src/Login/Run/Sizes/Opponent.antt =====
-- PORT keeps the sizes.
use sneso_ip.Common.{
  ℕ, ◌+◌, ◌≡◌, Bool, true, not, ◌&&◌, Option, none, some, arith, Bytes, bytes_eq, length, leb, take,
  drop,
}
use sneso_ip.Common.Int.{ℤ, pos, negsuc, eq_ℤ, geb_ℤ}
use sneso_ip.Cstring.{c_string, atoi}
use sneso_ip.Login.{
  Setting, set_online, set_port, set_date, World, is_running, say, update, fail, error_text,
}
use sneso_ip.Login.Credentials.{cut_at}
use sneso_ip.Login.Port.{
  port_str_min, addr_line, slave_text, master_text, gameserver, send_dest_addr, assign,
  check_reverse, check_opponent, take_port, is_port, port_command,
}
use sneso_ip.Login.Mysql.Size.{IsShort}
use sneso_ip.Login.Run.Sizes.{Sizes, if-Sizes, say-Sizes, update-Sizes, clean_up-Sizes}

send_dest_addr-Sizes :
    {Db : Type 0} (env : Setting Db) (addr : Db × Option Bytes) (w : World Db)
    → Sizes w
    → Sizes (send_dest_addr env addr w)
unfolding send_dest_addr
send_dest_addr-Sizes env (db, none) w k = k
send_dest_addr-Sizes env (db, some text) w k =
    say-Sizes (addr_line (env.printed text)) (record w { db = db }) k

assign-Sizes :
    {Db : Type 0} (env : Setting Db) (dest : Bytes) (hosted : Bool) (w : World Db)
    → Sizes w
    → Sizes (assign env dest hosted w)
unfolding assign
assign-Sizes env dest hosted w k =
    let (db, online) = env.database.online_query w.db dest in
    let w' = record w { db = db } in
    let slave = say slave_text w' in
    if-Sizes (eq_ℤ online (negsuc 0)) _ _ (λ t. say-Sizes (error_text 142) w' k)
      (λ t.
        if-Sizes (eq_ℤ online (pos 1)) _ _
          (λ t.
            send_dest_addr-Sizes env (env.database.dest_addr_query db dest) slave
              (say-Sizes slave_text w' k))
          (λ t.
            if-Sizes hosted _ _ (λ t. say-Sizes (error_text 142) w' k)
              (λ t. say-Sizes master_text w' k)))

check_reverse-Sizes :
    {Db : Type 0} (env : Setting Db) (dest : Bytes) (found : Db × Option Bytes) (w : World Db)
    → Sizes w
    → Sizes (check_reverse env dest found w)
unfolding check_reverse
check_reverse-Sizes env dest (db, none) w k = k
check_reverse-Sizes env dest (db, some text) w k =
    let w' = record w { db = db } in
    let hosted = bytes_eq gameserver (take 31 (env.printed text)) in
    if-Sizes (not (bytes_eq w.session.username (take 31 (env.printed text))) && not hosted) _ _
      (λ t. clean_up-Sizes env (fail 141 w') (say-Sizes (error_text 141) w' k))
      (λ t. assign-Sizes env dest hosted w' k)

check_opponent-Sizes :
    {Db : Type 0} (env : Setting Db) (found : Db × Option Bytes) (w : World Db)
    → Sizes w
    → Sizes (check_opponent env found w)
unfolding check_opponent
check_opponent-Sizes env (db, none) w k = k
check_opponent-Sizes env (db, some text) w k =
    let dest = take 31 (env.printed text) in
    check_reverse-Sizes env dest (env.database.opponent_query db dest) (record w { db = db }) k

take_port-Sizes :
    {Db : Type 0} (env : Setting Db) (port : ℤ) (w : World Db)
    → w.session.user_set ≡ true
    → Sizes w
    → Sizes (take_port env port w)
unfolding take_port IsShort
take_port-Sizes env port w set k =
    let user = w.session.username in
    let w1 = update env (set_port user port) w in
    let w2 = update env (set_online user true) w1 in
    let w3 = update env (set_date user) w2 in
    let short = k.short_name set in
    let k1 = update-Sizes env (set_port user port) w short k in
    let k2 = update-Sizes env (set_online user true) w1 short k1 in
    let k3 = update-Sizes env (set_date user) w2 short k2 in
    check_opponent-Sizes env (env.database.opponent_query w3.db user) w3 k3

pub port_command-Sizes :
    {Db : Type 0} (env : Setting Db) (n : ℕ) (w : World Db) → Sizes w → Sizes (port_command env n w)
unfolding port_command
port_command-Sizes env n w k =
    let s = w.session in
    let w' = cut_at n w in
    let text = c_string w'.session.buf in
    let port = atoi (drop 5 text) in
    let (db, uid) = env.database.free_port_query w'.db s.curr_ip port in
    let asked = record w' { db = db } in
    if-Sizes (is_running w.status && is_port s) _ w
      (λ t.
        if-Sizes (leb (5 + port_str_min) (length text)) _ _
          (λ t'.
            if-Sizes (geb_ℤ (pos 65535) port && geb_ℤ port (pos 10)) _ _
              (λ t''.
                if-Sizes (eq_ℤ uid (pos 0)) _ _
                  (λ free. take_port-Sizes env port asked (ground arith) k)
                  (λ used. say-Sizes (error_text 133) asked k))
              (λ t''. say-Sizes (error_text 131) w' k))
          (λ t'. say-Sizes (error_text 132) w' k))
      (λ t. k)

-- ===== src/Login/Run/Opponent.antt =====
-- PORT keeps the invariant.
use sneso_ip.Common.{
  ℕ, ◌+◌, ◌≡◌, Bool, true, not, ◌&&◌, Option, none, some, arith, Bytes, bytes_eq, bytes_eq_self,
  length, leb, take, drop,
}
use sneso_ip.Common.Int.{ℤ, pos, negsuc, eq_ℤ, geb_ℤ}
use sneso_ip.Cstring.{c_string, atoi}
use sneso_ip.Login.{
  Setting, set_online, set_port, set_date, World, is_running, say, update, fail, error_text,
}
use sneso_ip.Login.Credentials.{cut_at}
use sneso_ip.Login.Port.{
  port_str_min, addr_line, slave_text, master_text, gameserver, send_dest_addr, assign,
  check_reverse, check_opponent, take_port, is_port, port_command,
}
use sneso_ip.Login.Run.Invariant.{Keeps, say-Keeps, own, update-own-Keeps}
use sneso_ip.Login.Run.Ending.{if-Keeps, end-Keeps, crash-Keeps}

send_dest_addr-Keeps :
    {Db : Type 0} (env : Setting Db) (addr : Db × Option Bytes) (u : Bytes) (w : World Db)
    → Keeps u w
    → Keeps u (send_dest_addr env addr w)
unfolding send_dest_addr
send_dest_addr-Keeps env (db, none) u w k = crash-Keeps u (record w { db = db }) k
send_dest_addr-Keeps env (db, some text) u w k =
    say-Keeps u (addr_line (env.printed text)) (record w { db = db }) k

assign-Keeps :
    {Db : Type 0} (env : Setting Db) (dest : Bytes) (hosted : Bool) (u : Bytes) (w : World Db)
    → Keeps u w
    → Keeps u (assign env dest hosted w)
unfolding assign
assign-Keeps env dest hosted u w k =
    let (db, online) = env.database.online_query w.db dest in
    let w' = record w { db = db } in
    let slave = say slave_text w' in
    if-Keeps u (eq_ℤ online (negsuc 0)) _ _ (λ t. say-Keeps u (error_text 142) w' k)
      (λ t.
        if-Keeps u (eq_ℤ online (pos 1)) _ _
          (λ t.
            send_dest_addr-Keeps env (env.database.dest_addr_query db dest) u slave
              (say-Keeps u slave_text w' k))
          (λ t.
            if-Keeps u hosted _ _ (λ t. say-Keeps u (error_text 142) w' k)
              (λ t. say-Keeps u master_text w' k)))

check_reverse-Keeps :
    {Db : Type 0} (env : Setting Db) (dest : Bytes) (found : Db × Option Bytes) (u : Bytes)
    (w : World Db)
    → Keeps u w
    → Keeps u (check_reverse env dest found w)
unfolding check_reverse
check_reverse-Keeps env dest (db, none) u w k = crash-Keeps u (record w { db = db }) k
check_reverse-Keeps env dest (db, some text) u w k =
    let w' = record w { db = db } in
    let hosted = bytes_eq gameserver (take 31 (env.printed text)) in
    if-Keeps u (not (bytes_eq w.session.username (take 31 (env.printed text))) && not hosted) _ _
      (λ t. end-Keeps env u (fail 141 w') (say-Keeps u (error_text 141) w' k))
      (λ t. assign-Keeps env dest hosted u w' k)

check_opponent-Keeps :
    {Db : Type 0} (env : Setting Db) (found : Db × Option Bytes) (u : Bytes) (w : World Db)
    → Keeps u w
    → Keeps u (check_opponent env found w)
unfolding check_opponent
check_opponent-Keeps env (db, none) u w k = crash-Keeps u (record w { db = db }) k
check_opponent-Keeps env (db, some text) u w k =
    let dest = take 31 (env.printed text) in
    check_reverse-Keeps env dest (env.database.opponent_query db dest) u (record w { db = db }) k

take_port-Keeps :
    {Db : Type 0} (env : Setting Db) (port : ℤ) (u : Bytes) (w : World Db)
    → is_running w.status ≡ true
    → w.session.auth_set ≡ true
    → Keeps u w
    → Keeps u (take_port env port w)
unfolding take_port own
take_port-Keeps env port u w runs auth k =
    let user = w.session.username in
    let w1 = update env (set_port user port) w in
    let w2 = update env (set_online user true) w1 in
    let w3 = update env (set_date user) w2 in
    let self = bytes_eq_self user in
    let k1 = update-own-Keeps env u (set_port user port) w self auth runs k in
    let k2 = update-own-Keeps env u (set_online user true) w1 self auth runs k1 in
    let k3 = update-own-Keeps env u (set_date user) w2 self auth runs k2 in
    check_opponent-Keeps env (env.database.opponent_query w3.db user) u w3 k3

pub port_command-Keeps :
    {Db : Type 0} (env : Setting Db) (n : ℕ) (u : Bytes) (w : World Db)
    → Keeps u w
    → Keeps u (port_command env n w)
unfolding port_command
port_command-Keeps env n u w k =
    let s = w.session in
    let w' = cut_at n w in
    let text = c_string w'.session.buf in
    let port = atoi (drop 5 text) in
    let (db, uid) = env.database.free_port_query w'.db s.curr_ip port in
    let asked = record w' { db = db } in
    if-Keeps u (is_running w.status && is_port s) _ w
      (λ t.
        if-Keeps u (leb (5 + port_str_min) (length text)) _ _
          (λ t'.
            if-Keeps u (geb_ℤ (pos 65535) port && geb_ℤ port (pos 10)) _ _
              (λ t''.
                if-Keeps u (eq_ℤ uid (pos 0)) _ _
                  (λ free. take_port-Keeps env port u asked (ground arith) (ground arith) k)
                  (λ used. say-Keeps u (error_text 133) asked k))
              (λ t''. say-Keeps u (error_text 131) w' k))
          (λ t'. say-Keeps u (error_text 132) w' k))
      (λ t. k)

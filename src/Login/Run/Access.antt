-- ===== src/Login/Run/Access.antt =====
-- The session as a whole: the changes of the database wait for the user's password, the end of a
-- session leaves nothing behind, and wrong passwords end it.
use sneso_ip.Common.{
  ◌≤◌, ◌<◌, ◌≡◌, refl, true, ◌&&◌, ◌||◌, List, [], ◌∷◌, arith, Bytes, length, take, ◌==◌,
}
use sneso_ip.Cstring.{memcmp_eq}
use sneso_ip.Login.{Setting, World, is_running}
use sneso_ip.Login.Credentials.{user_command, pass_command}
use sneso_ip.Login.Port.{port_command}
use sneso_ip.Login.Watch.{fresh, watch_all, away}
use sneso_ip.Login.Run.{
  Input, is_helo, helo_command, quit_command, receive, commands, round, tcp_server_read, connected,
}
use sneso_ip.Login.Run.Invariant.{is_ended, Keeps, say-Keeps}
use sneso_ip.Login.Run.Ending.{if-Keeps, end-Keeps}
use sneso_ip.Login.Run.{quit_word, peer_text}
use sneso_ip.Login.Run.User.{user_command-Keeps, user_command-counter}
use sneso_ip.Login.Run.Password.{pass_command-Keeps}
use sneso_ip.Login.Run.Opponent.{port_command-Keeps}

helo_command-Keeps :
    {Db : Type 0} (env : Setting Db) (u : Bytes) (w : World Db)
    → Keeps u w
    → Keeps u (helo_command env w)
unfolding helo_command
helo_command-Keeps env u w k =
    if-Keeps u (is_running w.status && is_helo w.session) _ w
      (λ t.
        say-Keeps u _
          (record w {
            session = record w.session { curr_ip = take 31 (peer_text env.peer); greet_set = true };
          })
          k)
      (λ t. k)

quit_command-Keeps :
    {Db : Type 0} (env : Setting Db) (u : Bytes) (w : World Db)
    → Keeps u w
    → Keeps u (quit_command env w)
unfolding quit_command
quit_command-Keeps env u w k =
    if-Keeps u (is_running w.status && memcmp_eq w.session.buf quit_word 4) _ w
      (λ t. end-Keeps env u w k) (λ t. k)

commands-Keeps :
    {Db : Type 0} (env : Setting Db) (i : Input) (u : Bytes) (w : World Db)
    → w.session.brutforce_counter < 5
    → Keeps u w
    → Keeps u (commands env i w)
unfolding commands
commands-Keeps env i u w lt k =
    let n = length i.bytes in
    let w1 = receive i.bytes w in
    let w2 = user_command env i.rand n w1 in
    let w3 = pass_command env n w2 in
    let w4 = port_command env n w3 in
    let lt2 : w2.session.brutforce_counter < 5 =
      omega (arith, user_command-counter env i.rand n w1) in
    quit_command-Keeps env u (helo_command env w4) (
      helo_command-Keeps env u w4 (
        port_command-Keeps env n u w3
          (pass_command-Keeps env n u w2 lt2 (user_command-Keeps env i.rand n u w1 k))))

round-Keeps :
    {Db : Type 0} (env : Setting Db) (i : Input) (u : Bytes) (w : World Db)
    → Keeps u w
    → Keeps u (round env i w)
unfolding round
round-Keeps env i u w k =
    let few : w.session.brutforce_counter ≤ 5 = k.few in
    if-Keeps u (is_running w.status) _ w
      (λ t.
        if-Keeps u ((length i.bytes == 0) || (w.session.brutforce_counter == 5)) _ _
          (λ t'. end-Keeps env u w k) (λ t'. commands-Keeps env i u w (ground (arith, few)) k))
      (λ t. k)

rounds-Keeps :
    {Db : Type 0} (env : Setting Db) (more : List Input) (u : Bytes) (w : World Db)
    → Keeps u w
    → Keeps u (tcp_server_read env more w)
unfolding tcp_server_read
rounds-Keeps env [] u w k = k
rounds-Keeps env (i ∷ more) u w k =
    rounds-Keeps env more u (round env i w) (round-Keeps env i u w k)

connected-Keeps :
    {Db : Type 0} (db : Db) (garbage name : Bytes) (u : Bytes) → Keeps u (connected db garbage name)
unfolding connected watch_all
connected-Keeps db garbage name u = record {
  named = λ t. absurd (ground arith);
  granted_name = λ t. absurd (ground arith);
  all_allowed = refl;
  rest_away = λ t. refl;
  end_away = λ t. absurd (ground arith);
  counted = refl;
  few = omega arith;
}

session-Keeps :
    {Db : Type 0} (env : Setting Db) (reads : List Input) (db : Db) (garbage name : Bytes)
    (u : Bytes)
    → Keeps u (tcp_server_read env reads (connected db garbage name))
session-Keeps env reads db garbage name u =
    rounds-Keeps env reads u (connected db garbage name) (connected-Keeps db garbage name u)

-- Whatever a client sends and the database answers, each change that a session makes for a user is
-- one to "not online", the address "none" or the port 0, or comes after the right password of that
-- user, with no other user's in between.
pub tcp_server_read-allowed :
    {Db : Type 0} (env : Setting Db) (reads : List Input) (db : Db) (garbage name : Bytes)
    (u : Bytes)
    → (watch_all u fresh (tcp_server_read env reads (connected db garbage name)).acts).allowed
      ≡ true
tcp_server_read-allowed env reads db garbage name u =
    (session-Keeps env reads db garbage name u).all_allowed

-- After a session that has ended, by QUIT, by the end of the connection, by an opponent that does not
-- match or by wrong passwords, the last of its changes leave every user not online, with the address
-- "none" and the port 0, or it made none.
pub tcp_server_read-away :
    {Db : Type 0} (env : Setting Db) (reads : List Input) (db : Db) (garbage name : Bytes)
    (u : Bytes)
    → let w = tcp_server_read env reads (connected db garbage name) in
      is_ended w.status ≡ true → away (watch_all u fresh w.acts) ≡ true
tcp_server_read-away env reads db garbage name u h =
    (session-Keeps env reads db garbage name u).end_away h

-- A session tries no more than five wrong passwords, and counts them.
pub tcp_server_read-wrong :
    {Db : Type 0} (env : Setting Db) (reads : List Input) (db : Db) (garbage name : Bytes)
    (u : Bytes)
    → let w = tcp_server_read env reads (connected db garbage name) in
      ((watch_all u fresh w.acts).wrong ≡ w.session.brutforce_counter)
      × (w.session.brutforce_counter ≤ 5)
tcp_server_read-wrong env reads db garbage name u =
    let k = session-Keeps env reads db garbage name u in (k.counted, k.few)

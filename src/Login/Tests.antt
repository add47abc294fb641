-- ===== src/Login/Tests.antt =====
-- A session of the login server from HELO to QUIT, and its queries, at concrete texts.
use sneso_ip.Common.{
  ℕ, ◌+◌, ◌≤◌, ◌≡◌, refl, true, ◌||◌, none, some, List, [], ◌∷◌, ◌++◌, Bytes, ◌==◌, if◌then◌else◌,
  replicate, bytes_eq,
}
use sneso_ip.Common.Int.{pos}
use sneso_ip.Cstring.{strtol16, strtol_digits, strtol_prefix, atoi, print_u8}
use sneso_ip.Login.{Database, Setting, World, clean_up}
use sneso_ip.Login.Credentials.{
  challenge, check_user, user_command, unhex, xor_from, mix, plain, check_answer, check_key,
  pass_command,
}
use sneso_ip.Login.Port.{
  send_dest_addr, assign, check_reverse, check_opponent, take_port, port_command,
}
use sneso_ip.Login.Run.{
  Input, peer_text, helo_command, quit_command, commands, round, tcp_server_read, connected,
}
use sneso_ip.Login.Run.Invariant.{is_ended}
use sneso_ip.Login.Run.Access.{tcp_server_read-allowed, tcp_server_read-away, tcp_server_read-wrong}
use sneso_ip.Login.Watch.{fresh, watch_all, away}

abbrev player : Bytes
player = b'm' ∷ b'a' ∷ b'r' ∷ b'i' ∷ b'o' ∷ []

abbrev other_player : Bytes
other_player = b'l' ∷ b'u' ∷ b'i' ∷ b'g' ∷ b'i' ∷ []

abbrev partner : Bytes → Bytes
partner user = if bytes_eq user player then other_player else player

-- A database that knows everybody, with a count of its updates.
abbrev answers : Database ℕ
answers = record {
  user_query = λ db user. (db, pos 7);
  online_query = λ db user. (db, pos 0);
  auth_query = λ db user pass. (db, pos 7);
  free_port_query = λ db ip port. (db, pos 0);
  client_key_query = λ db user. (db, some player);
  opponent_query = λ db user. (db, some (partner user));
  dest_addr_query = λ db user. (db, none);
  update_query = λ db up. (db + 1, pos 0);
}

abbrev env : Setting ℕ
env = record {
  database = answers;
  keystream = λ key iv i. 0;
  behind = 0 ∷ [];
  peer = 0x0101a8c0;
  printed = λ s. s;
  stale_key = [];
}

abbrev line : Bytes → Input
line s = record { bytes = s; rand = λ i. i }

abbrev garbage : Bytes
garbage = replicate 80 0

abbrev logs_in : List Input
logs_in =
    line (b'H' ∷ b'E' ∷ b'L' ∷ b'O' ∷ 32 ∷ b'x' ∷ 10 ∷ [])
    ∷ line (b'U' ∷ b'S' ∷ b'E' ∷ b'R' ∷ 32 ∷ b'm' ∷ b'a' ∷ b'r' ∷ b'i' ∷ b'o' ∷ 10 ∷ [])
    ∷ line (
        b'P' ∷ b'A' ∷ b'S' ∷ b'S' ∷ 32 ∷ b'6' ∷ b'1' ∷ b'6' ∷ b'2' ∷ b'6' ∷ b'3' ∷ b'6' ∷ b'4'
        ∷ b'6' ∷ b'5' ∷ b'6' ∷ b'6' ∷ b'6' ∷ b'7' ∷ b'6' ∷ b'8' ∷ b'6' ∷ b'9' ∷ b'6' ∷ b'a' ∷ 10
        ∷ [])
    ∷ line (b'P' ∷ b'O' ∷ b'R' ∷ b'T' ∷ 32 ∷ b'4' ∷ b'0' ∷ b'0' ∷ b'0' ∷ 10 ∷ [])
    ∷ []

abbrev whole : List Input
whole = logs_in ++ (line (b'Q' ∷ b'U' ∷ b'I' ∷ b'T' ∷ 10 ∷ []) ∷ [])

abbrev session : World ℕ
session = tcp_server_read env whole (connected 0 garbage [])

is_over : is_ended session.status ≡ true
unfolding tcp_server_read round commands quit_command helo_command port_command take_port
    check_opponent check_reverse assign send_dest_addr pass_command check_key check_answer plain mix
    xor_from unhex user_command check_user challenge connected clean_up peer_text print_u8 strtol16
    strtol_digits strtol_prefix atoi
is_over = refl

-- The address, the port with the user online and the date, and three changes at the end.
seven_updates : session.db ≡ 7
unfolding tcp_server_read round commands quit_command helo_command port_command take_port
    check_opponent check_reverse assign send_dest_addr pass_command check_key check_answer plain mix
    xor_from unhex user_command check_user challenge connected clean_up peer_text print_u8 strtol16
    strtol_digits strtol_prefix atoi
seven_updates = refl

tcp_server_read-allowed_example : (watch_all player fresh session.acts).allowed ≡ true
tcp_server_read-allowed_example = tcp_server_read-allowed env whole 0 garbage [] player

tcp_server_read-away_example : away (watch_all player fresh session.acts) ≡ true
tcp_server_read-away_example = tcp_server_read-away env whole 0 garbage [] player is_over

tcp_server_read-wrong_example :
    ((watch_all player fresh session.acts).wrong ≡ session.session.brutforce_counter)
    × (session.session.brutforce_counter ≤ 5)
tcp_server_read-wrong_example = tcp_server_read-wrong env whole 0 garbage [] player

-- Escaping of the quote and the backslash.
unfoldable escape : Bytes → Bytes
escape [] = []
escape (c ∷ s) = let more = escape s in if (c == 39) || (c == 92) then 92 ∷ c ∷ more else c ∷ more

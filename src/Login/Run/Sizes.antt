-- ===== src/Login/Run/Sizes.antt =====
-- The sizes of what a session gives to the database: every change that it makes fits its query.
pub mod Credentials
pub mod Opponent
pub mod Changes
use sneso_ip.Common.{
  ℕ, zero, suc, ◌+◌, ◌-◌, ◌*◌, ◌/◌, ◌%◌, ◌≤◌, ◌<◌, ◌≡◌, refl, Bool, true, false, not, ◌&&◌, ◌||◌,
  Option, none, some, List, [], ◌∷◌, ◌++◌, arith, Bytes, if◌then◌else◌, bytes_eq, bytes_eq_self,
  length, leb, take, drop, ◌==◌,
}
use sneso_ip.Common.Int.{ℤ, pos, negsuc, eq_ℤ, geb_ℤ}
use sneso_ip.Cstring.{c_string, memcmp_eq, atoi}
use sneso_ip.Login.{
  Setting, Session, Update, set_online, set_ip, set_port, set_date, Act, sent, changed, answered,
  none_text, World, Status, running, ended, crashed, is_running, say, update, stop, fail,
  error_text, clean_up,
}
use sneso_ip.Login.Credentials.{
  username_min, username_max, password_min, password_max, ok_text, cut_at, challenge, set_user,
  accept_user, check_user, is_user, user_command, grant, refuse, check_answer, check_key, plain,
  is_pass, pass_command,
}
use sneso_ip.Login.Port.{
  port_str_min, addr_line, slave_text, master_text, gameserver, send_dest_addr, assign,
  check_reverse, check_opponent, take_port, is_port, port_command,
}
use sneso_ip.Login.Run.{
  Input, is_helo, helo_command, quit_command, receive, commands, round, tcp_server_read, connected,
}
use sneso_ip.Common.{All, All-append, length-append}
use sneso_ip.Cstring.{print_u8, dot}
use sneso_ip.Login.Run.{quit_word, peer_text}
use sneso_ip.Login.Mysql.{write}
use sneso_ip.Login.Mysql.Size.{IsShort}

-- The texts of a change fit its query.
unfoldable pub IsShortAct : Act → Type 0
IsShortAct (sent text) = Unit
IsShortAct (changed up) = IsShort (write up)
IsShortAct (answered user answer) = Unit

pub record Short (user_set : Bool) (name ip : Bytes) (acts : List Act) : Type 0 where
  pub short_name : user_set ≡ true → length name ≤ 20
  pub short_ip : length ip ≤ 15
  pub short_acts : All IsShortAct acts

abbrev pub Sizes : {Db : Type 0} → World Db → Type 0
Sizes w = let s = w.session in Short s.user_set s.username s.curr_ip w.acts

pub if-Sizes :
    {Db : Type 0} (b : Bool) (w w' : World Db)
    → (b ≡ true → Sizes w)
    → (b ≡ false → Sizes w')
    → Sizes (if b then w else w')
if-Sizes true w w' k k' = k refl
if-Sizes false w w' k k' = k' refl

pub act-Short :
    (user_set : Bool) (name ip : Bytes) (acts : List Act) (a : Act)
    → IsShortAct a
    → Short user_set name ip acts
    → Short user_set name ip (acts ++ (a ∷ []))
act-Short user_set name ip acts a h k = record {
  short_name = k.short_name;
  short_ip = k.short_ip;
  short_acts = All-append IsShortAct acts (a ∷ []) k.short_acts (h, tt);
}

pub say-Sizes : {Db : Type 0} (text : Bytes) (w : World Db) → Sizes w → Sizes (say text w)
say-Sizes text w k =
    let s = w.session in
    act-Short s.user_set s.username s.curr_ip w.acts (sent text) (unfold IsShortAct in tt) k

pub update-Sizes :
    {Db : Type 0} (env : Setting Db) (up : Update) (w : World Db)
    → IsShort (write up)
    → Sizes w
    → Sizes (update env up w)
update-Sizes env up w h k =
    let s = w.session in
    act-Short s.user_set s.username s.curr_ip w.acts (changed up) (unfold IsShortAct in h) k

-- Another user; with no user, every name will do.
pub rename-Short :
    (a b : Bool) (name name' ip : Bytes) (acts : List Act)
    → (b ≡ true → length name' ≤ 20)
    → Short a name ip acts
    → Short b name' ip acts
rename-Short a b name name' ip acts h k = record {
  short_name = h;
  short_ip = k.short_ip;
  short_acts = k.short_acts;
}

pub clean_up-Sizes :
    {Db : Type 0} (env : Setting Db) (w : World Db) → Sizes w → Sizes (clean_up env w)
unfolding clean_up IsShort
clean_up-Sizes env w k =
    let user = w.session.username in
    let w1 = update env (set_online user false) w in
    let w2 = update env (set_ip user none_text) w1 in
    if-Sizes w.session.user_set _ w
      (λ t.
        let short = k.short_name t in
        update-Sizes env (set_port user (pos 0)) w2 short (
          update-Sizes env (set_ip user none_text) w1 (short, omega arith)
            (update-Sizes env (set_online user false) w short k)))
      (λ t. k)

length-print_u8 : (n : ℕ) → length (print_u8 n) ≤ 3
unfolding print_u8
length-print_u8 n = ground arith

dotted : (n : ℕ) (s : Bytes) → length (print_u8 n ++ (dot ∷ []) ++ s) ≤ 4 + length s
dotted n s = omega (
  arith,
  length-append (print_u8 n ++ (dot ∷ [])) s,
  length-append (print_u8 n) (dot ∷ []),
  length-print_u8 n,
)

pub length-take : (n : ℕ) (s : Bytes) → length (take n s) ≤ length s
length-take zero s = omega arith
length-take (suc n) [] = omega arith
length-take (suc n) (c ∷ s) = omega (arith, length-take n s)

pub peer_text-short : (peer : ℕ) → length (peer_text peer) ≤ 15
unfolding peer_text
peer_text-short peer =
    let d = print_u8 (peer / 16777216 % 256) in
    let c = print_u8 (peer / 65536 % 256) ++ (dot ∷ []) ++ d in
    let b = print_u8 (peer / 256 % 256) ++ (dot ∷ []) ++ c in
    omega (
      arith,
      dotted (peer % 256) b,
      dotted (peer / 256 % 256) c,
      dotted (peer / 65536 % 256) d,
      length-print_u8 (peer / 16777216 % 256),
    )

pub length-peer_text : (n peer : ℕ) → length (take n (peer_text peer)) ≤ 15
length-peer_text n peer = omega (arith, length-take n (peer_text peer), peer_text-short peer)

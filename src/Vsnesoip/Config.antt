-- ===== src/Vsnesoip/Config.antt =====
-- The configuration that `init_login` of Archive/Rev2/utils/vsnesoip/login.c reads before it connects.
-- What libconfig finds in the file is an argument. A text has no percent sign, which `snprintf` would
-- take for a conversion.
pub mod Keys
mod Tests
use sneso_ip.Common.{
  ℕ, ◌≡◌, Bool, true, false, not, Option, none, some, [], ◌∷◌, Bytes, codes, ◌==◌, if◌then◌else◌,
  length, take,
}
use sneso_ip.Common.Int.{ℤ, pos, eq_ℤ}
use sneso_ip.Vsnesoip.Login.{Account}

-- `config_lookup_string` and `config_lookup_int`.
pub record Config : Type 0 where
  pub lookup_string : Bytes → Option Bytes
  pub lookup_int : Bytes → Option ℤ

-- The settings, by the names of their keys.
pub record Settings : Type 0 where
  pub loginserver : Bytes
  pub username : Bytes
  pub password : Bytes
  pub key : Bytes
  pub js_dev : Bytes
  pub server_port : ℤ
  pub tcp_min_port : ℤ
  pub tcp_max_port : ℤ
  pub js_axis_type : ℤ
  pub js_button_type : ℤ
  pub js_axis_up_val : ℤ
  pub js_axis_down_val : ℤ
  pub js_axis_left_val : ℤ
  pub js_axis_right_val : ℤ
  pub js_axis_y_nr : ℤ
  pub js_axis_x_nr : ℤ
  pub js_button_a_nr : ℤ
  pub js_button_b_nr : ℤ
  pub js_button_x_nr : ℤ
  pub js_button_y_nr : ℤ
  pub js_button_l_nr : ℤ
  pub js_button_r_nr : ℤ
  pub js_button_st_nr : ℤ
  pub js_button_se_nr : ℤ
  pub disable_p1 : ℤ
  pub select_x : ℤ
  pub mapping_mode : ℤ
  pub debug : ℤ

-- A value, or the key that is "not set".
pub data Result {ℓ} (A : Type ℓ) : Type ℓ where
  ok : A → Result A
  not_set : Bytes → Result A

infixl 5 ◌>>=◌
abbrev pub ◌>>=◌ {ℓ κ} : {A : Type ℓ} {B : Type κ} → Result A → (A → Result B) → Result B
ok a >>= f = f a
not_set k >>= f = not_set k

-- A text that is there and not empty, a port that is there and not 0, a number that is there.
unfoldable pub text_of : Config → Bytes → Result Bytes
text_of conf key = elim (conf.lookup_string key) [
  | none ↦ not_set key
  | some s ↦ if length s == 0 then not_set key else ok s
]

unfoldable pub port_of : Config → Bytes → Result ℤ
port_of conf key = elim (conf.lookup_int key) [
  | none ↦ not_set key
  | some n ↦ if eq_ℤ n (pos 0) then not_set key else ok n
]

unfoldable pub int_of : Config → Bytes → Result ℤ
int_of conf key = elim (conf.lookup_int key) [ none ↦ not_set key | some n ↦ ok n ]

-- `debug` keeps its 0 where it is not set.
unfoldable pub debug_of : Config → ℤ
debug_of conf = elim (conf.lookup_int (codes "debug")) [ none ↦ pos 0 | some n ↦ n ]

-- The lookups of `init_login`, in their order.
unfoldable pub read_config : Config → Result Settings
read_config conf = do
  loginserver ← text_of conf (codes "loginserver")
  username ← text_of conf (codes "username")
  password ← text_of conf (codes "password")
  key ← text_of conf (codes "key")
  js_dev ← text_of conf (codes "js_dev")
  server_port ← port_of conf (codes "server_port")
  tcp_min_port ← port_of conf (codes "tcp_min_port")
  tcp_max_port ← port_of conf (codes "tcp_max_port")
  js_axis_type ← int_of conf (codes "js_axis_type")
  js_button_type ← int_of conf (codes "js_button_type")
  js_axis_up_val ← int_of conf (codes "js_axis_up_val")
  js_axis_down_val ← int_of conf (codes "js_axis_down_val")
  js_axis_left_val ← int_of conf (codes "js_axis_left_val")
  js_axis_right_val ← int_of conf (codes "js_axis_right_val")
  js_axis_y_nr ← int_of conf (codes "js_axis_y_nr")
  js_axis_x_nr ← int_of conf (codes "js_axis_x_nr")
  js_button_a_nr ← int_of conf (codes "js_button_a_nr")
  js_button_b_nr ← int_of conf (codes "js_button_b_nr")
  js_button_x_nr ← int_of conf (codes "js_button_x_nr")
  js_button_y_nr ← int_of conf (codes "js_button_y_nr")
  js_button_l_nr ← int_of conf (codes "js_button_l_nr")
  js_button_r_nr ← int_of conf (codes "js_button_r_nr")
  js_button_st_nr ← int_of conf (codes "js_button_st_nr")
  js_button_se_nr ← int_of conf (codes "js_button_se_nr")
  disable_p1 ← int_of conf (codes "disable_p1")
  select_x ← int_of conf (codes "select_x")
  mapping_mode ← int_of conf (codes "mapping_mode")
  ok (record {
    loginserver = loginserver;
    username = username;
    password = password;
    key = key;
    js_dev = js_dev;
    server_port = server_port;
    tcp_min_port = tcp_min_port;
    tcp_max_port = tcp_max_port;
    js_axis_type = js_axis_type;
    js_button_type = js_button_type;
    js_axis_up_val = js_axis_up_val;
    js_axis_down_val = js_axis_down_val;
    js_axis_left_val = js_axis_left_val;
    js_axis_right_val = js_axis_right_val;
    js_axis_y_nr = js_axis_y_nr;
    js_axis_x_nr = js_axis_x_nr;
    js_button_a_nr = js_button_a_nr;
    js_button_b_nr = js_button_b_nr;
    js_button_x_nr = js_button_x_nr;
    js_button_y_nr = js_button_y_nr;
    js_button_l_nr = js_button_l_nr;
    js_button_r_nr = js_button_r_nr;
    js_button_st_nr = js_button_st_nr;
    js_button_se_nr = js_button_se_nr;
    disable_p1 = disable_p1;
    select_x = select_x;
    mapping_mode = mapping_mode;
    debug = debug_of conf;
  })

-- `_SNESoIP_username`, `_SNESoIP_password` and `_SNESoIP_key`, in 128 bytes each. `printed` is what
-- `snprintf` prints for each text, which it is given as its format.
unfoldable pub account_of : (Bytes → Bytes) → Settings → Account
account_of printed s = record {
  username = take 127 (printed s.username);
  password = take 127 (printed s.password);
  key = take 127 (printed s.key);
}

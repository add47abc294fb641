-- ===== src/Vsnesoip/Config/Keys.antt =====
-- Which configurations `init_login` accepts.
use sneso_ip.Common.{
  ◌≡◌, refl, Bool, true, false, not, Option, none, some, List, [], ◌∷◌, Bytes, codes, arith, ◌==◌,
  if◌then◌else◌, length,
}
use sneso_ip.Common.Int.{ℤ, pos, eq_ℤ}
use sneso_ip.Vsnesoip.Config.{
  Config, Result, ok, not_set, ◌>>=◌, text_of, port_of, int_of, read_config,
}

pub data Kind : Type 0 where
  text port int : Kind

-- The keys that have to be set.
abbrev pub required : List (Kind × Bytes)
required =
    (text, codes "loginserver")
    ∷ (text, codes "username")
    ∷ (text, codes "password")
    ∷ (text, codes "key")
    ∷ (text, codes "js_dev")
    ∷ (port, codes "server_port")
    ∷ (port, codes "tcp_min_port")
    ∷ (port, codes "tcp_max_port")
    ∷ (int, codes "js_axis_type")
    ∷ (int, codes "js_button_type")
    ∷ (int, codes "js_axis_up_val")
    ∷ (int, codes "js_axis_down_val")
    ∷ (int, codes "js_axis_left_val")
    ∷ (int, codes "js_axis_right_val")
    ∷ (int, codes "js_axis_y_nr")
    ∷ (int, codes "js_axis_x_nr")
    ∷ (int, codes "js_button_a_nr")
    ∷ (int, codes "js_button_b_nr")
    ∷ (int, codes "js_button_x_nr")
    ∷ (int, codes "js_button_y_nr")
    ∷ (int, codes "js_button_l_nr")
    ∷ (int, codes "js_button_r_nr")
    ∷ (int, codes "js_button_st_nr")
    ∷ (int, codes "js_button_se_nr")
    ∷ (int, codes "disable_p1")
    ∷ (int, codes "select_x")
    ∷ (int, codes "mapping_mode")
    ∷ []

abbrev some_text : Option Bytes → Bool
some_text none = false
some_text (some s) = not (length s == 0)

abbrev some_port : Option ℤ → Bool
some_port none = false
some_port (some n) = not (eq_ℤ n (pos 0))

abbrev some_int : Option ℤ → Bool
some_int none = false
some_int (some n) = true

-- Whether a key is set as its kind demands: a text not empty, a port not 0.
abbrev pub is_set : Config → Kind → Bytes → Bool
is_set conf text key = some_text (conf.lookup_string key)
is_set conf port key = some_port (conf.lookup_int key)
is_set conf int key = some_int (conf.lookup_int key)

-- The first key that is not.
abbrev pub first_unset : Config → List (Kind × Bytes) → Option Bytes
first_unset conf [] = none
first_unset conf ((kind, key) ∷ keys) =
    if is_set conf kind key then first_unset conf keys else some key

abbrev pub complaint : {A : Type 0} → Result A → Option Bytes
complaint (ok a) = none
complaint (not_set key) = some key

text_of-complaint :
    (conf : Config) (key : Bytes)
    → complaint (text_of conf key) ≡ (if is_set conf text key then none else some key)
unfolding text_of
text_of-complaint conf key = of_lookup (conf.lookup_string key)
  where
    of_lookup :
        (o : Option Bytes)
        → complaint {A = Bytes}
            (elim o [ none ↦ not_set key | some s ↦ if length s == 0 then not_set key else ok s ])
          ≡ (if some_text o then none else some key)
    of_lookup none = refl
    of_lookup (some s) = ground arith

port_of-complaint :
    (conf : Config) (key : Bytes)
    → complaint (port_of conf key) ≡ (if is_set conf port key then none else some key)
unfolding port_of
port_of-complaint conf key = ground arith

int_of-complaint :
    (conf : Config) (key : Bytes)
    → complaint (int_of conf key) ≡ (if is_set conf int key then none else some key)
unfolding int_of
int_of-complaint conf key = ground arith

bind-complaint :
    {A B : Type 0} (m : Result A) (f : A → Result B) (b : Bool) (key : Bytes) (later : Option Bytes)
    → complaint m ≡ (if b then none else some key)
    → ((a : A) → complaint (f a) ≡ later)
    → complaint (m >>= f) ≡ (if b then later else some key)
bind-complaint (ok a) f true key later e h = h a
bind-complaint (ok a) f false key later e h = cc
bind-complaint (not_set k) f true key later e h = cc
bind-complaint (not_set k) f false key later e h = e

-- One lookup, with the rest.
module _ (conf : Config) {B : Type 0} (later : Option Bytes) where
  text-complaint :
      (key : Bytes) (f : Bytes → Result B)
      → ((s : Bytes) → complaint (f s) ≡ later)
      → complaint (text_of conf key >>= f) ≡ (if is_set conf text key then later else some key)
  text-complaint key f h =
      bind-complaint (text_of conf key) f (is_set conf text key) key later
        (text_of-complaint conf key) h

  port-complaint :
      (key : Bytes) (f : ℤ → Result B)
      → ((n : ℤ) → complaint (f n) ≡ later)
      → complaint (port_of conf key >>= f) ≡ (if is_set conf port key then later else some key)
  port-complaint key f h =
      bind-complaint (port_of conf key) f (is_set conf port key) key later
        (port_of-complaint conf key) h

  int-complaint :
      (key : Bytes) (f : ℤ → Result B)
      → ((n : ℤ) → complaint (f n) ≡ later)
      → complaint (int_of conf key >>= f) ≡ (if is_set conf int key then later else some key)
  int-complaint key f h =
      bind-complaint (int_of conf key) f (is_set conf int key) key later (int_of-complaint conf key)
        h

-- `init_login` takes a configuration exactly when every required key is set, the texts not empty and
-- the ports not 0, and complains otherwise of the first key, in the order of its checks, that is
-- not.
pub read_config-complaint :
    (conf : Config) → complaint (read_config conf) ≡ first_unset conf required
unfolding read_config
read_config-complaint conf = text-complaint conf _ (codes "loginserver") _ λ loginserver.
    text-complaint conf _ (codes "username") _ λ username.
      text-complaint conf _ (codes "password") _ λ password.
        text-complaint conf _ (codes "key") _ λ key.
          text-complaint conf _ (codes "js_dev") _ λ js_dev.
            port-complaint conf _ (codes "server_port") _ λ server_port.
              port-complaint conf _ (codes "tcp_min_port") _ λ tcp_min_port.
                port-complaint conf _ (codes "tcp_max_port") _ λ tcp_max_port.
                  int-complaint conf _ (codes "js_axis_type") _ λ js_axis_type.
                    int-complaint conf _ (codes "js_button_type") _ λ js_button_type.
                      int-complaint conf _ (codes "js_axis_up_val") _ λ js_axis_up_val.
                        int-complaint conf _ (codes "js_axis_down_val") _ λ js_axis_down_val.
                          int-complaint conf _ (codes "js_axis_left_val") _ λ js_axis_left_val.
                            int-complaint conf _ (codes "js_axis_right_val") _ λ js_axis_right_val.
                              int-complaint conf _ (codes "js_axis_y_nr") _ λ js_axis_y_nr.
                                int-complaint conf _ (codes "js_axis_x_nr") _ λ js_axis_x_nr.
                                  int-complaint conf _ (codes "js_button_a_nr") _ λ js_button_a_nr.
                                    int-complaint conf _ (codes "js_button_b_nr") _
                                      λ js_button_b_nr.
                                        int-complaint conf _ (codes "js_button_x_nr") _
                                          λ js_button_x_nr.
                                            int-complaint conf _ (codes "js_button_y_nr") _
                                              λ js_button_y_nr.
                                                int-complaint conf _ (codes "js_button_l_nr") _
                                                  λ js_button_l_nr.
                                                    int-complaint conf _ (codes "js_button_r_nr") _
                                                      λ js_button_r_nr.
                                                        int-complaint conf _
                                                          (codes "js_button_st_nr") _
                                                          λ js_button_st_nr.
                                                            int-complaint conf _
                                                            (codes "js_button_se_nr") _
                                                            λ js_button_se_nr.
                                                            int-complaint conf _
                                                            (codes "disable_p1") _
                                                            λ disable_p1.
                                                            int-complaint conf _ (codes "select_x")
                                                            _
                                                            λ select_x.
                                                            int-complaint conf _
                                                            (codes "mapping_mode") _
                                                            λ mapping_mode. refl

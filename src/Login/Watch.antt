-- ===== src/Login/Watch.antt =====
-- A watcher of what a session does: which user it has been granted, whether each change of the
-- database was allowed then, what is left of a user in the database, and the wrong passwords.
use sneso_ip.Common.{
  ℕ, ◌+◌, ◌≡◌, refl, Bool, true, false, not, ◌&&◌, ◌||◌, Option, none, some, List, [], ◌∷◌, ◌++◌,
  Bytes, if◌then◌else◌, bytes_eq,
}
use sneso_ip.Common.Int.{ℤ, pos, negsuc, eq_ℤ}
use sneso_ip.Login.{
  Update, set_online, set_ip, set_port, set_date, Act, sent, changed, answered, none_text,
}

pub record Monitor : Type 0 where
  pub granted : Option Bytes
  pub allowed : Bool
  pub online : Bool
  pub has_ip : Bool
  pub has_port : Bool
  pub wrong : ℕ

abbrev pub fresh : Monitor
fresh = record {
  granted = none;
  allowed = true;
  online = false;
  has_ip = false;
  has_port = false;
  wrong = 0;
}

abbrev pub is_granted : Option Bytes → Bytes → Bool
is_granted none v = false
is_granted (some g) v = bytes_eq g v

-- Whether a change is one back to the state of a user that is away, or the granted user's.
unfoldable pub fits : Option Bytes → Update → Bool
fits g (set_online v b) = not b || is_granted g v
fits g (set_ip v ip) = bytes_eq ip none_text || is_granted g v
fits g (set_port v port) = eq_ℤ port (pos 0) || is_granted g v
fits g (set_date v) = is_granted g v

-- What a change leaves of the user `u`.
unfoldable pub leave : Bytes → Update → Monitor → Monitor
leave u (set_online v b) m = record m { online = if bytes_eq v u then b else m.online }
leave u (set_ip v ip) m = record m {
  has_ip = if bytes_eq v u then not (bytes_eq ip none_text) else m.has_ip;
}
leave u (set_port v port) m = record m {
  has_port = if bytes_eq v u then not (eq_ℤ port (pos 0)) else m.has_port;
}
leave u (set_date v) m = m

-- An answer that is a user's number.
abbrev pub right : ℤ → Bool
right answer = not (eq_ℤ answer (negsuc 0)) && not (eq_ℤ answer (pos 0))

unfoldable pub watch : Bytes → Monitor → Act → Monitor
unfolding fits leave
watch u m (sent text) = m
watch u m (changed up) = leave u up (record m { allowed = m.allowed && fits m.granted up })
watch u m (answered v answer) = record m {
  granted = if right answer then some v else m.granted;
  wrong = if eq_ℤ answer (pos 0) then m.wrong + 1 else m.wrong;
}

unfoldable pub watch_all : Bytes → Monitor → List Act → Monitor
watch_all u m [] = m
watch_all u m (a ∷ acts) = watch_all u (watch u m a) acts

pub watch_all-append :
    (u : Bytes) (m : Monitor) (acts : List Act) (a : Act)
    → watch_all u m (acts ++ (a ∷ [])) ≡ watch u (watch_all u m acts) a
unfolding watch_all
watch_all-append u m [] a = refl
watch_all-append u m (b ∷ acts) a = watch_all-append u (watch u m b) acts a

-- Nothing is left of the user.
abbrev pub away : Monitor → Bool
away m = not m.online && (not m.has_ip && not m.has_port)

-- ===== src/Login/Run/Invariant.antt =====
-- What holds between the variables of a session and what it has done, and that each single step
-- keeps it.
use sneso_ip.Common.{
  ℕ, ◌≤◌, ◌≡◌, refl, sym, subst, Bool, true, false, not, ◌&&◌, [], ◌∷◌, ◌++◌, arith, Bytes,
  bytes_eq, bytes_eq_sound, ◌∙◌,
}
use sneso_ip.Common.Int.{pos, eq_ℤ}
use sneso_ip.Login.{
  Setting, Update, set_online, set_ip, set_port, set_date, Act, sent, changed, none_text, World,
  Status, running, ended, crashed, is_running, say, update,
}
use sneso_ip.Login.Watch.{
  Monitor, fresh, is_granted, fits, leave, watch, watch_all, watch_all-append, away,
}

abbrev pub is_ended : Status → Bool
is_ended running = false
is_ended ended = true
is_ended crashed = false

running_is_not_ended : (st : Status) → is_running st ≡ true → is_ended st ≡ false
running_is_not_ended running h = refl
running_is_not_ended ended h = absurd (ground arith)
running_is_not_ended crashed h = refl

pub record Sound (u : Bytes) (m : Monitor) (user_set auth_set : Bool) (username : Bytes)
    (counter : ℕ) (has_ended : Bool) : Type 0 where
  pub named : auth_set ≡ true → user_set ≡ true
  pub granted_name : auth_set ≡ true → is_granted m.granted username ≡ true
  pub all_allowed : m.allowed ≡ true
  pub rest_away : (auth_set && bytes_eq username u) ≡ false → away m ≡ true
  pub end_away : has_ended ≡ true → away m ≡ true
  pub counted : m.wrong ≡ counter
  pub few : counter ≤ 5

abbrev pub Keeps : {Db : Type 0} → Bytes → World Db → Type 0
Keeps u w =
    let s = w.session in
    Sound u (watch_all u fresh w.acts) s.user_set s.auth_set s.username s.brutforce_counter
      (is_ended w.status)

-- The same after one more act.
abbrev pub Then : {Db : Type 0} → Bytes → World Db → Act → Type 0
Then u w a =
    let s = w.session in
    Sound u (watch u (watch_all u fresh w.acts) a) s.user_set s.auth_set s.username
      s.brutforce_counter (is_ended w.status)

pub act-Keeps :
    {Db : Type 0} (u : Bytes) (w : World Db) (a : Act)
    → Then u w a
    → Keeps u (record w { acts = w.acts ++ (a ∷ []) })
act-Keeps u w a k =
    let s = w.session in
    subst (λ m. Sound u m s.user_set s.auth_set s.username s.brutforce_counter (is_ended w.status))
      (sym (watch_all-append u fresh w.acts a)) k

pub say-Keeps :
    {Db : Type 0} (u : Bytes) (text : Bytes) (w : World Db) → Keeps u w → Keeps u (say text w)
say-Keeps u text w k = act-Keeps u w (sent text) (unfold watch in k)

-- A monitor that has granted and counted the same, with no change that was not allowed, and nothing
-- new left of the user.
less_left :
    (u : Bytes) (m m' : Monitor) (a b : Bool) (name : Bytes) (c : ℕ) (e : Bool)
    → m'.granted ≡ m.granted
    → m'.wrong ≡ m.wrong
    → (m.allowed ≡ true → m'.allowed ≡ true)
    → (away m ≡ true → away m' ≡ true)
    → Sound u m a b name c e
    → Sound u m' a b name c e
less_left u m m' a b name c e same_grant same_wrong allow leave_away k = record {
  named = k.named;
  granted_name = λ h. subst (λ g. is_granted g name ≡ true) (sym same_grant) (k.granted_name h);
  all_allowed = allow k.all_allowed;
  rest_away = λ h. leave_away (k.rest_away h);
  end_away = λ h. leave_away (k.end_away h);
  counted = same_wrong ∙ k.counted;
  few = k.few;
}

-- A change back to the state of a user that is away.
unfoldable pub back : Update → Bool
back (set_online v b) = not b
back (set_ip v ip) = bytes_eq ip none_text
back (set_port v port) = eq_ℤ port (pos 0)
back (set_date v) = false

back-Sound :
    (u : Bytes) (m : Monitor) (up : Update) (a b : Bool) (name : Bytes) (c : ℕ) (e : Bool)
    → back up ≡ true
    → Sound u m a b name c e
    → Sound u (watch u m (changed up)) a b name c e
unfolding back watch fits leave
back-Sound u m (set_online v x) a b name c e h =
    less_left u m _ a b name c e refl refl (λ t. ground arith) (λ t. ground arith)
back-Sound u m (set_ip v x) a b name c e h =
    less_left u m _ a b name c e refl refl (λ t. ground arith) (λ t. ground arith)
back-Sound u m (set_port v x) a b name c e h =
    less_left u m _ a b name c e refl refl (λ t. ground arith) (λ t. ground arith)
back-Sound u m (set_date v) a b name c e h = absurd (ground arith)

-- A change for the user that has been granted.
unfoldable pub own : Bytes → Update → Bool
own name (set_online v b) = bytes_eq v name
own name (set_ip v ip) = bytes_eq v name
own name (set_port v port) = bytes_eq v name
own name (set_date v) = bytes_eq v name

own-watch :
    (u : Bytes) (m : Monitor) (up : Update) (name : Bytes)
    → own name up ≡ true
    → is_granted m.granted name ≡ true
    → let m' = watch u m (changed up) in
      (m'.granted ≡ m.granted)
      × (m'.wrong ≡ m.wrong)
      × (m'.allowed ≡ m.allowed)
      × (bytes_eq name u ≡ false → away m' ≡ away m)
unfolding own watch fits leave
own-watch u m (set_online v x) name h g =
    let e = bytes_eq_sound v name h in rw e (refl, refl, ground arith, λ n. ground arith)
own-watch u m (set_ip v x) name h g =
    let e = bytes_eq_sound v name h in rw e (refl, refl, ground arith, λ n. ground arith)
own-watch u m (set_port v x) name h g =
    let e = bytes_eq_sound v name h in rw e (refl, refl, ground arith, λ n. ground arith)
own-watch u m (set_date v) name h g =
    let e = bytes_eq_sound v name h in rw e (refl, refl, ground arith, λ n. ground arith)

own-Sound :
    (u : Bytes) (m : Monitor) (up : Update) (a b : Bool) (name : Bytes) (c : ℕ) (e : Bool)
    → own name up ≡ true
    → b ≡ true
    → e ≡ false
    → Sound u m a b name c e
    → Sound u (watch u m (changed up)) a b name c e
own-Sound u m up a b name c e h auth is_open k =
    let (same_grant, same_wrong, same_allowed, same_away) =
      own-watch u m up name h (k.granted_name auth) in
    record {
      named = k.named;
      granted_name = λ t. subst (λ g. is_granted g name ≡ true) (sym same_grant) (k.granted_name t);
      all_allowed = same_allowed ∙ k.all_allowed;
      rest_away = λ t. same_away (ground arith) ∙ k.rest_away t;
      end_away = λ t. absurd (ground arith);
      counted = same_wrong ∙ k.counted;
      few = k.few;
    }

pub update-own-Keeps :
    {Db : Type 0} (env : Setting Db) (u : Bytes) (up : Update) (w : World Db)
    → own w.session.username up ≡ true
    → w.session.auth_set ≡ true
    → is_running w.status ≡ true
    → Keeps u w
    → Keeps u (update env up w)
update-own-Keeps env u up w h auth is_open k =
    let s = w.session in
    let not_ended = running_is_not_ended w.status is_open in
    act-Keeps u w (changed up) (
      own-Sound u (watch_all u fresh w.acts) up s.user_set s.auth_set s.username s.brutforce_counter
        (is_ended w.status) h auth not_ended k)

pub update-back-Keeps :
    {Db : Type 0} (env : Setting Db) (u : Bytes) (up : Update) (w : World Db)
    → back up ≡ true
    → Keeps u w
    → Keeps u (update env up w)
update-back-Keeps env u up w h k =
    let s = w.session in
    act-Keeps u w (changed up) (
      back-Sound u (watch_all u fresh w.acts) up s.user_set s.auth_set s.username
        s.brutforce_counter (is_ended w.status) h k)

-- ===== src/Login/Run/User.antt =====
-- USER keeps the invariant, and the counter.
use sneso_ip.Common.{
  ℕ, ◌+◌, ◌-◌, ◌≡◌, refl, Bool, true, false, ◌&&◌, arith, Bytes, if◌then◌else◌, length, leb, take,
  drop,
}
use sneso_ip.Common.Int.{pos, negsuc, eq_ℤ}
use sneso_ip.Cstring.{c_string}
use sneso_ip.Login.{Setting, World, is_running, say, error_text}
use sneso_ip.Login.Credentials.{
  username_min, username_max, ok_text, cut_at, challenge, set_user, check_user, is_user,
  user_command,
}
use sneso_ip.Login.Watch.{Monitor, fresh, watch_all}
use sneso_ip.Login.Run.Invariant.{is_ended, Sound, Keeps, say-Keeps}
use sneso_ip.Login.Run.Ending.{if-Keeps}

-- Before a password was right, the user may be another one.
rename :
    (u : Bytes) (m : Monitor) (a b a' : Bool) (name name' : Bytes) (c : ℕ) (e : Bool)
    → b ≡ false
    → Sound u m a b name c e
    → Sound u m a' b name' c e
rename u m a b a' name name' c e h k = record {
  named = λ t. absurd (ground arith);
  granted_name = λ t. absurd (ground arith);
  all_allowed = k.all_allowed;
  rest_away = λ t. k.rest_away (ground arith);
  end_away = k.end_away;
  counted = k.counted;
  few = k.few;
}

check_user-Keeps :
    {Db : Type 0} (env : Setting Db) (rand : ℕ → ℕ) (u : Bytes) (w : World Db)
    → w.session.auth_set ≡ false
    → Keeps u w
    → Keeps u (check_user env rand w)
unfolding check_user
check_user-Keeps env rand u w h k =
    let s = w.session in
    let m = watch_all u fresh w.acts in
    let (db, exist) = env.database.user_query w.db s.username in
    let (db', online) = env.database.online_query db s.username in
    let w1 = record w { db = db } in
    let w2 = record w { db = db' } in
    let other = λ (b : Bool).
      rename u m s.user_set s.auth_set b s.username s.username s.brutforce_counter
        (is_ended w.status) h k in
    let text = challenge rand 10 0 in
    let said = say-Keeps u ok_text w2 k in
    if-Keeps u (eq_ℤ exist (negsuc 0)) _ _
      (λ t. say-Keeps u (error_text 114) (set_user false w1) (other false))
      (λ t.
        if-Keeps u (eq_ℤ exist (pos 0)) _ _
          (λ t. say-Keeps u (error_text 113) (set_user false w1) (other false))
          (λ t.
            if-Keeps u (eq_ℤ online (pos 1)) _ _
              (λ t. say-Keeps u (error_text 115) (set_user false w2) (other false))
              (λ t.
                say-Keeps u text
                  (record (say ok_text w2) {
                    session = record s { user_set = true; session_string = text };
                  })
                  (rename u _ s.user_set s.auth_set true s.username s.username s.brutforce_counter
                    (is_ended w.status) h said))))

pub user_command-Keeps :
    {Db : Type 0} (env : Setting Db) (rand : ℕ → ℕ) (n : ℕ) (u : Bytes) (w : World Db)
    → Keeps u w
    → Keeps u (user_command env rand n w)
unfolding user_command
user_command-Keeps env rand n u w k =
    let s = w.session in
    let m = watch_all u fresh w.acts in
    let w' = cut_at (n - 1) w in
    let text = c_string w'.session.buf in
    let name = take 31 (drop 5 text) in
    let named : s.auth_set ≡ true → s.user_set ≡ true = k.named in
    let other = λ (b : Bool) (name' : Bytes) (h : s.auth_set ≡ false).
      rename u m s.user_set s.auth_set b s.username name' s.brutforce_counter (is_ended w.status) h
        k in
    if-Keeps u (is_running w.status && is_user s) _ w
      (λ t.
        let h : s.auth_set ≡ false = ground (arith, named) in
        if-Keeps u (leb (5 + username_min) (length text)) _ _
          (λ t.
            if-Keeps u (leb (length text) (5 + username_max)) _ _
              (λ t.
                check_user-Keeps env rand u
                  (record w' { session = record w'.session { username = name } }) h
                  (other s.user_set name h))
              (λ t. say-Keeps u (error_text 111) (set_user false w') (other false s.username h)))
          (λ t. say-Keeps u (error_text 112) (set_user false w') (other false s.username h)))
      (λ t. k)

-- The counter is as it was.
record Counts {Db : Type 0} (c : ℕ) (w : World Db) : Type 0 where
  counter : w.session.brutforce_counter ≡ c

if-Counts :
    {Db : Type 0} (b : Bool) (w w' : World Db) (c : ℕ)
    → Counts c w
    → Counts c w'
    → Counts c (if b then w else w')
if-Counts true w w' c e e' = e
if-Counts false w w' c e e' = e'

check_user-Counts :
    {Db : Type 0} (env : Setting Db) (rand : ℕ → ℕ) (w : World Db)
    → Counts w.session.brutforce_counter (check_user env rand w)
unfolding check_user
check_user-Counts env rand w =
    let (db, exist) = env.database.user_query w.db w.session.username in
    let (db', online) = env.database.online_query db w.session.username in
    let c = w.session.brutforce_counter in
    if-Counts (eq_ℤ exist (negsuc 0)) _ _ c (record { counter = refl })
      (if-Counts (eq_ℤ exist (pos 0)) _ _ c (record { counter = refl })
        (if-Counts (eq_ℤ online (pos 1)) _ _ c (record { counter = refl })
          (record { counter = refl })))

user_command-Counts :
    {Db : Type 0} (env : Setting Db) (rand : ℕ → ℕ) (n : ℕ) (w : World Db)
    → Counts w.session.brutforce_counter (user_command env rand n w)
unfolding user_command
user_command-Counts env rand n w =
    let s = w.session in
    let w' = cut_at (n - 1) w in
    let text = c_string w'.session.buf in
    let named = record w' { session = record w'.session { username = take 31 (drop 5 text) } } in
    let c = s.brutforce_counter in
    if-Counts (is_running w.status && is_user s) _ w c
      (if-Counts (leb (5 + username_min) (length text)) _ _ c
        (if-Counts (leb (length text) (5 + username_max)) _ _ c (check_user-Counts env rand named)
          (record { counter = refl }))
        (record { counter = refl }))
      (record { counter = refl })

pub user_command-counter :
    {Db : Type 0} (env : Setting Db) (rand : ℕ → ℕ) (n : ℕ) (w : World Db)
    → (user_command env rand n w).session.brutforce_counter ≡ w.session.brutforce_counter
user_command-counter env rand n w = (user_command-Counts env rand n w).counter

-- ===== src/Login/Run/Password.antt =====
-- PASS keeps the invariant.
use sneso_ip.Common.{
  ℕ, ◌+◌, ◌-◌, ◌*◌, ◌<◌, ◌≡◌, refl, Bool, true, false, ◌&&◌, Option, none, some, [], ◌∷◌, ◌++◌,
  arith, Bytes, bytes_eq_self, length, leb, take, drop,
}
use sneso_ip.Common.Int.{ℤ, pos, negsuc, eq_ℤ}
use sneso_ip.Cstring.{c_string}
use sneso_ip.Login.{Setting, set_ip, answered, World, is_running, update, error_text}
use sneso_ip.Login.Credentials.{
  password_min, password_max, ok_text, cut_at, check_answer, check_key, key_bytes, is_pass, plain,
  pass_command,
}
use sneso_ip.Login.Watch.{Monitor, fresh, right, watch, watch_all}
use sneso_ip.Login.Run.Invariant.{
  is_ended, Sound, Keeps, act-Keeps, say-Keeps, own, update-own-Keeps,
}
use sneso_ip.Login.Run.Ending.{if-Keeps, crash-Keeps}

minus_one : (z : ℤ) → eq_ℤ z (negsuc 0) ≡ true → eq_ℤ z (pos 0) ≡ false
minus_one (pos n) h = absurd (ground arith)
minus_one (negsuc n) h = refl

-- The three kinds of answer to a password.
answered_error :
    (u : Bytes) (m : Monitor) (z : ℤ) (a b : Bool) (name : Bytes) (c : ℕ) (e : Bool)
    → eq_ℤ z (negsuc 0) ≡ true
    → Sound u m a b name c e
    → Sound u (watch u m (answered name z)) a b name c e
unfolding watch
answered_error u m z a b name c e h k = rw (h, minus_one z h) k

answered_wrong :
    (u : Bytes) (m : Monitor) (z : ℤ) (a b : Bool) (name : Bytes) (c : ℕ) (e : Bool)
    → eq_ℤ z (pos 0) ≡ true
    → b ≡ false
    → c < 5
    → Sound u m a b name c e
    → Sound u (watch u m (answered name z)) false b name (c + 1) e
unfolding watch
answered_wrong u m z a b name c e h not_auth lt k = record {
  named = λ t. absurd (ground arith);
  granted_name = λ t. absurd (ground arith);
  all_allowed = k.all_allowed;
  rest_away = λ t. k.rest_away (ground arith);
  end_away = k.end_away;
  counted = ground (arith, k.counted);
  few = omega arith;
}

answered_right :
    (u : Bytes) (m : Monitor) (z : ℤ) (a b : Bool) (name : Bytes) (c : ℕ) (e : Bool)
    → right z ≡ true
    → a ≡ true
    → b ≡ false
    → Sound u m a b name c e
    → Sound u (watch u m (answered name z)) a true name c e
unfolding watch
answered_right u m z a b name c e h set not_auth k =
    let not_zero : eq_ℤ z (pos 0) ≡ false = ground arith in
    record {
      named = λ t. set;
      granted_name = λ t. rw h (bytes_eq_self name);
      all_allowed = k.all_allowed;
      rest_away = λ t. k.rest_away (ground arith);
      end_away = k.end_away;
      counted = rw not_zero k.counted;
      few = k.few;
    }

check_answer-Keeps :
    {Db : Type 0} (env : Setting Db) (auth : ℤ) (u : Bytes) (w : World Db)
    → is_running w.status ≡ true
    → w.session.user_set ≡ true
    → w.session.auth_set ≡ false
    → w.session.brutforce_counter < 5
    → Keeps u w
    → Keeps u (check_answer env auth w)
unfolding check_answer own
check_answer-Keeps env auth u w runs set not_auth lt k =
    let s = w.session in
    let m = watch_all u fresh w.acts in
    let a = answered s.username auth in
    let w' = record w { acts = w.acts ++ (a ∷ []) } in
    let refused = record w {
      session = record s { user_set = false; brutforce_counter = s.brutforce_counter + 1 };
    } in
    let granted = record w { session = record s { auth_set = true } } in
    let granted' = record granted { acts = granted.acts ++ (a ∷ []) } in
    if-Keeps u (eq_ℤ auth (negsuc 0)) _ _
      (λ t. say-Keeps u (error_text 124) w' (
        act-Keeps u w a (
          answered_error u m auth s.user_set s.auth_set s.username s.brutforce_counter
            (is_ended w.status) t k)))
      (λ t.
        if-Keeps u (eq_ℤ auth (pos 0)) _ _
          (λ z.
            say-Keeps u (error_text 123) (record refused { acts = refused.acts ++ (a ∷ []) })
              (act-Keeps u refused a (
                answered_wrong u m auth s.user_set s.auth_set s.username s.brutforce_counter
                  (is_ended w.status) z not_auth lt k)))
          (λ z. say-Keeps u ok_text (update env (set_ip s.username s.curr_ip) granted') (
            update-own-Keeps env u (set_ip s.username s.curr_ip) granted' (bytes_eq_self s.username)
              refl runs
              (act-Keeps u granted a (
                answered_right u m auth s.user_set s.auth_set s.username s.brutforce_counter
                  (is_ended w.status) (ground arith) set not_auth k)))))

check_key-Keeps :
    {Db : Type 0} (env : Setting Db) (hex : Bytes) (key : Db × Option Bytes) (u : Bytes)
    (w : World Db)
    → is_running w.status ≡ true
    → w.session.user_set ≡ true
    → w.session.auth_set ≡ false
    → w.session.brutforce_counter < 5
    → Keeps u w
    → Keeps u (check_key env hex key w)
unfolding check_key
check_key-Keeps env hex (db, none) u w runs set not_auth lt k =
    crash-Keeps u (record w { db = db }) k
check_key-Keeps env hex (db, some text) u w runs set not_auth lt k =
    let s = w.session in
    let password = plain env (key_bytes env text) s.session_string hex in
    let (db', auth) = env.database.auth_query db s.username password in
    check_answer-Keeps env auth u (record w { db = db' }) runs set not_auth lt k

pub pass_command-Keeps :
    {Db : Type 0} (env : Setting Db) (n : ℕ) (u : Bytes) (w : World Db)
    → w.session.brutforce_counter < 5
    → Keeps u w
    → Keeps u (pass_command env n w)
unfolding pass_command
pass_command-Keeps env n u w lt k =
    let s = w.session in
    let w' = cut_at (n - 1) w in
    let text = c_string w'.session.buf in
    let key = env.database.client_key_query w'.db s.username in
    if-Keeps u (is_running w.status && is_pass s) _ w
      (λ t.
        if-Keeps u (leb (5 + password_min * 2) (length text)) _ _
          (λ t'.
            if-Keeps u (leb (length text) (5 + password_max * 2)) _ _
              (λ t''.
                check_key-Keeps env (take 127 (drop 5 text)) key u w' (ground arith) (ground arith)
                  (ground arith) lt k)
              (λ t''. say-Keeps u (error_text 121) w' k))
          (λ t'. say-Keeps u (error_text 122) w' k))
      (λ t. k)

-- ===== src/Login/Run/Sizes/Credentials.antt =====
-- USER and PASS keep the sizes.
use sneso_ip.Common.{
  ℕ, zero, suc, ◌+◌, ◌-◌, ◌*◌, ◌≤◌, ◌≡◌, Bool, true, false, ◌&&◌, Option, none, some, [], ◌∷◌, ◌++◌,
  arith, Bytes, length, leb, take, drop,
}
use sneso_ip.Common.Int.{ℤ, pos, negsuc, eq_ℤ}
use sneso_ip.Cstring.{c_string}
use sneso_ip.Login.{Setting, set_ip, answered, World, is_running, say, update, error_text}
use sneso_ip.Login.Credentials.{
  username_min, username_max, password_min, password_max, ok_text, cut_at, challenge, set_user,
  check_user, is_user, user_command, check_answer, check_key, key_bytes, plain, is_pass,
  pass_command,
}
use sneso_ip.Login.Mysql.Size.{IsShort}
use sneso_ip.Login.Run.Sizes.{
  IsShortAct, Sizes, if-Sizes, act-Short, say-Sizes, update-Sizes, rename-Short, length-take,
}

length-drop : (n : ℕ) (s : Bytes) → length (drop n s) ≤ length s - n
length-drop zero s = omega arith
length-drop (suc n) [] = omega arith
length-drop (suc n) (c ∷ s) = omega (arith, length-drop n s)

check_user-Sizes :
    {Db : Type 0} (env : Setting Db) (rand : ℕ → ℕ) (w : World Db)
    → length w.session.username ≤ 20
    → Sizes w
    → Sizes (check_user env rand w)
unfolding check_user
check_user-Sizes env rand w h k =
    let s = w.session in
    let (db, exist) = env.database.user_query w.db s.username in
    let (db', online) = env.database.online_query db s.username in
    let w1 = record w { db = db } in
    let w2 = record w { db = db' } in
    let other =
      λ (b : Bool). rename-Short s.user_set b s.username s.username s.curr_ip w.acts (λ t. h) k in
    let text = challenge rand 10 0 in
    let said = say-Sizes ok_text w2 k in
    if-Sizes (eq_ℤ exist (negsuc 0)) _ _
      (λ t. say-Sizes (error_text 114) (set_user false w1) (other false))
      (λ t.
        if-Sizes (eq_ℤ exist (pos 0)) _ _
          (λ t. say-Sizes (error_text 113) (set_user false w1) (other false))
          (λ t.
            if-Sizes (eq_ℤ online (pos 1)) _ _
              (λ t. say-Sizes (error_text 115) (set_user false w2) (other false))
              (λ t.
                say-Sizes text
                  (record (say ok_text w2) {
                    session = record s { user_set = true; session_string = text };
                  })
                  (rename-Short s.user_set true s.username s.username s.curr_ip _ (λ t. h) said))))

pub user_command-Sizes :
    {Db : Type 0} (env : Setting Db) (rand : ℕ → ℕ) (n : ℕ) (w : World Db)
    → Sizes w
    → Sizes (user_command env rand n w)
unfolding user_command
user_command-Sizes env rand n w k =
    let s = w.session in
    let w' = cut_at (n - 1) w in
    let text = c_string w'.session.buf in
    let name = take 31 (drop 5 text) in
    let none_set =
      rename-Short s.user_set false s.username s.username s.curr_ip w.acts
        (λ t. absurd (ground arith)) k in
    let size : length name ≤ length text - 5 =
      omega (arith, length-take 31 (drop 5 text), length-drop 5 text) in
    if-Sizes (is_running w.status && is_user s) _ w
      (λ t.
        if-Sizes (leb (5 + username_min) (length text)) _ _
          (λ t'.
            if-Sizes (leb (length text) (5 + username_max)) _ _
              (λ t''.
                let short : length name ≤ 20 = ground (arith, size) in
                check_user-Sizes env rand
                  (record w' { session = record w'.session { username = name } }) short
                  (rename-Short s.user_set s.user_set s.username name s.curr_ip w.acts (λ x. short)
                    k))
              (λ t''. say-Sizes (error_text 111) (set_user false w') none_set))
          (λ t'. say-Sizes (error_text 112) (set_user false w') none_set))
      (λ t. k)

check_answer-Sizes :
    {Db : Type 0} (env : Setting Db) (auth : ℤ) (w : World Db)
    → w.session.user_set ≡ true
    → Sizes w
    → Sizes (check_answer env auth w)
unfolding check_answer IsShort
check_answer-Sizes env auth w set k =
    let s = w.session in
    let a = answered s.username auth in
    let w' = record w { acts = w.acts ++ (a ∷ []) } in
    let asked = act-Short s.user_set s.username s.curr_ip w.acts a (unfold IsShortAct in tt) k in
    let granted = record w' { session = record s { auth_set = true } } in
    let refused = record w' {
      session = record s { user_set = false; brutforce_counter = s.brutforce_counter + 1 };
    } in
    if-Sizes (eq_ℤ auth (negsuc 0)) _ _ (λ t. say-Sizes (error_text 124) w' asked)
      (λ t.
        if-Sizes (eq_ℤ auth (pos 0)) _ _
          (λ z. say-Sizes (error_text 123) refused (
            rename-Short s.user_set false s.username s.username s.curr_ip w'.acts
              (λ x. absurd (ground arith)) asked))
          (λ z. say-Sizes ok_text (update env (set_ip s.username s.curr_ip) granted) (
            update-Sizes env (set_ip s.username s.curr_ip) granted (k.short_name set, k.short_ip)
              asked)))

check_key-Sizes :
    {Db : Type 0} (env : Setting Db) (hex : Bytes) (key : Db × Option Bytes) (w : World Db)
    → w.session.user_set ≡ true
    → Sizes w
    → Sizes (check_key env hex key w)
unfolding check_key
check_key-Sizes env hex (db, none) w set k = k
check_key-Sizes env hex (db, some text) w set k =
    let s = w.session in
    let password = plain env (key_bytes env text) s.session_string hex in
    let (db', auth) = env.database.auth_query db s.username password in
    check_answer-Sizes env auth (record w { db = db' }) set k

pub pass_command-Sizes :
    {Db : Type 0} (env : Setting Db) (n : ℕ) (w : World Db) → Sizes w → Sizes (pass_command env n w)
unfolding pass_command
pass_command-Sizes env n w k =
    let s = w.session in
    let w' = cut_at (n - 1) w in
    let text = c_string w'.session.buf in
    let key = env.database.client_key_query w'.db s.username in
    if-Sizes (is_running w.status && is_pass s) _ w
      (λ t.
        if-Sizes (leb (5 + password_min * 2) (length text)) _ _
          (λ t'.
            if-Sizes (leb (length text) (5 + password_max * 2)) _ _
              (λ t''. check_key-Sizes env (take 127 (drop 5 text)) key w' (ground arith) k)
              (λ t''. say-Sizes (error_text 121) w' k))
          (λ t'. say-Sizes (error_text 122) w' k))
      (λ t. k)

-- ===== src/Vsnesoip/Login/Agree/Tests.antt =====
-- A login at concrete texts.
use sneso_ip.Common.{ℕ, ◌+◌, ◌≡◌, refl, true, none, some, [], ◌∷◌, ◌++◌, arith, Bytes, replicate}
use sneso_ip.Common.Int.{pos}
use sneso_ip.Cstring.{lacks}
use sneso_ip.Login.{Database, Setting, running}
use sneso_ip.Login.Credentials.{challenge}
use sneso_ip.Login.Run.{connected}
use sneso_ip.Vsnesoip.Login.{Account, naming, logged_in, refused, ok_answer, steps, connect}
use sneso_ip.Vsnesoip.Login.Agree.{talk}
use sneso_ip.Vsnesoip.Login.Agree.Answers.{steps-refused, talk-logged_in}

abbrev player : Account
player = record {
  username = b'm' ∷ b'a' ∷ b'r' ∷ b'i' ∷ b'o' ∷ [];
  password = b'p' ∷ b'r' ∷ b'i' ∷ b'n' ∷ b'c' ∷ b'e' ∷ b's' ∷ b's' ∷ b'1' ∷ b'2' ∷ [];
  key = replicate 10 b'k';
}

-- A database that knows the player.
abbrev answers : Database ℕ
answers = record {
  user_query = λ db user. (db + 1, pos 7);
  online_query = λ db user. (db + 1, pos 0);
  auth_query = λ db user pass. (db + 1, pos 7);
  free_port_query = λ db ip port. (db, pos 0);
  client_key_query = λ db user. (db + 1, some player.key);
  opponent_query = λ db user. (db, none);
  dest_addr_query = λ db user. (db, none);
  update_query = λ db up. (db + 1, pos 0);
}

abbrev env : Setting ℕ
env = record {
  database = answers;
  keystream = λ key iv i. i + 5;
  behind = 0 ∷ [];
  peer = 0x0101a8c0;
  printed = λ s. s;
  stale_key = replicate 11 7;
}

abbrev stack : Bytes
stack = replicate 80 0

talk-logged_in_example :
    let (c, ms) = connect stack in
    let (c', w) = talk env (λ i. i) player 3 c (connected 0 stack []) ms in
    (c'.stage ≡ logged_in)
    × (w.session.auth_set ≡ true)
    × (w.session.username ≡ player.username)
    × (w.status ≡ running)
talk-logged_in_example =
    talk-logged_in env (λ i. i) player 0 stack stack [] []
      (record {
        name_string = omega arith;
        name_min = omega arith;
        name_max = omega arith;
        password_bytes = omega arith;
        password_string = omega arith;
        password_min = omega arith;
        password_max = omega arith;
        password_plain = unfold lacks in refl;
        key_plain = unfold lacks in refl;
        key_min = omega arith;
      })
      (λ s h. refl) refl (record { there = refl; away = refl })
      (record { key = refl; password = refl })

steps-refused_example :
    let (c, out) =
      steps env.printed env.keystream player
        (record { stage = naming; buffer = stack; total = 0 })
        ((ok_answer ++ challenge (λ i. i) 10 0) ∷ []) in
    (c.stage ≡ refused) × (out ≡ [])
steps-refused_example = steps-refused env.printed env.keystream player stack (λ i. i)

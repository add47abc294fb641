-- ===== src/Terminal/Tests.antt =====
-- The terminal at concrete inputs.
use sneso_ip.Common.{◌≡◌, ◌↔◌, refl, true, some, List, [], ◌∷◌, ◌++◌, arith, Bytes, codes, length}
use sneso_ip.Common.Word.{bit}
use sneso_ip.Terminal.{
  Terminal, serving, accepted, bytes, Event, listens, receives, init, is_host_connected,
  check_command, version, input_text, reply, steps,
}
use sneso_ip.Terminal.Text.{read_binary, reply-input}
use sneso_ip.Terminal.Session.{is_host_connected-steps, check_command_iff}

idle_text : input_text 0xfffb ≡ codes "1111111111111011\r\n"
unfolding input_text bit
idle_text = refl

answers : reply 0 [] (codes "version\r\n") ≡ some version
unfolding reply check_command
answers = refl

abbrev noise : Bytes
noise = 65 ∷ []

reply-input_example :
    (s : Bytes) × (reply 0x0f03 noise (codes "input\r\n") ≡ some (s ++ codes "\r\n" ++ noise))
    × (length s ≡ 16)
    × (read_binary 0 s ≡ 0x0f03)
    × ((length (s ++ codes "\r\n" ++ noise) ≡ 18) ↔ (noise ≡ []))
reply-input_example = reply-input 0x0f03 noise (omega arith)

abbrev events : List Event
events = listens accepted ∷ receives (bytes (codes "input\r\n")) ∷ []

is_host_connected-steps_example :
    (is_host_connected (steps init events) ≡ true) ↔ ((steps init events).place ≡ serving)
is_host_connected-steps_example = is_host_connected-steps events

abbrev busy : Terminal
busy = record { is_running = true; host_connected = true; place = serving }

check_command_iff_example :
    (check_command (codes "input\r\n") (codes "input") ≡ true)
    ↔ ((rest : Bytes) × (codes "input\r\n" ≡ codes "input" ++ rest))
check_command_iff_example = check_command_iff (codes "input\r\n") (codes "input")

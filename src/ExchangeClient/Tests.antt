-- ===== src/ExchangeClient/Tests.antt =====
-- Theorems on the exchange client at concrete inputs.
use sneso_ip.Common.{
  ℕ, ◌≤◌, ◌<◌, ◌≡◌, refl, inl, true, List, [], ◌∷◌, ◌++◌, arith, codes, length, take, replicate,
}
use sneso_ip.Common.Int.{ℤ, pos}
use sneso_ip.Cstring.{print_u8}
use sneso_ip.CommonInclude.Ip.Spec.{dotted_quad}
use sneso_ip.Server.State.{Server}
use sneso_ip.Server.Conn
use sneso_ip.Server.Conn.{Conn, enter, entered, register, receive}
use sneso_ip.Server.Conn.Address.{new_conn}
use sneso_ip.Server.Sample.{ntop, ntop-IsInetNtop, server, peer-HasAddr, first}
use sneso_ip.ExchangeClient.{ExchangeClient, Locals, Received, bytes, failed, init, round, run}
use sneso_ip.ExchangeClient.Stages.{IsStaged, Climbs, stages, run-IsStaged}
use sneso_ip.ExchangeClient.Exchange.{wire, round_hello, round_learns}
use sneso_ip.ExchangeClient.Missed.{run_missed}

abbrev locals : Locals
locals = record { rx_buffer = replicate 11 0; err = pos 0 }

abbrev in_stage : ℕ → ExchangeClient
in_stage n = record {
  is_running = true;
  stage = n;
  client_id = 0;
  opponent_id = 0;
  ip_addr = 0 ∷ 0 ∷ 0 ∷ 0 ∷ [];
}

round_hello_example :
    (round (in_stage 0) locals (pos 0) (bytes (register server (new_conn 1)).2)).0
    ≡ record (in_stage 1) { client_id = 1 }
round_hello_example = round_hello (in_stage 0) locals 0 server (new_conn 1) refl refl refl (pos 0)

short_addr : length (dotted_quad 10 0 0 3) < 15
unfolding print_u8
short_addr = omega arith

round_learns_example :
    (s₁ : Server) × (c₁ : Conn) × (enter ntop server ≡ entered s₁ c₁)
    × (let request = (round (in_stage 1) locals (pos 7) failed).2 in
        let reply = (receive (register s₁ c₁).0 first (Conn.bytes (wire request))).2 in
        (round (in_stage 1) locals (pos 7) (bytes (take 10 (wire reply)))).0
        ≡ record (in_stage 2) { opponent_id = 1; ip_addr = 10 ∷ 0 ∷ 0 ∷ 3 ∷ [] })
round_learns_example =
    round_learns ntop ntop-IsInetNtop server 10 0 0 3 0 0 0 0 first (in_stage 1) locals 7
      peer-HasAddr short_addr refl (omega arith) refl refl refl

abbrev traffic : List (ℤ × Received)
traffic = (pos 0, bytes (codes "Hello" ++ (1 ∷ 13 ∷ 10 ∷ 0 ∷ 0 ∷ []))) ∷ (pos 7, failed) ∷ []

run-IsStaged_example :
    let (c', _, _) = run (in_stage 0) locals traffic in
    IsStaged c' × (0 ≤ c'.stage) × Climbs 0 (stages (in_stage 0) locals traffic)
run-IsStaged_example = run-IsStaged (in_stage 0) locals traffic (omega arith, inl refl)

run_missed_example :
    (run (in_stage 2) locals (
      (pos 5, bytes (10 ∷ codes "Cya\r\n"))
      ∷ (pos 5, failed)
      ∷ (pos 5, bytes [])
      ∷ [])).0.is_running
    ≡ true
run_missed_example =
    run_missed (in_stage 2) locals 5 ((pos 5, failed) ∷ (pos 5, bytes []) ∷ []) refl refl
      (tt, (refl, tt))

starts : init ≡ in_stage 0
unfolding init
starts = refl

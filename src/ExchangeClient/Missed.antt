-- ===== src/ExchangeClient/Missed.antt =====
-- The end of the conversation as the client sees it.
use sneso_ip.Common.{ℕ, ◌≡◌, true, false, List, [], ◌∷◌, arith, codes, All}
use sneso_ip.Common.Int.{ℤ, pos}
use sneso_ip.Cstring.{memcmp_eq}
use sneso_ip.ExchangeClient.{
  ExchangeClient, Locals, Received, bytes, failed, send_request, handle, take_received, round, run,
}

-- Nothing arrives: `recv` fails for want of data, or the stream has ended.
abbrev pub IsSilent : ℤ × Received → Type 0
IsSilent (sent, failed) = Unit {0}
IsSilent (sent, bytes b) = b ≡ []

abbrev Stuck : ExchangeClient → Locals → Type 0
Stuck k l =
    (k.stage ≡ 2) × (k.is_running ≡ true) × (memcmp_eq (codes "Cya\r\n") l.rx_buffer 5 ≡ false)

round-Stuck :
    (k : ExchangeClient) (l : Locals) (sent : ℤ) (r : Received)
    → IsSilent (sent, r)
    → Stuck k l
    → Stuck (round k l sent r).0 (round k l sent r).1
unfolding round take_received handle
round-Stuck k l sent failed q h = ground arith
round-Stuck k l sent (bytes []) q h = ground arith
round-Stuck k l sent (bytes (b ∷ bs)) q h = cc

run-Stuck :
    (k : ExchangeClient) (l : Locals) (rs : List (ℤ × Received))
    → All IsSilent rs
    → Stuck k l
    → (run k l rs).0.is_running ≡ true
unfolding run
run-Stuck k l [] q h = h.1
run-Stuck k l ((sent, r) ∷ rs) q h =
    let next =
      run-Stuck (round k l sent r).0 (round k l sent r).1 rs q.1 (round-Stuck k l sent r q.0 h) in
    ground (arith, next)

newline_round :
    (k : ExchangeClient) (l : Locals) (n : ℕ)
    → k.stage ≡ 2
    → k.is_running ≡ true
    → let (k', l', _) = round k l (pos n) (bytes (10 ∷ codes "Cya\r\n")) in Stuck k' l'
unfolding round take_received handle send_request
newline_round k l n st up = ground arith

-- The line feed that ends the server's answer is the eleventh byte, and a read takes ten. If it
-- comes with the server's "Cya" in one read, the client in stage 2 does not recognise the end of the
-- conversation, and runs on for as long as nothing more arrives.
pub run_missed :
    (k : ExchangeClient) (l : Locals) (n : ℕ) (rs : List (ℤ × Received))
    → k.stage ≡ 2
    → k.is_running ≡ true
    → All IsSilent rs
    → (run k l ((pos n, bytes (10 ∷ codes "Cya\r\n")) ∷ rs)).0.is_running ≡ true
unfolding run
run_missed k l n rs st up q =
    let k' = (round k l (pos n) (bytes (10 ∷ codes "Cya\r\n"))).0 in
    let l' = (round k l (pos n) (bytes (10 ∷ codes "Cya\r\n"))).1 in
    let next = run-Stuck k' l' rs q (newline_round k l n st up) in ground (arith, next)

-- Read for itself, the server's "Cya" stops the client in stage 2.
pub round_cya :
    (k : ExchangeClient) (l : Locals) (n : ℕ)
    → k.stage ≡ 2
    → (round k l (pos n) (bytes (codes "Cya\r\n"))).0 ≡ record k { is_running = false }
unfolding round take_received handle send_request
round_cya k l n st = ground arith

-- ===== src/ExchangeClient.antt =====
-- Firmware/src/ExchangeClient.c: the client of the IP exchange server, one round of its thread's
-- loop for the results of `send` and `recv`. Logging and the delay are left out.
pub mod Stages
pub mod Exchange
pub mod Missed
mod Tests
use sneso_ip.Common.{
  ℕ, ◌-◌, Bool, true, false, List, [], ◌∷◌, ◌++◌, Bytes, codes, ◌==◌, if◌then◌else◌, get_or, drop,
  length,
}
use sneso_ip.Common.Int.{ℤ, pos, negsuc, geb_ℤ}
use sneso_ip.Cstring.{memcmp_eq}

-- `ExchangeClient`.
pub record ExchangeClient : Type 0 where
  pub is_running : Bool
  pub stage : ℕ
  pub client_id : ℕ
  pub opponent_id : ℕ
  pub ip_addr : Bytes

-- The local variables of the thread that outlive a round: `acRxBuffer` and `nErr`.
pub record Locals : Type 0 where
  pub rx_buffer : Bytes
  pub err : ℤ

-- `InitExchangeClient`, and the line before the loop.
unfoldable pub init : ExchangeClient
init = record {
  is_running = true;
  stage = 0;
  client_id = 0;
  opponent_id = 0;
  ip_addr = 0 ∷ 0 ∷ 0 ∷ 0 ∷ [];
}

-- What `recv(nSock, acRxBuffer, 10, MSG_DONTWAIT)` returns: bytes, none of them at the end of the
-- stream, or -1.
pub data Received : Type 0 where
  bytes : Bytes → Received
  failed : Received

-- Lines 105 to 115: the request of the stage, and `nErr` after it.
unfoldable pub send_request : ExchangeClient → ℤ → ℤ → List Bytes × ℤ
send_request c sent err =
    if c.stage == 1
    then (codes "GetIP\r\n" ∷ [], sent)
    else if c.stage == 2
    then (codes "Bye\r\n" ∷ [], sent)
    else ([], err)

-- Lines 132 to 174: what a stage makes of the buffer.
unfoldable pub handle : ExchangeClient → Bytes → ExchangeClient
handle c rx =
    if c.stage == 0
    then (if memcmp_eq (codes "Hello") rx 5
        then record c { client_id = get_or rx 5 0; stage = 1 }
        else c)
    else if c.stage == 1
    then (if memcmp_eq (codes "IPOK") rx 4
        then record c {
          opponent_id = get_or rx 4 0;
          ip_addr = get_or rx 5 0 ∷ get_or rx 6 0 ∷ get_or rx 7 0 ∷ get_or rx 8 0 ∷ [];
          stage = 2;
        }
        else c)
    else if c.stage == 2
    then (if memcmp_eq (codes "Cya\r\n") rx 5 then record c { is_running = false } else c)
    else c

-- Lines 122 to 175.
unfoldable pub take_received : ExchangeClient → Locals → Received → ExchangeClient × Locals
take_received c l failed = (c, l)
take_received c l (bytes b) =
    let rx = b ++ drop (length b) l.rx_buffer in (handle c rx, record l { rx_buffer = rx })

-- One round of the loop; `sent` is what `send` returns if it is called, and the last part what was
-- handed to it. Where `nErr` is negative the round ends before `recv`.
unfoldable pub round : ExchangeClient → Locals → ℤ → Received → ExchangeClient × Locals × List Bytes
round c l sent r =
    let (out, err) = send_request c sent l.err in
    let l' = record l { err = err } in
    let (c', l'') = take_received c l' r in
    if geb_ℤ err (pos 0) then (c', l'', out) else (c, l', out)

-- The loop, as far as the results of its calls are given.
unfoldable pub run :
    ExchangeClient → Locals → List (ℤ × Received) → ExchangeClient × Locals × List Bytes
run c l [] = (c, l, [])
run c l ((sent, r) ∷ rs) =
    let (c', l', out) = round c l sent r in
    let (c'', l'', more) = run c' l' rs in
    if c.is_running then (c'', l'', out ++ more) else (c, l, [])

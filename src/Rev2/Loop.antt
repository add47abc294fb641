-- ===== src/Rev2/Loop.antt =====
-- The main loop of Archive/Rev2/firmware/src/main.c, and `udpDataReceived` of network.c. What the
-- network stack says of a packet is part of what a round finds; log lines are left out.
pub mod Payload
pub mod Hello
mod Tests
use sneso_ip.Common.{
  ℕ, zero, suc, ◌+◌, ◌-◌, ◌/◌, ◌%◌, Bool, true, false, not, ◌&&◌, List, [], ◌∷◌, ◌++◌, Bytes, ltb,
  ◌==◌, if◌then◌else◌, get_or, take, drop,
}
use sneso_ip.Rev2.Snesio.{recv_input}

-- `loginState`, as whether HELO has been sent, and `port0`.
pub record Device : Type 0 where
  pub greeted : Bool
  pub port0 : ℕ

-- What a round finds: whether `packetloop_arp_icmp_tcp` has found TCP data, the levels of the data
-- pin for `recvInput`, the result of `recvIO`, whether `eth_type_is_ip_and_my_ip`, `buffer`, and the
-- byte that the loop over the payload reads behind `udpPayloadBuffer`, if it does.
pub record Poll : Type 0 where
  pub tcp : Bool
  pub levels : ℕ → Bool
  pub io : Bool
  pub my_ip : Bool
  pub buffer : Bytes
  pub behind : ℕ

-- A "0" on the UART, two words for `sendOutput`, and the datagram "HELO".
pub data Out : Type 0 where
  no_io : Out
  words : ℕ → ℕ → Out
  hello : Out

-- `udpDataReceived`: the bytes are the protocol and the port of the receiver.
unfoldable pub udp_data_received : Bool → Bytes → ℕ → Bool
udp_data_received my_ip buffer port =
    my_ip
    && ((get_or buffer 0x17 0 == 17)
        && ((get_or buffer 0x24 0 == port / 256) && (get_or buffer 0x25 0 == port % 256)))

-- `udpPayloadLen` of the lower byte of the length in the header.
unfoldable pub payload_len : ℕ → ℕ
payload_len low = let n = (low + 248) % 256 in if ltb 128 n then 128 else n

-- The loop over the payload and the byte behind it.
unfoldable pub send_payload : ℕ → Bytes → List Out
send_payload port0 [] = []
send_payload port0 (b ∷ payload) = words port0 (65535 - b) ∷ send_payload port0 payload

-- The NUL is written behind the payload. For a payload of 128 bytes this is outside the array of 128
-- bytes, and what is then read there is not known.
unfoldable pub take_payload : ℕ → Bytes → ℕ → List Out
take_payload port0 buffer behind =
    let n = payload_len (get_or buffer 0x27 0) in
    let last = if ltb n 128 then 0 else behind in
    send_payload port0 (take n (drop 0x2a buffer) ++ (last ∷ []))

-- One round.
unfoldable pub round : ℕ → Device → Poll → Device × List Out
round source_port d i =
    let port0 = recv_input i.levels in
    let shown = if i.io then [] else no_io ∷ [] in
    let payload =
      if udp_data_received i.my_ip i.buffer source_port
      then take_payload port0 i.buffer i.behind
      else [] in
    let greeting = if d.greeted then [] else hello ∷ [] in
    if i.tcp then (d, []) else (
      record { greeted = true; port0 = port0 },
      shown ++ (payload ++ (greeting ++ (words port0 port0 ∷ []))),
    )

unfoldable pub rounds : ℕ → Device → List Poll → Device × List Out
rounds source_port d [] = (d, [])
rounds source_port d (i ∷ more) =
    let (d', out) = round source_port d i in
    let (d'', rest) = rounds source_port d' more in (d'', out ++ rest)

-- The start of the loop.
abbrev pub booted : ℕ → Device
booted port0 = record { greeted = false; port0 = port0 }

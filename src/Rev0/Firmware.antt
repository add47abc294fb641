-- ===== src/Rev0/Firmware.antt =====
-- Archive/Rev0-1/firmware/firmware.c: the device. The network stack is a library: whether a packet is
-- an IP packet for the device is a parameter, and what is handed to it is a result. The UART, the
-- LEDs and the set-up of the network are left out.
use sneso_ip.Common.{
  ℕ, Bool, true, false, not, ◌&&◌, [], ◌∷◌, Bytes, ◌==◌, if◌then◌else◌, get_or, set,
}
use sneso_ip.Rev0.Copy.{copy_bits, store_bytes}

-- The variables of `main` that outlive a round, and `switchedMode`.
pub record Device : Type 0 where
  pub message : Bytes
  pub port0 : ℕ
  pub port1 : ℕ
  pub switched : Bool

-- The start, for the controller word at boot and the two IDs of the build.
unfoldable pub boot : ℕ → ℕ → ℕ → Device
boot input cid p2cid = record {
  message = 0 ∷ 0 ∷ cid ∷ p2cid ∷ [];
  port0 = input;
  port1 = 0xffff;
  switched = if input == 0xfffc then true else false;
}

-- What a round comes to: a message for the server and the words for the console's two ports, the
-- answer to a ping, or nothing.
pub data Action : Type 0 where
  updates : Bytes → ℕ → ℕ → Action
  pongs quiet : Action

-- A round with no packet; `input` is the controller word.
unfoldable pub idle : Device → ℕ → Device × Action
idle d input =
    let m0 = set d.message 0 (copy_bits 8 0 input 0 (get_or d.message 0 0) 0) in
    let m1 = set m0 1 (copy_bits 8 0 input 8 (get_or m0 1 0) 0) in
    let d' = record d { message = m1; port0 = input } in
    (d', if d.switched then updates m1 d.port1 input else updates m1 input d.port1)

-- A round with a packet in the buffer; `is_ours` is `eth_type_is_ip_and_my_ip`.
module _ (is_ours : Bytes → Bool) where
  unfoldable pub take_packet : Device → Bytes → Device × Action
  take_packet d buffer =
      let at = λ (i : ℕ). get_or buffer i 0 in
      let d' = record d { port1 = store_bytes (at 0x2a) (at 0x2b) d.port1 } in
      if not (is_ours buffer)
      then (d, quiet)
      else if (at 0x17 == 1) && (at 0x22 == 8)
      then (d, pongs)
      else if (at 0x17 == 17) && ((at 0x24 == 0xe0) && (at 0x25 == 0x07))
      then (d', quiet)
      else (d, quiet)

-- ===== src/Rev0/Tests.antt =====
-- The first devices and their server at concrete words.
use sneso_ip.Common.{◌≡◌, refl, true, [], ◌∷◌, ◌++◌, map, arith, Bytes, get_or, set, replicate}
use sneso_ip.Common.Word.{bit, set_bit, clear_bit}
use sneso_ip.Rev0.Copy.{copy_bits, store_bytes}
use sneso_ip.Rev0.Firmware.{Device, boot, idle, take_packet}
use sneso_ip.Rev0.Prototype.{Server, bytes, start, serve, round, rounds}
use sneso_ip.Rev0.Prototype.Table.{
  Message, Table, datagram, word_bytes, exchange, Holds, rounds-Holds,
}
use sneso_ip.Rev0.Exchange.{HasIds, IsHeader, port1-idle}

abbrev server : Server
server = start (replicate 4 0) (λ i. 0)

abbrev table : Table
table id = server.client_data id

server-Holds : Holds server table
unfolding start
server-Holds = record { entries = λ id lt. refl; words = λ k. ground arith; sound = refl }

abbrev ones : Message
ones = record { word = 0xfffe; sender = 2; wanted = 2 }

answers_back : (rounds server (map datagram (ones ∷ []))).1 ≡ (0xfe ∷ 0xff ∷ []) ∷ []
unfolding rounds round serve store_bytes copy_bits set_bit clear_bit bit start
answers_back = refl

rounds-Holds_example :
    ((rounds server (map datagram (ones ∷ ones ∷ []))).1
      ≡ map word_bytes (exchange table (ones ∷ ones ∷ [])).1)
    × Holds
        (rounds server (map datagram (ones ∷ ones ∷ []))).0
        (exchange table (ones ∷ ones ∷ [])).0
rounds-Holds_example = rounds-Holds server table (ones ∷ ones ∷ []) (omega arith) server-Holds

abbrev left : Device
left = boot 0xffff 0 1

abbrev right : Device
right = boot 0xffff 1 0

left-HasIds : HasIds left 0 1
unfolding boot
left-HasIds = record {
  lo = 0;
  hi = 0;
  message = refl;
  lo_byte = omega arith;
  hi_byte = omega arith;
  port1_word = omega arith;
}

right-HasIds : HasIds right 1 0
unfolding boot
right-HasIds = record {
  lo = 0;
  hi = 0;
  message = refl;
  lo_byte = omega arith;
  hi_byte = omega arith;
  port1_word = omega arith;
}

abbrev header : Bytes
header = set (set (set (replicate 0x2a 0) 0x17 17) 0x24 0xe0) 0x25 0x07

header-IsHeader : IsHeader (λ b. true) header
header-IsHeader = record {
  size = refl;
  protocol = refl;
  port_high = refl;
  port_low = refl;
  ours = λ payload. refl;
}

port1-idle_example :
    (take_packet
      (λ b. true)
      (idle right 0xfffd).0
      (header
        ++ get_or
            (round
              (rounds server (bytes (idle left 0x7ffe).0.message ∷ map datagram (ones ∷ []))).0
              (bytes (idle right 0xfffd).0.message)).1
            0
            [])).0.port1
    ≡ 0x7ffe
port1-idle_example =
    port1-idle (λ b. true) server table left right 0 1 1 0x7ffe 0xfffd (ones ∷ []) header
      server-Holds (omega arith, omega arith, omega arith) left-HasIds right-HasIds (omega arith)
      (omega arith) (omega arith) (omega arith) (omega arith) header-IsHeader

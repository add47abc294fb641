-- ===== src/Rev2/Snesio/Tests.antt =====
-- The serial words at concrete levels.
use sneso_ip.Common.{◌≡◌, refl, true, false, [], ◌∷◌, get_or}
use sneso_ip.Common.Word.{set_bit}
use sneso_ip.Rev2.Snesio.{recv_bits, recv_input}

-- B and Y at once: the two lowest bits are 0.
boot_buttons : recv_input (λ i. get_or (false ∷ false ∷ []) i true) ≡ 0xfffc
unfolding recv_input recv_bits set_bit
boot_buttons = refl

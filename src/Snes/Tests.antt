-- ===== src/Snes/Tests.antt =====
-- The controller input at concrete levels.
use sneso_ip.Common.{
  ℕ, zero, suc, ◌<◌, ◌≡◌, refl, Bool, true, false, [], ◌∷◌, arith, ◌==◌, get_or, passes, passes_at,
  ==_iff,
}
use sneso_ip.Common.Word.{bit, set_bit, clear_bit}
use sneso_ip.Snes.{Levels, init, read_bits, read_bit, sample, samples, compare_attempts}
use sneso_ip.Snes.Bits.{HighOnes}
use sneso_ip.Snes.Input.{IsSane, samples-IsSane, samples_stable}

-- The third button alone is low, that is, pressed.
abbrev third : ℕ → Bool
third j = elim (j == 2) [ true ↦ false | false ↦ true ]

abbrev steady : Levels
steady j = (third j, third j)

pressed : (samples init (steady ∷ steady ∷ steady ∷ [])).input_data ≡ 0xfffb
unfolding samples sample init read_bits read_bit compare_attempts set_bit clear_bit
pressed = refl

ones_table : passes (λ j. bit 0xffff j == 1) 16 ≡ true
unfolding passes bit
ones_table = refl

all_ones : HighOnes 0xffff
all_ones = record {
  fits = omega arith;
  ones = λ j lo hi. (==_iff _ 1).0 (passes_at (λ i. bit 0xffff i == 1) 16 j hi ones_table);
}

three_words : (i : ℕ) → i < 3 → HighOnes (get_or (0xffff ∷ 0xffff ∷ 0xffff ∷ []) i 0)
three_words zero h = all_ones
three_words (suc zero) h = all_ones
three_words (suc (suc zero)) h = all_ones
three_words (suc (suc (suc i))) h = absurd (omega arith)

init-IsSane : IsSane init
unfolding init
init-IsSane = record { three = refl; attempts = omega arith; words = three_words; input = all_ones }

samples-IsSane_example : IsSane (samples init (steady ∷ steady ∷ []))
samples-IsSane_example = samples-IsSane init (steady ∷ steady ∷ []) init-IsSane

init_attempt : init.attempt ≡ 0
unfolding init
init_attempt = refl

samples_stable_example :
    let d' = samples init (steady ∷ steady ∷ steady ∷ []) in
    (bit d'.input_data 2 ≡ 0)
    × (bit d'.port0_tx 3 ≡ 0)
    × (bit d'.port0_tx 0 ≡ 0)
    × (d'.queued ≡ d'.port0_tx ∷ init.queued)
    × (d'.attempt ≡ 0)
samples_stable_example =
    samples_stable init third steady steady steady 2 init-IsSane init_attempt (λ j lt. refl)
      (λ j lt. refl) (λ j lt. refl) (omega arith)

-- ===== src/Snes/Input.antt =====
-- What the input thread passes on to the console.
use sneso_ip.Common.{
  ℕ, suc, ◌+◌, ◌*◌, ◌/◌, ◌%◌, ◌^◌, ◌<◌, ◌≡◌, refl, ◌∙◌, ap, subst, Bool, true, false, List, [], ◌∷◌,
  arith, ltb, if◌then◌else◌, length, length-set, get_or, get_or-set_self, get_or-set_ne, set,
  Bool-cases, ==_iff, ◌⊎◌, inl, inr,
}
use native.Mathlib.Decide.{ℕ_discrete}
use sneso_ip.Common.Word.{bit, clear_bit}
use sneso_ip.Snes.{Driver, Levels, read_bits, compare_attempts, sample, samples}
use sneso_ip.Snes.Bits.{HighOnes, read_bits-HighOnes, Shows, bit_shown, read_bits_same}

-- The state between two rounds: three words, fewer than three attempts, and words whose four
-- highest bits are 1.
pub record IsSane (d : Driver) : Type 0 where
  pub three : length d.temp ≡ 3
  pub attempts : d.attempt < 3
  pub words : (i : ℕ) → i < 3 → HighOnes (get_or d.temp i 0)
  pub input : HighOnes d.input_data

tx_lem : (w : ℕ) → w < 2 ^ 16 → clear_bit (w * 2 % 2 ^ 32) 0 ≡ w * 2
unfolding clear_bit
tx_lem w h = omega arith

HighOnes-if : (b : Bool) (v w : ℕ) → HighOnes v → HighOnes w → HighOnes (if b then v else w)
HighOnes-if true v w hv hw = hv
HighOnes-if false v w hv hw = hw

HighOnes-set :
    (ts : List ℕ) (k v i : ℕ)
    → length ts ≡ 3
    → ((j : ℕ) → j < 3 → HighOnes (get_or ts j 0))
    → HighOnes v
    → i < 3
    → HighOnes (get_or (set ts k v) i 0)
HighOnes-set ts k v i len h hv lt = elim (ℕ_discrete k i) [
  | yes e ↦
      subst (λ (j : ℕ). HighOnes (get_or (set ts k v) j 0)) e
        (rw (get_or-set_self ts k v 0 (omega arith)) hv)
  | no ne ↦ rw (get_or-set_ne ts k i v 0 ne) (h i lt)
]

compare_attempts-IsSane :
    (d : Driver)
    → length d.temp ≡ 3
    → ((i : ℕ) → i < 3 → HighOnes (get_or d.temp i 0))
    → HighOnes d.input_data
    → IsSane (compare_attempts d)
unfolding compare_attempts
compare_attempts-IsSane d len h hi = record {
  three = len;
  attempts = omega arith;
  words = h;
  input = HighOnes-if _ _ _ (h 0 (omega arith)) hi;
}

sample-IsSane : (d : Driver) (l : Levels) → IsSane d → IsSane (sample d l)
unfolding sample
sample-IsSane d l v = after (Bool-cases (ltb 2 next))
  where
    word : ℕ
    word = read_bits l 16 0 (get_or d.temp d.attempt 0)

    next : ℕ
    next = (d.attempt + 1) % 256

    d' : Driver
    d' = record d { temp = set d.temp d.attempt word; attempt = next }

    len : length d'.temp ≡ 3
    len = length-set d.temp d.attempt word ∙ v.three

    high : (i : ℕ) → i < 3 → HighOnes (get_or d'.temp i 0)
    high i lt =
        HighOnes-set d.temp d.attempt word i v.three v.words
          (read_bits-HighOnes l _ (v.words d.attempt v.attempts)) lt

    after :
        (ltb 2 next ≡ true) ⊎ (ltb 2 next ≡ false)
        → IsSane (if ltb 2 next then compare_attempts d' else d')
    after (inl e) = rw e (compare_attempts-IsSane d' len high v.input)
    after (inr e) =
        rw e (record { three = len; attempts = ground arith; words = high; input = v.input })

-- Whatever levels the pin shows, the state keeps three words and fewer than three attempts between
-- two rounds, and in each word, and in the input data, the four highest bits stay 1.
pub samples-IsSane : (d : Driver) (ls : List Levels) → IsSane d → IsSane (samples d ls)
unfolding samples
samples-IsSane d [] v = v
samples-IsSane d (l ∷ ls) v = samples-IsSane (sample d l) ls (sample-IsSane d l v)

three_of : (ts : List ℕ) → length ts ≡ 3 → (a : ℕ) × (b : ℕ) × (c : ℕ) × (ts ≡ a ∷ b ∷ c ∷ [])
three_of [] e = absurd (omega arith)
three_of (a ∷ []) e = absurd (omega arith)
three_of (a ∷ b ∷ []) e = absurd (omega arith)
three_of (a ∷ b ∷ c ∷ []) e = (a, b, c, refl)
three_of (a ∷ b ∷ c ∷ x ∷ ts) e = absurd (omega arith)

-- Three attempts that give the same word `x`.
samples_same :
    (d : Driver) (l m n : Levels) (a b c x : ℕ)
    → d.temp ≡ a ∷ b ∷ c ∷ []
    → d.attempt ≡ 0
    → x < 2 ^ 16
    → read_bits l 16 0 a ≡ x
    → read_bits m 16 0 b ≡ x
    → read_bits n 16 0 c ≡ x
    → samples d (l ∷ m ∷ n ∷ []) ≡ record {
      input_data = x;
      port0_tx = x * 2;
      temp = x ∷ x ∷ x ∷ [];
      attempt = 0;
      queued = x * 2 ∷ d.queued;
    }
unfolding samples sample compare_attempts
samples_same d l m n a b c x e z fits el em en =
    let whole : d ≡ record d { temp = a ∷ b ∷ c ∷ []; attempt = 0 } =
      λ i. record d { temp = e i; attempt = z i } in
    rw (whole, el, em, en, (==_iff x x).1 refl, tx_lem x fits)

bit-double : (w j : ℕ) → (bit (w * 2) (suc j) ≡ bit w j) × (bit (w * 2) 0 ≡ 0)
unfolding bit
bit-double w j = let e : w * 2 / 2 ≡ w = omega arith in (ap (λ (v : ℕ). bit v j) e, omega arith)

-- From a sane state before the first attempt, three attempts in a row that see the same buttons make
-- these the input data, for each of the
-- twelve buttons; the word queued for the console has each button's bit one place higher, behind a
-- lowest bit that is 0.
pub samples_stable :
    (d : Driver) (buttons : ℕ → Bool) (l m n : Levels) (j : ℕ)
    → IsSane d
    → d.attempt ≡ 0
    → Shows buttons l
    → Shows buttons m
    → Shows buttons n
    → j < 12
    → let d' = samples d (l ∷ m ∷ n ∷ []) in
      (bit d'.input_data j ≡ (if buttons j then 1 else 0))
      × (bit d'.port0_tx (suc j) ≡ (if buttons j then 1 else 0))
      × (bit d'.port0_tx 0 ≡ 0)
      × (d'.queued ≡ d'.port0_tx ∷ d.queued)
      × (d'.attempt ≡ 0)
samples_stable d buttons l m n j v z hl hm hn lt =
    let (a, b, c, e) = three_of d.temp v.three in
    let ha = subst (λ (t : List ℕ). HighOnes (get_or t 0 0)) e (v.words 0 (omega arith)) in
    let hb = subst (λ (t : List ℕ). HighOnes (get_or t 1 0)) e (v.words 1 (omega arith)) in
    let hc = subst (λ (t : List ℕ). HighOnes (get_or t 2 0)) e (v.words 2 (omega arith)) in
    let x = read_bits l 16 0 a in
    let done =
      samples_same d l m n a b c x e z (read_bits-HighOnes l a ha).fits refl
        (read_bits_same buttons m l b a hm hl hb ha) (read_bits_same buttons n l c a hn hl hc ha) in
    let shown = bit_shown buttons l a j hl lt in
    rw done (shown, (bit-double x j).0 ∙ shown, (bit-double x j).1, refl, refl)

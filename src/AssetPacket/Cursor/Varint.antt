-- ===== src/AssetPacket/Cursor/Varint.antt =====
-- `Cursor::varint` of src/asset_packet.rs, against the shortest form of a number.
use Prim.Native.Nat.{bit_and, bit_or}
use native.Mathlib.Nat.{div-add-mod, pow-suc}
use native.Mathlib.Numerals.{towards_suc}
use woodland_sh.Base.{
  ℕ, zero, suc, ◌+◌, ◌*◌, ◌/◌, ◌%◌, ◌^◌, ◌≤◌, ◌<◌, ◌≡◌, ◌≢◌, ◌↔◌, ap, sym, ◌∙◌, List, [], ◌∷◌, ◌++◌,
  ltb, if◌then◌else◌, All, ok, arith, false, Bool-cases, inl, inr, nat_beq, ◌&&◌, err, Result,
}
use woodland_sh.Base.Words.{IsByte, IsU64}
use woodland_sh.Base.Bits.{bit_and-low_seven, bit_and-top, bit_or-shifted}
use woodland_sh.AssetPacket.Cursor.{PacketError, varint_loop, varint, overflow, not_minimal}

-- The shortest form of `v`, for `v` below 128 ^ (k + 1): seven bits a byte, lowest first, with the
-- top bit set on all bytes but the last.
pub encoding : ℕ → ℕ → List ℕ
encoding zero v = v ∷ []
encoding (suc k) v =
    let rest = encoding k (v / 128) in if ltb v 128 then v ∷ [] else (v % 128 + 128) ∷ rest

-- What a round does to the value, in arithmetic.
round_value :
    (b value shift : ℕ)
    → b < 256
    → value < 2 ^ shift
    → b % 128 * 2 ^ shift < 2 ^ 64
    → bit_or value (bit_and b 0x7f * 2 ^ shift % 2 ^ 64) ≡ value + b % 128 * 2 ^ shift
round_value b value shift hb hv fits =
    rw (bit_and-low_seven b hb) (rw (small) (bit_or-shifted value shift (b % 128) hv))
  where
    small : b % 128 * 2 ^ shift % 2 ^ 64 ≡ b % 128 * 2 ^ shift
    small = omega arith

shift_seven : (s : ℕ) → 2 ^ (s + 7) ≡ 128 * 2 ^ s
shift_seven s = simp towards_suc (omega arith)

-- Where the loop stands before a round, with `k` rounds to come after it.
record AtRound (k shift value : ℕ) : Type 0 where
  position : shift + 7 * k ≡ 63
  scale : 2 ^ shift * 128 ^ k ≡ 2 ^ 63
  below : value < 2 ^ shift

pow-pos : (k : ℕ) → 1 ≤ 128 ^ k
pow-pos zero = omega arith
pow-pos (suc k) = omega (arith, pow-pos k, pow-suc 128 k)

le-mul_pos : (p q : ℕ) → 1 ≤ q → p ≤ p * q
le-mul_pos p q h = grind arith

-- Before the last round a group of seven bits fits below bit 63.
scale_left :
    (k shift value : ℕ)
    → AtRound (suc k) shift value
    → (128 * 2 ^ shift * 128 ^ k ≡ 2 ^ 63) × (128 * 2 ^ shift ≤ 2 ^ 63)
scale_left k shift value at =
    let scaled : 128 * 2 ^ shift * 128 ^ k ≡ 2 ^ 63 =
      omega (arith, at.scale, ap (λ (t : ℕ). 2 ^ shift * t) (pow-suc 128 k)) in
    (scaled, omega (arith, scaled, le-mul_pos (128 * 2 ^ shift) (128 ^ k) (pow-pos k)))

group_below : (b p : ℕ) → b % 128 * p + p ≤ 128 * p
group_below b p = grind arith

group_fits : (k shift value b : ℕ) → AtRound (suc k) shift value → b % 128 * 2 ^ shift < 2 ^ 64
group_fits k shift value b at =
    omega (arith, scale_left k shift value at, group_below b (2 ^ shift))

small_last :
    (shift b : ℕ)
    → 2 ^ shift ≡ 2 ^ 63
    → b ≤ 1
    → (b % 128 * 2 ^ shift < 2 ^ 64) × (b % 128 * 2 ^ shift ≡ b * 2 ^ shift)
small_last shift zero e h = omega arith
small_last shift (suc zero) e h = omega arith
small_last shift (suc (suc b)) e h = absurd (omega arith)

next_round :
    (k shift value b : ℕ)
    → AtRound (suc k) shift value
    → AtRound k (shift + 7) (value + b % 128 * 2 ^ shift)
next_round k shift value b at = record {
  position = omega (arith, at.position);
  scale =
      omega (arith, scale_left k shift value at, ap (λ (t : ℕ). t * 128 ^ k) (shift_seven shift));
  below = omega (arith, at.below, shift_seven shift, group_below b (2 ^ shift));
}

loop_last :
    (shift value read b : ℕ) (input : List ℕ)
    → AtRound zero shift value
    → IsByte b
    → varint_loop 1 shift value read (b ∷ input) ≡ (
        if ltb 1 b
        then err overflow
        else if ltb 0 read && nat_beq b 0
        then err not_minimal
        else ok (value + b * 2 ^ shift, input))
unfolding varint_loop
loop_last shift value read b input at hb =
    ground (arith, bit_and-top b hb, round_value b value shift hb at.below, small_last shift b)

loop_inner :
    (k shift value read b : ℕ) (input : List ℕ)
    → AtRound (suc k) shift value
    → IsByte b
    → varint_loop (suc (suc k)) shift value read (b ∷ input) ≡ (
        if ltb b 128
        then (if ltb 0 read && nat_beq b 0
            then err not_minimal
            else ok (value + b % 128 * 2 ^ shift, input))
        else varint_loop (suc k) (shift + 7) (value + b % 128 * 2 ^ shift) (read + 1) input)
unfolding varint_loop
loop_inner k shift value read b input at hb =
    ground (
      arith,
      bit_and-top b hb,
      round_value b value shift hb at.below (group_fits k shift value b at),
    )

-- What the loop has read, if it reads a value: the shortest form of a word that fits.
pub record Reads (k shift value read : ℕ) (input : List ℕ) (v : ℕ) (rest : List ℕ) : Type 0 where
  pub word : ℕ
  pub sum : v ≡ value + word * 2 ^ shift
  pub form : input ≡ encoding k word ++ rest
  pub minimal : 0 < read → word ≢ 0
  pub bound : word < 2 * 128 ^ k

-- The outcome of the byte that ends a number.
abbrev ended : ℕ → ℕ → ℕ → List ℕ → Result PacketError (ℕ × List ℕ)
ended read b v input = if ltb 0 read && nat_beq b 0 then err not_minimal else ok (v, input)

encoding-suc_big :
    (k b word : ℕ)
    → IsByte b
    → 128 ≤ b
    → word ≢ 0
    → encoding (suc k) (b % 128 + 128 * word) ≡ b ∷ encoding k word
unfolding encoding
encoding-suc_big k b word hb top nonzero =
    let big : ltb (b % 128 + 128 * word) 128 ≡ false = ground arith in
    let low : (b % 128 + 128 * word) % 128 + 128 ≡ b = omega arith in
    let high : (b % 128 + 128 * word) / 128 ≡ word = omega arith in rw (big, low, high)

module _ (shift value read v : ℕ) (rest : List ℕ) where
  last_byte :
      (b : ℕ) (input : List ℕ)
      → (if ltb 1 b then err overflow else ended read b (value + b * 2 ^ shift) input)
        ≡ ok (v, rest)
      → Reads zero shift value read (b ∷ input) v rest
  unfolding encoding
  last_byte b input e = record {
    word = b;
    sum = ground arith;
    form = ground arith;
    minimal = ground arith;
    bound = ground arith;
  }

  short_byte :
      (k b : ℕ) (input : List ℕ)
      → b < 128
      → ended read b (value + b % 128 * 2 ^ shift) input ≡ ok (v, rest)
      → Reads (suc k) shift value read (b ∷ input) v rest
  unfolding encoding
  short_byte k b input small e = record {
    word = b;
    sum = ground arith;
    form = ground arith;
    minimal = ground arith;
    bound = omega (arith, pow-pos k, pow-suc 128 k);
  }

  more_bytes :
      (k b : ℕ) (input : List ℕ)
      → IsByte b
      → 128 ≤ b
      → Reads k (shift + 7) (value + b % 128 * 2 ^ shift) (read + 1) input v rest
      → Reads (suc k) shift value read (b ∷ input) v rest
  unfolding encoding
  more_bytes k b input hb top r = record {
    word = b % 128 + 128 * r.word;
    sum = omega (arith, r.sum, ap (λ (t : ℕ). r.word * t) (shift_seven shift));
    form = rw (encoding-suc_big k b r.word hb top (r.minimal (omega arith))) (ap (◌∷◌ b) r.form);
    minimal = λ _ z. r.minimal (omega arith) (omega arith);
    bound = omega (arith, r.bound, pow-suc 128 k);
  }

-- The loop reads only shortest forms of words that fit.
varint_loop-Reads :
    (k shift value read : ℕ) (input : List ℕ) (v : ℕ) (rest : List ℕ)
    → AtRound k shift value
    → All IsByte input
    → varint_loop (suc k) shift value read input ≡ ok (v, rest)
    → Reads k shift value read input v rest
varint_loop-Reads k shift value read [] v rest at h e = unfold varint_loop in cc
varint_loop-Reads zero shift value read (b ∷ input) v rest at h e =
    last_byte shift value read v rest b input (sym (loop_last shift value read b input at h.0) ∙ e)
varint_loop-Reads (suc k) shift value read (b ∷ input) v rest at h e =
    let e' = sym (loop_inner k shift value read b input at h.0) ∙ e in
    elim (Bool-cases (ltb b 128)) [
      | inl small ↦ short_byte shift value read v rest k b input (ground arith) (rw small at e')
      | inr big ↦ more_bytes shift value read v rest k b input h.0 (ground arith) (
          varint_loop-Reads k (shift + 7) (value + b % 128 * 2 ^ shift) (read + 1) input v rest
            (next_round k shift value b at) h.1 (rw big at e'))
    ]

-- The loop reads the shortest form of a word that fits, and leaves what follows it.
inner_byte :
    (k shift value read word : ℕ) (input : List ℕ)
    → AtRound (suc k) shift value
    → varint_loop (suc (suc k)) shift value read ((word % 128 + 128) ∷ input)
      ≡ varint_loop (suc k) (shift + 7) (value + word % 128 * 2 ^ shift) (read + 1) input
inner_byte k shift value read word input at =
    let low : (word % 128 + 128) % 128 ≡ word % 128 = omega arith in
    let big : ltb (word % 128 + 128) 128 ≡ false = ground arith in
    loop_inner k shift value read (word % 128 + 128) input at (omega arith) ∙ rw (big, low)

split_word : (word s : ℕ) → word % 128 * 2 ^ s + word / 128 * 2 ^ (s + 7) ≡ word * 2 ^ s
split_word word s = omega (
  arith,
  ap (λ (t : ℕ). t * 2 ^ s) (div-add-mod word 128),
  ap (λ (t : ℕ). word / 128 * t) (shift_seven s),
)

varint_loop-encoding :
    (k shift value read word : ℕ) (rest : List ℕ)
    → AtRound k shift value
    → (0 < read → word ≢ 0)
    → word < 2 * 128 ^ k
    → varint_loop (suc k) shift value read (encoding k word ++ rest)
      ≡ ok (value + word * 2 ^ shift, rest)
unfolding encoding
varint_loop-encoding zero shift value read word rest at nonzero fits =
    loop_last shift value read word rest at (omega arith) ∙ ground arith
varint_loop-encoding (suc k) shift value read word rest at nonzero fits =
    elim (Bool-cases (ltb word 128)) [
      | inl small ↦
          rw small (loop_inner k shift value read word rest at (ground arith) ∙ ground arith)
      | inr big ↦ rw big (
          inner_byte k shift value read word (encoding k (word / 128) ++ rest) at
          ∙ varint_loop-encoding k (shift + 7) (value + word % 128 * 2 ^ shift) (read + 1)
              (word / 128) rest (next_round k shift value word at) (λ _. ground arith)
              (omega (arith, pow-suc 128 k))
          ∙ ap (λ (t : ℕ). ok (t, rest)) (omega (arith, split_word word shift)))
    ]

at_start : AtRound 9 0 0
at_start = omega arith

-- `varint` reads a value exactly where the bytes begin with the value's shortest form, and the value
-- fits 64 bits.
pub varint-encoding :
    (input rest : List ℕ) (v : ℕ)
    → All IsByte input
    → (varint input ≡ ok (v, rest)) ↔ ((input ≡ encoding 9 v ++ rest) × IsU64 v)
unfolding varint
varint-encoding input rest v h = (there, back)
  where
    there : varint input ≡ ok (v, rest) → (input ≡ encoding 9 v ++ rest) × IsU64 v
    there e =
        let r = varint_loop-Reads 9 0 0 0 input v rest at_start h e in
        let whole : v ≡ r.word = omega (arith, r.sum) in (rw whole r.form, omega (arith, r.bound))

    back : (input ≡ encoding 9 v ++ rest) × IsU64 v → varint input ≡ ok (v, rest)
    back (e, fits) = rw e (
        varint_loop-encoding 9 0 0 0 v rest at_start (λ z. absurd (omega arith)) (omega arith)
        ∙ ap (λ (t : ℕ). ok (t, rest)) (omega arith))

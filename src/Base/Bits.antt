-- ===== src/Base/Bits.antt =====
-- The bit operations that the decoders use, as arithmetic.
use Prim.Native.Nat.{
  ℕ, zero, suc, ◌+◌, ◌*◌, ◌/◌, ◌%◌, ◌^◌, ◌≤◌, ◌<◌, max, bit_and, bit_or, digits, bit_or-bitwise,
}
use mathlib.Core.Path.{◌≡◌, refl, ap, ◌∙◌}
use mathlib.Core.Bool.{Bool, true, ◌&&◌}
use native.Mathlib.Omega.{arith}
use native.Mathlib.Nat.{pow-suc}
use woodland_sh.Base.Tests.{nat_beq}

-- Two functions agree below a bound, by trying all arguments.
tried_below : (ℕ → ℕ) → (ℕ → ℕ) → ℕ → Bool
tried_below f g zero = true
tried_below f g (suc n) = nat_beq (f n) (g n) && tried_below f g n

tried_below→eq : (f g : ℕ → ℕ) (n : ℕ) → tried_below f g n ≡ true → (x : ℕ) → x < n → f x ≡ g x
unfolding tried_below
tried_below→eq f g zero h x less = absurd (omega arith)
tried_below→eq f g (suc n) h x less = ground (arith, tried_below→eq f g n (ground arith) x)

pub bit_and-low_seven : (b : ℕ) → b < 256 → bit_and b 0x7f ≡ b % 128
unfolding tried_below
bit_and-low_seven = tried_below→eq (λ b. bit_and b 0x7f) (λ b. b % 128) 256 refl

pub bit_and-top : (b : ℕ) → b < 256 → bit_and b 0x80 ≡ b / 128 * 128
unfolding tried_below
bit_and-top = tried_below→eq (λ b. bit_and b 0x80) (λ b. b / 128 * 128) 256 refl

abbrev or_of : ℕ → ℕ → ℕ → ℕ
or_of = digits (λ d. d) max

half_shifted : (g s : ℕ) → (g * 2 ^ suc s / 2 ≡ g * 2 ^ s) × (g * 2 ^ suc s % 2 ≡ 0)
half_shifted g s = omega (arith, ap (λ (t : ℕ). g * t) (pow-suc 2 s))

or_of-shifted : (n a s g : ℕ) → a ≤ n → a < 2 ^ s → or_of n a (g * 2 ^ s) ≡ a + g * 2 ^ s
or_of-shifted zero zero s g h fits = omega arith
or_of-shifted zero (suc a) s g h fits = absurd (omega arith)
or_of-shifted (suc n) zero s g h fits = omega arith
or_of-shifted (suc n) (suc a) zero g h fits = absurd (omega arith)
or_of-shifted (suc n) (suc a) (suc s) g h fits =
    let (halved, even) = half_shifted g s in
    let rest : or_of n (suc a / 2) (g * 2 ^ suc s / 2) ≡ suc a / 2 + g * 2 ^ s =
      rw halved (or_of-shifted n (suc a / 2) s g (omega arith) (omega (arith, pow-suc 2 s))) in
    omega (arith, rest, halved, even)

-- Bits put above those of a number are added to it.
pub bit_or-shifted : (a s g : ℕ) → a < 2 ^ s → bit_or a (g * 2 ^ s) ≡ a + g * 2 ^ s
bit_or-shifted a s g fits = bit_or-bitwise a (g * 2 ^ s) ∙ or_of-shifted a a s g (omega arith) fits

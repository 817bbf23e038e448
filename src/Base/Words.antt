-- ===== src/Base/Words.antt =====
-- Machine words: u64 arithmetic with its checks, and little-endian bytes.
use mathlib.Core.List.{List, [], ◌∷◌, ◌++◌}
use Prim.Native.Nat.{ℕ, zero, suc, ◌+◌, ◌-◌, ◌*◌, ◌/◌, ◌%◌, ◌^◌, ◌<◌, min}
use mathlib.Core.Path.{◌≡◌, refl, ap, ap₂, sym, ◌∙◌}
use mathlib.Core.Option.{Option, none, some}
use native.Mathlib.Omega.{arith}
use native.Mathlib.Nat.{pow-suc}
use woodland_sh.Base.Tests.{ltb, leb, if◌then◌else◌}
use woodland_sh.Base.Lists.{All, length, take, get_or, length-take}

abbrev pub u64_mod : ℕ
u64_mod = 2 ^ 64

abbrev pub IsU64 : ℕ → Type 0
IsU64 n = n < 2 ^ 64

abbrev pub IsByte : ℕ → Type 0
IsByte b = b < 256

-- `u64::checked_add`, `u64::checked_sub`, `u64::saturating_mul`
abbrev pub checked_add : ℕ → ℕ → Option ℕ
checked_add a b = if ltb (a + b) u64_mod then some (a + b) else none

abbrev pub checked_sub : ℕ → ℕ → Option ℕ
checked_sub a b = if leb b a then some (a - b) else none

abbrev pub saturating_mul : ℕ → ℕ → ℕ
saturating_mul a b = min (a * b) (u64_mod - 1)

-- `n.to_le_bytes()` of a word of `k` bytes, and `from_le_bytes`.
abbrev pub to_le_bytes : ℕ → ℕ → List ℕ
to_le_bytes zero n = []
to_le_bytes (suc k) n = (n % 256) ∷ to_le_bytes k (n / 256)

abbrev pub from_le_bytes : List ℕ → ℕ
from_le_bytes [] = 0
from_le_bytes (b ∷ bs) = b + 256 * from_le_bytes bs

pub length-to_le_bytes : (k n : ℕ) → length (to_le_bytes k n) ≡ k
length-to_le_bytes zero n = refl
length-to_le_bytes (suc k) n = ap suc (length-to_le_bytes k (n / 256))

pub to_le_bytes-IsByte : (k n : ℕ) → All IsByte (to_le_bytes k n)
to_le_bytes-IsByte zero n = tt
to_le_bytes-IsByte (suc k) n = (omega arith, to_le_bytes-IsByte k (n / 256))

pub from_le_bytes-to_le_bytes : (k n : ℕ) → n < 256 ^ k → from_le_bytes (to_le_bytes k n) ≡ n
from_le_bytes-to_le_bytes zero n h = omega arith
from_le_bytes-to_le_bytes (suc k) n h =
    omega (arith, from_le_bytes-to_le_bytes k (n / 256) (omega arith))

pub to_le_bytes-from_le_bytes :
    (bs : List ℕ) → All IsByte bs → to_le_bytes (length bs) (from_le_bytes bs) ≡ bs
to_le_bytes-from_le_bytes [] h = refl
to_le_bytes-from_le_bytes (b ∷ bs) h =
    ap₂ (λ (x : ℕ) (xs : List ℕ). x ∷ xs) (omega (arith, h.0))
      (ap (to_le_bytes (length bs)) (omega (arith, h.0)) ∙ to_le_bytes-from_le_bytes bs h.1)

pub from_le_bytes-lt : (bs : List ℕ) → All IsByte bs → from_le_bytes bs < 256 ^ length bs
from_le_bytes-lt [] h = omega arith
from_le_bytes-lt (b ∷ bs) h = omega (arith, from_le_bytes-lt bs h.1, h.0, pow-suc 256 (length bs))

take-IsByte : (k : ℕ) (bs : List ℕ) → All IsByte bs → All IsByte (take k bs)
take-IsByte zero bs h = tt
take-IsByte (suc k) [] h = tt
take-IsByte (suc k) (b ∷ bs) h = (h.0, take-IsByte k bs h.1)

take-append_last :
    (k : ℕ) (bs : List ℕ) → length bs ≡ suc k → bs ≡ take k bs ++ (get_or bs k 0 ∷ [])
take-append_last zero [] e = absurd (omega arith)
take-append_last zero (b ∷ []) e = refl
take-append_last zero (b ∷ c ∷ bs) e = absurd (omega arith)
take-append_last (suc k) [] e = absurd (omega arith)
take-append_last (suc k) (b ∷ bs) e = ap (◌∷◌ b) (take-append_last k bs (omega arith))

-- The packets of one number: 8 little-endian bytes and a zero byte.
pub numeric_packet-eq :
    (bs : List ℕ)
    → All IsByte bs
    → length bs ≡ 9
    → get_or bs 8 0 ≡ 0
    → bs ≡ to_le_bytes 8 (from_le_bytes (take 8 bs)) ++ (0 ∷ [])
numeric_packet-eq bs h l z =
    take-append_last 8 bs l
    ∙ ap₂ (λ (xs : List ℕ) (x : ℕ). xs ++ (x ∷ []))
        (sym (to_le_bytes-from_le_bytes (take 8 bs) (take-IsByte 8 bs h))
          ∙ ap (λ k. to_le_bytes k (from_le_bytes (take 8 bs))) {y = 8}
              (omega (arith, length-take 8 bs)))
        z

pub from_le_bytes-numeric_packet :
    (n : ℕ) → IsU64 n → from_le_bytes (take 8 (to_le_bytes 8 n ++ (0 ∷ []))) ≡ n
from_le_bytes-numeric_packet n h = from_le_bytes-to_le_bytes 8 n (omega arith)

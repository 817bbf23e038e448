-- ===== src/Base/Int.antt =====
-- `i64`: the integers, with what the source does of them.
use Prim.Native.Nat.{ℕ, ◌+◌, ◌-◌, ◌^◌}
use mathlib.Core.Bool.{Bool, true, false, not}
use mathlib.Core.Option.{Option, none, some}
use mathlib.Core.Path.{◌≡◌}
use mathlib.Core.Logic.{◌↔◌}
use native.Mathlib.Omega.{arith}
use woodland_sh.Base.Equality.{Eq}
use woodland_sh.Base.Tests.{ltb, leb, nat_beq, if◌then◌else◌}

-- `negsuc n` is -(n + 1).
pub data ℤ : Type 0 where
  pos : ℕ → ℤ
  negsuc : ℕ → ℤ

abbrev pub int_ltb : ℤ → ℤ → Bool
int_ltb (pos m) (pos n) = ltb m n
int_ltb (pos m) (negsuc n) = false
int_ltb (negsuc m) (pos n) = true
int_ltb (negsuc m) (negsuc n) = ltb n m

abbrev pub int_leb : ℤ → ℤ → Bool
int_leb a b = not (int_ltb b a)

infixl 40 ◌-ℤ◌
-- m - n
abbrev pub sub_nat : ℕ → ℕ → ℤ
sub_nat m n = if leb n m then pos (m - n) else negsuc (n - m - 1)

abbrev pub ◌-ℤ◌ : ℤ → ℤ → ℤ
pos m -ℤ pos n = sub_nat m n
pos m -ℤ negsuc n = pos (m + n + 1)
negsuc m -ℤ pos n = negsuc (m + n)
negsuc m -ℤ negsuc n = sub_nat n m

abbrev pub int_beq : ℤ → ℤ → Bool
int_beq (pos m) (pos n) = nat_beq m n
int_beq (negsuc m) (negsuc n) = nat_beq m n
int_beq _ _ = false

abbrev pub i64_max : ℤ
i64_max = pos (2 ^ 63 - 1)

abbrev pub i64_min : ℤ
i64_min = negsuc (2 ^ 63 - 1)

abbrev pub saturating_sub64 : ℤ → ℤ → ℤ
saturating_sub64 a b =
    let d = a -ℤ b in
    if int_ltb i64_max d then i64_max else if int_ltb d i64_min then i64_min else d

-- Subtraction as a release build does it.
abbrev pub wrapping_sub64 : ℤ → ℤ → ℤ
wrapping_sub64 a b =
    let d = a -ℤ b in
    if int_ltb i64_max d
    then d -ℤ pos (2 ^ 64)
    else if int_ltb d i64_min
    then d -ℤ negsuc (2 ^ 64 - 1)
    else d

abbrev pub max64 : ℤ → ℤ → ℤ
max64 a b = if int_ltb a b then b else a

infixl 40 ◌+ℤ◌
abbrev pub ◌+ℤ◌ : ℤ → ℤ → ℤ
pos m +ℤ pos n = pos (m + n)
pos m +ℤ negsuc n = sub_nat m (n + 1)
negsuc m +ℤ pos n = sub_nat n (m + 1)
negsuc m +ℤ negsuc n = negsuc (m + n + 1)

abbrev pub checked_add64 : ℤ → ℤ → Option ℤ
checked_add64 a b =
    let s = a +ℤ b in if int_ltb i64_max s then none else if int_ltb s i64_min then none else some s

pub int_beq_iff : (a b : ℤ) → (int_beq a b ≡ true) ↔ (a ≡ b)
int_beq_iff a b = ground arith

instance abbrev pub int_eq : Eq ℤ
int_eq = record { beq = int_beq; beq_iff = int_beq_iff }

abbrev pub checked_sub64 : ℤ → ℤ → Option ℤ
checked_sub64 a b =
    let d = a -ℤ b in if int_ltb i64_max d then none else if int_ltb d i64_min then none else some d

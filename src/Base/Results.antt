-- ===== src/Base/Results.antt =====
-- Fallible code: `anyhow::Result` with the errors of each component as a data type.
use mathlib.Core.Path.{◌≡◌, refl, ap, subst}
use mathlib.Core.Bool.{Bool, true, false}
use mathlib.Core.Option.{Option, none, some}

pub data Result {ℓ κ} (E : Type ℓ) (A : Type κ) : Type (ℓ ⊔ κ) where
  ok : A → Result E A
  err : E → Result E A

infixl 5 ◌>>=◌ ◌>>◌
abbrev pub ◌>>=◌ {ℓ κ μ} :
    {E : Type ℓ} {A : Type κ} {B : Type μ} → Result E A → (A → Result E B) → Result E B
ok a >>= f = f a
err e >>= f = err e

abbrev pub ◌>>◌ {ℓ κ} : {E : Type ℓ} {B : Type κ} → Result E (Unit {0}) → Result E B → Result E B
m >> k = m >>= λ _. k

pub ok-injective {ℓ κ} :
    {E : Type ℓ} {A : Type κ} {x y : A} → ◌≡◌ {A = Result E A} (ok x) (ok y) → x ≡ y
ok-injective h = cc

module _ {ℓ} {E : Type ℓ} where
  -- `if test { return Err(e); }`
  abbrev pub reject : Bool → E → Result E (Unit {0})
  reject true e = err e
  reject false e = ok tt

  -- `value.ok_or_else(|| e)?`
  abbrev pub ok_or {κ} : {A : Type κ} → Option A → E → Result E A
  ok_or none e = err e
  ok_or (some a) e = ok a

  -- `left || right` where either side may return early.
  abbrev pub either_test : Result E Bool → Result E Bool → Result E Bool
  either_test (ok true) r = ok true
  either_test (ok false) r = r
  either_test (err e) r = err e

  pub >>=-eq-ok {κ μ} :
      {A : Type κ} {B : Type μ} (first : Result E A) (then : A → Result E B) {r : B}
      → (first >>= then) ≡ ok r
      → (x : A) × (first ≡ ok x) × (then x ≡ ok r)
  >>=-eq-ok (ok x) then eq = (x, refl, eq)
  >>=-eq-ok (err e) then eq = cc

  pub ok_or-eq-ok {κ} : {A : Type κ} (o : Option A) (e : E) {a : A} → ok_or o e ≡ ok a → o ≡ some a
  ok_or-eq-ok none e h = cc
  ok_or-eq-ok (some b) e h = ap some (ok-injective h)

  -- A chain of rejections passes when each of its tests is false.
  pub reject-eq-ok {κ} :
      {B : Type κ} (t : Bool) (e : E) (k : Result E B) {b : B}
      → (reject t e >> k) ≡ ok b
      → (t ≡ false) × (k ≡ ok b)
  reject-eq-ok true e k h = cc
  reject-eq-ok false e k h = (refl, h)

-- What holds of the value, where a value is returned.
pub data Ensures {ℓ κ μ} {E : Type ℓ} {A : Type κ} (P : A → Type μ)
    : Result E A → Type (ℓ ⊔ κ ⊔ μ) where
  returns : {a : A} → P a → Ensures P (ok a)
  fails : {e : E} → Ensures P (err e)

abbrev value_or {ℓ κ} : {E : Type ℓ} {A : Type κ} → A → Result E A → A
value_or d (ok a) = a
value_or d (err e) = d

module _ {ℓ κ μ} {E : Type ℓ} {A : Type κ} {P : A → Type μ} where
  pub Ensures-bind {ν} :
      {B : Type ν} (m : Result E B) (f : B → Result E A)
      → ((b : B) → m ≡ ok b → Ensures P (f b))
      → Ensures P (m >>= f)
  Ensures-bind (ok b) f h = h b refl
  Ensures-bind (err e) f h = fails

  pub Ensures-reject :
      (t : Bool) (e : E) (k : Result E A) → (t ≡ false → Ensures P k) → Ensures P (reject t e >> k)
  Ensures-reject true e k h = fails
  Ensures-reject false e k h = h refl

  pub Ensures-ok : (m : Result E A) (a : A) → Ensures P m → m ≡ ok a → P a
  Ensures-ok m a (returns {a = b} p) e = subst P (ap (value_or b) e) p
  Ensures-ok m a fails e = cc

pub Ensures-imp {ℓ κ μ ν} :
    {E : Type ℓ} {A : Type κ} {P : A → Type μ} {Q : A → Type ν} {m : Result E A}
    → ((a : A) → P a → Q a)
    → Ensures P m
    → Ensures Q m
Ensures-imp f (returns {a = a} p) = returns (f a p)
Ensures-imp f fails = fails

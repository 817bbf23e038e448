-- ===== src/Batch/Graph/Outcomes.antt =====
-- What a check of src/batch.rs comes to: a value, or one of the errors it words itself.
use woodland_sh.Base.{
  Bool, true, false, Option, none, some, Result, ok, err, ◌>>=◌, ◌>>◌, reject, ok_or, ◌≡◌, refl,
  subst, ap, arith,
}
use woodland_sh.Batch.Graph.{GraphError, index_panic, lost_transaction, out_of_fuel}

-- The errors that the code does not word: an index out of range, a lost node, and the end of the fuel.
abbrev pub is_internal : GraphError → Bool
is_internal index_panic = true
is_internal lost_transaction = true
is_internal out_of_fuel = true
is_internal _ = false

pub data Outcome {ℓ κ} {A : Type ℓ} (P : A → Type κ) : Result GraphError A → Type (ℓ ⊔ κ) where
  returns : {a : A} → P a → Outcome P (ok a)
  rejects : {e : GraphError} → is_internal e ≡ false → Outcome P (err e)

abbrev value_or {ℓ} : {A : Type ℓ} → A → Result GraphError A → A
value_or d (ok a) = a
value_or d (err e) = d

abbrev error_or : {A : Type 0} → GraphError → Result GraphError A → GraphError
error_or d (ok a) = d
error_or d (err e) = e

module _ {ℓ κ} {A : Type ℓ} {P : A → Type κ} where
  pub Outcome-bind {μ ν} :
      {B : Type μ} {Q : B → Type ν} (m : Result GraphError B) (f : B → Result GraphError A)
      → Outcome Q m
      → ((b : B) → m ≡ ok b → Q b → Outcome P (f b))
      → Outcome P (m >>= f)
  Outcome-bind m f (returns {a = b} q) h = h b refl q
  Outcome-bind m f (rejects {e = e} q) h = rejects q

  pub Outcome-reject :
      (t : Bool) (e : GraphError) (k : Result GraphError A)
      → is_internal e ≡ false
      → (t ≡ false → Outcome P k)
      → Outcome P (reject t e >> k)
  Outcome-reject true e k q h = rejects q
  Outcome-reject false e k q h = h refl

  -- A value that may be missing.
  pub Outcome-ok_or {μ} :
      {B : Type μ} (o : Option B) (e : GraphError) (f : B → Result GraphError A)
      → is_internal e ≡ false
      → ((b : B) → o ≡ some b → Outcome P (f b))
      → Outcome P (ok_or o e >>= f)
  Outcome-ok_or none e f q h = rejects q
  Outcome-ok_or (some b) e f q h = h b refl

  -- A value that is there.
  pub Outcome-some {μ} :
      {B : Type μ} (o : Option B) (b : B) (e : GraphError) (f : B → Result GraphError A)
      → o ≡ some b
      → Outcome P (f b)
      → Outcome P (ok_or o e >>= f)
  Outcome-some none b e f q h = cc
  Outcome-some (some c) b e f q h = subst (λ x. Outcome P (f x)) (ground arith) h

  pub Outcome-ok : (m : Result GraphError A) (a : A) → Outcome P m → m ≡ ok a → P a
  Outcome-ok m a (returns {a = b} p) e = subst P (ap (value_or b) e) p
  Outcome-ok m a (rejects q) e = cc

-- The last check.
pub Outcome-last {κ} :
    {P : Unit {0} → Type κ} (t : Bool) (e : GraphError)
    → is_internal e ≡ false
    → (t ≡ false → P tt)
    → Outcome P (reject t e)
Outcome-last true e q h = rejects q
Outcome-last false e q h = returns (h refl)

pub Outcome-imp {ℓ κ μ} :
    {A : Type ℓ} {P : A → Type κ} {Q : A → Type μ} {m : Result GraphError A}
    → ((a : A) → P a → Q a)
    → Outcome P m
    → Outcome Q m
Outcome-imp f (returns {a = a} p) = returns (f a p)
Outcome-imp f (rejects q) = rejects q

pub Outcome-err {κ} :
    {A : Type 0} {P : A → Type κ} (m : Result GraphError A) (e : GraphError)
    → Outcome P m
    → m ≡ err e
    → is_internal e ≡ false
Outcome-err m e (returns p) h = cc
Outcome-err m e (rejects {e = e'} q) h = subst (λ x. is_internal x ≡ false) (ap (error_or e') h) q

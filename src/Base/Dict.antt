-- ===== src/Base/Dict.antt =====
-- `BTreeMap` and `BTreeSet`: entries in the order of their keys, each key once.
use mathlib.Core.Path.{◌≡◌}
use mathlib.Core.Bool.{Bool, not, ◌&&◌, ◌||◌}
use mathlib.Core.List.{List, [], ◌∷◌}
use mathlib.Core.Option.{Option, none, some}
use native.Mathlib.Omega.{arith}
use woodland_sh.Base.Tests.{if◌then◌else◌}
use woodland_sh.Base.Equality.{Eq, ◌==◌, contains}

abbrev pub Dict {ℓ κ} : Type ℓ → Type κ → Type (ℓ ⊔ κ)
Dict K V = List (K × V)

module _ {ℓ κ} {K : Type ℓ} {V : Type κ} ⦃test : Eq K⦄ where
  unfoldable pub get : Dict K V → K → Option V
  get [] k = none
  get (entry ∷ rest) k = if k == entry.0 then some entry.1 else get rest k

  -- `insert` over the order of the keys.
  unfoldable pub put : (K → K → Bool) → Dict K V → K → V → Dict K V
  put before [] k v = (k, v) ∷ []
  put before (entry ∷ rest) k v =
      if k == entry.0
      then (k, v) ∷ rest
      else if before k entry.0
      then (k, v) ∷ entry ∷ rest
      else entry ∷ put before rest k v

  unfoldable pub delete : Dict K V → K → Dict K V
  delete [] k = []
  delete (entry ∷ rest) k = if k == entry.0 then delete rest k else entry ∷ delete rest k

  -- Each key once, as in every `BTreeMap`.
  abbrev pub IsUnique : Dict K V → Type (ℓ ⊔ κ)
  IsUnique [] = Unit
  IsUnique (entry ∷ rest) = (get rest entry.0 ≡ none) × IsUnique rest

  -- After an insertion the key has the new value, and the others have theirs.
  pub get-put :
      (before : K → K → Bool) (d : Dict K V) (k : K) (v : V) (other : K)
      → get (put before d k v) other ≡ (if other == k then some v else get d other)
  unfolding get put
  get-put before [] k v other = ground arith
  get-put before (entry ∷ rest) k v other = ground (
    arith,
    get-put before rest k v other,
    test.beq_iff k entry.0,
    test.beq_iff other entry.0,
    test.beq_iff other k,
  )

  pub get-delete :
      (d : Dict K V) (k other : K)
      → get (delete d k) other ≡ (if other == k then none else get d other)
  unfolding get delete
  get-delete [] k other = ground arith
  get-delete (entry ∷ rest) k other = ground (
    arith,
    get-delete rest k other,
    test.beq_iff k entry.0,
    test.beq_iff other entry.0,
    test.beq_iff other k,
  )

module _ {ℓ} {K : Type ℓ} ⦃test : Eq K⦄ where
  unfoldable pub add : (K → K → Bool) → List K → K → List K
  add before [] k = k ∷ []
  add before (x ∷ rest) k =
      if k == x then x ∷ rest else if before k x then k ∷ x ∷ rest else x ∷ add before rest k

  unfoldable pub discard : List K → K → List K
  discard [] k = []
  discard (x ∷ rest) k = if k == x then discard rest k else x ∷ discard rest k

  pub contains-add :
      (before : K → K → Bool) (s : List K) (k other : K)
      → contains (add before s k) other ≡ (other == k || contains s other)
  unfolding add
  contains-add before [] k other = ground arith
  contains-add before (x ∷ rest) k other = ground (
    arith,
    contains-add before rest k other,
    test.beq_iff k x,
    test.beq_iff other x,
    test.beq_iff other k,
  )

  pub contains-discard :
      (s : List K) (k other : K)
      → contains (discard s k) other ≡ (not (other == k) && contains s other)
  unfolding discard
  contains-discard [] k other = ground arith
  contains-discard (x ∷ rest) k other = ground (
    arith,
    contains-discard rest k other,
    test.beq_iff k x,
    test.beq_iff other x,
    test.beq_iff other k,
  )

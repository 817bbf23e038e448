-- ===== src/Base/Distinct.antt =====
-- Lists without repetition, and how many of their elements fit into another list.
use mathlib.Core.Path.{◌≡◌}
use mathlib.Core.Bool.{true, false}
use mathlib.Core.List.{List, [], ◌∷◌}
use Prim.Native.Nat.{◌+◌, ◌≤◌}
use native.Mathlib.Omega.{arith}
use woodland_sh.Base.Tests.{if◌then◌else◌, Bool-cases}
use mathlib.Core.Logic.{inl, inr}
use woodland_sh.Base.Lists.{length}
use woodland_sh.Base.Equality.{Eq, ◌==◌, contains, ==-refl}

module _ {ℓ} {A : Type ℓ} ⦃test : Eq A⦄ where
  -- No element stands in the list twice.
  abbrev pub IsDistinct : List A → Type 0
  IsDistinct [] = Unit
  IsDistinct (x ∷ rest) = (contains rest x ≡ false) × IsDistinct rest

  -- Each element of the first stands in the second.
  abbrev pub IsWithin : List A → List A → Type ℓ
  IsWithin xs ys = (a : A) → contains xs a ≡ true → contains ys a ≡ true

  -- The list without the first place of an element.
  drop_first : A → List A → List A
  drop_first a [] = []
  drop_first a (y ∷ ys) = if a == y then ys else y ∷ drop_first a ys

  length-drop_first :
      (a : A) (ys : List A) → contains ys a ≡ true → length ys ≡ length (drop_first a ys) + 1
  unfolding drop_first
  length-drop_first a [] h = absurd (ground arith)
  length-drop_first a (y ∷ ys) h = ground (arith, length-drop_first a ys)

  contains-drop_first :
      (a b : A) (ys : List A)
      → (b == a) ≡ false
      → contains ys b ≡ true
      → contains (drop_first a ys) b ≡ true
  unfolding drop_first
  contains-drop_first a b [] ne h = ground arith
  contains-drop_first a b (y ∷ ys) ne h =
      ground
        (arith, contains-drop_first a b ys, test.beq_iff a y, test.beq_iff b y, test.beq_iff b a)

  ne_of_distinct :
      (xs : List A) (a b : A) → contains xs a ≡ false → contains xs b ≡ true → (b == a) ≡ false
  ne_of_distinct xs a b out in_ = ground (arith, test.beq_iff b a)

  pub length-le-length : (xs ys : List A) → IsDistinct xs → IsWithin xs ys → length xs ≤ length ys
  length-le-length [] ys d w = omega arith
  length-le-length (x ∷ rest) ys d w =
      let here = length-drop_first x ys (w x (ground (arith, ==-refl x))) in
      let others =
        length-le-length rest (drop_first x ys) d.1 (λ a h.
          contains-drop_first x a ys (ne_of_distinct rest x a d.0 h) (w a (ground arith))) in
      omega arith

  -- Distinct elements within a list that is no longer are all of its elements.
  pub IsWithin-all :
      (xs ys : List A) → IsDistinct xs → IsWithin xs ys → length ys ≤ length xs → IsWithin ys xs
  IsWithin-all xs ys d w le a h = elim (Bool-cases (contains xs a)) [
    | inl here ↦ here
    | inr out ↦
        let more =
          length-le-length (a ∷ xs) ys (out, d) (λ b k. ground (arith, w b, test.beq_iff b a)) in
        absurd (omega arith)
  ]

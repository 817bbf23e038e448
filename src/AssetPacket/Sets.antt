-- ===== src/AssetPacket/Sets.antt =====
-- `equal_asset_sets` on lists without repeated IDs, against the amounts that they give.
use woodland_sh.Base.{
  ℕ, suc, true, Option, none, some, List, [], ◌∷◌, if◌then◌else◌, length, ◌==◌, ==-refl, nat_eq,
  nat_beq_iff, ◌≡◌, ◌≢◌, ◌↔◌, refl, sym, ◌∙◌, inl, inr, arith, Bool-cases, All, &&-eq-true,
}
use woodland_sh.AssetPacket.Cursor.{AssetId, asset_id_eq, asset_id_beq, asset_id_beq_iff}
use woodland_sh.AssetPacket.{Asset, any_matches, all_match, equal_asset_sets}
use woodland_sh.AssetPacket.Strict.{Distinct}

-- The amount of the first asset of an ID.
unfoldable pub amount_of : List Asset → AssetId → Option ℕ
amount_of [] id = none
amount_of (a ∷ rest) id = if asset_id_beq a.id id then some a.amount else amount_of rest id

-- The list without the first asset of an ID.
without : AssetId → List Asset → List Asset
without id [] = []
without id (a ∷ rest) = if asset_id_beq a.id id then rest else a ∷ without id rest

module _ (id : AssetId) where
  amount_of-others : (xs : List Asset) → All (λ (b : Asset). b.id ≢ id) xs → amount_of xs id ≡ none
  unfolding amount_of
  amount_of-others [] h = refl
  amount_of-others (a ∷ rest) h =
      ground (arith, asset_id_beq_iff a.id id, amount_of-others rest h.1)

  All-without : (P : Asset → Type 0) (xs : List Asset) → All P xs → All P (without id xs)
  unfolding without
  All-without P [] h = tt
  All-without P (a ∷ rest) h = elim (Bool-cases (asset_id_beq a.id id)) [
    | inl same ↦ rw same h.1
    | inr other ↦ rw other (h.0, All-without P rest h.1)
  ]

  Distinct-without : (xs : List Asset) → Distinct xs → Distinct (without id xs)
  unfolding without
  Distinct-without [] d = tt
  Distinct-without (a ∷ rest) d = elim (Bool-cases (asset_id_beq a.id id)) [
    | inl same ↦ rw same d.1
    | inr other ↦
        rw other (All-without (λ (b : Asset). b.id ≢ a.id) rest d.0, Distinct-without rest d.1)
  ]

  length-without :
      (xs : List Asset) (amount : ℕ)
      → amount_of xs id ≡ some amount
      → length xs ≡ suc (length (without id xs))
  unfolding amount_of without
  length-without [] amount e = cc
  length-without (a ∷ rest) amount e = ground (arith, length-without rest amount)

  -- Without its first asset of the ID, a list of different IDs gives no amount for it and the same
  -- for all others.
  amount_of-without :
      (xs : List Asset) (other : AssetId)
      → Distinct xs
      → amount_of (without id xs) other
        ≡ (if asset_id_beq id other then none else amount_of xs other)
  unfolding amount_of without
  amount_of-without [] other d = ground arith
  amount_of-without (a ∷ rest) other d = elim (Bool-cases (asset_id_beq a.id id)) [
    | inl same ↦
        let e : a.id ≡ id = (asset_id_beq_iff a.id id).0 same in
        let gone : amount_of rest id ≡ none = amount_of-others rest (rw e at d.0) in
        let gone_there : id ≡ other → amount_of rest other ≡ none = λ p. rw p at gone in
        ground (arith, e, asset_id_beq_iff id other, gone_there)
    | inr differs ↦ ground (
      arith,
      asset_id_beq_iff a.id id,
      asset_id_beq_iff a.id other,
      asset_id_beq_iff id other,
      amount_of-without rest other d.1,
    )
  ]

-- Some asset of the list is the given one, exactly when the list gives its amount for its ID.
any_matches-amount_of :
    (a : Asset) (xs : List Asset)
    → Distinct xs
    → (any_matches a xs ≡ true) ↔ (amount_of xs a.id ≡ some a.amount)
unfolding any_matches amount_of
any_matches-amount_of a [] d = ((λ h. cc), (λ h. cc))
any_matches-amount_of a (b ∷ rest) d = elim (Bool-cases (asset_id_beq b.id a.id)) [
  | inl same ↦
      let e : b.id ≡ a.id = (asset_id_beq_iff b.id a.id).0 same in
      let gone : amount_of rest a.id ≡ none = amount_of-others a.id rest (rw e at d.0) in
      ground (arith, nat_beq_iff b.amount a.amount, any_matches-amount_of a rest d.1, gone)
  | inr differs ↦ ground (arith, any_matches-amount_of a rest d.1)
]

-- For assets of other IDs the first asset of an ID does not matter.
all_match-without :
    (id : AssetId) (left right : List Asset)
    → Distinct right
    → All (λ (b : Asset). b.id ≢ id) left
    → all_match left (without id right) ≡ all_match left right
unfolding all_match
all_match-without id [] right d h = refl
all_match-without id (a ∷ rest) right d h = ground (
  arith,
  all_match-without id rest right d h.1,
  any_matches-amount_of a right d,
  any_matches-amount_of a (without id right) (Distinct-without id right d),
  amount_of-without id right a.id d,
  asset_id_beq_iff id a.id,
)

amount_of-head : (a : Asset) (rest : List Asset) → amount_of (a ∷ rest) a.id ≡ some a.amount
unfolding amount_of
amount_of-head a rest = ground (arith, ==-refl a.id)

abbrev SameAmounts : List Asset → List Asset → Type 0
SameAmounts left right = (id : AssetId) → amount_of left id ≡ amount_of right id

-- Taking one ID out of both lists keeps their amounts alike.
SameAmounts-tail :
    (a : Asset) (rest right : List Asset)
    → Distinct (a ∷ rest)
    → Distinct right
    → SameAmounts (a ∷ rest) right
    → SameAmounts rest (without a.id right)
unfolding amount_of
SameAmounts-tail a rest right d d' same id =
    let gone : a.id ≡ id → amount_of rest id ≡ none =
      λ p. rw p at (amount_of-others a.id rest d.0) in
    ground (arith, same id, amount_of-without a.id right id d', asset_id_beq_iff a.id id, gone)

SameAmounts-cons :
    (a : Asset) (rest right : List Asset)
    → Distinct right
    → amount_of right a.id ≡ some a.amount
    → SameAmounts rest (without a.id right)
    → SameAmounts (a ∷ rest) right
unfolding amount_of
SameAmounts-cons a rest right d' here same id =
    let there : a.id ≡ id → amount_of right id ≡ some a.amount = λ p. rw p at here in
    ground (arith, same id, amount_of-without a.id right id d', asset_id_beq_iff a.id id, there)

equal→same :
    (left right : List Asset)
    → Distinct left
    → Distinct right
    → length left ≡ length right
    → all_match left right ≡ true
    → SameAmounts left right
unfolding all_match
equal→same [] [] d d' l m = λ id. refl
equal→same [] (b ∷ right) d d' l m = absurd (omega arith)
equal→same (a ∷ rest) right d d' l m =
    let (first, others) = (&&-eq-true (any_matches a right) (all_match rest right)).0 m in
    let here = (any_matches-amount_of a right d').0 first in
    SameAmounts-cons a rest right d' here (
      equal→same rest (without a.id right) d.1 (Distinct-without a.id right d')
        (omega (arith, length-without a.id right a.amount here))
        (all_match-without a.id rest right d' d.0 ∙ others))

same→equal :
    (left right : List Asset)
    → Distinct left
    → Distinct right
    → SameAmounts left right
    → (length left ≡ length right) × (all_match left right ≡ true)
unfolding all_match
same→equal [] [] d d' same = (refl, refl)
same→equal [] (b ∷ right) d d' same =
    let known = same b.id in unfold amount_of in ground (arith, ==-refl b.id, known)
same→equal (a ∷ rest) right d d' same =
    let here : amount_of right a.id ≡ some a.amount = sym (same a.id) ∙ amount_of-head a rest in
    let (l, m) =
      same→equal rest (without a.id right) d.1 (Distinct-without a.id right d')
        (SameAmounts-tail a rest right d d' same) in
    (
      omega (arith, l, length-without a.id right a.amount here),
      (&&-eq-true (any_matches a right) (all_match rest right)).1 (
        (any_matches-amount_of a right d').1 here,
        sym (all_match-without a.id rest right d' d.0) ∙ m,
      ),
    )

-- Of lists without repeated IDs, two are equal sets exactly when they give the same amount, or none,
-- for every ID.
pub equal_asset_sets-amount_of :
    (left right : List Asset)
    → Distinct left
    → Distinct right
    → (equal_asset_sets left right ≡ true)
      ↔ ((id : AssetId) → amount_of left id ≡ amount_of right id)
unfolding equal_asset_sets
equal_asset_sets-amount_of left right d d' = (
  (λ h.
      let (l, m) = (&&-eq-true (length left == length right) (all_match left right)).0 h in
      equal→same left right d d' ((nat_beq_iff _ _).0 l) m),
  (λ same.
      let (l, m) = same→equal left right d d' same in
      (&&-eq-true (length left == length right) (all_match left right)).1
        ((nat_beq_iff _ _).1 l, m)),
)

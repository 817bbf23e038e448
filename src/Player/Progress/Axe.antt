-- ===== src/Player/Progress/Axe.antt =====
-- Axe packets and recipes.
use woodland_sh.Base.{
  ℕ, zero, suc, ◌+◌, ◌≤◌, ◌<◌, ◌^◌, ◌≡◌, refl, ◌↔◌, none, some, List, [], ◌∷◌, arith, ◌⊎◌, inl, inr,
}
use woodland_sh.Player.Progress.{
  AxeTier, no_axe, wooden, stone, iron, AxeRecipe, woodcutting_xp, level_from_xp, xp_for_level,
  tier_number, encode_axe, decode_axe, next_recipe, required_xp_balance, wooden_recipe,
  stone_recipe, iron_recipe, xp_balance_for_woodcutting_xp,
}
use woodland_sh.Player.Progress.Level.{level_from_xp_bounds}
use woodland_sh.Player.Progress.Rate.{balance_at_level}

-- A packet decodes to an axe exactly when it is the axe's encoding.
pub decode_axe-encode_axe :
    (bytes : List ℕ) (axe : AxeTier) → (decode_axe bytes ≡ some axe) ↔ (bytes ≡ encode_axe axe)
unfolding decode_axe encode_axe
decode_axe-encode_axe (zero ∷ []) axe = ground arith
decode_axe-encode_axe (suc zero ∷ []) axe = ground arith
decode_axe-encode_axe (suc (suc zero) ∷ []) axe = ground arith
decode_axe-encode_axe (suc (suc (suc zero)) ∷ []) axe = ground arith
decode_axe-encode_axe _ axe = ground arith

-- The balance that a recipe requires is that of its level, and at least one unit.
abbrev pub Requires : AxeRecipe → ℕ → Type 0
Requires r required =
    (required_xp_balance r ≡ some required)
    × ((balance : ℕ)
        → (required ≤ balance)
          ↔ ((r.required_level ≤ level_from_xp (woodcutting_xp balance)) × (1 ≤ balance)))

first_level :
    (balance : ℕ) → (1 ≤ balance) ↔ ((1 ≤ level_from_xp (woodcutting_xp balance)) × (1 ≤ balance))
first_level balance = ((λ h. ((level_from_xp_bounds _).0, h)), (λ h. h.1))

later_level :
    (level threshold less : ℕ)
    → xp_for_level level ≡ some threshold
    → threshold < 2 ^ 64
    → xp_balance_for_woodcutting_xp threshold ≡ suc less
    → (balance : ℕ)
    → (suc less ≤ balance) ↔ ((level ≤ level_from_xp (woodcutting_xp balance)) × (1 ≤ balance))
later_level level threshold less e fits b balance =
    let (f, g) = balance_at_level balance level threshold e fits in
    ((λ h. (f (rw b h), omega arith)), (λ h. rw b at (g h.0)))

-- Each tier but the last has a recipe for the tier above it, and the recipe's balance is held
-- exactly by the players who have reached its level and have earned a unit of XP.
pub next_recipe_requirement :
    (tier : AxeTier)
    → ((tier ≡ iron) × (next_recipe tier ≡ none))
      ⊎ ((r : AxeRecipe) × (next_recipe tier ≡ some r)
          × (tier_number r.axe ≡ tier_number tier + 1)
          × ((required : ℕ) × Requires r required))
unfolding next_recipe required_xp_balance
next_recipe_requirement no_axe = inr (wooden_recipe, refl, refl, (1, (refl, first_level)))
next_recipe_requirement wooden =
    inr (stone_recipe, refl, refl, (16, (refl, later_level 5 388 15 refl (omega arith) refl)))
next_recipe_requirement stone =
    inr (iron_recipe, refl, refl, (97, (refl, later_level 15 2411 96 refl (omega arith) refl)))
next_recipe_requirement iron = inl (refl, refl)

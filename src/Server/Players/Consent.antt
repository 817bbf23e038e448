-- ===== src/Server/Players/Consent.antt =====
-- A player's consent in the registry of src/server.rs, through registrations and verifications.
use woodland_sh.Base.{
  false, Option, none, some, string_eq, nat_eq, String, ok, ◌≡◌, ◌≢◌, refl, arith, eq_iff,
}
use woodland_sh.Base.Dict.{get, put, get-put}
use woodland_sh.Base.Texts.{text_before}
use woodland_sh.Base.Int.{ℤ}
use woodland_sh.Server.Players.{
  LeaderboardPlayer, RegisteredPlayer, Registry, apply_verified_state, merged_entry, new_entry,
  merge_verified_registration,
}

-- The consent and the identity of an entry are another's.
pub record IsSameConsent (entry other : RegisteredPlayer) : Type 0 where
  pub owner : entry.owner ≡ other.owner
  pub player_asset : entry.player_asset ≡ other.player_asset
  pub registered_at : entry.registered_at ≡ other.registered_at
  pub delegated_renewal : entry.delegated_renewal ≡ other.delegated_renewal
  pub delegation_updated_at_ms : entry.delegation_updated_at_ms ≡ other.delegation_updated_at_ms

apply_verified_state-IsSameConsent :
    (entry snapshot : RegisteredPlayer) (verified : Option LeaderboardPlayer) (now : ℤ)
    → IsSameConsent (apply_verified_state entry snapshot verified now).0 entry
unfolding apply_verified_state
apply_verified_state-IsSameConsent entry snapshot verified now = ground arith

merged_entry-IsSameConsent :
    (entry : RegisteredPlayer) (snapshot : Option RegisteredPlayer) (signature : String)
    (verified : LeaderboardPlayer) (now : ℤ)
    → IsSameConsent (merged_entry entry snapshot signature verified now) entry
      × ((merged_entry entry snapshot signature verified now).registration_signature ≡ signature)
unfolding merged_entry
merged_entry-IsSameConsent entry none signature verified now = ground arith
merged_entry-IsSameConsent entry (some snapshot) signature verified now =
    ground (arith, apply_verified_state-IsSameConsent entry snapshot (some verified) now)

-- What a registration stores under its player.
pub data Stores (old : Option RegisteredPlayer) (signature : String) (new : RegisteredPlayer)
    : Type 0 where
  merged :
      (entry : RegisteredPlayer)
      → old ≡ some entry
      → IsSameConsent new entry
      → new.registration_signature ≡ signature
      → Stores old signature new
  created :
      old ≡ none
      → new.delegated_renewal ≡ false
      → new.registration_signature ≡ signature
      → Stores old signature new

-- A registration that succeeds stores its signature under its player and changes no other entry. An
-- entry that there was is of the same owner and keeps its consent and its time of registration, also
-- where these changed since the registration read them; a new entry has consented to no renewal.
pub merge_verified_registration_lem :
    (registry : Registry) (snapshot : Option RegisteredPlayer) (signature : String)
    (verified : LeaderboardPlayer) (now : ℤ) (after : Registry) (player : LeaderboardPlayer)
    → merge_verified_registration registry snapshot signature verified now ≡ ok (after, player)
    → ((new : RegisteredPlayer) × (get after verified.player_asset ≡ some new)
        × (new.owner ≡ verified.owner)
        × Stores (get registry verified.player_asset) signature new)
      × ((other : String) → other ≢ verified.player_asset → get after other ≡ get registry other)
unfolding merge_verified_registration new_entry
merge_verified_registration_lem registry snapshot signature verified now after player e =
    by_entry (get registry verified.player_asset) refl
  where
    key : String
    key = verified.player_asset

    stored :
        (new : RegisteredPlayer)
        → after ≡ put text_before registry key new
        → new.owner ≡ verified.owner
        → Stores (get registry key) signature new
        → ((kept : RegisteredPlayer) × (get after key ≡ some kept)
            × (kept.owner ≡ verified.owner)
            × Stores (get registry key) signature kept)
          × ((other : String) → other ≢ key → get after other ≡ get registry other)
    stored new same owner stores = (
      (
        new,
        ground (arith, get-put text_before registry key new key, eq_iff key key),
        owner,
        stores,
      ),
      (λ other different.
          ground (arith, get-put text_before registry key new other, eq_iff other key)),
    )

    by_entry :
        (found : Option RegisteredPlayer)
        → get registry key ≡ found
        → ((kept : RegisteredPlayer) × (get after key ≡ some kept)
            × (kept.owner ≡ verified.owner)
            × Stores (get registry key) signature kept)
          × ((other : String) → other ≢ key → get after other ≡ get registry other)
    by_entry none here =
        stored (new_entry signature verified) (ground arith) refl (created here refl refl)
    by_entry (some entry) here =
        let dated = record verified { registered_at = entry.registered_at } in
        let kept = merged_entry-IsSameConsent entry snapshot signature dated now in
        stored (merged_entry entry snapshot signature dated now) (ground arith)
          (ground (arith, kept, eq_iff entry.owner verified.owner))
          (merged entry here kept.0 kept.1)

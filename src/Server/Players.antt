-- ===== src/Server/Players.antt =====
-- The registry of src/server.rs: players, their consent to renewals, and their verified states.
pub mod Consent
use woodland_sh.Base.{
  ℕ, ◌+◌, Bool, true, false, not, ◌&&◌, ◌||◌, Option, none, some, List, [], ◌∷◌, ltb, leb,
  if◌then◌else◌, length, ◌==◌, Eq, nat_eq, bool_eq, string_eq, String, Result, ok, err, option_eq,
}
use woodland_sh.Base.Dict.{Dict, get, put}
use woodland_sh.Base.Texts.{text_before}
use woodland_sh.Base.Int.{
  ℤ, pos, int_ltb, int_leb, int_beq, saturating_sub64, wrapping_sub64, max64,
}
use woodland_sh.Server.{ApiError, owner_changed, limit_reached}

abbrev pub max_registered_players : ℕ
max_registered_players = 10000

abbrev pub min_renewal_freshness_secs : ℤ
min_renewal_freshness_secs = pos 720

pub record LeaderboardPlayer : Type 0 where
  pub owner : String
  pub player_asset : String
  pub xp : ℕ
  pub level : ℕ
  pub logs : ℕ
  pub state_outpoint : String
  pub expires_at : Option ℤ
  pub rollover_margin_seconds : ℤ
  pub active : Bool
  pub registered_at : ℤ
  pub updated_at : ℤ

pub record RegisteredPlayer : Type 0 where
  pub owner : String
  pub player_asset : String
  pub registration_signature : String
  pub registered_at : ℤ
  pub delegated_renewal : Bool
  pub delegation_updated_at_ms : ℕ
  pub state : Option LeaderboardPlayer

-- `RegistryFile`, without the version of its schema, which no handler changes.
abbrev pub Registry : Type 0
Registry = Dict String RegisteredPlayer

abbrev pub optional_int_beq : Option ℤ → Option ℤ → Bool
optional_int_beq none none = true
optional_int_beq (some a) (some b) = int_beq a b
optional_int_beq _ _ = false

-- The derived `PartialEq`.
abbrev pub player_beq : LeaderboardPlayer → LeaderboardPlayer → Bool
player_beq a b =
    (a.owner == b.owner)
    && ((a.player_asset == b.player_asset)
        && ((a.xp == b.xp)
            && ((a.level == b.level)
                && ((a.logs == b.logs)
                    && ((a.state_outpoint == b.state_outpoint)
                        && (optional_int_beq a.expires_at b.expires_at
                            && (int_beq a.rollover_margin_seconds b.rollover_margin_seconds
                                && ((a.active == b.active)
                                    && (int_beq a.registered_at b.registered_at
                                        && int_beq a.updated_at b.updated_at)))))))))

abbrev pub state_beq : Option LeaderboardPlayer → Option LeaderboardPlayer → Bool
state_beq none none = true
state_beq (some a) (some b) = player_beq a b
state_beq _ _ = false

pub same_registration : RegisteredPlayer → RegisteredPlayer → Bool
same_registration entry snapshot =
    (entry.owner == snapshot.owner)
    && ((entry.player_asset == snapshot.player_asset)
        && ((entry.registration_signature == snapshot.registration_signature)
            && int_beq entry.registered_at snapshot.registered_at))

-- The state after a verification: the verified one, or the old one marked inactive.
pub verified_state :
    Option LeaderboardPlayer → Option LeaderboardPlayer → ℤ → Option LeaderboardPlayer
verified_state old (some player) now = some player
verified_state none none now = none
verified_state (some player) none now = some (record player { active = false; updated_at = now })

-- The entry after it, and whether the verification was applied.
unfoldable pub apply_verified_state :
    RegisteredPlayer → RegisteredPlayer → Option LeaderboardPlayer → ℤ → RegisteredPlayer × Bool
unfolding same_registration verified_state
apply_verified_state entry snapshot verified now =
    if not (same_registration entry snapshot) || not (state_beq entry.state snapshot.state)
    then (entry, false)
    else (record entry { state = verified_state entry.state verified now }, true)

pub expires_within_margin : LeaderboardPlayer → ℤ → Bool
expires_within_margin player now = elim player.expires_at [
  | none ↦ false
  | some expires_at ↦
      let remaining = wrapping_sub64 expires_at now in
      int_ltb (pos 0) remaining && int_ltb remaining player.rollover_margin_seconds
]

unfoldable pub renewal_due : RegisteredPlayer → ℤ → Bool → Bool
unfolding expires_within_margin
renewal_due entry now force = entry.delegated_renewal && elim entry.state [
  | none ↦ false
  | some player ↦ player.active && (force || expires_within_margin player now)
]

unfoldable pub queued_renewal_authorized : RegisteredPlayer → RegisteredPlayer → ℤ → Bool → Bool
unfolding same_registration renewal_due
queued_renewal_authorized entry queued now force =
    same_registration entry queued
    && (entry.delegation_updated_at_ms == queued.delegation_updated_at_ms
        && renewal_due entry now force)

-- Which error of the last refresh or renewal there is does not matter here, only whether there is one.
pub record RefreshStatus : Type 0 where
  pub last_refresh_at : Option ℤ
  pub last_error : Option String
  pub last_renewal_at : Option ℤ
  pub last_renewal_error : Option String

abbrev pub is_none {ℓ} : {A : Type ℓ} → Option A → Bool
is_none none = true
is_none (some a) = false

pub fresh : Option ℤ → ℤ → ℤ → Bool
fresh none now max_age = false
fresh (some timestamp) now max_age =
    let age = saturating_sub64 now timestamp in int_leb (pos 0) age && int_leb age max_age

unfoldable pub renewal_available : RefreshStatus → ℤ → ℤ → Bool
unfolding fresh
renewal_available status now max_age =
    is_none status.last_error
    && (is_none status.last_renewal_error
        && (fresh status.last_refresh_at now max_age
            && fresh status.last_renewal_at now (max64 max_age min_renewal_freshness_secs)))

unfoldable pub ready : RefreshStatus → ℤ → ℤ → Bool → Bool
unfolding fresh renewal_available
ready status now max_age renewal_configured =
    is_none status.last_error
    && (fresh status.last_refresh_at now max_age
        && (not renewal_configured || renewal_available status now max_age))

abbrev pub expired : LeaderboardPlayer → ℤ → Bool
expired player now = elim player.expires_at [
  | none ↦ false
  | some expires_at ↦ int_leb expires_at now
]

-- `if expired { player.active = false; }`
unfoldable pub without_expired : LeaderboardPlayer → ℤ → LeaderboardPlayer
without_expired player now = if expired player now then record player { active = false } else player

unfoldable pub replayed_registration :
    Registry → String → String → String → ℤ → Option LeaderboardPlayer
unfolding without_expired
replayed_registration registry owner player_asset signature now = elim (get registry player_asset) [
  | none ↦ none
  | some entry ↦
      if not (entry.owner == owner) || not (entry.registration_signature == signature)
      then none
      else elim entry.state [ none ↦ none | some player ↦ some (without_expired player now) ]
]

abbrev pub state_or : Option LeaderboardPlayer → LeaderboardPlayer → LeaderboardPlayer
state_or none other = other
state_or (some player) other = player

-- The entry that a verified registration leaves of one there was.
unfoldable pub merged_entry :
    RegisteredPlayer → Option RegisteredPlayer → String → LeaderboardPlayer → ℤ → RegisteredPlayer
unfolding apply_verified_state
merged_entry entry none signature verified now = record entry { registration_signature = signature }
merged_entry entry (some snapshot) signature verified now =
    record (apply_verified_state entry snapshot (some verified) now).0 {
      registration_signature = signature;
    }

unfoldable pub new_entry : String → LeaderboardPlayer → RegisteredPlayer
new_entry signature verified = record {
  owner = verified.owner;
  player_asset = verified.player_asset;
  registration_signature = signature;
  registered_at = verified.registered_at;
  delegated_renewal = false;
  delegation_updated_at_ms = 0;
  state = some verified;
}

unfoldable pub merge_verified_registration :
    Registry
    → Option RegisteredPlayer
    → String
    → LeaderboardPlayer
    → ℤ
    → Result ApiError (Registry × LeaderboardPlayer)
unfolding merged_entry new_entry
merge_verified_registration registry snapshot signature verified now =
    elim (get registry verified.player_asset) [
      | some entry ↦
          if not (entry.owner == verified.owner)
          then err owner_changed
          else (let dated = record verified { registered_at = entry.registered_at } in
              let merged = merged_entry entry snapshot signature dated now in
              ok (
                put text_before registry verified.player_asset merged,
                state_or merged.state dated,
              ))
      | none ↦
          if leb max_registered_players (length registry)
          then err limit_reached
          else ok (
            put text_before registry verified.player_asset (new_entry signature verified),
            verified,
          )
    ]

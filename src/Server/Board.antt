-- ===== src/Server/Board.antt =====
-- The leaderboard, the presence listing and the registration of src/server.rs.
pub mod Sorted
pub mod Ranked
pub mod Present
pub mod Registered
mod Examples
use woodland_sh.Base.{
  ℕ, ◌+◌, ◌-◌, Bool, true, false, not, ◌&&◌, ◌||◌, Option, none, some, List, [], ◌∷◌, ltb, leb, min,
  max, if◌then◌else◌, length, take, drop, ◌==◌, Eq, string_eq, String, Result, ok, err, ◌>>=◌, ◌>>◌,
  reject, ok_or,
}
use woodland_sh.Base.Dict.{Dict, get, add}
use woodland_sh.Base.Texts.{text_before}
use woodland_sh.Base.Int.{ℤ, int_ltb}
use woodland_sh.Server.{
  ApiError, fields_too_long, invalid_owner, invalid_asset, invalid_signature, unauthorized,
  no_live_state, persist_failed, invalid_viewport,
}
use woodland_sh.Server.Locations.{PlayerLocation, Viewport, retain_active, query}
use woodland_sh.Server.Players.{
  LeaderboardPlayer, RegisteredPlayer, Registry, RefreshStatus, renewal_available, without_expired,
  replayed_registration, merge_verified_registration,
}
use woodland_sh.Server.Actions.{AppState, Surroundings, Handled, is_too_long}

abbrev pub presence_ttl_ms : ℕ
presence_ttl_ms = 60000

abbrev pub max_presence_query_span : ℕ
max_presence_query_span = 128

abbrev pub default_leaderboard_limit : ℕ
default_leaderboard_limit = 100

abbrev pub max_leaderboard_limit : ℕ
max_leaderboard_limit = 200

-- The states there are, in the order of the registry, each inactive once it is expired.
unfoldable pub current_players : ℤ → Registry → List LeaderboardPlayer
current_players now [] = []
current_players now (entry ∷ rest) =
    let others = current_players now rest in
    elim entry.1.state [ none ↦ others | some player ↦ without_expired player now ∷ others ]

abbrev pub is_only : Bool → Bool → Bool
is_only a b = a && not b

-- The order of the ranks: the active before the others, then by XP, registration and asset.
unfoldable pub ranks_before : LeaderboardPlayer → LeaderboardPlayer → Bool
ranks_before left right =
    if is_only left.active right.active
    then true
    else if is_only right.active left.active
    then false
    else if ltb right.xp left.xp
    then true
    else if ltb left.xp right.xp
    then false
    else if int_ltb left.registered_at right.registered_at
    then true
    else if int_ltb right.registered_at left.registered_at
    then false
    else text_before left.player_asset right.player_asset

unfoldable pub insert_player : LeaderboardPlayer → List LeaderboardPlayer → List LeaderboardPlayer
insert_player player [] = player ∷ []
insert_player player (first ∷ rest) =
    let others = insert_player player rest in
    if ranks_before first player then first ∷ others else player ∷ first ∷ rest

-- A stable sort, as `sort_by`.
unfoldable pub sort_players : List LeaderboardPlayer → List LeaderboardPlayer
unfolding insert_player
sort_players [] = []
sort_players (player ∷ rest) = insert_player player (sort_players rest)

unfoldable pub leaderboard_players : ℤ → Registry → List LeaderboardPlayer
unfolding current_players sort_players
leaderboard_players now registry = sort_players (current_players now registry)

unfoldable pub delegated_assets : Registry → List String
delegated_assets [] = []
delegated_assets (entry ∷ rest) =
    let others = delegated_assets rest in
    if entry.1.delegated_renewal then entry.1.player_asset ∷ others else others

pub record LeaderboardResponse : Type 0 where
  pub total : ℕ
  pub players : List LeaderboardPlayer
  pub delegated_player_assets : List String
  pub delegation_available : Bool

abbrev pub or_default : Option ℕ → ℕ → ℕ
or_default none d = d
or_default (some n) d = n

unfoldable pub leaderboard :
    ℤ → AppState → RefreshStatus → ℤ → Option ℕ → Option ℕ → LeaderboardResponse
unfolding leaderboard_players delegated_assets renewal_available
leaderboard now state status worker_freshness_secs limit offset =
    let players = leaderboard_players now state.registry in
    record {
      total = length players;
      players =
          take (max 1 (min (or_default limit default_leaderboard_limit) max_leaderboard_limit))
            (drop (min (or_default offset 0) (length players)) players);
      delegated_player_assets = delegated_assets state.registry;
      delegation_available =
          state.rollover_keys && renewal_available status now worker_freshness_secs;
    }

unfoldable pub active_assets : List LeaderboardPlayer → List String
active_assets [] = []
active_assets (player ∷ rest) =
    let others = active_assets rest in
    if player.active then add text_before others player.player_asset else others

unfoldable pub is_invalid_viewport : AppState → Viewport → Bool
is_invalid_viewport state q =
    ltb q.max_x q.min_x
    || (ltb q.max_y q.min_y
        || (leb state.map_width q.max_x
            || (leb state.map_height q.max_y
                || (ltb max_presence_query_span (q.max_x - q.min_x + 1)
                    || ltb max_presence_query_span (q.max_y - q.min_y + 1)))))

module _ (around : Surroundings) where
  unfoldable pub presence : AppState → Viewport → Handled (List PlayerLocation × Bool)
  unfolding is_invalid_viewport active_assets leaderboard_players
  presence state q =
      if is_invalid_viewport state q
      then (state, err invalid_viewport)
      else (let active = active_assets (leaderboard_players around.now_unix state.registry) in
          let locations =
            retain_active state.multiplayer.locations active (around.now_ms - presence_ttl_ms) in
          (
            record state { multiplayer = record state.multiplayer { locations = locations } },
            ok (query locations q),
          ))

  -- `verify_registration_signature` is the argument.
  unfoldable pub check_registration :
      (String → String → String → Bool)
      → String
      → String
      → String
      → Result ApiError (String × String × String)
  check_registration registers owner player_asset signature = do
    reject (is_too_long owner || (is_too_long player_asset || is_too_long signature))
        fields_too_long
    parsed_owner ← ok_or (around.parse_owner owner) invalid_owner
    parsed_asset ← ok_or (around.parse_asset player_asset) invalid_asset
    parsed_signature ← ok_or (around.parse_signature signature) invalid_signature
    reject (not (registers parsed_owner parsed_asset parsed_signature)) unauthorized
    ok (parsed_owner, parsed_asset, parsed_signature)

  abbrev pub registration_time : Option RegisteredPlayer → ℤ
  registration_time none = around.now_unix
  registration_time (some entry) = entry.registered_at

  -- From the verified lineage on: the merge, and the storing of the registry.
  unfoldable pub store_registration :
      AppState → Option RegisteredPlayer → String → LeaderboardPlayer → Handled LeaderboardPlayer
  unfolding merge_verified_registration
  store_registration state snapshot signature verified =
      elim (merge_verified_registration state.registry snapshot signature verified
        around.now_unix) [
          | err e ↦ (state, err e)
          | ok merged ↦ (
            record state { registry = merged.0 },
            (if around.persists then ok merged.1 else err persist_failed),
          )
        ]

  unfoldable pub register_verified : AppState → String × String × String → Handled LeaderboardPlayer
  unfolding store_registration replayed_registration
  register_verified state names =
      elim (replayed_registration state.registry names.0 names.1 names.2 around.now_unix) [
        | some player ↦ (state, ok player)
        | none ↦
            let snapshot = get state.registry names.1 in
            elim (around.verify names.0 names.1 (registration_time snapshot)) [
              | err e ↦ (state, err e)
              | ok none ↦ (state, err no_live_state)
              | ok (some verified) ↦ store_registration state snapshot names.2 verified
            ]
      ]

  unfoldable pub register_player :
      (String → String → String → Bool)
      → AppState
      → String
      → String
      → String
      → Handled LeaderboardPlayer
  unfolding check_registration register_verified
  register_player registers state owner player_asset signature =
      elim (check_registration registers owner player_asset signature) [
        | err e ↦ (state, err e)
        | ok names ↦ register_verified state names
      ]

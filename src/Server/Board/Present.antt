-- ===== src/Server/Board/Present.antt =====
-- The presence listing of src/server.rs over its location index.
use woodland_sh.Base.{
  ◌-◌, ◌≤◌, Bool, true, false, ◌&&◌, ◌||◌, some, List, [], ◌∷◌, length, ◌==◌, string_eq, contains,
  String, Result, ok, err, ◌≡◌, refl, All, All-imp, ap, subst, arith, ok-injective, sym, ◌∙◌, ◌↔◌,
  ◌⊎◌, inl, inr, Bool-cases,
}
use woodland_sh.Base.Dict.{get, contains-add, IsUnique}
use woodland_sh.Base.Texts.{text_before}
use woodland_sh.Server.{ApiError, invalid_viewport}
use woodland_sh.Server.Locations.{
  PlayerLocation, LocationIndex, Viewport, retain_active, query, is_outside, max_presence_results,
}
use woodland_sh.Server.Locations.Indexed.{IsIndexed, retain_active-IsIndexed}
use woodland_sh.Server.Locations.Query.{Has, IsAnswer, query_lem}
use woodland_sh.Server.Players.{LeaderboardPlayer}
use woodland_sh.Server.Actions.{AppState, Surroundings}
use woodland_sh.Server.Board.{
  leaderboard_players, active_assets, is_invalid_viewport, presence, presence_ttl_ms,
}

-- One of these players is active and has this asset.
abbrev pub has_active : List LeaderboardPlayer → String → Bool
has_active [] asset = false
has_active (player ∷ rest) asset =
    (player.active && (asset == player.player_asset)) || has_active rest asset

contains-active_assets :
    (players : List LeaderboardPlayer) (asset : String)
    → contains (active_assets players) asset ≡ has_active players asset
unfolding active_assets
contains-active_assets [] asset = refl
contains-active_assets (player ∷ rest) asset = ground (
  arith,
  contains-active_assets rest asset,
  contains-add text_before (active_assets rest) player.player_asset asset,
)

-- A location that may be shown: its player is active, and it was written within the last minute.
pub record IsPresent (around : Surroundings) (state : AppState) (q : Viewport)
    (location : PlayerLocation) : Type 0 where
  pub player_asset : String
  pub stored : get state.multiplayer.locations.by_player player_asset ≡ some location
  pub active : has_active (leaderboard_players around.now_unix state.registry) player_asset ≡ true
  pub recent : around.now_ms - presence_ttl_ms ≤ location.updated_at_ms
  pub inside : is_outside q location ≡ false

-- What a listing shows, and the index it leaves.
abbrev pub IsListing : Surroundings → AppState → Viewport → List PlayerLocation × Bool → Type 0
IsListing around state q found =
    All (IsPresent around state q) found.0
    × (length found.0 ≤ max_presence_results)
    × ((found.1 ≡ true)
        ⊎ ((location : PlayerLocation) → IsPresent around state q location → Has location found.0))
    × IsIndexed (presence around state q).0.multiplayer.locations

module _ (around : Surroundings) (state : AppState) (q : Viewport) where
  abbrev kept : LocationIndex
  kept =
      retain_active state.multiplayer.locations
        (active_assets (leaderboard_players around.now_unix state.registry))
        (around.now_ms - presence_ttl_ms)

  kept_lem :
      IsUnique state.multiplayer.locations.by_player
      → IsIndexed state.multiplayer.locations
      → IsIndexed kept
        × ((p : String) (location : PlayerLocation)
            → (get kept.by_player p ≡ some location) ↔ (
                (get state.multiplayer.locations.by_player p ≡ some location)
                × (contains (active_assets (leaderboard_players around.now_unix state.registry)) p
                    ≡ true)
                × (around.now_ms - presence_ttl_ms ≤ location.updated_at_ms)))
  kept_lem unique indexed =
      retain_active-IsIndexed state.multiplayer.locations
        (active_assets (leaderboard_players around.now_unix state.registry))
        (around.now_ms - presence_ttl_ms) unique indexed

  IsAnswer-IsPresent :
      IsUnique state.multiplayer.locations.by_player
      → IsIndexed state.multiplayer.locations
      → (location : PlayerLocation) → IsAnswer kept q location
      → IsPresent around state q location
  IsAnswer-IsPresent unique indexed location a =
      let known = ((kept_lem unique indexed).1 a.player_asset location).0 a.stored in
      record {
        player_asset = a.player_asset;
        stored = known.0;
        active =
            sym (
              contains-active_assets (leaderboard_players around.now_unix state.registry)
                a.player_asset)
            ∙ known.1;
        recent = known.2;
        inside = a.inside;
      }

  IsPresent-IsAnswer :
      IsUnique state.multiplayer.locations.by_player
      → IsIndexed state.multiplayer.locations
      → (location : PlayerLocation) → IsPresent around state q location
      → IsAnswer kept q location
  IsPresent-IsAnswer unique indexed location h = record {
    player_asset = h.player_asset;
    stored = ((kept_lem unique indexed).1 h.player_asset location).1 (
      h.stored,
      contains-active_assets (leaderboard_players around.now_unix state.registry) h.player_asset
          ∙ h.active,
      h.recent,
    );
    inside = h.inside;
  }

  query_kept :
      IsUnique state.multiplayer.locations.by_player
      → IsIndexed state.multiplayer.locations
      → All (IsPresent around state q) (query kept q).0
        × (length (query kept q).0 ≤ max_presence_results)
        × (((query kept q).1 ≡ true)
            ⊎ ((location : PlayerLocation)
                → IsPresent around state q location
                → Has location (query kept q).0))
  query_kept unique indexed =
      let answers = query_lem kept q in
      (
        All-imp (IsAnswer kept q) (IsPresent around state q) (query kept q).0
            (IsAnswer-IsPresent unique indexed) answers.0,
        answers.1,
        elim (Bool-cases (query kept q).1) [
          | inl cut ↦ inl cut
          | inr finished ↦ inr (λ location h.
              answers.2 (kept_lem unique indexed).0 finished location
                (IsPresent-IsAnswer unique indexed location h))
        ],
      )

  run_valid :
      is_invalid_viewport state q ≡ false
      → presence around state q ≡ (
        record state { multiplayer = record state.multiplayer { locations = kept } },
        ok (query kept q),
      )
  unfolding presence
  run_valid e = rw e refl

  run_invalid :
      is_invalid_viewport state q ≡ true → presence around state q ≡ (state, err invalid_viewport)
  unfolding presence
  run_invalid e = rw e refl

-- Where the location index is in order, a listing of presence shows at most 2,000 locations, each inside the
-- viewport, of an active player, and not older than a minute; unless it stops at that limit, it shows all
-- of these. The index stays in order.
pub presence-IsListing :
    (around : Surroundings) (state : AppState) (q : Viewport) (found : List PlayerLocation × Bool)
    → IsUnique state.multiplayer.locations.by_player
    → IsIndexed state.multiplayer.locations
    → (presence around state q).1 ≡ ok found
    → IsListing around state q found
presence-IsListing around state q found unique indexed h =
    elim (Bool-cases (is_invalid_viewport state q)) [
      | inl invalid ↦
          absurd (refused (sym (ap (λ r. r.1) (run_invalid around state q invalid)) ∙ h))
      | inr valid ↦
          let run = run_valid around state q valid in
          let same : query (kept around state q) q ≡ found =
            ok-injective (sym (ap (λ r. r.1) run) ∙ h) in
          let shown = query_kept around state q unique indexed in
          subst (IsListing around state q) same (
            shown.0,
            shown.1,
            shown.2,
            subst (λ (next : AppState). IsIndexed next.multiplayer.locations)
                (sym (ap (λ r. r.0) run)) (kept_lem around state q unique indexed).0,
          )
    ]
  where
    refused : {A : Type 0} {e : ApiError} {a : A} → ◌≡◌ {A = Result ApiError A} (err e) (ok a) → ⊥
    refused k = cc

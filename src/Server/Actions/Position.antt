-- ===== src/Server/Actions/Position.antt =====
-- Location reports to src/server.rs, and the index.
use woodland_sh.Base.{
  ◌<◌, some, String, Result, ok, err, ◌≡◌, ◌≢◌, refl, ap, subst, sym, arith, string_eq, eq_iff,
}
use woodland_sh.Base.Dict.{get}
use woodland_sh.Server.{ApiError}
use woodland_sh.Server.Locations.{PlayerLocation, LocationIndex, upsert}
use woodland_sh.Server.Locations.Indexed.{IsIndexed, upsert-IsIndexed}
use woodland_sh.Server.Actions.{
  AppState, LocationRequest, Surroundings, update_location, authorize_action, Handled,
}
use woodland_sh.Server.Actions.Replay.{location_action, authorize_action_lem}

-- Where the index agrees with its chunks, a location report that succeeds lies on the map, stands in
-- the index under its player, leaves the other players where they are, and keeps that agreement.
pub update_location-IsIndexed :
    (around : Surroundings) (state after : AppState) (r : LocationRequest)
    (location : PlayerLocation)
    → IsIndexed state.multiplayer.locations
    → update_location around state r ≡ (after, ok location)
    → (location.x < state.map_width)
      × (location.y < state.map_height)
      × (get after.multiplayer.locations.by_player location.player_asset ≡ some location)
      × ((other : String)
          → other ≢ location.player_asset
          → get after.multiplayer.locations.by_player other
            ≡ get state.multiplayer.locations.by_player other)
      × IsIndexed after.multiplayer.locations
unfolding update_location
update_location-IsIndexed around state after r location indexed h =
    answered (authorize_action around state (location_action r)).1 refl
  where
    p : Handled (String × String)
    p = authorize_action around state (location_action r)

    before : LocationIndex
    before = state.multiplayer.locations

    answered :
        (answer : Result ApiError (String × String))
        → p.1 ≡ answer
        → (location.x < state.map_width)
          × (location.y < state.map_height)
          × (get after.multiplayer.locations.by_player location.player_asset ≡ some location)
          × ((other : String)
              → other ≢ location.player_asset
              → get after.multiplayer.locations.by_player other
                ≡ get state.multiplayer.locations.by_player other)
          × IsIndexed after.multiplayer.locations
    answered (err e) h' = absurd (ground arith)
    answered (ok names) h' =
        let same : p.0.multiplayer.locations ≡ before =
          ap (λ m. m.locations)
            ((authorize_action_lem around state (location_action r)).1 names h').1 in
        let written : after.multiplayer.locations ≡ upsert p.0.multiplayer.locations location =
          ground arith in
        let stored : after.multiplayer.locations ≡ upsert before location = rw same at written in
        let (kept, located) = upsert-IsIndexed before location indexed in
        (
          ground arith,
          ground arith,
          ground (
            arith,
            stored,
            located location.player_asset,
            eq_iff location.player_asset location.player_asset,
          ),
          (λ other different.
              ground (arith, stored, located other, eq_iff other location.player_asset)),
          subst IsIndexed (sym stored) kept,
        )

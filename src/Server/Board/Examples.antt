-- ===== src/Server/Board/Examples.antt =====
-- A registration, the leaderboard and the presence of two players, after the handlers of src/server.rs.
use woodland_sh.Base.{
  ℕ, Bool, true, false, none, some, [], ◌∷◌, String, string_eq, ok, ◌≡◌, ◌⊎◌, refl,
}
use woodland_sh.Base.Dict.{add, get, put, IsUnique}
use woodland_sh.Base.Int.{pos}
use woodland_sh.Server.Locations.{
  PlayerLocation, LocationIndex, Viewport, upsert, remove, retain_active, query,
}
use woodland_sh.Server.Locations.Indexed.{IsIndexed, upsert-IsIndexed}
use woodland_sh.Server.Players.{LeaderboardPlayer, RegisteredPlayer, RefreshStatus, without_expired}
use woodland_sh.Server.Actions.{AppState, Surroundings, initial_multiplayer}
use woodland_sh.Server.Board.{
  ranks_before, leaderboard_players, leaderboard, presence, register_player,
}
use woodland_sh.Server.Board.Ranked.{IsBoard, leaderboard-IsBoard}
use woodland_sh.Server.Board.Present.{IsListing, presence-IsListing}
use woodland_sh.Server.Board.Registered.{IsStored, register_player_lem}

abbrev live : String → ℕ → LeaderboardPlayer
live asset xp = record {
  owner = "o";
  player_asset = asset;
  xp = xp;
  level = 1;
  logs = xp;
  state_outpoint = "t:0";
  expires_at = some (pos 9000);
  rollover_margin_seconds = pos 600;
  active = true;
  registered_at = pos 10;
  updated_at = pos 20;
}

abbrev entry : String → ℕ → RegisteredPlayer
entry asset xp = record {
  owner = "o";
  player_asset = asset;
  registration_signature = "s";
  registered_at = pos 10;
  delegated_renewal = true;
  delegation_updated_at_ms = 500;
  state = some (live asset xp);
}

abbrev around : Surroundings
around = record {
  parse_owner = λ text. some text;
  parse_asset = λ text. some text;
  parse_signature = λ text. some text;
  signs = λ owner asset action timestamp payload signature. true;
  verify = λ owner asset registered_at. ok (some (live "c" 9));
  now_unix = pos 50;
  now_ms = 100000;
  written_at_ms = 100000;
  persists = true;
}

abbrev registers : String → String → String → Bool
registers owner asset signature = true

abbrev empty_index : LocationIndex
empty_index = record { by_player = []; chunks = [] }

empty_index-IsIndexed : IsIndexed empty_index
unfolding get
empty_index-IsIndexed player_asset c = refl

abbrev at_home : PlayerLocation
at_home = record { player_asset = "a"; x = 40; y = 7; updated_at_ms = 90000 }

abbrev index : LocationIndex
index = upsert empty_index at_home

abbrev app : AppState
app = record {
  registry = ("a", entry "a" 4) ∷ ("b", entry "b" 7) ∷ [];
  multiplayer = record initial_multiplayer { locations = index };
  rollover_keys = true;
  map_width = 64;
  map_height = 64;
}

abbrev status : RefreshStatus
status = record {
  last_refresh_at = none;
  last_error = none;
  last_renewal_at = none;
  last_renewal_error = none;
}

abbrev around_home : Viewport
around_home = record { min_x = 30; max_x = 50; min_y = 0; max_y = 40 }

more_xp_first : leaderboard_players (pos 50) app.registry ≡ live "b" 7 ∷ live "a" 4 ∷ []
unfolding leaderboard_players without_expired ranks_before
more_xp_first = refl

expired_are_inactive :
    leaderboard_players (pos 9000) (("a", entry "a" 4) ∷ [])
    ≡ record (live "a" 4) { active = false } ∷ []
unfolding leaderboard_players without_expired
expired_are_inactive = refl

at_home_shown : (presence around app around_home).1 ≡ ok (at_home ∷ [], false)
unfolding presence upsert remove retain_active query get put without_expired ranks_before add
at_home_shown = refl

one_player-IsUnique : IsUnique index.by_player
unfolding upsert remove get put
one_player-IsUnique = (refl, tt)

leaderboard-IsBoard_example :
    IsBoard (pos 50) app.registry none none (leaderboard (pos 50) app status (pos 120) none none)
leaderboard-IsBoard_example = leaderboard-IsBoard (pos 50) app status (pos 120) none none

presence-IsListing_example : IsListing around app around_home (at_home ∷ [], false)
presence-IsListing_example =
    presence-IsListing around app around_home (at_home ∷ [], false) one_player-IsUnique
      (upsert-IsIndexed empty_index at_home empty_index-IsIndexed).0 at_home_shown

register_player_lem_example :
    ((register_player around registers app "o" "c" "s").0 ≡ app)
    ⊎ IsStored around registers app (register_player around registers app "o" "c" "s").0 "o" "c" "s"
register_player_lem_example = register_player_lem around registers app "o" "c" "s"

-- ===== src/Server/Examples.antt =====
-- A server with one registered player.
use woodland_sh.Base.{
  ◌+◌, ◌≤◌, ◌<◌, ◌≡◌, ◌≢◌, refl, Bool, true, false, none, some, ok, [], ◌∷◌, String, string_eq, All,
  length, contains, ◌↔◌,
}
use woodland_sh.Base.Dict.{get, put, IsUnique}
use woodland_sh.Base.Int.{ℤ, pos}
use woodland_sh.Server.Locations.{
  PlayerLocation, LocationIndex, Viewport, upsert, retain_active, query, max_presence_results,
  remove,
}
use woodland_sh.Server.Locations.Indexed.{IsIndexed, upsert-IsIndexed, retain_active-IsIndexed}
use woodland_sh.Server.Locations.Query.{IsAnswer, Has, query_lem}
use woodland_sh.Server.Players.{
  LeaderboardPlayer, RegisteredPlayer, Registry, merge_verified_registration, merged_entry,
  queued_renewal_authorized,
}
use woodland_sh.Server.Players.Consent.{Stores, merge_verified_registration_lem}
use woodland_sh.Server.Actions.{
  AppState, ChatMessage, ChatRequest, LocationRequest, Surroundings, initial_multiplayer,
  write_delegation, post_chat, update_location, authorize_action, check_signature, read_snapshot,
  after_snapshot, finish_authorization, record_action, is_invalid_message, add_message,
}
use woodland_sh.Server.Actions.Replay.{
  of_location, chat_action, handle_all, handle, authorize_action-once,
}
use woodland_sh.Server.Actions.Chat.{IsPosted, post_chat-IsPosted}
use woodland_sh.Server.Actions.Delegation.{write_delegation-revokes}
use woodland_sh.Server.Actions.Position.{update_location-IsIndexed}

abbrev empty_index : LocationIndex
empty_index = record { by_player = []; chunks = [] }

empty_index-IsIndexed : IsIndexed empty_index
unfolding get
empty_index-IsIndexed player_asset c = refl

abbrev at_home : PlayerLocation
at_home = record { player_asset = "a1"; x = 40; y = 7; updated_at_ms = 1000 }

abbrev one_player : LocationIndex
one_player = upsert empty_index at_home

one_player-IsUnique : IsUnique one_player.by_player
unfolding upsert put get remove
one_player-IsUnique = (refl, tt)

retain_active-IsIndexed_example :
    IsIndexed (retain_active one_player ("a1" ∷ []) 900)
    × ((p : String) (location : PlayerLocation)
        → (get (retain_active one_player ("a1" ∷ []) 900).by_player p ≡ some location) ↔ (
            (get one_player.by_player p ≡ some location)
            × (contains ("a1" ∷ []) p ≡ true)
            × (900 ≤ location.updated_at_ms)))
retain_active-IsIndexed_example =
    retain_active-IsIndexed one_player ("a1" ∷ []) 900 one_player-IsUnique
      (upsert-IsIndexed empty_index at_home empty_index-IsIndexed).0

abbrev around_home : Viewport
around_home = record { min_x = 30; max_x = 50; min_y = 0; max_y = 40 }

query_lem_example :
    All (IsAnswer one_player around_home) (query one_player around_home).0
    × (length (query one_player around_home).0 ≤ max_presence_results)
    × (IsIndexed one_player
        → (query one_player around_home).1 ≡ false
        → (location : PlayerLocation) → IsAnswer one_player around_home location
        → Has location (query one_player around_home).0)
query_lem_example = query_lem one_player around_home

abbrev live : LeaderboardPlayer
live = record {
  owner = "o1";
  player_asset = "a1";
  xp = 4;
  level = 2;
  logs = 4;
  state_outpoint = "t:0";
  expires_at = some (pos 9000);
  rollover_margin_seconds = pos 600;
  active = true;
  registered_at = pos 10;
  updated_at = pos 20;
}

abbrev entry : RegisteredPlayer
entry = record {
  owner = "o1";
  player_asset = "a1";
  registration_signature = "s1";
  registered_at = pos 10;
  delegated_renewal = true;
  delegation_updated_at_ms = 500;
  state = some live;
}

abbrev registry : Registry
registry = ("a1", entry) ∷ []

abbrev entry_signed : RegisteredPlayer
entry_signed = record entry { registration_signature = "s2" }

abbrev registry_signed : Registry
registry_signed = ("a1", entry_signed) ∷ []

merged : merge_verified_registration registry none "s2" live (pos 30) ≡ ok (registry_signed, live)
unfolding merge_verified_registration merged_entry get put
merged = refl

merge_verified_registration_example :
    ((new : RegisteredPlayer) × (get registry_signed "a1" ≡ some new)
      × (new.owner ≡ "o1")
      × Stores (get registry "a1") "s2" new)
    × ((other : String) → other ≢ "a1" → get registry_signed other ≡ get registry other)
merge_verified_registration_example =
    merge_verified_registration_lem registry none "s2" live (pos 30) registry_signed live merged

abbrev entry_revoked : RegisteredPlayer
entry_revoked = record entry { delegated_renewal = false; delegation_updated_at_ms = 700 }

abbrev registry_revoked : Registry
registry_revoked = ("a1", entry_revoked) ∷ []

revoked : write_delegation registry "a1" false 700 ≡ ok registry_revoked
unfolding write_delegation get put
revoked = refl

stored_entry : get registry "a1" ≡ some entry
unfolding get
stored_entry = refl

write_delegation-revokes_example :
    ((new : RegisteredPlayer) × (get registry_revoked "a1" ≡ some new)
      × (new.delegated_renewal ≡ false)
      × (500 < new.delegation_updated_at_ms)
      × ((now : ℤ) (force : Bool) → queued_renewal_authorized new entry now force ≡ false))
    × ((other : String) → other ≢ "a1" → get registry_revoked other ≡ get registry other)
write_delegation-revokes_example =
    write_delegation-revokes registry registry_revoked "a1" false 700 entry stored_entry revoked

abbrev around : Surroundings
around = record {
  parse_owner = λ text. some text;
  parse_asset = λ text. some text;
  parse_signature = λ text. some text;
  signs = λ owner asset action timestamp payload signature. true;
  verify = λ owner asset registered_at. ok none;
  now_unix = pos 50;
  now_ms = 100000;
  written_at_ms = 100000;
  persists = true;
}

abbrev app : AppState
app = record {
  registry = registry;
  multiplayer = initial_multiplayer;
  rollover_keys = true;
  map_width = 64;
  map_height = 64;
}

abbrev hello : ChatRequest
hello = record {
  owner = "o1";
  player_asset = "a1";
  timestamp_ms = 99000;
  message = "hello";
  signature = "s";
}

abbrev hello_again : ChatRequest
hello_again = record hello { timestamp_ms = 101000 }

abbrev step_east : LocationRequest
step_east = record {
  owner = "o1";
  player_asset = "a1";
  timestamp_ms = 99500;
  x = 41;
  y = 7;
  signature = "s";
}

hello_granted : (authorize_action around app (chat_action hello)).1 ≡ ok ("o1", "a1")
unfolding authorize_action check_signature read_snapshot after_snapshot finish_authorization
    record_action get put
hello_granted = refl

hello_granted_again :
    (authorize_action around
      (handle_all
        (authorize_action around app (chat_action hello)).0
        (of_location around step_east ∷ []))
      (chat_action hello_again)).1
    ≡ ok ("o1", "a1")
unfolding handle_all handle update_location authorize_action check_signature read_snapshot
    after_snapshot finish_authorization record_action get put
hello_granted_again = refl

authorize_action-once_example : (99000 < 101000) × (99000 + 2000 ≤ 101000)
authorize_action-once_example =
    authorize_action-once around around app (chat_action hello) (chat_action hello_again)
      ("o1", "a1") ("o1", "a1") (of_location around step_east ∷ []) hello_granted
      hello_granted_again refl refl

abbrev greeting : ChatMessage
greeting = record { id = 1; player_asset = "a1"; message = "hello"; created_at_ms = 100000 }

abbrev app_greeted : AppState
app_greeted = (post_chat around app hello).0

hello_posted : post_chat around app hello ≡ (app_greeted, ok greeting)
unfolding post_chat is_invalid_message add_message authorize_action check_signature read_snapshot
    after_snapshot finish_authorization record_action get
hello_posted = refl

post_chat-IsPosted_example : IsPosted "hello" initial_multiplayer app_greeted.multiplayer greeting
post_chat-IsPosted_example = post_chat-IsPosted around app app_greeted hello greeting hello_posted

abbrev east : PlayerLocation
east = record { player_asset = "a1"; x = 41; y = 7; updated_at_ms = 100000 }

abbrev app_moved : AppState
app_moved = (update_location around app step_east).0

step_taken : update_location around app step_east ≡ (app_moved, ok east)
unfolding update_location authorize_action check_signature read_snapshot after_snapshot
    finish_authorization record_action get
step_taken = refl

update_location-IsIndexed_example :
    (41 < 64)
    × (7 < 64)
    × (get app_moved.multiplayer.locations.by_player "a1" ≡ some east)
    × ((other : String)
        → other ≢ "a1"
        → get app_moved.multiplayer.locations.by_player other ≡ get empty_index.by_player other)
    × IsIndexed app_moved.multiplayer.locations
update_location-IsIndexed_example =
    update_location-IsIndexed around app app_moved step_east east empty_index-IsIndexed step_taken

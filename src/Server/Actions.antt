-- ===== src/Server/Actions.antt =====
-- The signed actions of src/server.rs: their authorization, and the handlers of locations, chat and
-- delegated renewal. What the handlers take from libraries and from outside is `Surroundings`.
pub mod Replay
pub mod Chat
pub mod Delegation
pub mod Position
use Prim.Native.String.{◌++◌ as append_text}
use woodland_sh.Base.{
  ℕ, zero, suc, ◌/◌, ◌+◌, ◌-◌, ◌%◌, ◌^◌, Bool, true, false, not, ◌&&◌, ◌||◌, Option, none, some,
  List, [], ◌∷◌, ◌++◌, ltb, leb, if◌then◌else◌, length, drop, ◌==◌, Eq, nat_eq, string_eq, String,
  Result, ok, err, ◌>>=◌, ◌>>◌, reject, ok_or,
}
use woodland_sh.Base.Dict.{Dict, get, put}
use woodland_sh.Base.Texts.{codes, utf8_len, text_before, is_whitespace, all_codes, any_code}
use woodland_sh.Base.Int.{ℤ, int_ltb}
use woodland_sh.Server.{
  ApiError, fields_too_long, invalid_owner, invalid_asset, invalid_signature, unauthorized,
  not_registered, no_live_state, clock_skew, replayed_or_too_quick, outside_map, invalid_message,
  renewal_not_configured, stale_delegation, persist_failed,
}
use woodland_sh.Server.Locations.{PlayerLocation, LocationIndex, upsert}
use woodland_sh.Server.Players.{LeaderboardPlayer, RegisteredPlayer, Registry, apply_verified_state}

abbrev pub max_chat_messages : ℕ
max_chat_messages = 200

abbrev pub action_clock_skew_ms : ℕ
action_clock_skew_ms = 300000

abbrev pub location_interval_ms : ℕ
location_interval_ms = 500

abbrev pub chat_interval_ms : ℕ
chat_interval_ms = 2000

pub record ChatMessage : Type 0 where
  pub id : ℕ
  pub player_asset : String
  pub message : String
  pub created_at_ms : ℕ

pub record MultiplayerState : Type 0 where
  pub locations : LocationIndex
  pub chat : List ChatMessage
  pub action_timestamps : Dict String ℕ
  pub next_chat_id : ℕ

abbrev pub initial_multiplayer : MultiplayerState
initial_multiplayer = record {
  locations = record { by_player = []; chunks = [] };
  chat = [];
  action_timestamps = [];
  next_chat_id = 1;
}

pub record AppState : Type 0 where
  pub registry : Registry
  pub multiplayer : MultiplayerState
  pub rollover_keys : Bool  -- whether they are configured
  pub map_width : ℕ
  pub map_height : ℕ

pub record ActionAuthorization : Type 0 where
  pub owner : String
  pub player_asset : String
  pub signature : String
  pub timestamp_ms : ℕ
  pub action : String
  pub payload : String
  pub minimum_interval_ms : ℕ

-- Whole numbers as `format!` writes them. A u16 has at most five digits.
abbrev pub digit : ℕ → String
digit d =
    if d == 0
    then "0"
    else if d == 1
    then "1"
    else if d == 2
    then "2"
    else if d == 3
    then "3"
    else if d == 4
    then "4"
    else if d == 5
    then "5"
    else if d == 6
    then "6"
    else if d == 7
    then "7"
    else if d == 8
    then "8"
    else "9"

pub decimal : ℕ → ℕ → String
decimal zero n = ""
decimal (suc digits) n =
    let front = decimal digits (n / 10) in
    if ltb n 10 then digit n else append_text front (digit (n % 10))

pub location_payload : ℕ → ℕ → String
unfolding decimal
location_payload x y =
    append_text "x="
      (append_text (decimal 5 x) (append_text "\ny=" (append_text (decimal 5 y) "\n")))

pub delegation_payload : Bool → String
delegation_payload true = "enabled=true\n"
delegation_payload false = "enabled=false\n"

-- Parsers give the canonical text of what they read, and the clocks their readings in this request: `now_ms` at the
-- check of the timestamp, `written_at_ms` when the handler writes.
pub record Surroundings : Type 0 where
  pub parse_owner : String → Option String
  pub parse_asset : String → Option String
  pub parse_signature : String → Option String
  pub signs : String → String → String → ℕ → String → String → Bool
  pub verify : String → String → ℤ → Result ApiError (Option LeaderboardPlayer)
  pub now_unix : ℤ
  pub now_ms : ℕ
  pub written_at_ms : ℕ
  pub persists : Bool

abbrev pub is_too_long : String → Bool
is_too_long text = ltb 128 (utf8_len (codes text))

module _ (around : Surroundings) where
  -- The checks of the request's own fields.
  unfoldable pub check_signature : ActionAuthorization → Result ApiError (String × String)
  check_signature r = do
    reject (is_too_long r.owner || (is_too_long r.player_asset || is_too_long r.signature))
        fields_too_long
    owner ← ok_or (around.parse_owner r.owner) invalid_owner
    player_asset ← ok_or (around.parse_asset r.player_asset) invalid_asset
    signature ← ok_or (around.parse_signature r.signature) invalid_signature
    reject (not (around.signs owner player_asset r.action r.timestamp_ms r.payload signature))
        unauthorized
    ok (owner, player_asset)

  abbrev pub is_active : Option LeaderboardPlayer → Bool
  is_active none = false
  is_active (some player) = player.active && elim player.expires_at [
    | none ↦ true
    | some expires_at ↦ int_ltb around.now_unix expires_at
  ]

  -- Under the registry's lock: the entry, and whether its state is active.
  unfoldable pub read_snapshot :
      Registry → String → String → Result ApiError (RegisteredPlayer × Bool)
  read_snapshot registry owner key = do
    entry ← ok_or (get registry key) not_registered
    reject (not (entry.owner == owner)) not_registered
    ok (entry, is_active entry.state)

  -- Under the registry's lock: a verified state is applied to the entry there is by then.
  unfoldable pub publish_verified :
      Registry → String → RegisteredPlayer → LeaderboardPlayer → Registry
  publish_verified registry key snapshot verified = elim (get registry key) [
    | none ↦ registry
    | some entry ↦
        put text_before registry key
          (apply_verified_state entry snapshot (some verified) around.now_unix).0
  ]

-- `u64::abs_diff`
abbrev pub abs_diff : ℕ → ℕ → ℕ
abs_diff a b = (a - b) + (b - a)

abbrev pub is_replayed : Option ℕ → ℕ → ℕ → Bool
is_replayed none timestamp_ms minimum_interval_ms = false
is_replayed (some previous) timestamp_ms minimum_interval_ms =
    leb timestamp_ms previous || ltb (timestamp_ms - previous) minimum_interval_ms

-- Under the lock of the multiplayer state: the timestamp is later than the last of its action.
unfoldable pub record_action : MultiplayerState → String → ℕ → ℕ → Result ApiError MultiplayerState
record_action multiplayer action_key timestamp_ms minimum_interval_ms =
    if is_replayed (get multiplayer.action_timestamps action_key) timestamp_ms minimum_interval_ms
    then err replayed_or_too_quick
    else ok (record multiplayer {
      action_timestamps = put text_before multiplayer.action_timestamps action_key timestamp_ms;
    })

-- A handler's state and reply: state that is written before an error stays written.
abbrev pub Handled : Type 0 → Type 0
Handled A = AppState × Result ApiError A

module _ (around : Surroundings) where
  -- The window of the clock, and the record of the action.
  unfoldable pub finish_authorization :
      AppState → ActionAuthorization → String × String → Handled (String × String)
  unfolding record_action
  finish_authorization state r names =
      if ltb action_clock_skew_ms (abs_diff around.now_ms r.timestamp_ms)
      then (state, err clock_skew)
      else elim (record_action state.multiplayer (append_text r.action (append_text ":" names.1))
          r.timestamp_ms r.minimum_interval_ms) [
            | err e ↦ (state, err e)
            | ok multiplayer ↦ (record state { multiplayer = multiplayer }, ok names)
          ]

  -- For an entry whose state is not active the lineage is verified first.
  unfoldable pub after_snapshot :
      AppState
      → ActionAuthorization
      → String × String
      → RegisteredPlayer
      → Bool
      → Handled (String × String)
  unfolding publish_verified finish_authorization
  after_snapshot state r names snapshot true = finish_authorization state r names
  after_snapshot state r names snapshot false =
      elim (around.verify names.0 names.1 snapshot.registered_at) [
        | err e ↦ (state, err e)
        | ok none ↦ (state, err no_live_state)
        | ok (some verified) ↦
            finish_authorization
              (record state {
                registry = publish_verified around state.registry names.1 snapshot verified;
              })
              r names
      ]

  unfoldable pub authorize_action : AppState → ActionAuthorization → Handled (String × String)
  unfolding check_signature read_snapshot after_snapshot
  authorize_action state r = elim (check_signature around r) [
    | err e ↦ (state, err e)
    | ok names ↦ elim (read_snapshot around state.registry names.0 names.1) [
      | err e ↦ (state, err e)
      | ok found ↦ after_snapshot state r names found.0 found.1
    ]
  ]

pub record LocationRequest : Type 0 where
  pub owner : String
  pub player_asset : String
  pub timestamp_ms : ℕ
  pub x : ℕ
  pub y : ℕ
  pub signature : String

pub record ChatRequest : Type 0 where
  pub owner : String
  pub player_asset : String
  pub timestamp_ms : ℕ
  pub message : String
  pub signature : String

pub record DelegationRequest : Type 0 where
  pub owner : String
  pub player_asset : String
  pub timestamp_ms : ℕ
  pub enabled : Bool
  pub signature : String

-- `push_back`, then `pop_front` while there are too many.
unfoldable pub push_message : List ChatMessage → ChatMessage → List ChatMessage
push_message chat message =
    let longer = chat ++ (message ∷ []) in drop (length longer - max_chat_messages) longer

unfoldable pub add_message : MultiplayerState → String → String → ℕ → MultiplayerState × ChatMessage
unfolding push_message
add_message multiplayer player_asset text now_ms =
    let message : ChatMessage = record {
      id = multiplayer.next_chat_id;
      player_asset = player_asset;
      message = text;
      created_at_ms = now_ms;
    } in
    (
      record multiplayer {
        next_chat_id = (multiplayer.next_chat_id + 1) % 2 ^ 64;
        chat = push_message multiplayer.chat message;
      },
      message,
    )

abbrev pub is_line_break : ℕ → Bool
is_line_break c = (c == 13) || (c == 10)

unfoldable pub is_invalid_message : String → Bool
is_invalid_message text =
    all_codes is_whitespace (codes text)
    || (ltb 280 (length (codes text)) || any_code is_line_break (codes text))

-- Under the registry's lock: a later update replaces the consent.
unfoldable pub write_delegation : Registry → String → Bool → ℕ → Result ApiError Registry
write_delegation registry player_asset enabled timestamp_ms = do
  entry ← ok_or (get registry player_asset) not_registered
  reject (leb timestamp_ms entry.delegation_updated_at_ms) stale_delegation
  ok (
      put text_before registry player_asset
        (record entry { delegated_renewal = enabled; delegation_updated_at_ms = timestamp_ms }))

module _ (around : Surroundings) where
  unfoldable pub update_location : AppState → LocationRequest → Handled PlayerLocation
  unfolding authorize_action location_payload
  update_location state r =
      if leb state.map_width r.x || leb state.map_height r.y
      then (state, err outside_map)
      else (let authorized = authorize_action around state (record {
        owner = r.owner;
        player_asset = r.player_asset;
        signature = r.signature;
        timestamp_ms = r.timestamp_ms;
        action = "location";
        payload = location_payload r.x r.y;
        minimum_interval_ms = location_interval_ms;
      }) in
          elim authorized.1 [
            | err e ↦ (authorized.0, err e)
            | ok names ↦
                let location : PlayerLocation = record {
                  player_asset = names.1;
                  x = r.x;
                  y = r.y;
                  updated_at_ms = around.written_at_ms;
                } in
                let multiplayer = authorized.0.multiplayer in
                (
                  record authorized.0 {
                    multiplayer = record multiplayer {
                      locations = upsert multiplayer.locations location;
                    };
                  },
                  ok location,
                )
          ])

  unfoldable pub post_chat : AppState → ChatRequest → Handled ChatMessage
  unfolding authorize_action is_invalid_message add_message
  post_chat state r =
      if is_invalid_message r.message
      then (state, err invalid_message)
      else (let authorized = authorize_action around state (record {
        owner = r.owner;
        player_asset = r.player_asset;
        signature = r.signature;
        timestamp_ms = r.timestamp_ms;
        action = "chat";
        payload = r.message;
        minimum_interval_ms = chat_interval_ms;
      }) in
          elim authorized.1 [
            | err e ↦ (authorized.0, err e)
            | ok names ↦
                let added =
                  add_message authorized.0.multiplayer names.1 r.message around.written_at_ms in
                (record authorized.0 { multiplayer = added.0 }, ok added.1)
          ])

  unfoldable pub set_delegation : AppState → DelegationRequest → Handled Bool
  unfolding authorize_action write_delegation delegation_payload
  set_delegation state r =
      if r.enabled && not state.rollover_keys
      then (state, err renewal_not_configured)
      else (let authorized = authorize_action around state (record {
        owner = r.owner;
        player_asset = r.player_asset;
        signature = r.signature;
        timestamp_ms = r.timestamp_ms;
        action = "delegation";
        payload = delegation_payload r.enabled;
        minimum_interval_ms = 0;
      }) in
          elim authorized.1 [
            | err e ↦ (authorized.0, err e)
            | ok names ↦
                elim (write_delegation authorized.0.registry names.1 r.enabled r.timestamp_ms) [
                  | err e ↦ (authorized.0, err e)
                  | ok registry ↦ (
                    record authorized.0 { registry = registry },
                    if around.persists then ok r.enabled else err persist_failed,
                  )
                ]
          ])

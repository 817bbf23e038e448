-- ===== src/Server/Actions/Replay.antt =====
-- The timestamps of the actions that `authorize_action` of src/server.rs grants.
use Prim.Native.String.{◌++◌ as append_text}
use woodland_sh.Base.{
  ℕ, ◌+◌, ◌≤◌, ◌<◌, Bool, true, false, Option, none, some, List, [], ◌∷◌, ◌==◌, string_eq, nat_eq,
  String, Result, ok, err, ◌≡◌, refl, ap, ◌⊎◌, inl, inr, arith, eq_iff, Bool-cases,
}
use woodland_sh.Base.Dict.{Dict, get, put, get-put}
use woodland_sh.Base.Texts.{text_before}
use woodland_sh.Server.{ApiError}
use woodland_sh.Server.Players.{RegisteredPlayer, LeaderboardPlayer}
use woodland_sh.Server.Actions.{
  AppState, ActionAuthorization, Surroundings, is_replayed, finish_authorization, after_snapshot,
  authorize_action, LocationRequest, ChatRequest, DelegationRequest, update_location, post_chat,
  set_delegation, add_message, check_signature, read_snapshot, publish_verified, Handled,
  location_payload, delegation_payload, location_interval_ms, chat_interval_ms,
}

-- The key of an action's timestamps.
abbrev pub action_key : String → String → String
action_key action player_asset = append_text action (append_text ":" player_asset)

abbrev timestamps : AppState → Dict String ℕ
timestamps state = state.multiplayer.action_timestamps

-- A request refused changes nothing here; one granted is fresh, and its timestamp is kept.
abbrev pub Refusal : AppState → Handled (String × String) → Type 0
Refusal before p = (e : ApiError) → p.1 ≡ err e → p.0.multiplayer ≡ before.multiplayer

abbrev pub Grant : AppState → ActionAuthorization → Handled (String × String) → Type 0
Grant before r p =
    (names : String × String)
    → p.1 ≡ ok names
    → (is_replayed (get (timestamps before) (action_key r.action names.1)) r.timestamp_ms
          r.minimum_interval_ms
        ≡ false)
      × (p.0.multiplayer ≡ record before.multiplayer {
        action_timestamps =
            put text_before (timestamps before) (action_key r.action names.1) r.timestamp_ms;
      })

module _ (around : Surroundings) where
  finish_authorization_lem :
      (state : AppState) (r : ActionAuthorization) (names : String × String)
      → Refusal state (finish_authorization around state r names)
        × Grant state r (finish_authorization around state r names)
  unfolding finish_authorization
  finish_authorization_lem state r names = ((λ e h. ground arith), (λ names' h. ground arith))

  after_snapshot_lem :
      (state : AppState) (r : ActionAuthorization) (names : String × String)
      (snapshot : RegisteredPlayer) (active : Bool)
      → Refusal state (after_snapshot around state r names snapshot active)
        × Grant state r (after_snapshot around state r names snapshot active)
  unfolding after_snapshot
  after_snapshot_lem state r names snapshot true = finish_authorization_lem state r names
  after_snapshot_lem state r names snapshot false =
      verified (around.verify names.0 names.1 snapshot.registered_at) refl
    where
      p : Handled (String × String)
      p = after_snapshot around state r names snapshot false

      verified :
          (answer : Result ApiError (Option LeaderboardPlayer))
          → around.verify names.0 names.1 snapshot.registered_at ≡ answer
          → Refusal state p × Grant state r p
      verified (err e) h = rw (h, after_snapshot) ((λ e' h'. refl), (λ names' h'. ground arith))
      verified (ok none) h = rw (h, after_snapshot) ((λ e' h'. refl), (λ names' h'. ground arith))
      verified (ok (some player)) h =
          rw (h, after_snapshot)
            (finish_authorization_lem
              (record state {
                registry = publish_verified around state.registry names.1 snapshot player;
              })
              r names)

  pub authorize_action_lem :
      (state : AppState) (r : ActionAuthorization)
      → Refusal state (authorize_action around state r)
        × Grant state r (authorize_action around state r)
  unfolding authorize_action
  authorize_action_lem state r = checked (check_signature around r) refl
    where
      p : Handled (String × String)
      p = authorize_action around state r

      found :
          (names : String × String)
          → check_signature around r ≡ ok names
          → (answer : Result ApiError (RegisteredPlayer × Bool))
          → read_snapshot around state.registry names.0 names.1 ≡ answer
          → Refusal state p × Grant state r p
      found names h (err e) h' =
          rw (h, h', authorize_action) ((λ e' k. refl), (λ names' k. ground arith))
      found names h (ok entry) h' =
          rw (h, h', authorize_action) (after_snapshot_lem state r names entry.0 entry.1)

      checked :
          (answer : Result ApiError (String × String))
          → check_signature around r ≡ answer
          → Refusal state p × Grant state r p
      checked (err e) h = rw (h, authorize_action) ((λ e' k. refl), (λ names' k. ground arith))
      checked (ok names) h =
          found names h (read_snapshot around state.registry names.0 names.1) refl

-- Every key keeps a timestamp, which only grows.
record KeepsLater (before after : AppState) : Type 0 where
  later :
      (key : String) (t : ℕ)
      → get (timestamps before) key ≡ some t
      → (t' : ℕ) × (get (timestamps after) key ≡ some t') × (t ≤ t')

KeepsLater-same :
    (before after : AppState) → timestamps after ≡ timestamps before → KeepsLater before after
KeepsLater-same before after same = record { later = λ key t e. (t, rw same e, omega arith) }

KeepsLater-put :
    (before after : AppState) (key : String) (t interval : ℕ)
    → is_replayed (get (timestamps before) key) t interval ≡ false
    → timestamps after ≡ put text_before (timestamps before) key t
    → KeepsLater before after
KeepsLater-put before after key t interval fresh same = record {
  later = λ other old e. elim (Bool-cases (other == key)) [
    | inl here ↦ (
      t,
      ground (arith, get-put text_before (timestamps before) key t other),
      ground (arith, eq_iff other key),
    )
    | inr there ↦
        (old, ground (arith, get-put text_before (timestamps before) key t other), omega arith)
  ];
}

authorize_action-KeepsLater :
    (around : Surroundings) (state : AppState) (r : ActionAuthorization)
    → KeepsLater state (authorize_action around state r).0
authorize_action-KeepsLater around state r = answered (authorize_action around state r).1 refl
  where
    p : Handled (String × String)
    p = authorize_action around state r

    answered : (answer : Result ApiError (String × String)) → p.1 ≡ answer → KeepsLater state p.0
    answered (err e) h =
        KeepsLater-same state p.0
          (ap (λ m. m.action_timestamps) ((authorize_action_lem around state r).0 e h))
    answered (ok names) h =
        let (fresh, same) = (authorize_action_lem around state r).1 names h in
        KeepsLater-put state p.0 (action_key r.action names.1) r.timestamp_ms r.minimum_interval_ms
          fresh (ap (λ m. m.action_timestamps) same)

-- A request of a player, with the surroundings it meets.
pub data Request : Type 0 where
  of_location : Surroundings → LocationRequest → Request
  of_chat : Surroundings → ChatRequest → Request
  of_delegation : Surroundings → DelegationRequest → Request

unfoldable pub handle : AppState → Request → AppState
handle state (of_location around r) = (update_location around state r).0
handle state (of_chat around r) = (post_chat around state r).0
handle state (of_delegation around r) = (set_delegation around state r).0

unfoldable pub handle_all : AppState → List Request → AppState
unfolding handle
handle_all state [] = state
handle_all state (r ∷ rest) = handle_all (handle state r) rest

abbrev pub location_action : LocationRequest → ActionAuthorization
location_action r = record {
  owner = r.owner;
  player_asset = r.player_asset;
  signature = r.signature;
  timestamp_ms = r.timestamp_ms;
  action = "location";
  payload = location_payload r.x r.y;
  minimum_interval_ms = location_interval_ms;
}

abbrev pub chat_action : ChatRequest → ActionAuthorization
chat_action r = record {
  owner = r.owner;
  player_asset = r.player_asset;
  signature = r.signature;
  timestamp_ms = r.timestamp_ms;
  action = "chat";
  payload = r.message;
  minimum_interval_ms = chat_interval_ms;
}

abbrev pub delegation_action : DelegationRequest → ActionAuthorization
delegation_action r = record {
  owner = r.owner;
  player_asset = r.player_asset;
  signature = r.signature;
  timestamp_ms = r.timestamp_ms;
  action = "delegation";
  payload = delegation_payload r.enabled;
  minimum_interval_ms = 0;
}

timestamps-update_location :
    (around : Surroundings) (state : AppState) (r : LocationRequest)
    → (timestamps (update_location around state r).0 ≡ timestamps state)
      ⊎ (timestamps (update_location around state r).0
          ≡ timestamps (authorize_action around state (location_action r)).0)
unfolding update_location
timestamps-update_location around state r = ground arith

timestamps-post_chat :
    (around : Surroundings) (state : AppState) (r : ChatRequest)
    → (timestamps (post_chat around state r).0 ≡ timestamps state)
      ⊎ (timestamps (post_chat around state r).0
          ≡ timestamps (authorize_action around state (chat_action r)).0)
unfolding post_chat add_message
timestamps-post_chat around state r = ground arith

timestamps-set_delegation :
    (around : Surroundings) (state : AppState) (r : DelegationRequest)
    → (timestamps (set_delegation around state r).0 ≡ timestamps state)
      ⊎ (timestamps (set_delegation around state r).0
          ≡ timestamps (authorize_action around state (delegation_action r)).0)
unfolding set_delegation
timestamps-set_delegation around state r = ground arith

KeepsLater-handled :
    (around : Surroundings) (state after : AppState) (r : ActionAuthorization)
    → (timestamps after ≡ timestamps state)
      ⊎ (timestamps after ≡ timestamps (authorize_action around state r).0)
    → KeepsLater state after
KeepsLater-handled around state after r (inl same) = KeepsLater-same state after same
KeepsLater-handled around state after r (inr same) = record {
  later = λ key t e.
      let (t', e', le) = (authorize_action-KeepsLater around state r).later key t e in
      (t', rw same e', le);
}

handle-KeepsLater : (state : AppState) (r : Request) → KeepsLater state (handle state r)
unfolding handle
handle-KeepsLater state (of_location around r) =
    KeepsLater-handled around state (update_location around state r).0 (location_action r)
      (timestamps-update_location around state r)
handle-KeepsLater state (of_chat around r) =
    KeepsLater-handled around state (post_chat around state r).0 (chat_action r)
      (timestamps-post_chat around state r)
handle-KeepsLater state (of_delegation around r) =
    KeepsLater-handled around state (set_delegation around state r).0 (delegation_action r)
      (timestamps-set_delegation around state r)

handle_all-KeepsLater :
    (requests : List Request) (state : AppState) → KeepsLater state (handle_all state requests)
unfolding handle_all
handle_all-KeepsLater [] state = KeepsLater-same state state refl
handle_all-KeepsLater (r ∷ rest) state = record {
  later = λ key t e.
      let (t', e', le) = (handle-KeepsLater state r).later key t e in
      let (t'', e'', le') = (handle_all-KeepsLater rest (handle state r)).later key t' e' in
      (t'', e'', omega arith);
}

-- When an action of a player has been granted and, after any requests, an action of the same kind of
-- the same player is granted again, the second timestamp is later than the first and at least the
-- second's interval after it.
pub authorize_action-once :
    (around around' : Surroundings) (state : AppState) (r r' : ActionAuthorization)
    (names names' : String × String) (between : List Request)
    → let granted = authorize_action around state r in
      let again = authorize_action around' (handle_all granted.0 between) r' in
      granted.1 ≡ ok names
      → again.1 ≡ ok names'
      → r'.action ≡ r.action
      → names'.1 ≡ names.1
      → (r.timestamp_ms < r'.timestamp_ms)
        × (r.timestamp_ms + r'.minimum_interval_ms ≤ r'.timestamp_ms)
authorize_action-once around around' state r r' names names' between h h' same_action same_player =
    let first = authorize_action around state r in
    let middle = handle_all first.0 between in
    let key = action_key r.action names.1 in
    let (_, written) = (authorize_action_lem around state r).1 names h in
    let stored : get (timestamps first.0) key ≡ some r.timestamp_ms =
      ground
        (arith, get-put text_before (timestamps state) key r.timestamp_ms key, eq_iff key key) in
    let (t, kept, le) = (handle_all-KeepsLater between first.0).later key r.timestamp_ms stored in
    let (fresh, _) = (authorize_action_lem around' middle r').1 names' h' in
    let fresh' : is_replayed (get (timestamps middle) key) r'.timestamp_ms r'.minimum_interval_ms
        ≡ false =
      rw (same_action, same_player) at fresh in
    ground arith

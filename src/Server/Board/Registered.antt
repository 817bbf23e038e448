-- ===== src/Server/Board/Registered.antt =====
-- What a registration of src/server.rs changes.
use woodland_sh.Base.{
  Bool, true, not, ◌||◌, Option, none, some, String, string_eq, Result, ok, err, ok_or, >>=-eq-ok,
  reject-eq-ok, ok_or-eq-ok, ok-injective, ◌≡◌, ◌≢◌, ◌⊎◌, inl, inr, refl, subst, if◌then◌else◌,
  arith,
}
use woodland_sh.Base.Dict.{get}
use woodland_sh.Server.{
  ApiError, fields_too_long, invalid_owner, invalid_asset, invalid_signature, unauthorized,
  no_live_state, persist_failed,
}
use woodland_sh.Server.Players.{
  LeaderboardPlayer, RegisteredPlayer, Registry, replayed_registration, merge_verified_registration,
}
use woodland_sh.Server.Players.Consent.{Stores, merge_verified_registration_lem}
use woodland_sh.Server.Actions.{AppState, Surroundings, Handled, is_too_long}
use woodland_sh.Server.Board.{
  check_registration, registration_time, store_registration, register_verified, register_player,
}

module _ (around : Surroundings) (registers : String → String → String → Bool) where
  -- The player's entry is stored, for a signature that registers it and a verified live state; nothing else
  -- has changed.
  pub record IsStored (state next : AppState) (owner asset signature : String) : Type 0 where
    pub parsed_owner : String
    pub parsed_asset : String
    pub parsed_signature : String
    pub verified : LeaderboardPlayer
    pub entry : RegisteredPlayer
    pub owner_read : around.parse_owner owner ≡ some parsed_owner
    pub asset_read : around.parse_asset asset ≡ some parsed_asset
    pub signature_read : around.parse_signature signature ≡ some parsed_signature
    pub authorized : registers parsed_owner parsed_asset parsed_signature ≡ true
    pub live :
        around.verify parsed_owner parsed_asset
          (registration_time around (get state.registry parsed_asset))
        ≡ ok (some verified)
    pub stored : get next.registry verified.player_asset ≡ some entry
    pub same_owner : entry.owner ≡ verified.owner
    pub consent : Stores (get state.registry verified.player_asset) parsed_signature entry
    pub others :
        (other : String)
        → other ≢ verified.player_asset
        → get next.registry other ≡ get state.registry other
    pub multiplayer : next.multiplayer ≡ state.multiplayer

  check_registration-eq-ok :
      (owner asset signature : String) (names : String × String × String)
      → check_registration around registers owner asset signature ≡ ok names
      → (around.parse_owner owner ≡ some names.0)
        × (around.parse_asset asset ≡ some names.1)
        × (around.parse_signature signature ≡ some names.2)
        × (registers names.0 names.1 names.2 ≡ true)
  unfolding check_registration
  check_registration-eq-ok owner asset signature names h =
      let one =
        reject-eq-ok (is_too_long owner || (is_too_long asset || is_too_long signature))
          fields_too_long _ h in
      let two = >>=-eq-ok (ok_or (around.parse_owner owner) invalid_owner) _ one.1 in
      let three = >>=-eq-ok (ok_or (around.parse_asset asset) invalid_asset) _ two.2 in
      let four = >>=-eq-ok (ok_or (around.parse_signature signature) invalid_signature) _ three.2 in
      let five = reject-eq-ok (not (registers two.0 three.0 four.0)) unauthorized _ four.2 in
      subst
        (λ (n : String × String × String).
          (around.parse_owner owner ≡ some n.0)
          × (around.parse_asset asset ≡ some n.1)
          × (around.parse_signature signature ≡ some n.2)
          × (registers n.0 n.1 n.2 ≡ true))
        {x = (two.0, three.0, four.0)} (ok-injective five.1)
        (
          ok_or-eq-ok _ invalid_owner two.1,
          ok_or-eq-ok _ invalid_asset three.1,
          ok_or-eq-ok _ invalid_signature four.1,
          ground (arith, five.0),
        )

  module _ (state : AppState) (owner asset signature : String)
      (names : String × String × String) where
    IsHandled : Handled LeaderboardPlayer → Type 0
    IsHandled handled = (handled.0 ≡ state) ⊎ IsStored state handled.0 owner asset signature

    store_lem :
        check_registration around registers owner asset signature ≡ ok names
        → (verified : LeaderboardPlayer)
        → around.verify names.0 names.1 (registration_time around (get state.registry names.1))
          ≡ ok (some verified)
        → IsHandled (store_registration around state (get state.registry names.1) names.2 verified)
    unfolding store_registration IsHandled
    store_lem c verified v =
        by_merge
          (merge_verified_registration state.registry (get state.registry names.1) names.2 verified
            around.now_unix)
          refl
      where
        by_merge :
            (m : Result ApiError (Registry × LeaderboardPlayer))
            → merge_verified_registration state.registry
                (get state.registry names.1)
                names.2
                verified
                around.now_unix
              ≡ m
            → IsHandled (elim m [
              | err e ↦ (state, err e)
              | ok merged ↦ (
                record state { registry = merged.0 },
                (if around.persists then ok merged.1 else err persist_failed),
              )
            ])
        by_merge (err e) k = inl refl
        by_merge (ok merged) k =
            let read = check_registration-eq-ok owner asset signature names c in
            let m =
              merge_verified_registration_lem state.registry (get state.registry names.1) names.2
                verified around.now_unix merged.0 merged.1 k in
            inr (record {
              parsed_owner = names.0;
              parsed_asset = names.1;
              parsed_signature = names.2;
              verified = verified;
              entry = m.0.0;
              owner_read = read.0;
              asset_read = read.1;
              signature_read = read.2;
              authorized = read.3;
              live = v;
              stored = m.0.1;
              same_owner = m.0.2;
              consent = m.0.3;
              others = m.1;
              multiplayer = refl;
            })

    verified_lem :
        check_registration around registers owner asset signature ≡ ok names
        → IsHandled (register_verified around state names)
    unfolding register_verified IsHandled
    verified_lem c =
        by_replay (replayed_registration state.registry names.0 names.1 names.2 around.now_unix)
          (around.verify names.0 names.1 (registration_time around (get state.registry names.1)))
          refl
      where
        by_replay :
            (replayed : Option LeaderboardPlayer) (v : Result ApiError (Option LeaderboardPlayer))
            → around.verify names.0 names.1 (registration_time around (get state.registry names.1))
              ≡ v
            → IsHandled (elim replayed [
              | some player ↦ (state, ok player)
              | none ↦ elim v [
                | err e ↦ (state, err e)
                | ok none ↦ (state, err no_live_state)
                | ok (some verified) ↦
                    store_registration around state (get state.registry names.1) names.2 verified
              ]
            ])
        by_replay (some player) v k = inl refl
        by_replay none (err e) k = inl refl
        by_replay none (ok none) k = inl refl
        by_replay none (ok (some verified)) k = store_lem c verified k

  -- A registration leaves the server as it was, or stores the player's entry: the request's signature
  -- registers the player, and a live state of the owner is verified. An entry that there was is of the same
  -- owner and keeps its consent and its time; a new one has consented to no renewal. Other entries,
  -- positions and chat stay as they are.
  pub register_player_lem :
      (state : AppState) (owner asset signature : String)
      → ((register_player around registers state owner asset signature).0 ≡ state)
        ⊎ IsStored state
            (register_player around registers state owner asset signature).0
            owner
            asset
            signature
  unfolding register_player IsHandled
  register_player_lem state owner asset signature =
      by_names (check_registration around registers owner asset signature) refl
    where
      by_names :
          (c : Result ApiError (String × String × String))
          → check_registration around registers owner asset signature ≡ c
          → IsHandled state owner asset signature
              ("", "", "")
              (elim c [ err e ↦ (state, err e) | ok names ↦ register_verified around state names ])
      by_names (err e) k = inl refl
      by_names (ok names) k = verified_lem state owner asset signature names k

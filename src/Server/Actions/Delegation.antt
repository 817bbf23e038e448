-- ===== src/Server/Actions/Delegation.antt =====
-- Changes of consent in src/server.rs, and the renewals queued before them.
use woodland_sh.Base.{
  ℕ, ◌<◌, Bool, false, some, String, ok, ◌≡◌, ◌≢◌, refl, arith, string_eq, nat_eq, eq_iff,
}
use woodland_sh.Base.Dict.{get, put, get-put}
use woodland_sh.Base.Texts.{text_before}
use woodland_sh.Base.Int.{ℤ}
use woodland_sh.Server.Players.{RegisteredPlayer, Registry, queued_renewal_authorized}
use woodland_sh.Server.Actions.{write_delegation}

-- A change of consent that succeeds is later than the one it replaces, stores what was asked for,
-- changes no other entry, and no renewal that was queued with the entry before it is authorized
-- after it, at any time and even if it is forced.
pub write_delegation-revokes :
    (registry after : Registry) (player_asset : String) (enabled : Bool) (timestamp_ms : ℕ)
    (queued : RegisteredPlayer)
    → get registry player_asset ≡ some queued
    → write_delegation registry player_asset enabled timestamp_ms ≡ ok after
    → ((new : RegisteredPlayer) × (get after player_asset ≡ some new)
        × (new.delegated_renewal ≡ enabled)
        × (queued.delegation_updated_at_ms < new.delegation_updated_at_ms)
        × ((now : ℤ) (force : Bool) → queued_renewal_authorized new queued now force ≡ false))
      × ((other : String) → other ≢ player_asset → get after other ≡ get registry other)
unfolding write_delegation queued_renewal_authorized
write_delegation-revokes registry after player_asset enabled timestamp_ms queued here h =
    let new = record queued {
      delegated_renewal = enabled;
      delegation_updated_at_ms = timestamp_ms;
    } in
    let later : queued.delegation_updated_at_ms < timestamp_ms = ground arith in
    let stored : put text_before registry player_asset new ≡ after = ground arith in
    (
      (
        new,
        ground (
          arith,
          get-put text_before registry player_asset new player_asset,
          eq_iff player_asset player_asset,
        ),
        refl,
        later,
        (λ now force. ground arith),
      ),
      (λ other different.
          ground (
            arith,
            get-put text_before registry player_asset new other,
            eq_iff other player_asset,
          )),
    )

-- ===== src/Server.antt =====
-- src/server.rs: what the game server keeps, and the handlers that change it.
pub mod Locations
pub mod Players
pub mod Actions
pub mod Board
mod Examples
use woodland_sh.Base.{String}

-- The errors of a handler, by their status and cause.
pub data ApiError : Type 0 where
  fields_too_long invalid_owner invalid_asset invalid_signature unauthorized : ApiError
  not_registered upstream no_live_state clock_skew replayed_or_too_quick : ApiError
  outside_map invalid_message renewal_not_configured stale_delegation : ApiError
  owner_changed limit_reached persist_failed invalid_viewport : ApiError

-- ===== src/Server/Locations/Indexed.antt =====
-- The chunks of `LocationIndex` (src/server.rs) against the players' locations.
use woodland_sh.Base.{
  ℕ, ◌≤◌, Bool, true, false, not, ◌&&◌, ◌||◌, Option, none, some, List, [], ◌∷◌, if◌then◌else◌,
  ◌==◌, nat_eq, string_eq, contains, String, ◌≡◌, ◌↔◌, refl, arith, eq_iff,
}
use woodland_sh.Base.Dict.{
  Dict, IsUnique, get, put, delete, add, discard, get-put, get-delete, contains-add,
  contains-discard,
}
use woodland_sh.Base.Texts.{text_before}
use woodland_sh.Server.Locations.{
  PlayerLocation, Chunk, chunk_eq, chunk_beq_iff, chunk_before, LocationIndex, chunk, is_empty,
  leave_chunk, remove, or_empty, enter_chunk, upsert, is_stale, stale_players, remove_all,
  retain_active,
}

-- Whether a player's location, where there is one, lies in a chunk.
abbrev pub lies_in : Option PlayerLocation → Chunk → Bool
lies_in none c = false
lies_in (some location) c = c == chunk location.x location.y

abbrev pub players_in : Dict Chunk (List String) → Chunk → List String
players_in chunks c = or_empty (get chunks c)

-- A chunk lists exactly the players whose locations lie in it.
abbrev pub IsIndexed : LocationIndex → Type 0
IsIndexed index =
    (player_asset : String) (c : Chunk)
    → contains (players_in index.chunks c) player_asset
      ≡ lies_in (get index.by_player player_asset) c

-- What a set without the player does to a chunk that lists the set.
contains-left :
    (chunks : Dict Chunk (List String)) (at c : Chunk) (left : List String) (other : String)
    → contains
        (players_in (if is_empty left then delete chunks at else put chunk_before chunks at left) c)
        other
      ≡ (if c == at then contains left other else contains (players_in chunks c) other)
contains-left chunks at c [] other = ground (arith, get-delete chunks at c)
contains-left chunks at c (x ∷ left) other =
    ground (arith, get-put chunk_before chunks at (x ∷ left) c)

contains-leave_chunk :
    (chunks : Dict Chunk (List String)) (at c : Chunk) (p other : String)
    → contains (players_in (leave_chunk chunks at p) c) other
      ≡ (contains (players_in chunks c) other && not (c == at && other == p))
unfolding leave_chunk
contains-leave_chunk chunks at c p other =
    elim (get chunks at)
        as (λ found.
          get chunks at ≡ found
          → contains
              (players_in
                (elim found [
                  | none ↦ chunks
                  | some players ↦
                      let left = discard players p in
                      if is_empty left then delete chunks at else put chunk_before chunks at left
                ])
                c)
              other
            ≡ (contains (players_in chunks c) other && not (c == at && other == p))) [
              | none ↦ λ e. ground (arith, chunk_beq_iff c at)
              | some players ↦ λ e. ground (
                arith,
                contains-left chunks at c (discard players p) other,
                contains-discard players p other,
                chunk_beq_iff c at,
              )
            ]
      refl

contains-enter_chunk :
    (chunks : Dict Chunk (List String)) (at c : Chunk) (p other : String)
    → contains (players_in (enter_chunk chunks at p) c) other
      ≡ (contains (players_in chunks c) other || (c == at && other == p))
unfolding enter_chunk
contains-enter_chunk chunks at c p other = ground (
  arith,
  get-put chunk_before chunks at (add text_before (or_empty (get chunks at)) p) c,
  contains-add text_before (or_empty (get chunks at)) p other,
  chunk_beq_iff c at,
)

remove-IsIndexed :
    (index : LocationIndex) (p : String) → IsIndexed index → IsIndexed (remove index p)
unfolding remove
remove-IsIndexed index p h other c = case (get index.by_player p) refl
  where
    case :
        (found : Option PlayerLocation)
        → get index.by_player p ≡ found
        → contains (players_in (remove index p).chunks c) other
          ≡ lies_in (get (remove index p).by_player other) c
    case none e = ground (arith, h other c)
    case (some previous) e = ground (
      arith,
      h other c,
      contains-leave_chunk index.chunks (chunk previous.x previous.y) c p other,
      get-delete index.by_player p other,
      eq_iff other p,
    )

-- A player that is taken out has no location, and the others keep theirs.
get-remove :
    (index : LocationIndex) (p other : String)
    → get (remove index p).by_player other
      ≡ (if other == p then none else get index.by_player other)
unfolding remove
get-remove index p other = ground (arith, get-delete index.by_player p other, eq_iff other p)

-- After any update the chunks still list exactly the players whose locations lie in them, where they
-- did before; the player has the new location, and the others have theirs.
pub upsert-IsIndexed :
    (index : LocationIndex) (location : PlayerLocation)
    → IsIndexed index
    → IsIndexed (upsert index location)
      × ((other : String)
          → get (upsert index location).by_player other
            ≡ (if other == location.player_asset then some location else get index.by_player other))
unfolding upsert
upsert-IsIndexed index location h = (indexed, located)
  where
    removed : LocationIndex
    removed = remove index location.player_asset

    indexed : IsIndexed (upsert index location)
    indexed other c = ground (
      arith,
      remove-IsIndexed index location.player_asset h other c,
      get-remove index location.player_asset other,
      get-put text_before removed.by_player location.player_asset location other,
      contains-enter_chunk removed.chunks (chunk location.x location.y) c location.player_asset
          other,
    )

    located :
        (other : String)
        → get (upsert index location).by_player other
          ≡ (if other == location.player_asset then some location else get index.by_player other)
    located other = ground (
      arith,
      get-remove index location.player_asset other,
      get-put text_before removed.by_player location.player_asset location other,
    )

remove_all-IsIndexed :
    (index : LocationIndex) (gone : List String)
    → IsIndexed index
    → IsIndexed (remove_all index gone)
unfolding remove_all
remove_all-IsIndexed index [] h = h
remove_all-IsIndexed index (p ∷ rest) h =
    remove_all-IsIndexed (remove index p) rest (remove-IsIndexed index p h)

get-remove_all :
    (gone : List String) (index : LocationIndex) (other : String)
    → get (remove_all index gone).by_player other
      ≡ (if contains gone other then none else get index.by_player other)
unfolding remove_all
get-remove_all [] index other = ground arith
get-remove_all (p ∷ rest) index other =
    ground (arith, get-remove_all rest (remove index p) other, get-remove index p other)

-- The stale players are those whose entries are stale.
abbrev pub is_stale_entry : List String → ℕ → String → Option PlayerLocation → Bool
is_stale_entry active cutoff p none = false
is_stale_entry active cutoff p (some location) = is_stale active cutoff (p, location)

contains-stale_players :
    (active : List String) (cutoff : ℕ) (entries : Dict String PlayerLocation) (p : String)
    → IsUnique entries
    → contains (stale_players active cutoff entries) p
      ≡ is_stale_entry active cutoff p (get entries p)
unfolding stale_players get
contains-stale_players active cutoff [] p d = ground arith
contains-stale_players active cutoff (entry ∷ rest) p d =
    ground (arith, contains-stale_players active cutoff rest p d.1, eq_iff p entry.0)

-- Where the chunks list exactly the players whose locations lie in them, and each player stands once,
-- `retain_active` keeps that, and keeps exactly the locations of active players that are not older
-- than the cutoff.
pub retain_active-IsIndexed :
    (index : LocationIndex) (active : List String) (cutoff : ℕ)
    → IsUnique index.by_player
    → IsIndexed index
    → IsIndexed (retain_active index active cutoff)
      × ((p : String) (location : PlayerLocation)
          → (get (retain_active index active cutoff).by_player p ≡ some location) ↔ (
              (get index.by_player p ≡ some location)
              × (contains active p ≡ true)
              × (cutoff ≤ location.updated_at_ms)))
unfolding retain_active
retain_active-IsIndexed index active cutoff unique h = (indexed, located)
  where
    stale : List String
    stale = stale_players active cutoff index.by_player

    indexed : IsIndexed (retain_active index active cutoff)
    indexed = remove_all-IsIndexed index stale h

    located :
        (p : String) (location : PlayerLocation)
        → (get (retain_active index active cutoff).by_player p ≡ some location) ↔ (
            (get index.by_player p ≡ some location)
            × (contains active p ≡ true)
            × (cutoff ≤ location.updated_at_ms))
    located p location = ground (
      arith,
      get-remove_all stale index p,
      contains-stale_players active cutoff index.by_player p unique,
    )

-- ===== src/Server/Locations.antt =====
-- `LocationIndex` of src/server.rs: where the players stand, by player and by chunk of the map.
pub mod Indexed
pub mod Query
use woodland_sh.Base.{
  ℕ, zero, suc, ◌+◌, ◌-◌, ◌/◌, Bool, true, false, not, ◌&&◌, ◌||◌, Option, none, some, List, [],
  ◌∷◌, ltb, leb, if◌then◌else◌, length, ◌==◌, Eq, nat_eq, string_eq, contains, String, ◌++◌, ◌≡◌,
  ◌↔◌, arith,
}
use woodland_sh.Base.Dict.{Dict, get, put, delete, add, discard}
use woodland_sh.Base.Texts.{text_before}

abbrev pub presence_chunk_size : ℕ
presence_chunk_size = 32

abbrev pub max_presence_results : ℕ
max_presence_results = 2000

pub record PlayerLocation : Type 0 where
  pub player_asset : String
  pub x : ℕ
  pub y : ℕ
  pub updated_at_ms : ℕ

-- The key of a chunk, a pair in the source.
pub record Chunk : Type 0 where
  pub column : ℕ
  pub row : ℕ

abbrev pub chunk_beq : Chunk → Chunk → Bool
chunk_beq a b = a.column == b.column && a.row == b.row

pub chunk_beq_iff : (a b : Chunk) → (chunk_beq a b ≡ true) ↔ (a ≡ b)
chunk_beq_iff a b = ground arith

instance abbrev pub chunk_eq : Eq Chunk
chunk_eq = record { beq = chunk_beq; beq_iff = chunk_beq_iff }

abbrev pub chunk_before : Chunk → Chunk → Bool
chunk_before a b = ltb a.column b.column || (a.column == b.column && ltb a.row b.row)

pub record LocationIndex : Type 0 where
  pub by_player : Dict String PlayerLocation
  pub chunks : Dict Chunk (List String)

unfoldable pub chunk : ℕ → ℕ → Chunk
chunk x y = record { column = x / presence_chunk_size; row = y / presence_chunk_size }

abbrev pub is_empty {ℓ} : {A : Type ℓ} → List A → Bool
is_empty [] = true
is_empty (x ∷ rest) = false

-- The player is taken out of the chunk's players, and the chunk out of the chunks once it is empty.
unfoldable pub leave_chunk : Dict Chunk (List String) → Chunk → String → Dict Chunk (List String)
leave_chunk chunks at player_asset = elim (get chunks at) [
  | none ↦ chunks
  | some players ↦
      let left = discard players player_asset in
      if is_empty left then delete chunks at else put chunk_before chunks at left
]

unfoldable pub remove : LocationIndex → String → LocationIndex
unfolding leave_chunk chunk
remove index player_asset = elim (get index.by_player player_asset) [
  | none ↦ index
  | some previous ↦ record {
    by_player = delete index.by_player player_asset;
    chunks = leave_chunk index.chunks (chunk previous.x previous.y) player_asset;
  }
]

abbrev pub or_empty {ℓ} : {A : Type ℓ} → Option (List A) → List A
or_empty none = []
or_empty (some xs) = xs

-- `entry(chunk).or_default().insert(player_asset)`
unfoldable pub enter_chunk : Dict Chunk (List String) → Chunk → String → Dict Chunk (List String)
enter_chunk chunks at player_asset =
    put chunk_before chunks at (add text_before (or_empty (get chunks at)) player_asset)

unfoldable pub upsert : LocationIndex → PlayerLocation → LocationIndex
unfolding remove enter_chunk
upsert index location =
    let removed = remove index location.player_asset in
    record {
      by_player = put text_before removed.by_player location.player_asset location;
      chunks = enter_chunk removed.chunks (chunk location.x location.y) location.player_asset;
    }

abbrev pub is_stale : List String → ℕ → String × PlayerLocation → Bool
is_stale active cutoff entry = not (contains active entry.0) || ltb entry.1.updated_at_ms cutoff

unfoldable pub stale_players : List String → ℕ → Dict String PlayerLocation → List String
stale_players active cutoff [] = []
stale_players active cutoff (entry ∷ rest) =
    let others = stale_players active cutoff rest in
    if is_stale active cutoff entry then entry.0 ∷ others else others

unfoldable pub remove_all : LocationIndex → List String → LocationIndex
unfolding remove
remove_all index [] = index
remove_all index (player_asset ∷ rest) = remove_all (remove index player_asset) rest

unfoldable pub retain_active : LocationIndex → List String → ℕ → LocationIndex
unfolding stale_players remove_all
retain_active index active cutoff = remove_all index (stale_players active cutoff index.by_player)

-- The corners of the asked rectangle.
pub record Viewport : Type 0 where
  pub min_x : ℕ
  pub max_x : ℕ
  pub min_y : ℕ
  pub max_y : ℕ

abbrev pub is_outside : Viewport → PlayerLocation → Bool
is_outside q location =
    ltb location.x q.min_x
    || (ltb q.max_x location.x || (ltb location.y q.min_y || ltb q.max_y location.y))

-- The locations found so far, and whether the query has stopped at the limit.
abbrev pub Found : Type 0
Found = List PlayerLocation × Bool

module _ (index : LocationIndex) (q : Viewport) where
  unfoldable pub visit_players : List PlayerLocation → List String → Found
  visit_players found [] = (found, false)
  visit_players found (player_asset ∷ rest) = elim (get index.by_player player_asset) [
    | none ↦ visit_players found rest
    | some location ↦
        if is_outside q location
        then visit_players found rest
        else if length found == max_presence_results
        then (found, true)
        else visit_players (found ++ (location ∷ [])) rest
  ]

  -- `for chunk_x in column..=max` of a row, with the columns left.
  unfoldable pub visit_columns : List PlayerLocation → ℕ → ℕ → ℕ → Found
  unfolding visit_players
  visit_columns found row column zero = (found, false)
  visit_columns found row column (suc n) =
      let here =
        visit_players found (or_empty (get index.chunks (record { column = column; row = row }))) in
      let rest = visit_columns here.0 row (column + 1) n in if here.1 then here else rest

  -- `for chunk_y in row..=max`, with the rows left.
  unfoldable pub visit_rows : List PlayerLocation → ℕ → ℕ → ℕ → ℕ → Found
  unfolding visit_columns
  visit_rows found column columns row zero = (found, false)
  visit_rows found column columns row (suc n) =
      let here = visit_columns found row column columns in
      let rest = visit_rows here.0 column columns (row + 1) n in if here.1 then here else rest

  unfoldable pub query : Found
  unfolding visit_rows chunk
  query =
      let min_chunk = chunk q.min_x q.min_y in
      let max_chunk = chunk q.max_x q.max_y in
      visit_rows [] min_chunk.column (max_chunk.column + 1 - min_chunk.column) min_chunk.row
        (max_chunk.row + 1 - min_chunk.row)

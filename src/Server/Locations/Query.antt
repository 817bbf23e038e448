-- ===== src/Server/Locations/Query.antt =====
-- The queries of `LocationIndex` (src/server.rs).
use woodland_sh.Base.{
  ℕ, zero, suc, ◌+◌, ◌-◌, ◌/◌, ◌≤◌, ◌<◌, Bool, true, false, Option, none, some, List, [], ◌∷◌, ◌++◌,
  length, length-append, nat_beq_iff, ◌==◌, ==-refl, nat_eq, string_eq, contains, String, ◌≡◌, ◌⊎◌,
  refl, sym, arith, eq_iff, Bool-cases, inl, inr, subst, All, All-append,
}
use woodland_sh.Base.Dict.{get}
use woodland_sh.Server.Locations.{
  PlayerLocation, Chunk, chunk_eq, LocationIndex, chunk, max_presence_results, Viewport, is_outside,
  Found, visit_players, visit_columns, visit_rows, query,
}
use woodland_sh.Server.Locations.Indexed.{IsIndexed, players_in}

-- The location stands in the list.
abbrev pub Has : PlayerLocation → List PlayerLocation → Type 0
Has location [] = ⊥
Has location (first ∷ rest) = (location ≡ first) ⊎ Has location rest

Has-append_left :
    (location : PlayerLocation) (xs ys : List PlayerLocation)
    → Has location xs
    → Has location (xs ++ ys)
Has-append_left location [] ys h = elim h [ ]
Has-append_left location (x ∷ xs) ys (inl e) = inl e
Has-append_left location (x ∷ xs) ys (inr h) = inr (Has-append_left location xs ys h)

Has-append_last :
    (location : PlayerLocation) (xs : List PlayerLocation) → Has location (xs ++ (location ∷ []))
Has-append_last location [] = inl refl
Has-append_last location (x ∷ xs) = inr (Has-append_last location xs)

module _ (index : LocationIndex) (q : Viewport) where
  -- A location of the index inside the rectangle.
  pub record IsAnswer (location : PlayerLocation) : Type 0 where
    pub player_asset : String
    pub stored : get index.by_player player_asset ≡ some location
    pub inside : is_outside q location ≡ false

  -- What a visit adds to the locations found before it.
  record Extends (before : List PlayerLocation) (after : Found) : Type 0 where
    answers : All IsAnswer before → All IsAnswer after.0
    bounded : length before ≤ max_presence_results → length after.0 ≤ max_presence_results
    keeps : (location : PlayerLocation) → Has location before → Has location after.0

  Extends-self : (found : List PlayerLocation) (stopped : Bool) → Extends found (found, stopped)
  Extends-self found stopped = record {
    answers = λ h. h;
    bounded = λ h. h;
    keeps = λ location h. h;
  }

  Extends-then :
      (before : List PlayerLocation) (middle after : Found)
      → Extends before middle
      → Extends middle.0 after
      → Extends before after
  Extends-then before middle after first second = record {
    answers = λ h. second.answers (first.answers h);
    bounded = λ h. second.bounded (first.bounded h);
    keeps = λ location h. second.keeps location (first.keeps location h);
  }

  -- A location inside the rectangle below the limit is added.
  Extends-one :
      (found : List PlayerLocation) (location : PlayerLocation)
      → IsAnswer location
      → (length found == max_presence_results) ≡ false
      → Extends found (found ++ (location ∷ []), false)
  Extends-one found location answer below = record {
    answers = λ h. All-append IsAnswer found (location ∷ []) h (answer, tt);
    bounded = λ h. ground (arith, length-append found (location ∷ []));
    keeps = λ other h. Has-append_left other found (location ∷ []) h;
  }

  -- The cases of the visit of one player.
  data Visit (p : String) (rest : List String) (found : List PlayerLocation) : Type 0 where
    skipped :
        ((location : PlayerLocation)
          → get index.by_player p ≡ some location
          → is_outside q location ≡ true)
        → visit_players index q found (p ∷ rest) ≡ visit_players index q found rest
        → Visit p rest found
    stopped : visit_players index q found (p ∷ rest) ≡ (found, true) → Visit p rest found
    added :
        (location : PlayerLocation)
        → IsAnswer location
        → get index.by_player p ≡ some location
        → (length found == max_presence_results) ≡ false
        → visit_players index q found (p ∷ rest)
          ≡ visit_players index q (found ++ (location ∷ [])) rest
        → Visit p rest found

  cases_at_player :
      (p : String) (rest : List String) (found : List PlayerLocation)
      → (at : Option PlayerLocation) → get index.by_player p ≡ at
      → Visit p rest found
  unfolding visit_players
  cases_at_player p rest found none e = skipped (λ location here. cc) (ground arith)
  cases_at_player p rest found (some location) e = elim (Bool-cases (is_outside q location)) [
    | inl outside ↦ skipped (λ other here. ground arith) (ground arith)
    | inr inside ↦ elim (Bool-cases (length found == max_presence_results)) [
      | inl full ↦ stopped (ground arith)
      | inr below ↦
          added location (record { player_asset = p; stored = e; inside = inside }) e below
            (ground arith)
    ]
  ]

  visit_players-Extends :
      (players : List String) (found : List PlayerLocation)
      → Extends found (visit_players index q found players)
  visit_players-Extends [] found = unfold visit_players in Extends-self found false
  visit_players-Extends (p ∷ rest) found =
      elim (cases_at_player p rest found (get index.by_player p) refl) [
        | skipped _ e ↦ rw e (visit_players-Extends rest found)
        | stopped e ↦ rw e (Extends-self found true)
        | added location answer _ below e ↦ rw e (
            Extends-then found (found ++ (location ∷ []), false)
              (visit_players index q (found ++ (location ∷ [])) rest)
              (Extends-one found location answer below)
              (visit_players-Extends rest (found ++ (location ∷ []))))
      ]

  visit_columns-Extends :
      (n : ℕ) (found : List PlayerLocation) (row column : ℕ)
      → Extends found (visit_columns index q found row column n)
  unfolding visit_columns
  visit_columns-Extends zero found row column = Extends-self found false
  visit_columns-Extends (suc n) found row column =
      let players = players_in index.chunks (record { column = column; row = row }) in
      let here = visit_players index q found players in
      let first = visit_players-Extends players found in
      let rest = visit_columns-Extends n here.0 row (column + 1) in
      elim (Bool-cases here.1) [
        | inl full ↦ rw full first
        | inr on ↦
            rw on
              (Extends-then found here (visit_columns index q here.0 row (column + 1) n) first rest)
      ]

  visit_rows-Extends :
      (n : ℕ) (found : List PlayerLocation) (column columns row : ℕ)
      → Extends found (visit_rows index q found column columns row n)
  unfolding visit_rows
  visit_rows-Extends zero found column columns row = Extends-self found false
  visit_rows-Extends (suc n) found column columns row =
      let here = visit_columns index q found row column columns in
      let first = visit_columns-Extends columns found row column in
      let rest = visit_rows-Extends n here.0 column columns (row + 1) in
      elim (Bool-cases here.1) [
        | inl full ↦ rw full first
        | inr on ↦ rw on (
            Extends-then found here (visit_rows index q here.0 column columns (row + 1) n) first
              rest)
      ]

  module _ (p : String) (location : PlayerLocation) (stored : get index.by_player p ≡ some location)
      (inside : is_outside q location ≡ false) where
    visit_players-Has :
        (players : List String) (found : List PlayerLocation)
        → contains players p ≡ true
        → (visit_players index q found players).1 ≡ false
        → Has location (visit_players index q found players).0
    visit_players-Has [] found listed finished = absurd (ground arith)
    visit_players-Has (first ∷ rest) found listed finished =
        elim (cases_at_player first rest found (get index.by_player first) refl) [
          | skipped out e ↦ rw e (
              visit_players-Has rest found (ground (arith, out location, eq_iff p first))
                (rw e at finished))
          | stopped e ↦ absurd (ground arith)
          | added other _ here _ e ↦
              let more = visit_players-Extends rest (found ++ (other ∷ [])) in
              rw e (elim (Bool-cases (p == first)) [
                | inl same ↦ more.keeps location (
                    subst (λ l. Has location (found ++ (l ∷ []))) (ground (arith, eq_iff p first))
                      (Has-append_last location found))
                | inr different ↦
                    visit_players-Has rest (found ++ (other ∷ [])) (ground arith) (rw e at finished)
              ])
        ]

    visit_columns-Has :
        (n : ℕ) (found : List PlayerLocation) (row column at : ℕ)
        → column ≤ at
        → at < column + n
        → contains (players_in index.chunks (record { column = at; row = row })) p ≡ true
        → (visit_columns index q found row column n).1 ≡ false
        → Has location (visit_columns index q found row column n).0
    unfolding visit_columns
    visit_columns-Has zero found row column at low high listed finished = absurd (omega arith)
    visit_columns-Has (suc n) found row column at low high listed finished =
        let players = players_in index.chunks (record { column = column; row = row }) in
        let here = visit_players index q found players in
        elim (Bool-cases here.1) [
          | inl full ↦ absurd (ground arith)
          | inr on ↦ rw on (elim (Bool-cases (at == column)) [
            | inl same ↦ (visit_columns-Extends n here.0 row (column + 1)).keeps location (
                visit_players-Has players found (rw (sym ((nat_beq_iff at column).0 same)) listed)
                  on)
            | inr later ↦
                visit_columns-Has n here.0 row (column + 1) at (ground arith) (omega arith) listed
                  (rw on at finished)
          ])
        ]

    visit_rows-Has :
        (n : ℕ) (found : List PlayerLocation) (column columns row : ℕ) (c : Chunk)
        → (column ≤ c.column) × (c.column < column + columns)
        → (row ≤ c.row) × (c.row < row + n)
        → contains (players_in index.chunks c) p ≡ true
        → (visit_rows index q found column columns row n).1 ≡ false
        → Has location (visit_rows index q found column columns row n).0
    unfolding visit_rows
    visit_rows-Has zero found column columns row c across down listed finished =
        absurd (omega arith)
    visit_rows-Has (suc n) found column columns row c across down listed finished =
        let here = visit_columns index q found row column columns in
        elim (Bool-cases here.1) [
          | inl full ↦ absurd (ground arith)
          | inr on ↦ rw on (elim (Bool-cases (c.row == row)) [
            | inl same ↦ (visit_rows-Extends n here.0 column columns (row + 1)).keeps location (
                visit_columns-Has columns found row column c.column across.0 across.1
                  (rw (sym ((nat_beq_iff c.row row).0 same)) listed) on)
            | inr later ↦
                visit_rows-Has n here.0 column columns (row + 1) c across (ground arith) listed
                  (rw on at finished)
          ])
        ]

    query-Has : IsIndexed index → (query index q).1 ≡ false → Has location (query index q).0
    unfolding query chunk
    query-Has indexed finished =
        visit_rows-Has (q.max_y / 32 + 1 - q.min_y / 32) [] (q.min_x / 32)
          (q.max_x / 32 + 1 - q.min_x / 32) (q.min_y / 32) (chunk location.x location.y)
          (ground arith) (ground arith)
          (ground
            (arith, indexed p (chunk location.x location.y), ==-refl (chunk location.x location.y)))
          finished

  -- A query finds only locations of the index inside its rectangle, and at most 2,000 of them; where
  -- the chunks list exactly the players whose locations lie in them, and it does not stop at that
  -- limit, it finds all of them.
  pub query_lem :
      All IsAnswer (query index q).0
      × (length (query index q).0 ≤ max_presence_results)
      × (IsIndexed index
          → (query index q).1 ≡ false
          → (location : PlayerLocation) → IsAnswer location
          → Has location (query index q).0)
  query_lem =
      let visited : Extends [] (query index q) =
        unfold query chunk in
        visit_rows-Extends (q.max_y / 32 + 1 - q.min_y / 32) [] (q.min_x / 32)
          (q.max_x / 32 + 1 - q.min_x / 32) (q.min_y / 32) in
      (
        visited.answers tt,
        visited.bounded (omega arith),
        (λ indexed finished location answer.
            query-Has answer.player_asset location answer.stored answer.inside indexed finished),
      )

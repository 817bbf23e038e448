-- ===== src/Server/Board/Ranked.antt =====
-- The leaderboard of src/server.rs: who stands above whom, what is listed, and the page.
use mathlib.Core.List.{Perm}
use woodland_sh.Base.{
  ℕ, zero, suc, ◌<◌, ◌-◌, Bool, true, false, Option, none, some, List, [], ◌∷◌, ◌++◌, ltb, min, max,
  length, length-take, length-drop, take, drop, ◌≡◌, ◌↔◌, refl, sym, ap, ◌∙◌, inl, inr, String, All,
  All-imp, Bool-cases, arith,
}
use woodland_sh.Base.Texts.{text_before}
use woodland_sh.Base.Int.{ℤ, int_ltb, int_leb}
use woodland_sh.Server.Players.{
  LeaderboardPlayer, RegisteredPlayer, Registry, RefreshStatus, expired, without_expired,
}
use woodland_sh.Server.Actions.{AppState}
use woodland_sh.Server.Board.{
  current_players, ranks_before, sort_players, leaderboard_players, LeaderboardResponse,
  leaderboard, or_default, default_leaderboard_limit, max_leaderboard_limit,
}
use woodland_sh.Server.Board.Sorted.{IsSorted, sort_players-IsSorted, sort_players-Perm}

-- The one may stand above the other: the active above the others, then who has more XP, then who registered
-- earlier, then whose asset is not the later one.
pub data IsAbove (player other : LeaderboardPlayer) : Type 0 where
  by_activity : player.active ≡ true → other.active ≡ false → IsAbove player other
  by_xp : player.active ≡ other.active → other.xp < player.xp → IsAbove player other
  by_registration :
      player.active ≡ other.active
      → player.xp ≡ other.xp
      → int_ltb player.registered_at other.registered_at ≡ true
      → IsAbove player other
  by_asset :
      player.active ≡ other.active
      → player.xp ≡ other.xp
      → player.registered_at ≡ other.registered_at
      → text_before other.player_asset player.player_asset ≡ false
      → IsAbove player other

int_eq_of_not_ltb : (a b : ℤ) → int_ltb a b ≡ false → int_ltb b a ≡ false → a ≡ b
int_eq_of_not_ltb a b h k = ground arith

active_eq : (a b : Bool) → (a ≡ true → b ≡ false → ⊥) → (b ≡ true → a ≡ false → ⊥) → a ≡ b
active_eq a b h k = ground (arith, h, k)

ranks_before-IsAbove :
    (player later : LeaderboardPlayer) → ranks_before later player ≡ false → IsAbove player later
unfolding ranks_before
ranks_before-IsAbove player later h = elim (Bool-cases player.active) [
  | inl p ↦ elim (Bool-cases later.active) [
    | inl l ↦ same_activity (p ∙ sym l)
    | inr l ↦ by_activity p l
  ]
  | inr p ↦ elim (Bool-cases later.active) [
    | inl l ↦ absurd (ground (arith, h, p, l))
    | inr l ↦ same_activity (p ∙ sym l)
  ]
]
  where
    same_xp : player.active ≡ later.active → player.xp ≡ later.xp → IsAbove player later
    same_xp a x = elim (Bool-cases (int_ltb player.registered_at later.registered_at)) [
      | inl r ↦ by_registration a x r
      | inr r ↦
          by_asset a x
            (int_eq_of_not_ltb player.registered_at later.registered_at r
              (ground (arith, h, a, x, r)))
            (ground (arith, h, a, x, r))
    ]

    same_activity : player.active ≡ later.active → IsAbove player later
    same_activity a = elim (Bool-cases (ltb later.xp player.xp)) [
      | inl x ↦ by_xp a (ground (arith, x))
      | inr x ↦ same_xp a (ground (arith, h, a, x))
    ]

-- Everyone may stand above everyone further down.
abbrev pub IsRanked : List LeaderboardPlayer → Type 0
IsRanked [] = Unit
IsRanked (player ∷ rest) = All (IsAbove player) rest × IsRanked rest

IsSorted-IsRanked : (xs : List LeaderboardPlayer) → IsSorted xs → IsRanked xs
IsSorted-IsRanked [] h = tt
IsSorted-IsRanked (player ∷ rest) h = (
  All-imp (λ later. ranks_before later player ≡ false) (IsAbove player) rest
      (ranks_before-IsAbove player) h.0,
  IsSorted-IsRanked rest h.1,
)

-- The player is shown as it is stored, but active only while it has not expired.
pub record IsShown (now : ℤ) (stored shown : LeaderboardPlayer) : Type 0 where
  pub same : record shown { active = stored.active } ≡ stored
  pub activity : (shown.active ≡ true) ↔ (
      (stored.active ≡ true)
      × ((expiry : ℤ) → stored.expires_at ≡ some expiry → int_ltb now expiry ≡ true))

not_leb : (a b : ℤ) → int_ltb b a ≡ true → int_leb a b ≡ false
not_leb a b h = ground arith

expired_lem :
    (now : ℤ) (stored : LeaderboardPlayer)
    → (expired stored now ≡ false)
      ↔ ((expiry : ℤ) → stored.expires_at ≡ some expiry → int_ltb now expiry ≡ true)
expired_lem now stored = by_expiry stored.expires_at
  where
    by_expiry :
        (expires_at : Option ℤ)
        → (elim expires_at [ none ↦ false | some expiry ↦ int_leb expiry now ] ≡ false)
          ↔ ((expiry : ℤ) → expires_at ≡ some expiry → int_ltb now expiry ≡ true)
    by_expiry none = ((λ e expiry h. cc), (λ h. refl))
    by_expiry (some at) = ((λ e expiry h. ground arith), (λ h. not_leb at now (h at refl)))

without_expired-IsShown :
    (now : ℤ) (stored : LeaderboardPlayer) → IsShown now stored (without_expired stored now)
unfolding without_expired
without_expired-IsShown now stored = elim (Bool-cases (expired stored now)) [
  | inl late ↦ rw late (record {
    same = refl;
    activity = ((λ a. cc), (λ a. ground (arith, (expired_lem now stored).1 a.1, late)));
  })
  | inr early ↦ rw early (record {
    same = refl;
    activity = ((λ a. (a, (expired_lem now stored).0 early)), (λ a. a.0));
  })
]

-- The states of the registry, one by one.
pub data IsListed (now : ℤ) : Registry → List LeaderboardPlayer → Type 0 where
  all_listed : IsListed now [] []
  stateless :
      {entry : String × RegisteredPlayer} {rest : Registry} {shown : List LeaderboardPlayer}
      → entry.1.state ≡ none
      → IsListed now rest shown
      → IsListed now (entry ∷ rest) shown
  shows :
      {entry : String × RegisteredPlayer} {rest : Registry} {shown : List LeaderboardPlayer}
      {stored player : LeaderboardPlayer}
      → entry.1.state ≡ some stored
      → IsShown now stored player
      → IsListed now rest shown
      → IsListed now (entry ∷ rest) (player ∷ shown)

current_players-IsListed :
    (now : ℤ) (registry : Registry) → IsListed now registry (current_players now registry)
unfolding current_players
current_players-IsListed now [] = all_listed
current_players-IsListed now (entry ∷ rest) =
    by_state entry.1.state refl (current_players-IsListed now rest)
  where
    by_state :
        (state : Option LeaderboardPlayer)
        → entry.1.state ≡ state
        → IsListed now rest (current_players now rest)
        → IsListed now (entry ∷ rest) (elim state [
          | none ↦ current_players now rest
          | some player ↦ without_expired player now ∷ current_players now rest
        ])
    by_state none e others = stateless e others
    by_state (some player) e others = shows e (without_expired-IsShown now player) others

take-append-drop : (n : ℕ) (xs : List LeaderboardPlayer) → take n xs ++ drop n xs ≡ xs
take-append-drop zero xs = refl
take-append-drop (suc n) [] = refl
take-append-drop (suc n) (x ∷ xs) = ap (◌∷◌ x) (take-append-drop n xs)

-- A response, with the whole board that it is a page of.
pub record IsBoard (now : ℤ) (registry : Registry) (limit offset : Option ℕ)
    (response : LeaderboardResponse) : Type 0 where
  pub board : List LeaderboardPlayer
  pub listed : List LeaderboardPlayer
  pub of_registry : IsListed now registry listed
  pub same_players : Perm board listed
  pub ranked : IsRanked board
  pub total : response.total ≡ length board
  pub before : List LeaderboardPlayer
  pub after : List LeaderboardPlayer
  pub page : before ++ (response.players ++ after) ≡ board
  pub skipped : length before ≡ min (or_default offset 0) (length board)
  pub size :
      length response.players
      ≡ min (max 1 (min (or_default limit 100) 200)) (length board - length before)

-- A response is a page of the board: the total is the board's, the page starts after `offset` players, or at
-- the end, and holds as many as follow, at most `limit`, which is 100 by default and between 1 and 200. The
-- board lists the registered states, each active only while it has not expired, so that the active stand
-- above the others, then who has more XP, then who registered earlier, and then by asset.
pub leaderboard-IsBoard :
    (now : ℤ) (state : AppState) (status : RefreshStatus) (worker_freshness_secs : ℤ)
    (limit offset : Option ℕ)
    → IsBoard now state.registry limit offset
        (leaderboard now state status worker_freshness_secs limit offset)
unfolding leaderboard leaderboard_players
leaderboard-IsBoard now state status worker_freshness_secs limit offset =
    let listed = current_players now state.registry in
    let board = sort_players listed in
    let first = min (or_default offset 0) (length board) in
    let count = max 1 (min (or_default limit default_leaderboard_limit) max_leaderboard_limit) in
    record {
      board = board;
      listed = listed;
      of_registry = current_players-IsListed now state.registry;
      same_players = sort_players-Perm listed;
      ranked = IsSorted-IsRanked board (sort_players-IsSorted listed);
      total = refl;
      before = take first board;
      after = drop count (drop first board);
      page =
          ap (λ xs. take first board ++ xs) (take-append-drop count (drop first board))
          ∙ take-append-drop first board;
      skipped = omega (arith, length-take first board);
      size = omega (
        arith,
        length-take count (drop first board),
        length-drop first board,
        length-take first board,
      );
    }

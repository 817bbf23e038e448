-- ===== src/Server/Board/Sorted.antt =====
-- The sort of the leaderboard of src/server.rs.
use mathlib.Core.List.Perm
use mathlib.Core.List.{Perm}
use woodland_sh.Base.{
  ℕ, Bool, true, false, List, [], ◌∷◌, if◌then◌else◌, ◌≡◌, refl, All, All-imp, arith,
}
use woodland_sh.Base.Texts.{codes, codes_before}
use woodland_sh.Base.Int.{ℤ, int_ltb}
use woodland_sh.Server.Players.{LeaderboardPlayer}
use woodland_sh.Server.Board.{ranks_before, insert_player, sort_players}

codes_before-not_trans :
    (a b c : List ℕ)
    → codes_before a b ≡ false
    → codes_before b c ≡ false
    → codes_before a c ≡ false
codes_before-not_trans [] [] c h k = k
codes_before-not_trans [] (y ∷ ys) c h k = absurd (ground arith)
codes_before-not_trans (x ∷ xs) b [] h k = refl
codes_before-not_trans (x ∷ xs) [] (z ∷ zs) h k = absurd (ground arith)
codes_before-not_trans (x ∷ xs) (y ∷ ys) (z ∷ zs) h k =
    ground (arith, codes_before-not_trans xs ys zs)

codes_before-asym : (a b : List ℕ) → codes_before a b ≡ true → codes_before b a ≡ false
codes_before-asym [] [] h = refl
codes_before-asym [] (y ∷ ys) h = refl
codes_before-asym (x ∷ xs) [] h = absurd (ground arith)
codes_before-asym (x ∷ xs) (y ∷ ys) h = ground (arith, codes_before-asym xs ys)

int_ltb-cases : (a b : ℤ) → int_ltb a b ≡ true → int_ltb b a ≡ false
int_ltb-cases a b h = ground arith

int_ltb-not_trans : (a b c : ℤ) → int_ltb a b ≡ false → int_ltb b c ≡ false → int_ltb a c ≡ false
int_ltb-not_trans a b c h k = ground arith

ranks_before-asym : (a b : LeaderboardPlayer) → ranks_before a b ≡ true → ranks_before b a ≡ false
unfolding ranks_before
ranks_before-asym a b h = ground (
  arith,
  int_ltb-cases a.registered_at b.registered_at,
  codes_before-asym (codes a.player_asset) (codes b.player_asset),
)

ranks_before-not_trans :
    (a b c : LeaderboardPlayer)
    → ranks_before a b ≡ false
    → ranks_before b c ≡ false
    → ranks_before a c ≡ false
unfolding ranks_before
ranks_before-not_trans a b c h k = ground (
  arith,
  int_ltb-not_trans a.registered_at b.registered_at c.registered_at,
  codes_before-not_trans (codes a.player_asset) (codes b.player_asset) (codes c.player_asset),
)

-- Nothing further down is to stand before something above.
abbrev pub IsSorted : List LeaderboardPlayer → Type 0
IsSorted [] = Unit
IsSorted (player ∷ rest) = All (λ later. ranks_before later player ≡ false) rest × IsSorted rest

-- The two ways an insertion goes on.
pick :
    (P : List LeaderboardPlayer → Type 0) (t : Bool) (xs ys : List LeaderboardPlayer)
    → (t ≡ true → P xs)
    → (t ≡ false → P ys)
    → P (if t then xs else ys)
pick P true xs ys p q = p refl
pick P false xs ys p q = q refl

All-insert :
    (P : LeaderboardPlayer → Type 0) (player : LeaderboardPlayer) (xs : List LeaderboardPlayer)
    → P player
    → All P xs
    → All P (insert_player player xs)
unfolding insert_player
All-insert P player [] p h = (p, tt)
All-insert P player (first ∷ rest) p h =
    pick (All P) (ranks_before first player) _ _ (λ before. (h.0, All-insert P player rest p h.1))
      (λ after. (p, h))

insert_player-IsSorted :
    (player : LeaderboardPlayer) (xs : List LeaderboardPlayer)
    → IsSorted xs
    → IsSorted (insert_player player xs)
unfolding insert_player
insert_player-IsSorted player [] h = (tt, tt)
insert_player-IsSorted player (first ∷ rest) h =
    pick IsSorted (ranks_before first player) _ _
      (λ before. (
        All-insert (λ later. ranks_before later first ≡ false) player rest
            (ranks_before-asym first player before) h.0,
        insert_player-IsSorted player rest h.1,
      ))
      (λ after. (
        (
          after,
          All-imp (λ later. ranks_before later first ≡ false)
              (λ later. ranks_before later player ≡ false) rest
              (λ later k. ranks_before-not_trans later first player k after) h.0,
        ),
        h,
      ))

insert_player-Perm :
    (player : LeaderboardPlayer) (xs : List LeaderboardPlayer)
    → Perm (insert_player player xs) (player ∷ xs)
unfolding insert_player
insert_player-Perm player [] = Perm.refl (player ∷ [])
insert_player-Perm player (first ∷ rest) =
    pick (λ ys. Perm ys (player ∷ first ∷ rest)) (ranks_before first player) _ _
      (λ before.
        Perm.trans (Perm.cons first (insert_player-Perm player rest)) (Perm.swap player first rest))
      (λ after. Perm.refl (player ∷ first ∷ rest))

pub sort_players-IsSorted : (xs : List LeaderboardPlayer) → IsSorted (sort_players xs)
unfolding sort_players
sort_players-IsSorted [] = tt
sort_players-IsSorted (x ∷ rest) =
    insert_player-IsSorted x (sort_players rest) (sort_players-IsSorted rest)

pub sort_players-Perm : (xs : List LeaderboardPlayer) → Perm (sort_players xs) xs
unfolding sort_players
sort_players-Perm [] = Perm.refl []
sort_players-Perm (x ∷ rest) =
    Perm.trans (insert_player-Perm x (sort_players rest)) (Perm.cons x (sort_players-Perm rest))

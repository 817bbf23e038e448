-- ===== src/Tree/Packets.antt =====
-- The packets of the state and the health of a tree (src/tree.rs).
use woodland_sh.Base.{ℕ, ◌≤◌, ◌<◌, ◌^◌, List, [], ◌∷◌, All, ◌≡◌, ◌↔◌, ok, arith}
use woodland_sh.Base.Words.{IsByte, numeric_packet-eq, from_le_bytes-numeric_packet}
use woodland_sh.Tree.{
  TreeHealth, TreeState, encode_health, decode_health, encode_state, decode_state,
}

-- A packet of bytes decodes to a health exactly when it is the encoding of one that is at most 10.
pub decode_health-encode_health :
    (bytes : List ℕ) (health : TreeHealth)
    → All IsByte bytes
    → (decode_health bytes ≡ ok health) ↔ ((bytes ≡ encode_health health) × (health.value ≤ 10))
unfolding decode_health encode_health
decode_health-encode_health bytes health h = (there, back)
  where
    there : decode_health bytes ≡ ok health → (bytes ≡ encode_health health) × (health.value ≤ 10)
    there e = ground (arith, numeric_packet-eq bytes h)

    back : (bytes ≡ encode_health health) × (health.value ≤ 10) → decode_health bytes ≡ ok health
    back (e, fits) = rw e (ground (arith, from_le_bytes-numeric_packet health.value))

-- The fields of a tree's identity fit their words.
pub record IsInWords (s : TreeState) : Type 0 where
  pub tree_id : s.tree_id < 2 ^ 32
  pub x : s.x < 2 ^ 16
  pub y : s.y < 2 ^ 16

-- An identity whose fields fit their words is read back from its packet.
pub decode_state-encode_state : (s : TreeState) → IsInWords s → decode_state (encode_state s) ≡ ok s
unfolding decode_state encode_state
decode_state-encode_state s h = ground arith

-- A packet of bytes that decodes is the encoding of what it decodes to.
pub encode_state-decode_state :
    (bytes : List ℕ) (s : TreeState)
    → All IsByte bytes
    → decode_state bytes ≡ ok s
    → (bytes ≡ encode_state s) × IsInWords s
unfolding decode_state encode_state
encode_state-decode_state (b₀ ∷ b₁ ∷ b₂ ∷ b₃ ∷ b₄ ∷ b₅ ∷ b₆ ∷ b₇ ∷ b₈ ∷ b₉ ∷ b₁₀ ∷ []) s h eq =
    ground arith
encode_state-decode_state _ s h eq = ground arith

-- ===== src/Tree.antt =====
-- src/tree.rs: the identity, health and transitions of a tree.
pub mod Packets
mod Examples
use woodland_sh.Base.{
  ℕ, ◌+◌, ◌≤◌, Bool, true, false, not, ◌&&◌, ◌||◌, Option, none, some, List, [], ◌∷◌, ◌++◌, ltb,
  if◌then◌else◌, length, take, drop, get_or, ◌==◌, nat_eq, list_eq, Eq, Result, ok, err, ◌>>=◌,
  ◌>>◌, reject, ◌≡◌, ◌↔◌, arith,
}
use woodland_sh.Base.Words.{to_le_bytes, from_le_bytes}

abbrev pub logs_per_tree : ℕ
logs_per_tree = 10

-- A tree carries exactly one dust of backing.
unfoldable pub tree_value_sats : ℕ → ℕ
tree_value_sats dust_sats = dust_sats

pub data TreeTransition : Type 0 where
  deployment renewal chop : TreeTransition

pub data TreeError : Type 0 where
  invalid_shape invalid_state_packet health_exceeds_maximum invalid_health_packet : TreeError

abbrev pub tree_output_index : ℕ
tree_output_index = 1

abbrev pub chop_input_count : ℕ
chop_input_count = 2

abbrev pub chop_fee_input_count : ℕ
chop_fee_input_count = 3

abbrev pub chop_asset_group_count : ℕ
chop_asset_group_count = 6

pub output_index : TreeTransition → ℕ
output_index deployment = 0
output_index renewal = 0
output_index chop = tree_output_index

pub classify_transition_shape : ℕ → Option ℕ → Bool → Result TreeError TreeTransition
classify_transition_shape input_count group_count is_deployment =
    if is_deployment
    then ok deployment
    else if input_count == 1
    then ok renewal
    else elim group_count [
      | none ↦ err invalid_shape
      | some groups ↦
          if (input_count == chop_input_count || input_count == chop_fee_input_count)
            && groups == chop_asset_group_count
          then ok chop
          else err invalid_shape
    ]

abbrev pub tree_state_len : ℕ
tree_state_len = 11

abbrev pub tree_state_version : ℕ
tree_state_version = 1

-- b"TR"
abbrev pub tree_state_magic : List ℕ
tree_state_magic = 84 ∷ 82 ∷ []

pub record TreeState : Type 0 where
  pub tree_id : ℕ  -- u32
  pub x : ℕ  -- u16
  pub y : ℕ  -- u16

abbrev pub tree_state_beq : TreeState → TreeState → Bool
tree_state_beq a b = a.tree_id == b.tree_id && a.x == b.x && a.y == b.y

pub tree_state_beq_iff : (a b : TreeState) → (tree_state_beq a b ≡ true) ↔ (a ≡ b)
tree_state_beq_iff a b = ground arith

instance abbrev pub tree_state_eq : Eq TreeState
tree_state_eq = record { beq = tree_state_beq; beq_iff = tree_state_beq_iff }

pub encode_state : TreeState → List ℕ
encode_state s =
    tree_state_magic
    ++ (tree_state_version ∷ (to_le_bytes 4 s.tree_id ++ (to_le_bytes 2 s.x ++ to_le_bytes 2 s.y)))

pub decode_state : List ℕ → Result TreeError TreeState
decode_state encoded = do
  reject
      (not (length encoded == tree_state_len)
        || (not (take 2 encoded == tree_state_magic)
            || not (get_or encoded 2 0 == tree_state_version)))
      invalid_state_packet
  ok (record {
    tree_id = from_le_bytes (take 4 (drop 3 encoded));
    x = from_le_bytes (take 2 (drop 7 encoded));
    y = from_le_bytes (take 2 (drop 9 encoded));
  })

pub record TreeHealth : Type 0 where
  pub value : ℕ

pub new_health : ℕ → Result TreeError TreeHealth
new_health value =
    if ltb logs_per_tree value then err health_exceeds_maximum else ok (record { value = value })

pub encode_health : TreeHealth → List ℕ
encode_health health = to_le_bytes 8 health.value ++ (0 ∷ [])

pub decode_health : List ℕ → Result TreeError TreeHealth
unfolding new_health
decode_health encoded = do
  reject (not (length encoded == 9) || not (get_or encoded 8 0 == 0)) invalid_health_packet
  new_health (from_le_bytes (take 8 encoded))

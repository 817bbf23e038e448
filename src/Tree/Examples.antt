-- ===== src/Tree/Examples.antt =====
-- The packets of src/tree.rs at concrete values.
use woodland_sh.Base.{ℕ, ◌≡◌, refl, List, [], ◌∷◌, arith}
use woodland_sh.Tree.{TreeState, encode_state, decode_state}
use woodland_sh.Tree.Packets.{IsInWords, encode_state-decode_state}

abbrev oak : TreeState
oak = record { tree_id = 258; x = 7; y = 513 }

abbrev oak_packet : List ℕ
oak_packet = 84 ∷ 82 ∷ 1 ∷ 2 ∷ 1 ∷ 0 ∷ 0 ∷ 7 ∷ 0 ∷ 1 ∷ 2 ∷ []

encode_state-decode_state_example : (oak_packet ≡ encode_state oak) × IsInWords oak
unfolding decode_state
encode_state-decode_state_example = encode_state-decode_state oak_packet oak (ground arith) refl

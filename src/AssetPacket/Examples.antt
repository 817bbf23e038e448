-- ===== src/AssetPacket/Examples.antt =====
-- The decoder of src/asset_packet.rs on a packet of one group.
use woodland_sh.Base.{
  ◌≡◌, ◌↔◌, refl, Bool, true, none, some, ok, List, [], ◌∷◌, ◌++◌, if◌then◌else◌, leb, ◌==◌, nat_eq,
  arith,
}
use woodland_sh.Base.Words.{IsU64}
use woodland_sh.AssetPacket.Cursor.{AssetId, varint, byte, count, u16, finish}
use woodland_sh.AssetPacket.Cursor.Varint.{encoding, varint-encoding}
use woodland_sh.AssetPacket.{
  Asset, Transaction, output_assets, read_packet, read_groups, read_group, group_asset_id,
  group_control, group_metadata, group_inputs, group_outputs, sort_assets, insert_sorted,
  equal_asset_sets,
}
use woodland_sh.AssetPacket.Strict.{IsStrict, Distinct, output_assets-IsStrict}
use woodland_sh.AssetPacket.Sets.{amount_of, equal_asset_sets-amount_of}

varint-encoding_example : (172 ∷ 2 ∷ 9 ∷ [] ≡ encoding 9 300 ++ (9 ∷ [])) × IsU64 300
unfolding varint
varint-encoding_example = (varint-encoding (172 ∷ 2 ∷ 9 ∷ []) (9 ∷ []) 300 (ground arith)).0 refl

-- One group of the transaction's own asset: no inputs, 42 units to output 0 and 7 to output 1.
abbrev issuance : Transaction
issuance = record {
  txid = 1 ∷ 2 ∷ [];
  inputs = 1;
  outputs = 2;
  find_packet_payload = λ kind.
      if kind == 0
      then ok (some (1 ∷ 0 ∷ 0 ∷ 2 ∷ 1 ∷ 0 ∷ 0 ∷ 42 ∷ 1 ∷ 1 ∷ 0 ∷ 7 ∷ []))
      else ok none;
}

abbrev by_group_index : AssetId → AssetId → Bool
by_group_index a b = leb a.group_index b.group_index

abbrev issued : List Asset
issued = record { id = record { txid = 1 ∷ 2 ∷ []; group_index = 0 }; amount = 7 } ∷ []

issuance_decodes : output_assets by_group_index issuance 1 ≡ ok issued
unfolding output_assets read_packet read_groups read_group group_asset_id group_control
    group_metadata group_inputs group_outputs sort_assets insert_sorted varint count byte u16 finish
issuance_decodes = refl

output_assets-IsStrict_example : IsStrict issued
output_assets-IsStrict_example =
    output_assets-IsStrict by_group_index issuance 1 issued issuance_decodes

abbrev two_assets : List Asset
two_assets =
    record { id = record { txid = 1 ∷ []; group_index = 0 }; amount = 7 }
    ∷ record { id = record { txid = 1 ∷ []; group_index = 1 }; amount = 3 }
    ∷ []

abbrev two_swapped : List Asset
two_swapped =
    record { id = record { txid = 1 ∷ []; group_index = 1 }; amount = 3 }
    ∷ record { id = record { txid = 1 ∷ []; group_index = 0 }; amount = 7 }
    ∷ []

two_assets-Distinct : Distinct two_assets
two_assets-Distinct = ground arith

two_swapped-Distinct : Distinct two_swapped
two_swapped-Distinct = ground arith

equal_asset_sets-amount_of_example :
    (equal_asset_sets two_assets two_swapped ≡ true)
    ↔ ((id : AssetId) → amount_of two_assets id ≡ amount_of two_swapped id)
equal_asset_sets-amount_of_example =
    equal_asset_sets-amount_of two_assets two_swapped two_assets-Distinct two_swapped-Distinct

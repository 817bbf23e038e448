-- ===== src/AssetPacket.antt =====
-- src/asset_packet.rs: strict decoding of the assets that a transaction assigns to an output.
-- A cursor is the list of the bytes that it has not read. What `bitcoin` and `ark_core` give of a
-- transaction, its ID, its counts of inputs and outputs and its packets, is a record of its own.
pub mod Cursor
pub mod Strict
pub mod Sets
mod Examples
use Prim.Native.Nat.{bit_and}
use woodland_sh.Base.{
  ℕ, zero, suc, ◌+◌, ◌*◌, ◌%◌, ◌^◌, Bool, true, false, not, ◌&&◌, ◌||◌, Option, none, some, List,
  [], ◌∷◌, ◌++◌, ltb, leb, if◌then◌else◌, length, ◌==◌, nat_eq, list_eq, list_beq_iff, Eq, contains,
  Result, ok, err, ◌>>=◌, ◌>>◌, reject, ◌≡◌, ◌↔◌, arith,
}
use Cursor.{
  PacketError, Read, AssetId, asset_id_eq, no_packet, too_many_groups, output_missing,
  unknown_presence_bits, group_index_overflow, repeated_asset, unsupported_control,
  invalid_input_index, unsupported_input, repeated_input, non_local_output, invalid_output_index,
  zero_amount, bytes, byte, u16, asset_id, varint, count, metadata, finish,
}

abbrev pub asset_packet_type : ℕ
asset_packet_type = 0

abbrev pub presence_asset_id : ℕ
presence_asset_id = 1

abbrev pub presence_control_asset : ℕ
presence_control_asset = 2

abbrev pub presence_metadata : ℕ
presence_metadata = 4

-- `!KNOWN_PRESENCE_BITS` as a u8
abbrev pub unknown_presence : ℕ
unknown_presence = 0xF8

abbrev pub local_reference : ℕ
local_reference = 1

abbrev pub intent_reference : ℕ
intent_reference = 2

abbrev pub control_by_id : ℕ
control_by_id = 1

abbrev pub control_by_group : ℕ
control_by_group = 2

pub record Asset : Type 0 where
  pub id : AssetId
  pub amount : ℕ

-- What the code reads of a transaction: `find_packet_payload` gives the payload of a packet type.
pub record Transaction : Type 0 where
  pub txid : List ℕ
  pub inputs : ℕ
  pub outputs : ℕ
  pub find_packet_payload : ℕ → Result PacketError (Option (List ℕ))

-- The key of `seen_inputs`.
pub record InputReference : Type 0 where
  pub kind : ℕ
  pub source_txid : List ℕ
  pub input_index : ℕ

abbrev pub input_reference_beq : InputReference → InputReference → Bool
input_reference_beq a b =
    a.kind == b.kind && a.source_txid == b.source_txid && a.input_index == b.input_index

pub input_reference_beq_iff : (a b : InputReference) → (input_reference_beq a b ≡ true) ↔ (a ≡ b)
input_reference_beq_iff a b = ground (arith, list_beq_iff a.source_txid b.source_txid)

instance abbrev pub input_reference_eq : Eq InputReference
input_reference_eq = record { beq = input_reference_beq; beq_iff = input_reference_beq_iff }

abbrev zeros : ℕ → List ℕ
zeros zero = []
zeros (suc n) = 0 ∷ zeros n

pub input_reference : ℕ → Read InputReference
input_reference inputs input = do
  (kind, rest) ← byte input
  if kind == local_reference
      then (do
        (index, rest') ← u16 rest
        reject (leb inputs index) invalid_input_index
        ok (record { kind = kind; source_txid = zeros 32; input_index = index }, rest'))
      else if kind == intent_reference
      then (do
        (txid, rest') ← bytes 32 rest
        (index, rest'') ← u16 rest'
        ok (record { kind = kind; source_txid = txid; input_index = index }, rest''))
      else err unsupported_input

-- `for _ in 0..input_count`
pub group_inputs : ℕ → ℕ → List InputReference → Read (Unit {0})
group_inputs inputs zero seen input = ok (tt, input)
group_inputs inputs (suc n) seen input = do
  (reference, rest) ← input_reference inputs input
  reject (contains seen reference) repeated_input
  (_, rest') ← varint rest
  group_inputs inputs n (reference ∷ seen) rest'

-- `for _ in 0..output_count`, with the assets assigned so far.
pub group_outputs : ℕ → ℕ → AssetId → ℕ → List ℕ → List Asset → Read (List Asset)
group_outputs outputs output_index id zero seen assigned input = ok (assigned, input)
group_outputs outputs output_index id (suc n) seen assigned input = do
  (kind, rest) ← byte input
  reject (not (kind == local_reference)) non_local_output
  (index, rest') ← u16 rest
  reject (leb outputs index || contains seen index) invalid_output_index
  (amount, rest'') ← varint rest'
  reject (amount == 0) zero_amount
  group_outputs outputs output_index id n (index ∷ seen)
      (if index == output_index
        then assigned ++ (record { id = id; amount = amount } ∷ [])
        else assigned)
      rest''

pub group_asset_id : List ℕ → ℕ → ℕ → Read AssetId
group_asset_id txid group_index presence input =
    if not (bit_and presence presence_asset_id == 0) then asset_id input else (do
      reject (ltb 65535 group_index) group_index_overflow
      ok (record { txid = txid; group_index = group_index }, input))

pub group_control : ℕ → Read (Unit {0})
group_control presence input =
    if not (bit_and presence presence_control_asset == 0)
    then (do
      (kind, rest) ← byte input
      if kind == control_by_id
          then (do (_, rest') ← asset_id rest; ok (tt, rest'))
          else if kind == control_by_group
          then (do (_, rest') ← u16 rest; ok (tt, rest'))
          else err unsupported_control)
    else ok (tt, input)

pub group_metadata : ℕ → Read (Unit {0})
group_metadata presence input =
    if not (bit_and presence presence_metadata == 0) then metadata input else ok (tt, input)

-- One group: its asset, which no group before it has, and what it assigns to the output.
pub read_group : Transaction → ℕ → ℕ → List AssetId → List Asset → Read (AssetId × List Asset)
read_group tx output_index group_index seen assigned input = do
  (presence, rest₁) ← byte input
  reject (not (bit_and presence unknown_presence == 0)) unknown_presence_bits
  (id, rest₂) ← group_asset_id tx.txid group_index presence rest₁
  reject (contains seen id) repeated_asset
  (_, rest₃) ← group_control presence rest₂
  (_, rest₄) ← group_metadata presence rest₃
  (input_count, rest₅) ← count rest₄
  (_, rest₆) ← group_inputs tx.inputs input_count [] rest₅
  (output_count, rest₇) ← count rest₆
  (assigned', rest₈) ← group_outputs tx.outputs output_index id output_count [] assigned rest₇
  ok ((id, assigned'), rest₈)

-- `for group_index in 0..group_count`, with the groups left to read.
pub read_groups : Transaction → ℕ → ℕ → ℕ → List AssetId → List Asset → Read (List Asset)
read_groups tx output_index zero group_index seen assigned input = ok (assigned, input)
read_groups tx output_index (suc n) group_index seen assigned input = do
  ((id, assigned'), rest) ← read_group tx output_index group_index seen assigned input
  read_groups tx output_index n (group_index + 1) (id ∷ seen) assigned' rest

-- `sort_by_key(|asset| (txid, group_index))` over a given order of asset IDs. The sort is stable.
module _ (id_leb : AssetId → AssetId → Bool) where
  pub insert_sorted : Asset → List Asset → List Asset
  insert_sorted a [] = a ∷ []
  insert_sorted a (b ∷ rest) = if id_leb a.id b.id then a ∷ b ∷ rest else b ∷ insert_sorted a rest

  pub sort_assets : List Asset → List Asset
  unfolding insert_sorted
  sort_assets [] = []
  sort_assets (a ∷ rest) = insert_sorted a (sort_assets rest)

  pub read_packet : Transaction → ℕ → List ℕ → Result PacketError (List Asset)
  read_packet tx output_index payload = do
    (group_count, rest) ← count payload
    reject (ltb 65536 group_count) too_many_groups
    (assigned, rest') ← read_groups tx output_index group_count 0 [] [] rest
    finish rest'
    ok (sort_assets assigned)

  unfoldable pub output_assets : Transaction → ℕ → Result PacketError (List Asset)
  output_assets tx output_index = do
    reject (leb tx.outputs output_index) output_missing
    payload ← tx.find_packet_payload asset_packet_type
    elim payload [ none ↦ ok [] | some bytes ↦ read_packet tx output_index bytes ]

pub asset_group_count : Transaction → Result PacketError ℕ
asset_group_count tx = do
  payload ← tx.find_packet_payload asset_packet_type
  elim payload [
    | none ↦ err no_packet
    | some bytes ↦ do
      (group_count, _) ← count bytes
      if ltb 65536 group_count then err too_many_groups else ok group_count
  ]

pub asset_beq : Asset → Asset → Bool
asset_beq a b = a.id == b.id && a.amount == b.amount

pub any_matches : Asset → List Asset → Bool
unfolding asset_beq
any_matches a [] = false
any_matches a (b ∷ rest) = asset_beq b a || any_matches a rest

pub all_match : List Asset → List Asset → Bool
unfolding any_matches
all_match [] right = true
all_match (a ∷ rest) right = any_matches a right && all_match rest right

unfoldable pub equal_asset_sets : List Asset → List Asset → Bool
unfolding all_match
equal_asset_sets left right = length left == length right && all_match left right

-- ===== src/AssetPacket/Cursor.antt =====
-- `Cursor` of src/asset_packet.rs. A read takes bytes off the front of those left.

pub mod Varint
use Prim.Native.Nat.{bit_and, bit_or}
use woodland_sh.Base.{
  ℕ, zero, suc, ◌+◌, ◌*◌, ◌%◌, ◌^◌, Bool, true, false, not, ◌&&◌, ◌||◌, Option, none, some, List,
  [], ◌∷◌, reverse, ltb, leb, if◌then◌else◌, length, take, drop, ◌==◌, nat_eq, list_eq, list_beq,
  Eq, Result, ok, err, ◌>>=◌, ◌>>◌, reject, ◌≡◌, ◌↔◌, arith, list_beq_iff,
}
use woodland_sh.Base.Words.{from_le_bytes}

pub data PacketError : Type 0 where
  truncated overflow not_minimal exceeds_packet not_utf8 trailing_bytes : PacketError
  no_packet too_many_groups output_missing unknown_presence_bits group_index_overflow : PacketError
  repeated_asset unsupported_control invalid_input_index unsupported_input repeated_input :
      PacketError
  non_local_output invalid_output_index zero_amount extension_error : PacketError

-- A value read, and the bytes left.
abbrev pub Read {ℓ} : Type ℓ → Type ℓ
Read A = List ℕ → Result PacketError (A × List ℕ)

pub record AssetId : Type 0 where
  pub txid : List ℕ
  pub group_index : ℕ

abbrev pub asset_id_beq : AssetId → AssetId → Bool
asset_id_beq a b = a.txid == b.txid && a.group_index == b.group_index

pub asset_id_beq_iff : (a b : AssetId) → (asset_id_beq a b ≡ true) ↔ (a ≡ b)
asset_id_beq_iff a b = ground (arith, list_beq_iff a.txid b.txid)

instance abbrev pub asset_id_eq : Eq AssetId
asset_id_eq = record { beq = asset_id_beq; beq_iff = asset_id_beq_iff }

unfoldable pub byte : Read ℕ
byte [] = err truncated
byte (b ∷ rest) = ok (b, rest)

-- `bytes::<N>`
unfoldable pub bytes : ℕ → Read (List ℕ)
bytes n input = if ltb (length input) n then err truncated else ok (take n input, drop n input)

unfoldable pub u16 : Read ℕ
unfolding bytes
u16 input = do (two, rest) ← bytes 2 input; ok (from_le_bytes two, rest)

unfoldable pub asset_id : Read AssetId
unfolding bytes u16
asset_id input = do
  (txid, rest) ← bytes 32 input
  (group_index, rest') ← u16 rest
  ok (record { txid = reverse txid; group_index = group_index }, rest')

-- The rounds left of `for shift in (0..=63).step_by(7)`, with how many bytes have been read.
pub varint_loop : ℕ → ℕ → ℕ → ℕ → Read ℕ
varint_loop zero shift value read input = err overflow
varint_loop (suc rounds) shift value read [] = err truncated
varint_loop (suc rounds) shift value read (b ∷ rest) =
    let value' = bit_or value (bit_and b 0x7f * 2 ^ shift % 2 ^ 64) in
    let more = varint_loop rounds (shift + 7) value' (read + 1) rest in
    if shift == 63 && ltb 1 b
    then err overflow
    else if bit_and b 0x80 == 0
    then (if ltb 1 (read + 1) && b == 0 then err not_minimal else ok (value', rest))
    else more

unfoldable pub varint : Read ℕ
unfolding varint_loop
varint input = varint_loop 10 0 0 0 input

-- A usize holds every u64 here.
unfoldable pub count : Read ℕ
count input = do
  (n, rest) ← varint input
  if ltb (length rest) n then err exceeds_packet else ok (n, rest)

-- How many continuation bytes follow a first byte, and the range of the first of them.
pub utf8_start : ℕ → Option (ℕ × ℕ × ℕ)
utf8_start b =
    if ltb b 0x80
    then some (0, 0, 0)
    else if ltb b 0xC2
    then none
    else if ltb b 0xE0
    then some (1, 0x80, 0xBF)
    else if b == 0xE0
    then some (2, 0xA0, 0xBF)
    else if b == 0xED
    then some (2, 0x80, 0x9F)
    else if ltb b 0xF0
    then some (2, 0x80, 0xBF)
    else if b == 0xF0
    then some (3, 0x90, 0xBF)
    else if ltb b 0xF4
    then some (3, 0x80, 0xBF)
    else if b == 0xF4
    then some (3, 0x80, 0x8F)
    else none

-- With `pending` continuation bytes to come, the next in `lo..=hi`.
pub utf8_run : ℕ → ℕ → ℕ → List ℕ → Bool
utf8_run zero lo hi [] = true
utf8_run (suc pending) lo hi [] = false
utf8_run zero lo hi (b ∷ rest) = elim (utf8_start b) [
  | none ↦ false
  | some (n, lo', hi') ↦ utf8_run n lo' hi' rest
]
utf8_run (suc pending) lo hi (b ∷ rest) =
    let tail = utf8_run pending 0x80 0xBF rest in if leb lo b && leb b hi then tail else false

-- `std::str::from_utf8` accepts.
unfoldable pub is_utf8 : List ℕ → Bool
unfolding utf8_run utf8_start
is_utf8 = utf8_run 0 0 0

unfoldable pub text : Read (Unit {0})
text input = do
  (n, rest) ← count input
  reject (ltb (length rest) n) truncated
  reject (not (is_utf8 (take n rest))) not_utf8
  ok (tt, drop n rest)

pub metadata_entries : ℕ → Read (Unit {0})
metadata_entries zero input = ok (tt, input)
metadata_entries (suc n) input = do
  (_, rest) ← text input
  (_, rest') ← text rest
  metadata_entries n rest'

unfoldable pub metadata : Read (Unit {0})
unfolding metadata_entries
metadata input = do (n, rest) ← count input; metadata_entries n rest

unfoldable pub finish : List ℕ → Result PacketError (Unit {0})
finish input = if length input == 0 then ok tt else err trailing_bytes

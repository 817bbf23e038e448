-- ===== src/Indexer.antt =====
-- src/arkade.rs: the indexer's records of outputs, and the pages that they come in.
pub mod Live
pub mod Pages
pub mod Created
mod Examples
use woodland_sh.Base.{
  ℕ, zero, suc, ◌/◌, Bool, true, false, not, ◌&&◌, ◌||◌, Option, none, some, List, [], ◌∷◌, ◌++◌,
  leb, ltb, if◌then◌else◌, length, get_elem?, ◌==◌, Eq, nat_eq, list_eq, list_beq_iff, contains,
  Result, ok, err, ◌>>=◌, ◌>>◌, reject, ok_or, ◌≡◌, ◌↔◌, arith,
}
use woodland_sh.Base.Int.{ℤ, pos, negsuc, int_eq, int_ltb, int_leb, wrapping_sub64, checked_add64}
use woodland_sh.AssetPacket.Cursor.{AssetId, PacketError}
use woodland_sh.AssetPacket.{Asset, Transaction, output_assets, equal_asset_sets}

abbrev pub max_index_pages : ℕ
max_index_pages = 128

abbrev pub max_index_records : ℕ
max_index_records = 100000

abbrev pub min_rollover_margin_secs : ℤ
min_rollover_margin_secs = pos 600

abbrev pub max_rollover_margin_secs : ℤ
max_rollover_margin_secs = pos 43200

pub data IndexError : Type 0 where
  wrong_txid output_omitted wrong_output undecodable_assets wrong_assets : IndexError
  spent swept unrolled negative_margin no_creation no_expiry malformed_expiry : IndexError
  deadline_overflow expires_too_soon : IndexError
  wrong_page invalid_cursor page_limit record_limit request_failed out_of_fuel : IndexError

pub record OutPoint : Type 0 where
  pub txid : List ℕ
  pub vout : ℕ

abbrev pub outpoint_beq : OutPoint → OutPoint → Bool
outpoint_beq a b = (a.txid == b.txid) && (a.vout == b.vout)

pub outpoint_beq_iff : (a b : OutPoint) → (outpoint_beq a b ≡ true) ↔ (a ≡ b)
outpoint_beq_iff a b = ground (arith, list_beq_iff a.txid b.txid)

instance abbrev pub outpoint_eq : Eq OutPoint
outpoint_eq = record { beq = outpoint_beq; beq_iff = outpoint_beq_iff }

-- The fields that the code below reads.
pub record VtxoRecord : Type 0 where
  pub outpoint : OutPoint
  pub script : List ℕ
  pub amount_sats : ℕ
  pub assets : List Asset
  pub created_at : Option ℤ
  pub expires_at : Option ℤ
  pub is_swept : Bool
  pub is_unrolled : Bool
  pub is_spent : Bool

pub record TxOutput : Type 0 where
  pub script_pubkey : List ℕ
  pub value : ℕ

-- `(expires - created) / 2`, a division towards zero, of a difference that is not negative.
abbrev pub half : ℤ → ℤ
half (pos n) = pos (n / 2)
half (negsuc n) = negsuc n

abbrev pub clamp : ℤ → ℤ → ℤ → ℤ
clamp lo hi a = if int_ltb a lo then lo else if int_ltb hi a then hi else a

unfoldable pub rollover_margin_seconds : VtxoRecord → ℤ
rollover_margin_seconds r = elim r.created_at [
  | none ↦ max_rollover_margin_secs
  | some created ↦ elim r.expires_at [
    | none ↦ max_rollover_margin_secs
    | some expires ↦
        if int_ltb created expires
        then clamp min_rollover_margin_secs max_rollover_margin_secs
            (half (wrapping_sub64 expires created))
        else max_rollover_margin_secs
  ]
]

-- Over the order of asset IDs and the transaction's outputs.
unfoldable pub validate_creating_transaction :
    (AssetId → AssetId → Bool)
    → VtxoRecord
    → Transaction
    → List TxOutput
    → Result IndexError (Unit {0})
validate_creating_transaction id_leb r transaction outputs = do
  reject (not (transaction.txid == r.outpoint.txid)) wrong_txid
  output ← ok_or (get_elem? outputs r.outpoint.vout) output_omitted
  reject (not (output.script_pubkey == r.script) || not (output.value == r.amount_sats))
      wrong_output
  packet_assets ← elim (output_assets id_leb transaction r.outpoint.vout) [
    | ok assets ↦ ok assets
    | err _ ↦ err undecodable_assets
  ]
  reject (not (equal_asset_sets r.assets packet_assets)) wrong_assets
  ok tt

unfoldable pub check_lifetime : Option ℤ → Option ℤ → ℤ → ℤ → Result IndexError (Unit {0})
check_lifetime created expires now_unix margin_secs = do
  created_at ← ok_or created no_creation
  expires_at ← ok_or expires no_expiry
  reject (int_leb expires_at created_at) malformed_expiry
  deadline ← ok_or (checked_add64 now_unix margin_secs) deadline_overflow
  reject (int_leb expires_at deadline) expires_too_soon
  ok tt

unfoldable pub ensure_live : VtxoRecord → ℤ → ℤ → Result IndexError (Unit {0})
unfolding check_lifetime
ensure_live r now_unix margin_secs = do
  reject r.is_spent spent
  reject r.is_swept swept
  reject r.is_unrolled unrolled
  reject (int_ltb margin_secs (pos 0)) negative_margin
  check_lifetime r.created_at r.expires_at now_unix margin_secs

pub record VtxoPage : Type 0 where
  pub vtxos : List VtxoRecord
  pub current : ℤ
  pub next : ℤ
  pub total : ℤ

-- The next page, if there is one, and the pages visited.
unfoldable pub next_vtxo_page : VtxoPage → ℤ → List ℤ → Result IndexError (Option ℤ × List ℤ)
next_vtxo_page page requested visited =
    if not (page.current == requested)
    then err wrong_page
    else if int_leb page.next (pos 0)
        || ((page.next == page.current)
            && (int_leb page.total (pos 0) || int_leb page.total page.current))
    then ok (none, visited)
    else if int_leb page.next page.current
        || (int_ltb (pos 0) page.total && int_ltb page.total page.next)
    then err invalid_cursor
    else if contains visited page.next || ltb max_index_pages (length (page.next ∷ visited))
    then err page_limit
    else ok (some page.next, page.next ∷ visited)

-- The records merged, and the outpoints seen.
unfoldable pub merge_vtxo_records :
    List VtxoRecord
    → List OutPoint
    → List VtxoRecord
    → Result IndexError (List VtxoRecord × List OutPoint)
merge_vtxo_records records seen [] = ok (records, seen)
merge_vtxo_records records seen (r ∷ rest) =
    if contains seen r.outpoint
    then merge_vtxo_records records seen rest
    else if leb max_index_records (length records)
    then err record_limit
    else merge_vtxo_records (records ++ (r ∷ [])) (r.outpoint ∷ seen) rest

-- The loop over the pages, on fuel, over the request of a page.
unfoldable pub read_pages :
    (ℤ → Option VtxoPage)
    → ℕ
    → ℤ
    → List ℤ
    → List VtxoRecord
    → List OutPoint
    → Result IndexError (List VtxoRecord)
unfolding next_vtxo_page merge_vtxo_records
read_pages request zero index visited records seen = err out_of_fuel
read_pages request (suc fuel) index visited records seen = do
  page ← ok_or (request index) request_failed
  (next, visited') ← next_vtxo_page page index visited
  (records', seen') ← merge_vtxo_records records seen page.vtxos
  elim next [
    | none ↦ ok records'
    | some index' ↦ read_pages request fuel index' visited' records' seen'
  ]

unfoldable pub get_vtxos_many : (ℤ → Option VtxoPage) → Result IndexError (List VtxoRecord)
unfolding read_pages
get_vtxos_many request = read_pages request max_index_pages (pos 1) (pos 1 ∷ []) [] []

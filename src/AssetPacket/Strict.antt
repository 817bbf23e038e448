-- ===== src/AssetPacket/Strict.antt =====
-- The lists of assets that `output_assets` of src/asset_packet.rs returns.
use Prim.Native.Nat.{bit_and}
use woodland_sh.Base.{
  ℕ, zero, suc, ◌+◌, Bool, true, false, not, ◌||◌, Option, none, some, List, [], ◌∷◌, ◌++◌, leb,
  if◌then◌else◌, ◌==◌, nat_eq, contains, ok, >>=-eq-ok, reject-eq-ok, Ensures, Ensures-bind,
  Ensures-reject, Ensures-ok, returns, ◌≡◌, ◌≢◌, refl, inl, inr, arith, Bool-cases, All, All-append,
  All-imp, ap, ==-refl, sym, ltb,
}
use woodland_sh.AssetPacket.Cursor.{
  AssetId, asset_id_eq, byte, u16, varint, non_local_output, invalid_output_index, zero_amount,
  unknown_presence_bits, repeated_asset, count, finish, too_many_groups, output_missing,
}
use woodland_sh.AssetPacket.{
  asset_packet_type, unknown_presence, group_asset_id, group_control, group_metadata, group_inputs,
  local_reference, Asset, Transaction, group_outputs, read_group, read_groups, sort_assets,
  insert_sorted, read_packet, output_assets,
}

-- One output of a group: its index is new and its amount is positive.
record OutputStep (outputs output_index : ℕ) (id : AssetId) (n : ℕ) (seen : List ℕ)
    (assigned : List Asset) (input : List ℕ) (r : List Asset × List ℕ) : Type 0 where
  index : ℕ
  amount : ℕ
  rest : List ℕ
  positive : amount ≢ 0
  fresh : contains seen index ≡ false
  goes_on :
      group_outputs outputs output_index id n
        (index ∷ seen)
        (if index == output_index
          then assigned ++ (record { id = id; amount = amount } ∷ [])
          else assigned)
        rest
      ≡ ok r

module _ (outputs output_index : ℕ) (id : AssetId) where
  output_step :
      (n : ℕ) (seen : List ℕ) (assigned : List Asset) (input : List ℕ) (r : List Asset × List ℕ)
      → group_outputs outputs output_index id (suc n) seen assigned input ≡ ok r
      → OutputStep outputs output_index id n seen assigned input r
  unfolding group_outputs
  output_step n seen assigned input r e =
      let (first, _, e₁) = >>=-eq-ok (byte input) _ e in
      let (_, e₂) = reject-eq-ok (not (first.0 == local_reference)) non_local_output _ e₁ in
      let (index, _, e₃) = >>=-eq-ok (u16 first.1) _ e₂ in
      let (inside, e₄) =
        reject-eq-ok (leb outputs index.0 || contains seen index.0) invalid_output_index _ e₃ in
      let (amount, _, e₅) = >>=-eq-ok (varint index.1) _ e₄ in
      let (nonzero, e₆) = reject-eq-ok (amount.0 == 0) zero_amount _ e₅ in
      record {
        index = index.0;
        amount = amount.0;
        rest = amount.1;
        positive = ground arith;
        fresh = ground arith;
        goes_on = e₆;
      }

-- What a group adds to the assigned assets: nothing, or one asset of its own.
data Adds (id : AssetId) (seen : List ℕ) (output_index : ℕ) (assigned out : List Asset)
    : Type 0 where
  nothing : out ≡ assigned → Adds id seen output_index assigned out
  one :
      (amount : ℕ)
      → amount ≢ 0
      → contains seen output_index ≡ false
      → out ≡ assigned ++ (record { id = id; amount = amount } ∷ [])
      → Adds id seen output_index assigned out

Adds-later :
    {id : AssetId} {seen : List ℕ} {output_index : ℕ} {assigned out : List Asset} (index : ℕ)
    → Adds id (index ∷ seen) output_index assigned out
    → Adds id seen output_index assigned out
Adds-later index (nothing e) = nothing e
Adds-later index (one amount positive fresh e) = one amount positive (ground arith) e

Adds-spent :
    {id : AssetId} {seen : List ℕ} {output_index : ℕ} {assigned out : List Asset} (index : ℕ)
    → index ≡ output_index
    → Adds id (index ∷ seen) output_index assigned out
    → out ≡ assigned
Adds-spent index same (nothing e) = e
Adds-spent index same (one amount positive fresh e) = absurd (ground arith)

module _ (outputs output_index : ℕ) (id : AssetId) where
  group_outputs-Adds :
      (n : ℕ) (seen : List ℕ) (assigned : List Asset) (input : List ℕ) (r : List Asset × List ℕ)
      → group_outputs outputs output_index id n seen assigned input ≡ ok r
      → Adds id seen output_index assigned r.0
  group_outputs-Adds zero seen assigned input r e = nothing (unfold group_outputs in ground arith)
  group_outputs-Adds (suc n) seen assigned input r e =
      let step = output_step outputs output_index id n seen assigned input r e in
      elim (Bool-cases (step.index == output_index)) [
        | inl here ↦
            let after =
              group_outputs-Adds n (step.index ∷ seen)
                (assigned ++ (record { id = id; amount = step.amount } ∷ [])) step.rest r
                (rw here at step.goes_on) in
            one step.amount step.positive (ground (arith, step.fresh))
              (Adds-spent step.index (ground arith) after)
        | inr elsewhere ↦ Adds-later step.index (
            group_outputs-Adds n (step.index ∷ seen) assigned step.rest r
              (rw elsewhere at step.goes_on))
      ]

-- No two assets of a list are of one ID.
abbrev pub Distinct : List Asset → Type 0
Distinct [] = Unit
Distinct (a ∷ rest) = All (λ (b : Asset). b.id ≢ a.id) rest × Distinct rest

-- What the assigned assets have in common with the groups seen so far.
record AreAssigned (seen : List AssetId) (assigned : List Asset) : Type 0 where
  positive : All (λ (a : Asset). a.amount ≢ 0) assigned
  known : All (λ (a : Asset). contains seen a.id ≡ true) assigned
  distinct : Distinct assigned

none_assigned : AreAssigned [] []
none_assigned = record { positive = tt; known = tt; distinct = tt }

-- What the decoder promises of the assets of an output.
pub record IsStrict (assets : List Asset) : Type 0 where
  pub positive : All (λ (a : Asset). a.amount ≢ 0) assets
  pub distinct : Distinct assets

ne_of_contains :
    (seen : List AssetId) (x y : AssetId)
    → contains seen x ≡ true
    → contains seen y ≡ false
    → (x ≢ y) × (y ≢ x)
ne_of_contains seen x y hx hy = ((λ e. cc (ap (contains seen) e)), (λ e. cc (ap (contains seen) e)))

Distinct-append :
    (assigned : List Asset) (x : Asset)
    → All (λ (a : Asset). x.id ≢ a.id) assigned
    → Distinct assigned
    → Distinct (assigned ++ (x ∷ []))
Distinct-append [] x h d = (tt, tt)
Distinct-append (a ∷ rest) x h d = (
  All-append (λ (b : Asset). b.id ≢ a.id) rest (x ∷ []) d.0 (h.0, tt),
  Distinct-append rest x h.1 d.1,
)

known_later :
    (seen : List AssetId) (id : AssetId) (assigned : List Asset)
    → All (λ (a : Asset). contains seen a.id ≡ true) assigned
    → All (λ (a : Asset). contains (id ∷ seen) a.id ≡ true) assigned
known_later seen id assigned h =
    All-imp (λ (a : Asset). contains seen a.id ≡ true)
      (λ (a : Asset). contains (id ∷ seen) a.id ≡ true) assigned (λ a p. ground arith) h

AreAssigned-Adds :
    (seen : List AssetId) (id : AssetId) (output_index : ℕ) (assigned out : List Asset)
    → contains seen id ≡ false
    → AreAssigned seen assigned
    → Adds id [] output_index assigned out
    → AreAssigned (id ∷ seen) out
AreAssigned-Adds seen id output_index assigned out fresh h (nothing e) = rw e (record {
  positive = h.positive;
  known = known_later seen id assigned h.known;
  distinct = h.distinct;
})
AreAssigned-Adds seen id output_index assigned out fresh h (one amount positive _ e) =
    let x : Asset = record { id = id; amount = amount } in
    rw e (record {
      positive =
          All-append (λ (a : Asset). a.amount ≢ 0) assigned (x ∷ []) h.positive (positive, tt);
      known =
          All-append (λ (a : Asset). contains (id ∷ seen) a.id ≡ true) assigned (x ∷ [])
            (known_later seen id assigned h.known) (rw (==-refl id) refl, tt);
      distinct =
          Distinct-append assigned x
            (All-imp (λ (a : Asset). contains seen a.id ≡ true) (λ (a : Asset). id ≢ a.id) assigned
              (λ a p. (ne_of_contains seen a.id id p fresh).1) h.known)
            h.distinct;
    })

module _ (tx : Transaction) (output_index : ℕ) where
  read_group-AreAssigned :
      (group_index : ℕ) (seen : List AssetId) (assigned : List Asset) (input : List ℕ)
      → AreAssigned seen assigned
      → Ensures
          (λ (r : (AssetId × List Asset) × List ℕ). AreAssigned (r.0.0 ∷ seen) r.0.1)
          (read_group tx output_index group_index seen assigned input)
  unfolding read_group
  read_group-AreAssigned group_index seen assigned input h = Ensures-bind (byte input) _ λ p _.
      Ensures-reject (not (bit_and p.0 unknown_presence == 0)) unknown_presence_bits _ λ _.
        Ensures-bind (group_asset_id tx.txid group_index p.0 p.1) _ λ id _.
          Ensures-reject (contains seen id.0) repeated_asset _ λ fresh.
            Ensures-bind (group_control p.0 id.1) _ λ c _.
              Ensures-bind (group_metadata p.0 c.1) _ λ m _. Ensures-bind (count m.1) _ λ ins _.
                Ensures-bind (group_inputs tx.inputs ins.0 [] ins.1) _ λ read _.
                  Ensures-bind (count read.1) _ λ outs _.
                    Ensures-bind
                      (group_outputs tx.outputs output_index id.0 outs.0 [] assigned outs.1) _
                      λ out o. returns (
                        AreAssigned-Adds seen id.0 output_index assigned out.0 fresh h (
                          group_outputs-Adds tx.outputs output_index id.0 outs.0 [] assigned outs.1
                            out o))

  read_groups-IsStrict :
      (n group_index : ℕ) (seen : List AssetId) (assigned : List Asset) (input : List ℕ)
      → AreAssigned seen assigned
      → Ensures
          (λ (r : List Asset × List ℕ). IsStrict r.0)
          (read_groups tx output_index n group_index seen assigned input)
  unfolding read_groups
  read_groups-IsStrict zero group_index seen assigned input h =
      returns (record { positive = h.positive; distinct = h.distinct })
  read_groups-IsStrict (suc n) group_index seen assigned input h =
      Ensures-bind (read_group tx output_index group_index seen assigned input) _ λ r e.
        read_groups-IsStrict n (group_index + 1) (r.0.0 ∷ seen) r.0.1 r.1
          (Ensures-ok _ r (read_group-AreAssigned group_index seen assigned input h) e)

module _ (id_leb : AssetId → AssetId → Bool) where
  All-insert_sorted :
      (P : Asset → Type 0) (a : Asset) (xs : List Asset)
      → P a
      → All P xs
      → All P (insert_sorted id_leb a xs)
  unfolding insert_sorted
  All-insert_sorted P a [] p h = (p, tt)
  All-insert_sorted P a (b ∷ rest) p h = elim (Bool-cases (id_leb a.id b.id)) [
    | inl before ↦ rw before (p, h)
    | inr after ↦ rw after (h.0, All-insert_sorted P a rest p h.1)
  ]

  All-sort_assets :
      (P : Asset → Type 0) (xs : List Asset) → All P xs → All P (sort_assets id_leb xs)
  unfolding sort_assets
  All-sort_assets P [] h = tt
  All-sort_assets P (a ∷ rest) h =
      All-insert_sorted P a (sort_assets id_leb rest) h.0 (All-sort_assets P rest h.1)

  Distinct-insert_sorted :
      (a : Asset) (xs : List Asset)
      → All (λ (b : Asset). b.id ≢ a.id) xs
      → Distinct xs
      → Distinct (insert_sorted id_leb a xs)
  unfolding insert_sorted
  Distinct-insert_sorted a [] h d = (tt, tt)
  Distinct-insert_sorted a (b ∷ rest) h d = elim (Bool-cases (id_leb a.id b.id)) [
    | inl before ↦ rw before (h, d)
    | inr after ↦ rw after (
      All-insert_sorted (λ (c : Asset). c.id ≢ b.id) a rest (λ e. h.0 (sym e)) d.0,
      Distinct-insert_sorted a rest h.1 d.1,
    )
  ]

  Distinct-sort_assets : (xs : List Asset) → Distinct xs → Distinct (sort_assets id_leb xs)
  unfolding sort_assets
  Distinct-sort_assets [] d = tt
  Distinct-sort_assets (a ∷ rest) d =
      Distinct-insert_sorted a (sort_assets id_leb rest)
        (All-sort_assets (λ (b : Asset). b.id ≢ a.id) rest d.0) (Distinct-sort_assets rest d.1)

  IsStrict-sort_assets : (xs : List Asset) → IsStrict xs → IsStrict (sort_assets id_leb xs)
  IsStrict-sort_assets xs h = record {
    positive = All-sort_assets (λ (a : Asset). a.amount ≢ 0) xs h.positive;
    distinct = Distinct-sort_assets xs h.distinct;
  }

  read_packet-IsStrict :
      (tx : Transaction) (output_index : ℕ) (payload : List ℕ)
      → Ensures IsStrict (read_packet id_leb tx output_index payload)
  unfolding read_packet
  read_packet-IsStrict tx output_index payload = Ensures-bind (count payload) _ λ n _.
      Ensures-reject (ltb 65536 n.0) too_many_groups _ λ _.
        Ensures-bind (read_groups tx output_index n.0 0 [] [] n.1) _ λ r e.
          Ensures-bind (finish r.1) _ λ _ _. returns (
            IsStrict-sort_assets r.0 (
              Ensures-ok _ r (read_groups-IsStrict tx output_index n.0 0 [] [] n.1 none_assigned)
                e))

  -- Whatever the transaction, the assets that the decoder assigns to an output have positive amounts
  -- and are of different IDs.
  pub output_assets-IsStrict :
      (tx : Transaction) (output_index : ℕ) (assets : List Asset)
      → output_assets id_leb tx output_index ≡ ok assets
      → IsStrict assets
  unfolding output_assets
  output_assets-IsStrict tx output_index assets e =
      Ensures-ok (output_assets id_leb tx output_index) assets
        (Ensures-reject (leb tx.outputs output_index) output_missing _ λ _.
          Ensures-bind (tx.find_packet_payload asset_packet_type) _ λ payload _. by_payload payload)
        e
    where
      by_payload :
          (payload : Option (List ℕ))
          → Ensures IsStrict (elim payload [
            | none ↦ ok []
            | some bytes ↦ read_packet id_leb tx output_index bytes
          ])
      by_payload none = returns (record { positive = tt; distinct = tt })
      by_payload (some bytes) = read_packet-IsStrict tx output_index bytes

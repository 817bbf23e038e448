-- ===== src/Indexer/Pages.antt =====
-- The pages of src/arkade.rs, read one after the other.
use woodland_sh.Base.{
  ℕ, zero, suc, ◌+◌, ◌≤◌, ◌<◌, true, false, Option, none, some, List, [], ◌∷◌, ◌++◌, leb, length,
  length-append, contains, Result, ok, err, ◌>>=◌, ok_or, ◌≡◌, ◌≢◌, refl, arith, Bool-cases, inl,
  inr, Ensures, Ensures-bind, Ensures-ok, returns, fails, ==-refl, ap, All, All-append, All-imp,
}
use woodland_sh.Base.Int.{ℤ, pos, int_eq}
use woodland_sh.Indexer.{
  VtxoRecord, VtxoPage, OutPoint, outpoint_eq, IndexError, next_vtxo_page, merge_vtxo_records,
  read_pages, get_vtxos_many, max_index_pages, max_index_records, out_of_fuel, request_failed,
}

next_vtxo_page-length :
    (page : VtxoPage) (requested : ℤ) (visited : List ℤ) (index : ℤ) (visited' : List ℤ)
    → next_vtxo_page page requested visited ≡ ok (some index, visited')
    → (length visited' ≡ length visited + 1) × (length visited' ≤ 128)
unfolding next_vtxo_page
next_vtxo_page-length page requested visited index visited' e = ground arith

next_vtxo_page-ends :
    (page : VtxoPage) (requested : ℤ) (visited : List ℤ)
    → next_vtxo_page page requested visited ≢ err out_of_fuel
unfolding next_vtxo_page
next_vtxo_page-ends page requested visited e = ground arith

merge_vtxo_records-ends :
    (page records : List VtxoRecord) (seen : List OutPoint)
    → merge_vtxo_records records seen page ≢ err out_of_fuel
unfolding merge_vtxo_records
merge_vtxo_records-ends [] records seen e = cc
merge_vtxo_records-ends (r ∷ rest) records seen e = ground (
  arith,
  merge_vtxo_records-ends rest records seen,
  merge_vtxo_records-ends rest (records ++ (r ∷ [])) (r.outpoint ∷ seen),
)

-- A chain runs out of fuel only where one of its parts does.
bind-ends {ℓ κ} :
    {A : Type ℓ} {B : Type κ} (m : Result IndexError A) (f : A → Result IndexError B)
    → m ≢ err out_of_fuel
    → ((a : A) → m ≡ ok a → f a ≢ err out_of_fuel)
    → (m >>= f) ≢ err out_of_fuel
bind-ends (ok a) f h k e = k a refl e
bind-ends (err x) f h k e = h (ground arith)

ok_or-ends {ℓ} : {A : Type ℓ} (o : Option A) → ok_or o request_failed ≢ err out_of_fuel
ok_or-ends none e = ground arith
ok_or-ends (some a) e = ground arith

read_pages-ends :
    (request : ℤ → Option VtxoPage) (fuel : ℕ) (index : ℤ) (visited : List ℤ)
    (records : List VtxoRecord) (seen : List OutPoint)
    → 128 < fuel + length visited
    → length visited ≤ 128
    → read_pages request fuel index visited records seen ≢ err out_of_fuel
unfolding read_pages
read_pages-ends request zero index visited records seen enough few = λ e. omega arith
read_pages-ends request (suc fuel) index visited records seen enough few =
    bind-ends (ok_or (request index) request_failed) _ (ok_or-ends (request index)) λ page _.
      bind-ends (next_vtxo_page page index visited) _ (next_vtxo_page-ends page index visited)
        λ n e.
          bind-ends (merge_vtxo_records records seen page.vtxos) _
            (merge_vtxo_records-ends page.vtxos records seen)
            λ m _. goes_on n.0 n.1 m.0 m.1 page e (λ index' visited' records' seen' more less.
              read_pages-ends request fuel index' visited' records' seen' more less)
  where
    goes_on :
        (next : Option ℤ) (visited' : List ℤ) (records' : List VtxoRecord) (seen' : List OutPoint)
        (page : VtxoPage)
        → next_vtxo_page page index visited ≡ ok (next, visited')
        → ((index' : ℤ) (visited' : List ℤ) (records' : List VtxoRecord) (seen' : List OutPoint)
            → 128 < fuel + length visited'
            → length visited' ≤ 128
            → read_pages request fuel index' visited' records' seen' ≢ err out_of_fuel)
        → (elim next as (λ _. Result IndexError (List VtxoRecord)) [
          | none ↦ ok records'
          | some index' ↦ read_pages request fuel index' visited' records' seen'
        ])
          ≢ err out_of_fuel
    goes_on none visited' records' seen' page e rest h = ground arith
    goes_on (some index') visited' records' seen' page e rest h =
        let longer = next_vtxo_page-length page index visited index' visited' e in
        rest index' visited' records' seen' (omega (arith, longer.0)) longer.1 h

-- Each output stands once among the records.
abbrev pub IsOnce : List VtxoRecord → Type 0
IsOnce [] = Unit
IsOnce (r ∷ rest) = All (λ (o : VtxoRecord). o.outpoint ≢ r.outpoint) rest × IsOnce rest

IsOnce-append :
    (records : List VtxoRecord) (r : VtxoRecord)
    → IsOnce records
    → All (λ (o : VtxoRecord). r.outpoint ≢ o.outpoint) records
    → IsOnce (records ++ (r ∷ []))
IsOnce-append [] r h new = (tt, tt)
IsOnce-append (o ∷ rest) r h new = (
  All-append (λ (x : VtxoRecord). x.outpoint ≢ o.outpoint) rest (r ∷ []) h.0 (new.0, tt),
  IsOnce-append rest r h.1 new.1,
)

-- What the merge keeps of the records and the outpoints seen.
record IsMerged (records : List VtxoRecord) (seen : List OutPoint) : Type 0 where
  once : IsOnce records
  known : All (λ (o : VtxoRecord). contains seen o.outpoint ≡ true) records
  few : length records ≤ max_index_records

fresh_record :
    (seen : List OutPoint) (r o : VtxoRecord)
    → contains seen r.outpoint ≡ false
    → contains seen o.outpoint ≡ true
    → r.outpoint ≢ o.outpoint
fresh_record seen r o new old e = ground (arith, ap (λ x. contains seen x) e)

IsMerged-one :
    (records : List VtxoRecord) (seen : List OutPoint) (r : VtxoRecord)
    → IsMerged records seen
    → contains seen r.outpoint ≡ false
    → leb max_index_records (length records) ≡ false
    → IsMerged (records ++ (r ∷ [])) (r.outpoint ∷ seen)
IsMerged-one records seen r h new room = record {
  once = IsOnce-append records r h.once (
      All-imp (λ (o : VtxoRecord). contains seen o.outpoint ≡ true)
        (λ (o : VtxoRecord). r.outpoint ≢ o.outpoint) records
        (λ o old. fresh_record seen r o new old) h.known);
  known =
      All-append (λ (o : VtxoRecord). contains (r.outpoint ∷ seen) o.outpoint ≡ true) records
        (r ∷ [])
        (All-imp (λ (o : VtxoRecord). contains seen o.outpoint ≡ true)
          (λ (o : VtxoRecord). contains (r.outpoint ∷ seen) o.outpoint ≡ true) records
          (λ o old. ground arith) h.known)
        (ground (arith, ==-refl r.outpoint), tt);
  few = ground (arith, length-append records (r ∷ []));
}

merge_vtxo_records-IsMerged :
    (page records : List VtxoRecord) (seen : List OutPoint)
    → IsMerged records seen
    → Ensures
        (λ (m : List VtxoRecord × List OutPoint). IsMerged m.0 m.1)
        (merge_vtxo_records records seen page)
unfolding merge_vtxo_records
merge_vtxo_records-IsMerged [] records seen h = returns h
merge_vtxo_records-IsMerged (r ∷ rest) records seen h =
    elim (Bool-cases (contains seen r.outpoint)) [
      | inl old ↦ rw old (merge_vtxo_records-IsMerged rest records seen h)
      | inr new ↦ elim (Bool-cases (leb max_index_records (length records))) [
        | inl full ↦ rw (new, full) fails
        | inr room ↦
            rw (new, room)
              (merge_vtxo_records-IsMerged rest (records ++ (r ∷ [])) (r.outpoint ∷ seen)
                (IsMerged-one records seen r h new room))
      ]
    ]

read_pages-IsMerged :
    (request : ℤ → Option VtxoPage) (fuel : ℕ) (index : ℤ) (visited : List ℤ)
    (records : List VtxoRecord) (seen : List OutPoint)
    → IsMerged records seen
    → Ensures
        (λ (all : List VtxoRecord). IsOnce all × (length all ≤ max_index_records))
        (read_pages request fuel index visited records seen)
unfolding read_pages
read_pages-IsMerged request zero index visited records seen h = fails
read_pages-IsMerged request (suc fuel) index visited records seen h =
    Ensures-bind (ok_or (request index) request_failed) _ λ page _.
      Ensures-bind (next_vtxo_page page index visited) _ λ n _.
        Ensures-bind (merge_vtxo_records records seen page.vtxos) _ λ m e.
          goes_on n.0 n.1 m.0 m.1
            (Ensures-ok (merge_vtxo_records records seen page.vtxos) m
              (merge_vtxo_records-IsMerged page.vtxos records seen h) e)
            (λ index' visited' records' seen' merged.
              read_pages-IsMerged request fuel index' visited' records' seen' merged)
  where
    goes_on :
        (next : Option ℤ) (visited' : List ℤ) (records' : List VtxoRecord) (seen' : List OutPoint)
        → IsMerged records' seen'
        → ((index' : ℤ) (visited' : List ℤ) (records' : List VtxoRecord) (seen' : List OutPoint)
            → IsMerged records' seen'
            → Ensures
                (λ (all : List VtxoRecord). IsOnce all × (length all ≤ max_index_records))
                (read_pages request fuel index' visited' records' seen'))
        → Ensures
            (λ (all : List VtxoRecord). IsOnce all × (length all ≤ max_index_records))
            (elim next as (λ _. Result IndexError (List VtxoRecord)) [
              | none ↦ ok records'
              | some index' ↦ read_pages request fuel index' visited' records' seen'
            ])
    goes_on none visited' records' seen' merged rest = returns (merged.once, merged.few)
    goes_on (some index') visited' records' seen' merged rest =
        rest index' visited' records' seen' merged

-- Whatever the indexer answers, reading its pages ends within the 128 rounds given, and where it
-- returns records, each output stands once among them and they are at most 100,000.
pub get_vtxos_many_lem :
    (request : ℤ → Option VtxoPage)
    → (get_vtxos_many request ≢ err out_of_fuel)
      × ((all : List VtxoRecord)
          → get_vtxos_many request ≡ ok all
          → IsOnce all × (length all ≤ max_index_records))
unfolding get_vtxos_many
get_vtxos_many_lem request = (
  read_pages-ends request max_index_pages (pos 1) (pos 1 ∷ []) [] [] (omega arith) (omega arith),
  (λ all e.
      Ensures-ok (read_pages request max_index_pages (pos 1) (pos 1 ∷ []) [] []) all
        (read_pages-IsMerged request max_index_pages (pos 1) (pos 1 ∷ []) [] []
          (record { once = tt; known = tt; few = omega arith }))
        e),
)

-- ===== src/Batch/Forfeits/Returned.antt =====
-- The forfeits that the emulator returns to `combine_forfeits` of src/batch.rs.
use woodland_sh.Base.{
  ℕ, true, false, some, List, [], ◌∷◌, length, ◌==◌, list_eq, list_beq_iff, nat_eq, String, ok_or,
  ok_or-eq-ok, Ensures, returns, Ensures-bind, Ensures-reject, Ensures-imp, Bool-cases, ◌≡◌, refl,
  ◌⊎◌, inl, inr, All, arith,
}
use woodland_sh.Base.Dict.{Dict, get}
use woodland_sh.Batch.Graph.{Txid, is_some}
use woodland_sh.Batch.Signatures.{Psbt}
use woodland_sh.Batch.Forfeits.{
  ForfeitLibrary, read_emulator_forfeits, undecodable, unparsable, duplicate_forfeit,
}

-- Two lists of the same length, related place by place.
pub data Pairs {A : Type 0} {B : Type 0} (R : A → B → Type 0) : List A → List B → Type 0 where
  no_more : Pairs R [] []
  pair :
      {a : A} {b : B} {xs : List A} {ys : List B}
      → R a b
      → Pairs R xs ys
      → Pairs R (a ∷ xs) (b ∷ ys)

abbrev pub IsIn : List Psbt → Psbt → Type 0
IsIn [] p = ⊥
IsIn (x ∷ rest) p = (p ≡ x) ⊎ IsIn rest p

pub All-IsIn : (P : Psbt → Type 0) (xs : List Psbt) → ((p : Psbt) → IsIn xs p → P p) → All P xs
All-IsIn P [] h = tt
All-IsIn P (x ∷ rest) h = (h x (inl refl), All-IsIn P rest (λ p i. h p (inr i)))

pub get-empty :
    (d : Dict Txid Psbt) (t : Txid) (p : Psbt) → (length d == 0) ≡ true → get d t ≡ some p → ⊥
unfolding get
get-empty [] t p h e = cc
get-empty (x ∷ rest) t p h e = ground arith

pub get-none : (t : Txid) (p : Psbt) → get [] t ≡ some p → ⊥
unfolding get
get-none t p e = cc

get-first :
    (d : Dict Txid Psbt) (k t : Txid) (p q : Psbt)
    → get ((k, q) ∷ d) t ≡ some p
    → (p ≡ q) ⊎ (get d t ≡ some p)
unfolding get
get-first d k t p q e = elim (Bool-cases (t == k)) [
  | inl same ↦ inl (ground (arith, e, same))
  | inr other ↦ inr (ground (arith, e, other))
]

get_self : (d : Dict Txid Psbt) (k : Txid) (q : Psbt) → get ((k, q) ∷ d) k ≡ some q
unfolding get
get_self d k q = rw ((list_beq_iff k k).1 refl) refl

get-kept :
    (d : Dict Txid Psbt) (k t : Txid) (p q : Psbt)
    → is_some (get d k) ≡ false
    → get d t ≡ some p
    → get ((k, q) ∷ d) t ≡ some p
unfolding get
get-kept d k t p q n e = elim (Bool-cases (t == k)) [
  | inl same ↦ absurd (ground (arith, list_beq_iff t k, n, e, same))
  | inr other ↦ rw other e
]

module _ (lib : ForfeitLibrary) where
  abbrev pub IsDecoded : String → Psbt → Type 0
  IsDecoded encoded psbt =
      (bytes : List ℕ) × (lib.decode_base64 encoded ≡ some bytes)
      × (lib.deserialize bytes ≡ some psbt)

  -- The dictionary holds what was returned, besides what it held before.
  pub record IsRead (before : Dict Txid Psbt) (encoded : List String) (after : Dict Txid Psbt)
      : Type 0 where
    pub returned : List Psbt
    pub decoded : Pairs IsDecoded encoded returned
    pub there : (p : Psbt) → IsIn returned p → get after p.tx.txid ≡ some p
    pub only :
        (t : Txid) (p : Psbt) → get after t ≡ some p → IsIn returned p ⊎ (get before t ≡ some p)
    pub kept : (t : Txid) (p : Psbt) → get before t ≡ some p → get after t ≡ some p

  IsRead-cons :
      (before after : Dict Txid Psbt) (first : String) (rest : List String) (psbt : Psbt)
      → IsDecoded first psbt
      → is_some (get before psbt.tx.txid) ≡ false
      → IsRead ((psbt.tx.txid, psbt) ∷ before) rest after
      → IsRead before (first ∷ rest) after
  IsRead-cons before after first rest psbt d n r = record {
    returned = psbt ∷ r.returned;
    decoded = pair d r.decoded;
    there = λ p i. elim i [
      | inl same ↦ rw same (r.kept psbt.tx.txid psbt (get_self before psbt.tx.txid psbt))
      | inr later ↦ r.there p later
    ];
    only = λ t p e. elim (r.only t p e) [
      | inl later ↦ inl (inr later)
      | inr held ↦ elim (get-first before psbt.tx.txid t p psbt held) [
        | inl same ↦ inl (inl same)
        | inr earlier ↦ inr earlier
      ]
    ];
    kept = λ t p e. r.kept t p (get-kept before psbt.tx.txid t p psbt n e);
  }

  pub read_emulator_forfeits-IsRead :
      (before : Dict Txid Psbt) (encoded : List String)
      → Ensures (IsRead before encoded) (read_emulator_forfeits lib before encoded)
  unfolding read_emulator_forfeits
  read_emulator_forfeits-IsRead before [] = returns (record {
    returned = [];
    decoded = no_more;
    there = λ p i. absurd i;
    only = λ t p e. inr e;
    kept = λ t p e. e;
  })
  read_emulator_forfeits-IsRead before (first ∷ rest) =
      Ensures-bind (ok_or (lib.decode_base64 first) undecodable) _ (λ bytes b.
        Ensures-bind (ok_or (lib.deserialize bytes) unparsable) _ (λ psbt d.
          Ensures-reject (is_some (get before psbt.tx.txid)) duplicate_forfeit _ (λ n.
            Ensures-imp
              (λ after r.
                IsRead-cons before after first rest psbt
                  (
                    bytes,
                    ok_or-eq-ok (lib.decode_base64 first) undecodable b,
                    ok_or-eq-ok (lib.deserialize bytes) unparsable d,
                  )
                  n r)
              (read_emulator_forfeits-IsRead ((psbt.tx.txid, psbt) ∷ before) rest))))

-- ===== src/Batch/Forfeits/Combined.antt =====
-- What `combine_forfeits` of src/batch.rs hands on to arkd.
use woodland_sh.Base.{
  ℕ, ◌+◌, Bool, true, false, not, ◌&&◌, ◌||◌, Option, none, some, List, [], ◌∷◌, length, get_elem?,
  ◌==◌, nat_eq, list_eq, String, Result, ok, err, ok_or, ok_or-eq-ok, >>=-eq-ok, reject-eq-ok,
  ok-injective, Ensures, returns, fails, Ensures-bind, Ensures-reject, Ensures-ok, ◌≡◌, refl, ◌∙◌,
  ◌⊎◌, inl, inr, subst, sym, ap, arith, All, Bool-cases, list_beq_iff,
}
use woodland_sh.Base.Dict.{Dict, get, delete, get-delete}
use woodland_sh.Batch.Forfeits.Returned.{
  Pairs, no_more, pair, IsIn, All-IsIn, IsDecoded, get-empty, get-none,
  read_emulator_forfeits-IsRead,
}
use woodland_sh.Indexer.{OutPoint, outpoint_eq}
use woodland_sh.Batch.Graph.{Txid, TxInput}
use woodland_sh.Batch.Trees.{Key}
use woodland_sh.Batch.Signatures.{
  SignatureError, Psbt, PsbtInput, IsSignedBy, verified_signature_for_key,
  verified_signature_for_key-IsSignedBy,
}
use woodland_sh.Batch.Forfeits.{
  ForfeitError, ForfeitLibrary, tx_eq, tx_beq_iff, one_if, in_signature, read_emulator_forfeits,
  merge_forfeit, require_signature_if, is_owner_expected, complete_forfeit, complete_forfeits,
  combine_forfeits, missing_vtxo_input, multiple_state_forfeits, omitted_state_forfeit,
  changed_forfeit, incompatible_forfeit, index_panic, unexpected_signature, no_state_forfeit,
  unexpected_forfeits,
}

-- The forfeit spends the renewal's state.
abbrev pub spends_state : OutPoint → Psbt → Bool
spends_state state_outpoint ours = elim (get_elem? ours.tx.inputs 1) [
  | none ↦ false
  | some input ↦ input.previous_output == state_outpoint
]

abbrev pub count_state : OutPoint → List Psbt → ℕ
count_state state_outpoint [] = 0
count_state state_outpoint (ours ∷ rest) =
    one_if (spends_state state_outpoint ours) + count_state state_outpoint rest

in_signature-eq-ok : (r : Result SignatureError (Unit {0})) → in_signature r ≡ ok tt → r ≡ ok tt
in_signature-eq-ok (ok u) h = refl
in_signature-eq-ok (err e) h = cc

Ensures-ok_or :
    {P : Psbt → Type 0} (o : Option Psbt) (e : ForfeitError)
    → ((a : Psbt) → o ≡ some a → P a)
    → Ensures P (ok_or o e)
Ensures-ok_or none e h = fails
Ensures-ok_or (some a) e h = returns (h a refl)

spends_state_lem :
    (state_outpoint : OutPoint) (ours : Psbt) (spent : TxInput)
    → get_elem? ours.tx.inputs 1 ≡ some spent
    → spends_state state_outpoint ours ≡ (spent.previous_output == state_outpoint)
spends_state_lem state_outpoint ours spent s = rw (s, spends_state) refl

count_step :
    (here seen final : Bool) (flag : Bool) (rest : ℕ)
    → here ≡ flag
    → (here && seen) ≡ false
    → one_if final ≡ one_if (seen || here) + rest
    → one_if final ≡ one_if seen + (one_if flag + rest)
count_step here seen final flag rest e n h = ground arith

module _ (lib : ForfeitLibrary) where
  -- The forfeit is ours as it was, or ours combined with one that was returned for its transaction.
  abbrev pub IsMerge : List Psbt → Bool → Psbt → Psbt → Type 0
  IsMerge returned is_state ours combined =
      ((is_state ≡ false) × (combined ≡ ours))
      ⊎ ((theirs : Psbt) × IsIn returned theirs
          × (ours.tx ≡ theirs.tx)
          × (lib.combine ours theirs ≡ some combined))

  -- One of ours is combined with this forfeit, and the result stands in its place.
  abbrev pub IsUsed : List Psbt → List Psbt → Psbt → Type 0
  IsUsed (ours ∷ local) (combined ∷ complete) theirs =
      ((ours.tx ≡ theirs.tx) × (lib.combine ours theirs ≡ some combined))
      ⊎ IsUsed local complete theirs
  IsUsed _ _ theirs = ⊥

  -- What is made of ours, where this was found for its transaction.
  abbrev IsAnswer : Option Psbt → Bool → Psbt → Psbt → Type 0
  IsAnswer none is_state ours combined = (is_state ≡ false) × (combined ≡ ours)
  IsAnswer (some theirs) is_state ours combined =
      (ours.tx ≡ theirs.tx) × (lib.combine ours theirs ≡ some combined)

  merge_forfeit-IsAnswer :
      (found : Option Psbt) (is_state : Bool) (ours : Psbt)
      → Ensures (IsAnswer found is_state ours) (merge_forfeit lib found is_state ours)
  unfolding merge_forfeit
  merge_forfeit-IsAnswer (some theirs) is_state ours =
      Ensures-reject (not (ours.tx == theirs.tx)) changed_forfeit _ (λ same.
        Ensures-ok_or (lib.combine ours theirs) incompatible_forfeit
          (λ combined c. ((tx_beq_iff ours.tx theirs.tx).0 (ground arith), c)))
  merge_forfeit-IsAnswer none is_state ours =
      Ensures-reject is_state omitted_state_forfeit _ (λ n. returns (n, refl))

  IsAnswer-IsMerge :
      (returned : List Psbt) (found : Option Psbt) (is_state : Bool) (ours combined : Psbt)
      → ((p : Psbt) → found ≡ some p → IsIn returned p)
      → IsAnswer found is_state ours combined
      → IsMerge returned is_state ours combined
  IsAnswer-IsMerge returned none is_state ours combined i a = inl a
  IsAnswer-IsMerge returned (some theirs) is_state ours combined i a =
      inr (theirs, i theirs refl, a.0, a.1)

  IsAnswer-found :
      (found : Option Psbt) (is_state : Bool) (ours combined theirs : Psbt)
      → found ≡ some theirs
      → IsAnswer found is_state ours combined
      → (ours.tx ≡ theirs.tx) × (lib.combine ours theirs ≡ some combined)
  IsAnswer-found found is_state ours combined theirs e a =
      subst (λ f. IsAnswer f is_state ours combined) e a

  require_signature_if_lem :
      (t : Bool) (ours combined : Psbt) (signer_key : Key)
      → require_signature_if lib t ours combined signer_key ≡ ok tt
      → t ≡ true
      → IsSignedBy lib.signatures ours combined 1 signer_key
  unfolding require_signature_if
  require_signature_if_lem false ours combined signer_key h t = cc
  require_signature_if_lem true ours combined signer_key h t =
      let r =
        >>=-eq-ok (verified_signature_for_key lib.signatures ours combined 1 signer_key) _
          (in_signature-eq-ok _ h) in
      verified_signature_for_key-IsSignedBy lib.signatures ours combined 1 signer_key r.0 r.1

  module _ (owner_pk tweaked_emulator : Key) (state_outpoint : OutPoint)
      (returned : List Psbt) where
    -- The state's forfeit is signed by the emulator's covenant key; each that names the owner's key, by the
    -- owner; and there is no other signature.
    pub record IsComplete (ours combined : Psbt) : Type 0 where
      pub input : PsbtInput
      pub signed : PsbtInput
      pub ours_there : get_elem? ours.inputs 1 ≡ some input
      pub combined_there : get_elem? combined.inputs 1 ≡ some signed
      pub merged : IsMerge returned (spends_state state_outpoint ours) ours combined
      pub emulator_signed :
          spends_state state_outpoint ours ≡ true
          → IsSignedBy lib.signatures ours combined 1 tweaked_emulator
      pub owner_signed :
          is_owner_expected lib owner_pk input.witness_script ≡ true
          → IsSignedBy lib.signatures ours combined 1 owner_pk
      pub no_others :
          length signed.tap_script_sigs
          ≡ one_if (spends_state state_outpoint ours)
            + one_if (is_owner_expected lib owner_pk input.witness_script)

    -- All that is found is returned.
    abbrev IsOfReturned : Dict Txid Psbt → Type 0
    IsOfReturned by_txid = (t : Txid) (p : Psbt) → get by_txid t ≡ some p → IsIn returned p

    abbrev IsDone : Dict Txid Psbt → Bool → Psbt → Psbt × Bool → Type 0
    IsDone by_txid state_seen ours done =
        IsComplete ours done.0
        × IsAnswer (get by_txid ours.tx.txid) (spends_state state_outpoint ours) ours done.0
        × (done.1 ≡ spends_state state_outpoint ours)
        × ((done.1 && state_seen) ≡ false)

    complete_forfeit_lem :
        (by_txid : Dict Txid Psbt) (state_seen : Bool) (ours : Psbt)
        → IsOfReturned by_txid
        → Ensures
            (IsDone by_txid state_seen ours)
            (complete_forfeit lib owner_pk tweaked_emulator state_outpoint by_txid state_seen ours)
    unfolding complete_forfeit
    complete_forfeit_lem by_txid state_seen ours all =
        Ensures-bind (ok_or (get_elem? ours.tx.inputs 1) missing_vtxo_input) _ (λ spent s.
          let is_state : Bool = spent.previous_output == state_outpoint in
          let state : spends_state state_outpoint ours ≡ is_state =
            spends_state_lem state_outpoint ours spent
              (ok_or-eq-ok (get_elem? ours.tx.inputs 1) missing_vtxo_input s) in
          Ensures-reject (is_state && state_seen) multiple_state_forfeits _ (λ single.
            Ensures-bind (merge_forfeit lib (get by_txid ours.tx.txid) is_state ours) _
              (λ combined m.
                Ensures-bind (require_signature_if lib is_state ours combined tweaked_emulator) _
                  (λ _ emulator.
                    Ensures-bind (ok_or (get_elem? ours.inputs 1) index_panic) _ (λ input i.
                      let owner_sig_expected : Bool =
                        is_owner_expected lib owner_pk input.witness_script in
                      Ensures-bind
                        (require_signature_if lib owner_sig_expected ours combined owner_pk) _
                        (λ _ owner.
                          Ensures-bind (ok_or (get_elem? combined.inputs 1) index_panic) _
                            (λ signed g.
                              Ensures-reject
                                (not (
                                  length signed.tap_script_sigs
                                  == one_if is_state + one_if owner_sig_expected))
                                unexpected_signature _
                                (λ few.
                                  let answer =
                                    subst (λ b. IsAnswer (get by_txid ours.tx.txid) b ours combined)
                                      (sym state)
                                      (Ensures-ok _ combined
                                        (merge_forfeit-IsAnswer (get by_txid ours.tx.txid) is_state
                                          ours)
                                        m) in
                                  returns (
                                    record {
                                      input = input;
                                      signed = signed;
                                      ours_there = ok_or-eq-ok _ index_panic i;
                                      combined_there = ok_or-eq-ok _ index_panic g;
                                      merged =
                                          IsAnswer-IsMerge returned (get by_txid ours.tx.txid) _
                                            ours combined (all ours.tx.txid) answer;
                                      emulator_signed = λ t.
                                          require_signature_if_lem is_state ours combined
                                            tweaked_emulator emulator (sym state ∙ t);
                                      owner_signed =
                                          require_signature_if_lem owner_sig_expected ours combined
                                            owner_pk owner;
                                      no_others = ground (arith, state);
                                    },
                                    answer,
                                    sym state,
                                    single,
                                  )))))))))

    IsOfReturned-delete :
        (by_txid : Dict Txid Psbt) (k : Txid)
        → IsOfReturned by_txid
        → IsOfReturned (delete by_txid k)
    IsOfReturned-delete by_txid k all t p e = all t p (ground (arith, get-delete by_txid k t, e))

    abbrev IsAll : Bool → List Psbt → List Psbt × Bool × Dict Txid Psbt → Type 0
    IsAll state_seen local done =
        Pairs IsComplete local done.0
        × (one_if done.1 ≡ one_if state_seen + count_state state_outpoint local)

    complete_forfeits_lem :
        (by_txid : Dict Txid Psbt) (state_seen : Bool) (local : List Psbt)
        → IsOfReturned by_txid
        → Ensures (IsAll state_seen local) (
            complete_forfeits lib owner_pk tweaked_emulator state_outpoint by_txid state_seen local)
    unfolding complete_forfeits
    complete_forfeits_lem by_txid state_seen [] all = returns (no_more, omega arith)
    complete_forfeits_lem by_txid state_seen (ours ∷ rest) all =
        Ensures-bind
          (complete_forfeit lib owner_pk tweaked_emulator state_outpoint by_txid state_seen ours) _
          (λ done d.
            let here = Ensures-ok _ done (complete_forfeit_lem by_txid state_seen ours all) d in
            Ensures-bind
              (complete_forfeits lib owner_pk tweaked_emulator state_outpoint
                (delete by_txid ours.tx.txid) (state_seen || done.1) rest)
              _
              (λ later l.
                let others =
                  Ensures-ok _ later
                    (complete_forfeits_lem (delete by_txid ours.tx.txid) (state_seen || done.1) rest
                      (IsOfReturned-delete by_txid ours.tx.txid all))
                    l in
                returns (
                  pair here.0 others.0,
                  count_step done.1 state_seen _ _ _ here.2 here.3 others.1,
                )))

    -- What is found is used, or left at the end.
    complete_forfeits-IsUsed :
        (by_txid : Dict Txid Psbt) (state_seen : Bool) (local : List Psbt) (t : Txid)
        (theirs : Psbt)
        → IsOfReturned by_txid
        → get by_txid t ≡ some theirs
        → Ensures
            (λ (done : List Psbt × Bool × Dict Txid Psbt).
              IsUsed local done.0 theirs ⊎ (get done.2 t ≡ some theirs))
            (complete_forfeits lib owner_pk tweaked_emulator state_outpoint by_txid state_seen
              local)
    unfolding complete_forfeits
    complete_forfeits-IsUsed by_txid state_seen [] t theirs all e = returns (inr e)
    complete_forfeits-IsUsed by_txid state_seen (ours ∷ rest) t theirs all e =
        Ensures-bind
          (complete_forfeit lib owner_pk tweaked_emulator state_outpoint by_txid state_seen ours) _
          (λ done d.
            Ensures-bind
              (complete_forfeits lib owner_pk tweaked_emulator state_outpoint
                (delete by_txid ours.tx.txid) (state_seen || done.1) rest)
              _
              (λ later l. returns (elim (Bool-cases (t == ours.tx.txid)) [
                | inl same ↦
                    let here =
                      Ensures-ok _ done (complete_forfeit_lem by_txid state_seen ours all) d in
                    inl (
                      inl (
                        IsAnswer-found (get by_txid ours.tx.txid) _ ours done.0 theirs
                          (ap (get by_txid) (sym ((list_beq_iff t ours.tx.txid).0 same)) ∙ e)
                          here.1))
                | inr other ↦
                    elim (Ensures-ok _ later
                      (complete_forfeits-IsUsed (delete by_txid ours.tx.txid) (state_seen || done.1)
                        rest t theirs (IsOfReturned-delete by_txid ours.tx.txid all)
                        (ground (arith, get-delete by_txid ours.tx.txid t, other, e)))
                      l) [ inl used ↦ inl (inr used) | inr left ↦ inr left ]
              ])))

  -- What becomes of our forfeits and of those that the emulator returned.
  pub record IsCombined (owner_pk : Key) (local : List Psbt) (emulator_signed : List String)
      (tweaked_emulator : Key) (state_outpoint : OutPoint) (complete : List Psbt) : Type 0 where
    pub returned : List Psbt
    pub decoded : Pairs (IsDecoded lib) emulator_signed returned
    pub pairs : Pairs (IsComplete owner_pk tweaked_emulator state_outpoint returned) local complete
    pub used : All (IsUsed local complete) returned
    pub one_state : count_state state_outpoint local ≡ 1

  -- What is handed on answers our forfeits one by one: each is ours as it was, or ours combined with one that
  -- the emulator returned for the same transaction. Each that the emulator returned is combined with one of
  -- ours. Just one of ours spends the renewal's state; it is combined, and carries the valid signature of the
  -- emulator's covenant key. Each that names the owner's key carries the owner's valid signature, and none
  -- carries any other.
  pub combine_forfeits_lem :
      (owner_pk : Key) (local complete : List Psbt) (emulator_signed : List String)
      (tweaked_emulator : Key) (state_outpoint : OutPoint)
      → combine_forfeits lib owner_pk local emulator_signed (some tweaked_emulator) state_outpoint
        ≡ ok complete
      → IsCombined owner_pk local emulator_signed tweaked_emulator state_outpoint complete
  unfolding combine_forfeits
  combine_forfeits_lem owner_pk local complete emulator_signed tweaked_emulator state_outpoint h =
      let first = >>=-eq-ok (read_emulator_forfeits lib [] emulator_signed) _ h in
      let read =
        Ensures-ok _ first.0 (read_emulator_forfeits-IsRead lib [] emulator_signed) first.1 in
      let all : (t : Txid) (p : Psbt) → get first.0 t ≡ some p → IsIn read.returned p =
        λ t p e. elim (read.only t p e) [ inl i ↦ i | inr n ↦ absurd (get-none t p n) ] in
      let second =
        >>=-eq-ok
          (complete_forfeits lib owner_pk tweaked_emulator state_outpoint first.0 false local) _
          first.2 in
      let done =
        Ensures-ok _ second.0
          (complete_forfeits_lem owner_pk tweaked_emulator state_outpoint read.returned first.0
            false local all)
          second.1 in
      let third = reject-eq-ok (not second.0.1) no_state_forfeit _ second.2 in
      let fourth = reject-eq-ok (not (length second.0.2 == 0)) unexpected_forfeits _ third.1 in
      let same : second.0.0 ≡ complete = ok-injective fourth.1 in
      record {
        returned = read.returned;
        decoded = read.decoded;
        pairs =
            subst (Pairs (IsComplete owner_pk tweaked_emulator state_outpoint read.returned) local)
              {x = second.0.0} {y = complete} same done.0;
        used = All-IsIn (IsUsed local complete) read.returned (λ p i.
            subst (λ c. IsUsed local c p) {x = second.0.0} {y = complete} same
              (elim (Ensures-ok _ second.0
                (complete_forfeits-IsUsed owner_pk tweaked_emulator state_outpoint read.returned
                  first.0 false local p.tx.txid p all (read.there p i))
                second.1) [
                  | inl used ↦ used
                  | inr left ↦
                      absurd (get-empty second.0.2 p.tx.txid p (ground (arith, fourth.0)) left)
                ]));
        one_state = ground (arith, third.0, done.1);
      }

-- ===== src/Batch/Forfeits/Examples.antt =====
-- Runs of `combine_forfeits` of src/batch.rs on one forfeit.
use woodland_sh.Base.{ℕ, true, none, some, List, [], ◌∷◌, ok, err, ◌≡◌, refl}
use woodland_sh.Base.Int.{pos}
use woodland_sh.Base.Dict.{get, delete}
use woodland_sh.Indexer.{OutPoint, TxOutput}
use woodland_sh.Batch.Graph.{Tx}
use woodland_sh.Batch.Signatures.{verified_signature_for_key, Signature, Psbt}
use woodland_sh.Batch.Forfeits.{
  ForfeitLibrary, combine_forfeits, omitted_state_forfeit, duplicate_forfeit,
}
use woodland_sh.Batch.Forfeits.Combined.{IsCombined, combine_forfeits_lem}

abbrev state_outpoint : OutPoint
state_outpoint = record { txid = 2 ∷ []; vout = 0 }

abbrev forfeit : Tx
forfeit = record {
  txid = 5 ∷ [];
  version = pos 3;
  lock_time = 0;
  inputs =
      record { previous_output = record { txid = 1 ∷ []; vout = 0 }; sequence = 0 }
      ∷ record { previous_output = state_outpoint; sequence = 0 }
      ∷ [];
  outputs = [];
}

abbrev utxo : TxOutput
utxo = record { script_pubkey = []; value = 5 }

-- The leaf's script is 3, and a signature of a key is its byte.
abbrev with_signatures : List (List ℕ) → Psbt
with_signatures keys = record {
  tx = forfeit;
  inputs =
      record {
        tap_script = none;
        tap_script_sigs = [];
        tap_key_sig = none;
        witness_utxo = some utxo;
        witness_script = none;
      }
      ∷ record {
        tap_script = some (3 ∷ [], 192);
        tap_script_sigs = signatures keys;
        tap_key_sig = none;
        witness_utxo = some utxo;
        witness_script = some (3 ∷ []);
      }
      ∷ [];
}
  where
    signatures : List (List ℕ) → List ((List ℕ × List ℕ) × Signature)
    signatures [] = []
    signatures (key ∷ rest) =
        ((key, 3 ∷ []), record { bytes = key; sighash_type = 0 }) ∷ signatures rest

abbrev lib : ForfeitLibrary
lib = record {
  signatures = record {
    leaf_hash = λ script version. script;
    script_hash = λ tx i prevouts leaf kind. some (9 ∷ []);
    key_hash = λ tx i prevouts kind. some (9 ∷ []);
    parse_xonly = λ bytes. some bytes;
    verify_schnorr = λ signature message key. true;
  };
  decode_base64 = λ text. some [];
  deserialize = λ bytes. some (with_signatures ((60 ∷ []) ∷ []));
  combine = λ ours theirs. some (with_signatures ((40 ∷ []) ∷ (60 ∷ []) ∷ []));
  extract_checksig_pubkeys = λ script. (40 ∷ []) ∷ (60 ∷ []) ∷ [];
}

abbrev ours : Psbt
ours = with_signatures ((40 ∷ []) ∷ [])

combined :
    combine_forfeits lib (40 ∷ []) (ours ∷ []) ("" ∷ []) (some (60 ∷ [])) state_outpoint
    ≡ ok (with_signatures ((40 ∷ []) ∷ (60 ∷ []) ∷ []) ∷ [])
unfolding combine_forfeits get delete verified_signature_for_key
combined = refl

omitted :
    combine_forfeits lib (40 ∷ []) (ours ∷ []) [] (some (60 ∷ [])) state_outpoint
    ≡ err omitted_state_forfeit
unfolding combine_forfeits get delete verified_signature_for_key
omitted = refl

twice :
    combine_forfeits lib (40 ∷ []) (ours ∷ []) ("" ∷ "" ∷ []) (some (60 ∷ [])) state_outpoint
    ≡ err duplicate_forfeit
unfolding combine_forfeits get delete verified_signature_for_key
twice = refl

combine_forfeits_lem_example :
    IsCombined lib
      (40 ∷ [])
      (ours ∷ [])
      ("" ∷ [])
      (60 ∷ [])
      state_outpoint
      (with_signatures ((40 ∷ []) ∷ (60 ∷ []) ∷ []) ∷ [])
combine_forfeits_lem_example =
    combine_forfeits_lem lib (40 ∷ []) (ours ∷ [])
      (with_signatures ((40 ∷ []) ∷ (60 ∷ []) ∷ []) ∷ []) ("" ∷ []) (60 ∷ []) state_outpoint
      combined

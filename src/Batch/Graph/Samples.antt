-- ===== src/Batch/Graph/Samples.antt =====
-- A parent with two outputs, of which one child is received, for the runs of the checks of src/batch.rs.
use woodland_sh.Base.{zero, suc, ℕ, none, some, List, [], ◌∷◌}
use woodland_sh.Base.Int.{pos}
use woodland_sh.Batch.Graph.{Tx, Chunk, Nodes}
use woodland_sh.Indexer.{TxOutput}

-- The unknown fields of a PSBT, with a cosigner each, and one that is no cosigner's.
abbrev pub cosigners : List ℕ → List ℕ → List (List ℕ × List ℕ)
cosigners a b = (5 ∷ 0 ∷ [], a) ∷ (8 ∷ [], 1 ∷ []) ∷ (5 ∷ 1 ∷ [], b) ∷ []

abbrev pub anchor : TxOutput
anchor = record { script_pubkey = 7 ∷ []; value = 0 }

abbrev pub repeat : ℕ → List ℕ
repeat zero = []
repeat (suc n) = 7 ∷ repeat n

abbrev pub p2tr : List ℕ
p2tr = 0x51 ∷ 0x20 ∷ repeat 32

abbrev pub pay : ℕ → TxOutput
pay value = record { script_pubkey = p2tr; value = value }

abbrev pub node : ℕ → ℕ → ℕ → List TxOutput → Tx
node id parent vout outputs = record {
  txid = id ∷ [];
  version = pos 3;
  lock_time = 0;
  inputs =
      record { previous_output = record { txid = parent ∷ []; vout = vout }; sequence = 0xFFFFFFFF }
      ∷ [];
  outputs = outputs;
}

abbrev pub commitment : Tx
commitment = node 1 0 0 (pay 30 ∷ pay 5 ∷ [])

abbrev pub parent : Chunk
parent = record {
  txid = some (2 ∷ []);
  tx = node 2 1 0 (pay 10 ∷ pay 20 ∷ anchor ∷ []);
  children = (0, 3 ∷ []) ∷ (1, 4 ∷ []) ∷ [];
  unknown = some (cosigners (40 ∷ []) (60 ∷ []));
}

abbrev pub child : ℕ → ℕ → Chunk
child vout value = record {
  txid = none;
  tx = node 4 2 vout (pay value ∷ anchor ∷ []);
  children = [];
  unknown = some (cosigners (60 ∷ []) (40 ∷ []));
}

abbrev pub nodes : Nodes
nodes = (4 ∷ [], child 1 20) ∷ (2 ∷ [], parent) ∷ []

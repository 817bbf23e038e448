-- ===== src/Lib.antt =====
-- woodland.sh: a game of woodcutting whose players and trees are covenant outputs on Ark. A chop moves
-- LOG, XP and materials from a tree to a player as the public luck decides; a renewal carries outputs
-- into a new batch before they expire.
--
-- Which file models which part:
--   Player/Progress  src/player.rs: XP, levels, axe tiers, recipes, the LOG drop rate
--   Player/Luck      src/player.rs: PlayerRoll, PlayerLuckCredit, PlayerLuck, material_drop
--   Tree             src/tree.rs: TreeState, TreeHealth, classify_transition_shape
--   World/Lineage    src/world.rs: TreeLineageScan, the lineages of the trees through the indexer
--   Renewal/Fees     src/renewal.rs: the fee of a renewal that a wallet's VTXO pays for
--   Operator/Funding src/operator.rs: the wallet records that fund a deployment
--   Chop/ByPlayer    src/player.rs: PlayerChopTransition::validate
--   Chop/ByTree      src/tree.rs: ChopTransition::validate
--   Chop/Agreement   what the two mirrors of one chop have in common
--   AssetPacket      src/asset_packet.rs: the decoder of Asset V1 packets and its cursor; also
--                    VtxoRecord::asset_amount of src/arkade.rs
--   Batch/Expiry     src/batch.rs: validate_batch_expiry
--   Batch/Progress   src/batch.rs: BatchProgress, the marks of a renewal's event loop
--   Batch/Graph      src/batch.rs: validate_graph, sum_outputs
--   Batch/Trees      src/batch.rs: validate_vtxo_tree, validate_connector_tree and what they call
--   Batch/Signatures src/txbuild.rs: verified_signature_for_key; src/batch.rs:
--                    verify_vtxo_tree_signatures
--   Batch/Forfeits   src/batch.rs: combine_forfeits
--   Batch/Session    src/batch.rs: join_registered_batch, one handler per event, and
--                    join_batch_with_intent around it
--   Server/Locations src/server.rs: LocationIndex, its updates and queries
--   Server/Players   src/server.rs: RegisteredPlayer, RefreshStatus, replayed_registration,
--                    merge_verified_registration
--   Server/Board     src/server.rs: register_player, leaderboard_players, leaderboard, presence
--   Server/Actions   src/server.rs: authorize_action, update_location, post_chat, set_delegation
--   Indexer          src/arkade.rs: VtxoRecord, next_vtxo_page, merge_vtxo_records, get_vtxos_many
--   Base             helpers that the parts share: lists, results, equality tests, words, bits, maps,
--                    texts, signed integers
--
-- How the parts interact: the luck takes the drop rate of Player/Progress; both mirrors of a chop call
-- the luck and the material drop and read the tree's packets; the indexer's records are held against
-- the decoder of AssetPacket. The session of a batch validates its trees over the graph, builds on
-- the marks of Batch/Progress and the expiry of Batch/Expiry, and hands the forfeits on through
-- Batch/Forfeits.
--
-- Conventions: an unsigned integer is a natural number; a checked operation returns an option, a
-- saturating one its bound, and the shift in the varint reader its remainder by 2 ^ 64. An error message
-- is a constructor of the part's error type. A slice is a list; a byte is a number whose bound, where a
-- theorem needs it, is a hypothesis. A `HashSet` that is only tested and inserted into is a list.
--
-- The server's handlers pass the state on and give a reply beside it, since what is written before an
-- error stays written. The parts of `authorize_action` that hold one lock are functions of their own;
-- the handlers here run them one after the other, with no other request between two parts of one
-- request.
--
-- A `BTreeMap` is a list of entries in the order of its keys, a `BTreeSet` a list in order. An `i64` is an
-- integer; its differences wrap or saturate as the code's do.
--
-- Bounds: the varint reader runs its ten rounds (shifts 0 to 63 by 7), a counted loop of the packet
-- decoder runs as often as its count says, which the count's own check bounds by the bytes left; so these
-- loops need no fuel. The loop over the indexer's pages runs on fuel of 128 rounds, since every page but
-- the last adds to at most 128 pages visited. The traversal of a batch's graph runs on fuel of one step
-- more than there are nodes, since it visits no node twice.
--
-- Parameters: SHA-256 and the test for a P2TR script (`bitcoin`), the order of asset IDs that the decoder
-- sorts by, and what a transaction has of IDs, counts and extension packets (`ark_core`); for the server,
-- the parsers of keys, asset IDs and signatures, the signature check, the verification of a player's
-- lineage, the clocks, and whether the registry can be stored; for the indexer, the request of one page;
-- for the batch's expiry, what `bitcoin` reads of a sequence number; for the batch's trees, the anchor
-- output, the parsing of keys, the script of the aggregated key with its sweep leaf, signature hashes,
-- the Schnorr check, and base64 and PSBT parsing; for the fees of a renewal, the service's fee programs
-- (`ark_fees`) and whether a VTXO has spend info; for the operator, the order of outpoints; for the
-- session, the graph type of `ark_core` with its nonces and partial signatures, the builder of forfeits,
-- and the answers of arkd and the emulator.
--
-- The session keeps a log of what it sends, which the code does not. Its events are parsed, and each
-- comes with the time at which it is handled; a deadline ends the list of events.
--
-- Not modelled: the covenant scripts and their builders, transaction building, signing, the REST
-- clients, HTTP routing, storage, the workers of the server and the browser application, which are I/O or
-- calls of libraries; and of the batch, the byte stream that its events are parsed from.
pub mod Base
pub mod Tree
pub mod World
pub mod Player
pub mod Chop
pub mod AssetPacket
pub mod Batch
pub mod Server
pub mod Operator
pub mod Renewal
pub mod Indexer

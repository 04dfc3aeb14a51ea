-- ===== src/Lib.antt =====
-- The chain of routinechain: its records, its store, its state machine, and how nodes agree on
-- a block.
--
-- The program. A node keeps its state in a key-value store (crates/rc-store). The state machine
-- (crates/rc-state) executes signed transactions (crates/rc-types) against it: each passes a nonce
-- check and goes to the handler for its payload, which checks, reads and writes records, and
-- returns events or an error. The nodes (crates/rc-consensus) take turns as leader, by height and
-- round (crates/rc-node runs the loop); a leader proposes a block, the others sign it and send the
-- signature back; the leader stores the block when it has enough of them. A follower applies a block
-- by executing its transactions and comparing the hash of all state records with the one in the
-- header. Clients hand in transactions and look up records over HTTP (crates/rc-rpc).
--
-- The files.
-- - Base: the Boolean tests, lists, integers, machine words and big-endian bytes that the others
--   share.
-- - Types: crates/rc-types/src. Types.Bytes is lib.rs, Types.Transaction transaction.rs, Types.State
--   state.rs, Types.Block block.rs, Types.Config config.rs; Types.Score is `compute_trust_score` of
--   state.rs, cut into its components.
-- - Store: crates/rc-store/src/lib.rs by its contents, with `get_x` and `set_x` named as there; Root:
--   `compute_state_root` of the same file. Store.Disk is the same file as it uses the database: the
--   functions of the same names over keys, encoded values and failures, Store.Disk.Batch its batches.
--   Store.Disk.Contents says what is relied on of RocksDB and bincode (`Reliable`, `RoundTrips`), and
--   Store.Disk.Columns when a database represents a Store; the other modules there relate the two.
-- - External: the calls of other crates (bincode, ed25519, blake3, the iterator of RocksDB) as a
--   record of functions that the definitions take as an argument, and the wrappers of
--   crates/rc-crypto/src/lib.rs.
-- - Machine: crates/rc-state/src. Machine.Participant, Settlement, Escrow, Dispute and Token are the
--   files of the same names (in lower case) in modules; Machine.Execute is `execute` and
--   `check_and_update_nonce` of lib.rs, Machine.Apply `apply_block`. Machine.Action is the monad of
--   the handlers: the store is threaded through, an error ends the handler, and what was written
--   before it stays written. The modules below these hold the proofs.
-- - Consensus: crates/rc-consensus/src/lib.rs. Consensus itself is the record `Consensus`, the choice
--   of the leader, the view change and the peers; Consensus.Signing the proposals and the signatures;
--   Consensus.Network what `send_to_peer` writes to a connection and `listen` reads from it;
--   Consensus.Network.Listener is `listen` as a whole, its accepting loop, its tasks and the channel
--   to the node as one state with a step relation, in which any order of the steps is a run.
--   A history of a node is a list of `ViewOp`, the latest first.
-- - Node: crates/rc-node/src/main.rs, the part of the main loop in which a leader builds a block, and
--   `handle_proposal`. Node.Loop is the whole loop: `tick` is one round, on the variables that the
--   loop changes (NodeState), with what the channels yield and the clock reads as Inputs. Node.Start
--   is `start_node` up to the loop, from a configuration and a keypair; Node.Files the configuration
--   and key files before that, and `keygen`; Node.Commands `main` and `status`. Node.Chain says what a
--   chain of blocks is. Node.Loop.Heard has the rounds in which one message comes, of which
--   Node.Loop.Agreement and Node.Loop.Fork put several together.
-- - Rpc: the handlers of crates/rc-rpc/src/lib.rs, over Store.Disk; Rpc.Included follows a request
--   into the node's loop.
-- - Tests: a small world and each theorem applied in it.
--
-- Conventions. An id or a hash is the number that its 32 bytes spell, so that equality and order are
-- those of the bytes; a timestamp is an integer. A u64 or u32 sum that the source writes with a plain
-- `+` wraps, as in a release build; `saturating_add` and `saturating_sub` stop at the bounds. The
-- u128 products of the trust score cannot wrap for u64 inputs. The loops of the source run over
-- lists and are structural recursions here, so that nothing needs fuel. Each kind of record is a map
-- of its own, since its keys have their own prefix.
--
-- The execution and the loop work on Store, where a write does not fail; Store.Disk has the failures
-- of the database and of bincode, and is shown to behave as Store where there are none.
--
-- Not modelled: logging; TCP, HTTP routing, JSON, YAML, CORS and the reading of arguments, which are
-- the libraries'; how long a time limit is (a time-out is a step that may come at any time); the
-- interleaving of a round of the loop with requests to the RPC server, which only reads and queues.
pub mod Base
pub mod Types
pub mod Store
pub mod External
pub mod Root
pub mod Rpc
pub mod Machine
pub mod Consensus
pub mod Node
pub mod Tests

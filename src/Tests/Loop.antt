-- ===== src/Tests/Loop.antt =====
-- Rounds of the main loop.
use routinechain.Base.{
  refl, inl, arith, none, [], ◌∷◌, pos, List, leb, length, ◌++◌, ◌≡◌, String, some,
}
use routinechain.Types.Block.{genesis, Block, NodeSignature}
use routinechain.Types.Bytes.{empty_hash, default_signature}
use routinechain.Types.Config.{default_node_config}
use routinechain.Store.{empty, put_block, Store, get_latest_height}
use routinechain.Consensus.{submit_tx, propose, sign, new_consensus, Consensus}
use routinechain.Node.Chain.{IsChain}
use routinechain.Node.Loop.{NodeState, Clock, Inputs, ticks, tick}
use routinechain.External.{Bytes}
use routinechain.Store.Disk.{Io, failed}
use routinechain.Node.Start.{Started, start_node, node_blocks_linked}
use routinechain.Node.Loop.Solo.{idle_node, quiet_round, solo_progress}
use routinechain.Node.Loop.Signed.{pending_block_signed}
use routinechain.Consensus.Keys.{AreValid, signers}
use routinechain.Consensus.Signing.{block_header_hash, is_finalized}
use routinechain.Node.{execute_valid, build_block}
use routinechain.Tests.World.{cfg, ext, block_of, register_buyer, register_seller}

abbrev clock : Clock
clock = record {
  finalized = pos 10;
  aged = pos 11;
  elapsed = pos 12;
  changed = pos 13;
  executed = pos 14;
  stored = pos 15;
}

-- a transaction of its own, another node's, and a proposal that does not fit
abbrev busy : Inputs
busy = record {
  rpc_txs = register_buyer ∷ [];
  messages = submit_tx register_seller ∷ propose (block_of 5 empty_hash) ∷ [];
  pooled_txs = [];
  clock = clock;
}

-- a new node with the default configuration, and thus without peers
abbrev hex_decode : String → Io Bytes
hex_decode _ = failed "not hex"

abbrev solo : Started
solo = start_node hex_decode default_node_config 1 11 (pos 0) (pos 1) empty

node_blocks_linked_example :
    IsChain ext
      (ticks ext solo.settings default_node_config.consensus solo.peer_count
        (busy ∷ [])
        solo.state).store
unfolding start_node routinechain.Node.Loop.prepare routinechain.Node.Loop.handle_proposals
    routinechain.Node.Loop.handle_messages routinechain.Node.Loop.handle_message
    routinechain.Node.handle_proposal routinechain.Node.Loop.settle_pending
node_blocks_linked_example =
    node_blocks_linked ext hex_decode default_node_config 1 11 (pos 0) (pos 1) empty solo
      (busy ∷ []) (inl refl) refl (((tt, (omega arith, tt)), inl refl, omega arith), tt)

abbrev alone : Consensus
alone = new_consensus 1 11 [] 1

abbrev first : Store
first = put_block (genesis (pos 0) 1) empty

solo_progress_example :
    let i =
      quiet_round ext cfg default_node_config.consensus clock
        (register_buyer ∷ [])
        (register_seller ∷ []) in
    let n = idle_node ext cfg default_node_config.consensus clock alone first (pos 0) in
    let n' = (tick ext cfg default_node_config.consensus 0 i n).1 in
    (b : Block) × (n'.store.blocks 1 ≡ some b)
    × (get_latest_height n'.store ≡ 1)
    × (b.transactions ≡ register_buyer ∷ register_seller ∷ [])
    × (b.header.prev_hash ≡ block_header_hash ext (genesis (pos 0) 1).header)
    × (n'.consensus.pending_txs ≡ [])
    × (n'.pending_block ≡ none)
unfolding execute_valid routinechain.Machine.Execute.check_and_update_nonce
    routinechain.Machine.Execute.dispatch routinechain.Machine.Execute.execute
    routinechain.Machine.Participant.register
solo_progress_example =
    solo_progress ext cfg default_node_config.consensus clock alone first (pos 0)
      (register_buyer ∷ []) (register_seller ∷ []) (genesis (pos 0) 1) refl refl (omega arith) refl

-- a leader of height 1 that asks for three signatures, with one peer
abbrev leader : NodeState
leader = record {
  consensus = new_consensus 2 12 (record { id = 1; address = ""; public_key = 1 } ∷ []) 3;
  store = put_block (genesis (pos 0) 1) empty;
  pending_block = none;
  last_block_time_ms = pos 0;
}

-- first it proposes a block, then its peer's signature comes
abbrev asked : Inputs
asked = record { rpc_txs = register_buyer ∷ []; messages = []; pooled_txs = []; clock = clock }

abbrev peer_signature : NodeSignature
peer_signature = record { node_id = 1; signature = default_signature }

abbrev replied : Inputs
replied = record {
  rpc_txs = [];
  messages = sign 1 peer_signature ∷ sign 1 (record peer_signature { node_id = 8 }) ∷ [];
  pooled_txs = [];
  clock = clock;
}

abbrev rounds : List Inputs
rounds = asked ∷ replied ∷ []

-- the proposed block, with the one signature that is valid
abbrev proposed : Block
proposed =
    let (valid, events, s) = execute_valid cfg (register_buyer ∷ []) (pos 14) leader.store in
    let b =
      build_block ext leader.consensus 1 (block_header_hash ext (genesis (pos 0) 1).header) (pos 14)
        valid s in
    record b { signatures = b.signatures ++ peer_signature ∷ [] }

pending_block_signed_example :
    let c = (ticks ext cfg default_node_config.consensus 1 rounds leader).consensus in
    AreValid ext c proposed proposed.signatures
    × (is_finalized ext c proposed ≡ leb c.min_signatures (length (signers proposed.signatures [])))
unfolding routinechain.External.verify ticks routinechain.Node.Loop.tick
    routinechain.Node.Loop.prepare routinechain.Node.Loop.settle_pending
    routinechain.Node.Loop.handle_messages routinechain.Node.Loop.handle_message
    routinechain.Node.Loop.collect_signature routinechain.Node.Loop.lead
    routinechain.Node.Loop.finish_lead routinechain.Node.produce
    routinechain.Consensus.leader_for_height_round routinechain.Consensus.all_node_ids
    routinechain.Consensus.sort routinechain.Node.Loop.view_timeout routinechain.Consensus.insert
    routinechain.Node.Loop.handle_proposals is_finalized
    routinechain.Consensus.Signing.unique_signers routinechain.Consensus.Signing.count_signer
    routinechain.Consensus.Signing.verify_block_signature
    routinechain.Machine.Execute.check_and_update_nonce routinechain.Machine.Execute.dispatch
    routinechain.Machine.Execute.execute routinechain.Machine.Participant.register
    routinechain.Node.Loop.publish build_block routinechain.Node.conclude execute_valid
pending_block_signed_example =
    pending_block_signed ext cfg default_node_config.consensus 1 rounds leader proposed refl
      (λ msg. refl) refl

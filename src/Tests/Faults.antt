-- ===== src/Tests/Faults.antt =====
-- Two blocks of one height, transactions that nobody signed, and a database that fails.
use routinechain.Base.{map, String, ◌≡◌, refl, arith, none, some, List, [], ◌∷◌, ◌++◌, pos}
use routinechain.Types.Bytes.{empty_hash, Signature}
use routinechain.Types.Transaction.{Transaction}
use routinechain.Types.Config.{ConsensusSettings, default_node_config}
use routinechain.Types.Block.{Block, genesis}
use routinechain.Store.{Store, empty, put_block}
use routinechain.External.{Bytes}
use routinechain.Store.Disk.{failed, Database}
use routinechain.Machine.Apply.{apply_block}
use routinechain.Consensus.{Consensus, new_consensus, propose, sign}
use routinechain.Consensus.Signing.{block_header_hash, signature_by}
use routinechain.Node.{execute_valid, build_block}
use routinechain.Node.Forged.{SameRecords, re_signed, forged_executed_by_leader}
use routinechain.Node.Loop.{Clock, to_peers, tick}
use routinechain.Node.Loop.Heard.{hearing, resting}
use routinechain.Node.Loop.Fork.{pending_block_replaces}
use routinechain.Rpc
use routinechain.Rpc.{Reply, StatusCode, status, not_found, internal_server_error}
use routinechain.Rpc.Failures.{status_at, failures_answered}
use routinechain.Tests.World.{cfg, ext, header_of, register_buyer, register_seller}
use routinechain.Tests.Disk.{codecs, numbers, hex_of_one}

abbrev settings : ConsensusSettings
settings = default_node_config.consensus

abbrev at_six : Clock
at_six = record {
  finalized = pos 6;
  aged = pos 6;
  elapsed = pos 6;
  changed = pos 6;
  executed = pos 6;
  stored = pos 6;
}

-- node 2, which led height 1 in round 0 and is now in round 1, where node 1 leads it
abbrev moved : Consensus
moved = record (new_consensus 2 12 (record { id = 1; address = ""; public_key = 1 } ∷ []) 2) {
  round = 1;
}

abbrev start : Store
start = put_block (genesis (pos 0) 1) empty

-- an empty block of height 1 after the genesis block
abbrev empty_block : Consensus → Block
empty_block c =
    let header = record (header_of 1 empty_hash) {
      prev_hash = block_header_hash ext (genesis (pos 0) 1).header;
      proposer = c.node_id;
    } in
    record { header = header; transactions = []; signatures = signature_by ext c header ∷ [] }

abbrev other_leader : Consensus
other_leader = new_consensus 1 11 (record { id = 2; address = ""; public_key = 2 } ∷ []) 2

pending_block_replaces_example :
    let pb = empty_block moved in
    let b = empty_block other_leader in
    let reply = signature_by ext other_leader pb.header in
    let (sent, n1) =
      tick ext cfg settings 1
        (hearing at_six (propose b))
        (resting moved start (some pb) (pos 0)) in
    let (more, n2) = tick ext cfg settings 1 (hearing at_six (sign 1 reply)) n1 in
    (sent ≡ to_peers (sign 1 (signature_by ext moved b.header)) ∷ [])
    × (n1.store.blocks 1 ≡ some b)
    × (n2.store.blocks 1 ≡ some (record pb { signatures = pb.signatures ++ reply ∷ [] }))
unfolding tick routinechain.Node.handle_proposal routinechain.Consensus.Signing.verify_and_sign
    routinechain.Consensus.leader_for_height_round routinechain.Consensus.all_node_ids
    routinechain.Consensus.sort routinechain.Consensus.insert block_header_hash
    routinechain.Consensus.Signing.first_signature_ok routinechain.External.verify
    routinechain.Consensus.Signing.compute_tx_hash apply_block routinechain.Machine.Apply.finish
    routinechain.Machine.Apply.apply_txs routinechain.Consensus.Signing.is_finalized
    routinechain.Consensus.Signing.unique_signers routinechain.Consensus.Signing.count_signer
    routinechain.Consensus.Signing.verify_block_signature
pending_block_replaces_example =
    let pb = empty_block moved in
    let b = empty_block other_leader in
    pending_block_replaces ext cfg settings 1 at_six at_six moved start (put_block b start) (pos 0)
      pb b (signature_by ext moved b.header) (signature_by ext other_leader pb.header) refl refl
      refl refl refl refl refl refl

-- two transactions, and a signature that is valid for nobody
abbrev two : List Transaction
two = register_buyer ∷ register_seller ∷ []

abbrev invalid : Transaction → Signature
invalid tx = record { bytes = 1 }

forged_executed_by_leader_example :
    let (valid, events, s') = execute_valid cfg two (pos 6) empty in
    let (forged, events', s'') = execute_valid cfg (map (re_signed invalid) two) (pos 6) empty in
    let b = build_block ext other_leader 1 empty_hash (pos 6) forged s'' in
    (b.transactions ≡ map (re_signed invalid) valid)
    × (events' ≡ events)
    × (s'' ≡ s')
    × SameRecords (apply_block ext cfg b empty).1 empty
unfolding routinechain.Machine.Apply.verify_tx_signature routinechain.External.verify
forged_executed_by_leader_example =
    forged_executed_by_leader ext cfg other_leader 1 empty_hash (pos 6) two invalid empty
      (refl, (refl, tt))

-- a database that answers nothing
abbrev broken : Database
broken = record {
  Db = Unit;
  get = λ m key. failed "IO error";
  put = λ m key value. failed "IO error";
  write = λ m puts. failed "IO error";
}

failures_answered_example :
    (Rpc.get_participant broken codecs hex_of_one "01" tt ≡ status not_found)
    × (Rpc.get_settlement broken codecs hex_of_one "01" tt ≡ status not_found)
    × (Rpc.get_escrow broken codecs hex_of_one "01" tt ≡ status not_found)
    × (Rpc.get_dispute broken codecs hex_of_one "01" tt ≡ status not_found)
    × (Rpc.get_anchor broken codecs hex_of_one "01" tt ≡ status not_found)
    × (Rpc.get_trust_score broken codecs hex_of_one numbers "01" tt ≡ status internal_server_error)
    × (Rpc.get_balance broken codecs hex_of_one "01" tt ≡ status internal_server_error)
    × (Rpc.get_block broken codecs 4 tt ≡ status not_found)
    × (Rpc.get_status broken codecs tt ≡ status_at 0)
unfolding Rpc.hex_to_id routinechain.Base.to_be_bytes
failures_answered_example =
    failures_answered broken codecs hex_of_one numbers tt "IO error" "01" 4 (λ key. refl)

-- ===== src/Tests/Nodes.antt =====
-- Nodes and their blocks.
use routinechain.Base.{List, false, ◌≡◌, refl, arith, [], ◌∷◌, true, some, contains, IsDistinct}
use mathlib.Core.List.{Permᴰ}
use routinechain.Types.Bytes.{Id32, empty_hash}
use routinechain.Types.Block.{Block, NodeSignature}
use routinechain.Consensus.{
  Peer, Consensus, new_consensus, node_ids, leader_for_height_round, add_peer, timed_out,
  vote_received, view_step, view_run,
}
use routinechain.Consensus.Leader.{leader_agreed}
use routinechain.Consensus.Majority.{RoundOf, round_needs_majority}
use routinechain.Consensus.Peers.{find_peer, is_distinct, met, add_peer_known}
use routinechain.Consensus.Signing.{
  propose_block, signature_by, verify_and_sign, verify_block_signature, unique_signers,
  is_finalized,
}
use routinechain.Consensus.Proposals.{forged_proposal_signed}
use routinechain.Consensus.Finality.{signers_counted, unknown_signers_finalize}
use routinechain.Tests.World.{ext, block_of}

abbrev peer_of : Id32 → Peer
peer_of id = record { id = id; address = ""; public_key = id }

-- three nodes that know each other
abbrev pub node_1 : Consensus
node_1 = new_consensus 1 11 (peer_of 2 ∷ peer_of 3 ∷ []) 2

abbrev pub node_2 : Consensus
node_2 = new_consensus 2 12 (peer_of 1 ∷ peer_of 3 ∷ []) 2

abbrev pub same_nodes : Permᴰ (node_ids node_1) (node_ids node_2)
same_nodes = Permᴰ.trans {l₂ = 2 ∷ 1 ∷ 3 ∷ []} (Permᴰ.cons refl (Permᴰ.swap refl refl)) (
    Permᴰ.trans {l₂ = 1 ∷ 2 ∷ 3 ∷ []} (Permᴰ.swap refl refl)
      (Permᴰ.cons refl (Permᴰ.swap refl refl)))

abbrev signature_of : Id32 → NodeSignature
signature_of id = record { node_id = id; signature = record { bytes = 5 } }

-- a block that node 1 may propose at height 3, signed by two strangers
abbrev forged_block : Block
forged_block = record (block_of 3 empty_hash) {
  transactions = [];
  signatures = signature_of 8 ∷ signature_of 9 ∷ [];
}

leader_agreed_example : leader_for_height_round node_1 7 1 ≡ leader_for_height_round node_2 7 1
leader_agreed_example = leader_agreed node_1 node_2 7 1 same_nodes

round_needs_majority_example :
    RoundOf node_1 (timed_out 4 ∷ []) (vote_received 4 1 3) (view_run (timed_out 4 ∷ []) node_1) 1
unfolding view_step routinechain.Consensus.receive_view_change routinechain.Consensus.all_node_ids
    routinechain.Consensus.sort view_run routinechain.Consensus.request_view_change
    routinechain.Consensus.insert
round_needs_majority_example =
    round_needs_majority 1 11 (peer_of 2 ∷ peer_of 3 ∷ []) 2 (timed_out 4 ∷ [])
      (vote_received 4 1 3)

-- two handshakes that name one id, and one in the node's own name
abbrev shaken : List Peer
shaken = peer_of 4 ∷ record (peer_of 4) { public_key = 5 } ∷ peer_of 1 ∷ []

add_peer_known_example :
    (find_peer 4 (met shaken node_1).peers ≡ some (peer_of 4))
    × ((add_peer 4 6 "" (met shaken node_1)).0 ≡ false)
    × ((met shaken node_1).node_id ≡ 1)
    × (is_distinct (node_ids (met shaken node_1)) ≡ true)
add_peer_known_example = add_peer_known shaken node_1 4 (record (peer_of 4) { public_key = 6 })

forged_proposal_signed_example :
    verify_and_sign ext node_2 forged_block empty_hash
    ≡ some (signature_by ext node_2 forged_block.header)
unfolding leader_for_height_round routinechain.Consensus.all_node_ids routinechain.Consensus.sort
    routinechain.Consensus.insert routinechain.Consensus.Signing.compute_tx_hash
forged_proposal_signed_example =
    forged_proposal_signed ext node_2 forged_block (signature_of 8) (signature_of 9 ∷ []) refl refl
      refl refl

signers_counted_example :
    IsDistinct (unique_signers ext node_1 forged_block.header forged_block.signatures [])
    × (contains (unique_signers ext node_1 forged_block.header forged_block.signatures []) 8 ≡ true)
signers_counted_example = signers_counted ext node_1 forged_block 8

unknown_signers_finalize_example : is_finalized ext node_1 forged_block ≡ true
unknown_signers_finalize_example =
    unknown_signers_finalize ext node_1 forged_block (refl, (refl, tt)) (refl, (refl, tt))
      (omega arith)

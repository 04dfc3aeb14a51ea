-- ===== src/Tests/Production.antt =====
-- A leader's block, and what a follower does with it.
use routinechain.Base.{◌≡◌, refl, arith, List, [], ◌∷◌, some, pos}
use mathlib.Core.List.{Permᴰ}
use routinechain.Types.Block.{Block, genesis}
use routinechain.Consensus.Signing.{block_header_hash, signature_by}
use routinechain.Node.Production.{produced_block_applies}
use routinechain.Types.Bytes.{empty_hash}
use routinechain.Types.Transaction.{Transaction}
use routinechain.Store.{Store, empty, put_block, get_nonce}
use routinechain.Machine.Apply.{apply_block}
use routinechain.Consensus.{Consensus, new_consensus}
use routinechain.Types.Config.{ConsensusSettings, default_node_config}
use routinechain.Node.Loop.{Clock}
use routinechain.Node.{execute_valid, build_block, produce, handle_proposal}
use routinechain.Node.Blocks.{rejected_nonce_diverges}
use routinechain.Node.History.{stored_block_kept}
use routinechain.Tests.World.{cfg, ext, block_of, register_buyer, register_seller, overdraw}

abbrev node : Consensus
node = new_consensus 1 11 [] 1

rejected_nonce_diverges_example :
    let (valid, events, s') = execute_valid cfg (overdraw ∷ register_seller ∷ []) (pos 6) empty in
    let b = build_block ext node 1 empty_hash (pos 6) valid s' in
    (b.transactions ≡ register_seller ∷ [])
    × (get_nonce 1 s' ≡ 9)
    × (get_nonce 1 (apply_block ext cfg b empty).1 ≡ 0)
unfolding execute_valid routinechain.Machine.Execute.execute
    routinechain.Machine.Execute.check_and_update_nonce routinechain.Machine.Execute.dispatch
    routinechain.Machine.Token.transfer routinechain.Machine.Participant.register
rejected_nonce_diverges_example =
    rejected_nonce_diverges ext cfg node 1 empty_hash (pos 6) overdraw register_seller empty
      (omega arith) (omega arith) refl refl

stored_block_kept_example :
    (handle_proposal ext cfg node
        (block_of 1 99)
        (put_block (block_of 1 empty_hash) empty)).1.blocks
      1
    ≡ some (block_of 1 empty_hash)
stored_block_kept_example =
    stored_block_kept ext cfg node (block_of 1 99) (block_of 1 empty_hash)
      (put_block (block_of 1 empty_hash) empty) 1 refl

-- a leader of height 1 with two pending transactions, the node that follows it, and the store of
-- both
abbrev pending : List Transaction
pending = register_buyer ∷ register_seller ∷ []

abbrev drained : Consensus
drained = new_consensus 2 12 (record { id = 1; address = ""; public_key = 1 } ∷ []) 2

abbrev follower : Consensus
follower = new_consensus 1 11 (record { id = 2; address = ""; public_key = 2 } ∷ []) 2

abbrev start : Store
start = put_block (genesis (pos 0) 1) empty

abbrev after : Store
after = (execute_valid cfg pending (pos 6) start).2

abbrev made : Block
made =
    build_block ext drained 1 (block_header_hash ext (genesis (pos 0) 1).header) (pos 6) pending
      after

produced_block_applies_example :
    handle_proposal ext cfg follower made start
    ≡ (some (signature_by ext follower made.header), put_block made after)
unfolding produce routinechain.Consensus.leader_for_height_round routinechain.Consensus.all_node_ids
    routinechain.Consensus.sort routinechain.Consensus.insert execute_valid
    routinechain.Machine.Execute.execute routinechain.Machine.Execute.check_and_update_nonce
    routinechain.Machine.Execute.dispatch routinechain.Machine.Participant.register
    routinechain.Machine.Apply.verify_tx_signature routinechain.External.verify
produced_block_applies_example =
    produced_block_applies ext cfg (pos 6) (record drained { pending_txs = pending }) drained
      follower start after made refl (refl, (refl, tt)) refl (omega arith) refl
      (Permᴰ.swap refl refl) refl (omega arith) (2, refl, λ msg. refl)

abbrev at_six : Clock
at_six = record {
  finalized = pos 6;
  aged = pos 6;
  elapsed = pos 6;
  changed = pos 6;
  executed = pos 6;
  stored = pos 6;
}

abbrev settings : ConsensusSettings
settings = default_node_config.consensus

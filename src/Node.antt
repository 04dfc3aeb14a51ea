-- ===== src/Node.antt =====
-- The node of crates/rc-node/src/main.rs: how a leader makes a block, and what a follower does with
-- a proposal. The reading of the clock is an argument; sending a message is not modelled.
pub mod Blocks
pub mod History
pub mod Chain
pub mod Loop
pub mod Production
pub mod Start
pub mod Files
pub mod Forged
pub mod Commands
pub mod Restart
use routinechain.Base.{
  ℕ, ℤ, ◌%◌, ◌^◌, Bool, true, false, not, ◌||◌, Option, none, some, List, [], ◌∷◌, ◌++◌, ltb,
  add_u64, sub_u64, if◌then◌else◌, length, is_empty,
}
use routinechain.Types.Bytes.{Hash}
use routinechain.Types.Transaction.{Transaction}
use routinechain.Types.State.{Event}
use routinechain.Types.Block.{Block, BlockHeader, NodeSignature, is_genesis}
use routinechain.Store.{Store, get_block, get_latest_height, put_block}
use routinechain.External.{External}
use routinechain.Root.{compute_state_root}
use routinechain.Machine.Action.{ok, err}
use routinechain.Machine.Execute.{Settings, execute}
use routinechain.Machine.Apply.{apply_block}
use routinechain.Consensus.{Consensus, is_leader, has_pending_txs, drain_pending_txs, reset_round}
use routinechain.Consensus.Signing.{
  block_header_hash, compute_tx_hash, signature_by, verify_and_sign, is_finalized,
}

-- The loop over the pending transactions: the accepted ones, the events, and the store after all.
unfoldable pub execute_valid :
    Settings → List Transaction → ℤ → Store → List Transaction × List Event × Store
execute_valid cfg [] now s = ([], [], s)
execute_valid cfg (tx ∷ txs) now s =
    let (r, s') = execute cfg tx now s in
    let (valid, events, after) = execute_valid cfg txs now s' in
    elim r [ ok more ↦ (tx ∷ valid, more ++ events, after) | err _ ↦ (valid, events, after) ]

module _ (ext : External) where
  -- the block that the leader builds over the store after execution
  unfoldable pub build_block : Consensus → ℕ → Hash → ℤ → List Transaction → Store → Block
  build_block c height prev_hash timestamp valid_txs s =
      let header : BlockHeader = record {
        height = height;
        prev_hash = prev_hash;
        timestamp = timestamp;
        tx_count = length valid_txs % 2 ^ 32;
        tx_hash = compute_tx_hash ext valid_txs;
        state_root = compute_state_root ext s;
        proposer = c.node_id;
      } in
      record {
        header = header;
        transactions = valid_txs;
        signatures = signature_by ext c header ∷ [];
      }

  -- steps 7 and 8 of the loop up to the finished block
  unfoldable pub produce : Settings → ℤ → Consensus → Store → Option Block × Consensus × Store
  produce cfg now c s =
      let height = add_u64 (get_latest_height s) 1 in
      if not (is_leader c height) || not (has_pending_txs c)
      then (none, c, s)
      else elim (get_block (sub_u64 height 1) s) [
        | none ↦ (none, c, s)
        | some prev ↦
            let (txs, c') = drain_pending_txs c in
            let (valid, events, s') = execute_valid cfg txs now s in
            if is_empty valid then (none, c', s') else (
              some (build_block c' height (block_header_hash ext prev.header) now valid s'),
              c',
              s',
            )
      ]

  -- what the leader does with its block: the block that waits for signatures, if any
  unfoldable pub conclude : Block → Consensus → Store → Option Block × Consensus × Store
  conclude b c s =
      if ltb 0 (length c.peers)
      then (if is_finalized ext c b then (none, reset_round c, put_block b s) else (some b, c, s))
      else (none, c, put_block b s)

  -- `handle_proposal`: the signature that is broadcast, if any
  unfoldable pub handle_proposal :
      Settings → Consensus → Block → Store → Option NodeSignature × Store
  handle_proposal cfg c b s =
      if is_genesis b then (none, s) else elim (get_block b.header.height s) [
        | some _ ↦ (none, s)
        | none ↦ elim (get_block (sub_u64 b.header.height 1) s) [
          | none ↦ (none, s)
          | some prev ↦ elim (verify_and_sign ext c b (block_header_hash ext prev.header)) [
            | none ↦ (none, s)
            | some sig ↦ (some sig, (apply_block ext cfg b s).1)
          ]
        ]
      ]

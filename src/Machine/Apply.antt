-- ===== src/Machine/Apply.antt =====
-- `StateMachine::apply_block` of crates/rc-state/src/lib.rs: a follower executes the transactions
-- of a block and compares the state root.
pub mod Blocks
use routinechain.Base.{ℕ, ℤ, Bool, true, false, not, ◌&&◌, none, some, List, [], ◌∷◌, ◌++◌, ◌==◌}
use routinechain.Types.Bytes.{Hash, empty_hash}
use routinechain.Types.Transaction.{Transaction}
use routinechain.Types.State.{Event}
use routinechain.Types.Block.{Block}
use routinechain.Store.{Store, put_block}
use routinechain.External.{External, verify}
use routinechain.Root.{compute_state_root}
use routinechain.Machine.Action.{Result, ok, err}
use routinechain.Machine.Execute.{Settings, execute}

-- what `apply_block` returns
pub data Applied : Type 0 where
  applied : List Event → Applied
  state_root_mismatch : (height : ℕ) (expected computed : Hash) → Applied

-- `Ok(events) => all_events.extend(events), Err(e) => info!(..)`
abbrev pub collect : List Event → Result (List Event) → List Event
collect events (ok more) = events ++ more
collect events (err _) = events

module _ (ext : External) where
  unfoldable pub verify_tx_signature : Transaction → Bool
  verify_tx_signature tx = elim (ext.encode_payload tx.payload) [
    | none ↦ false
    | some bytes ↦ verify ext bytes tx.signature tx.sender
  ]

  -- the loop over the block's transactions
  unfoldable pub apply_txs :
      Settings → List Transaction → ℤ → List Event → Store → List Event × Store
  apply_txs cfg [] now events s = (events, s)
  apply_txs cfg (tx ∷ txs) now events s = elim (verify_tx_signature tx) [
    | false ↦ apply_txs cfg txs now events s
    | true ↦ let (r, s') = execute cfg tx now s in apply_txs cfg txs now (collect events r) s'
  ]

  -- the check of the state root, and the write of the block
  unfoldable pub finish : Block → List Event → Store → Applied × Store
  finish b events s =
      elim (not (b.header.state_root == empty_hash)
        && not (compute_state_root ext s == b.header.state_root)) [
          | true ↦ (
            state_root_mismatch b.header.height b.header.state_root (compute_state_root ext s),
            s,
          )
          | false ↦ (applied events, put_block b s)
        ]

  unfoldable pub apply_block : Settings → Block → Store → Applied × Store
  apply_block cfg b s =
      let (events, s') = apply_txs cfg b.transactions b.header.timestamp [] s in finish b events s'

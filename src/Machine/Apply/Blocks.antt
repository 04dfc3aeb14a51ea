-- ===== src/Machine/Apply/Blocks.antt =====
-- What applying a block does (`apply_block` of crates/rc-state/src/lib.rs).
use routinechain.Base.{ℤ, ◌≡◌, ◌⊎◌, inl, inr, List, [], ◌∷◌, true, false, arith, refl, Bool-cases}
use routinechain.Types.Bytes.{empty_hash}
use routinechain.Types.Transaction.{Transaction}
use routinechain.Types.State.{Event}
use routinechain.Types.Block.{Block}
use routinechain.Store.{Store, put_block}
use routinechain.External.{External}
use routinechain.Root.{compute_state_root}
use routinechain.Machine.Execute.{Settings, execute, run}
use routinechain.Machine.Apply.{
  applied, state_root_mismatch, verify_tx_signature, apply_txs, finish, apply_block,
}

-- The transactions that carry a valid signature, at the block's time.
abbrev pub verified : External → List Transaction → ℤ → List (Transaction × ℤ)
verified ext [] now = []
verified ext (tx ∷ txs) now = elim (verify_tx_signature ext tx) [
  | true ↦ (tx, now) ∷ verified ext txs now
  | false ↦ verified ext txs now
]

pub apply_txs-run :
    (ext : External) (cfg : Settings) (txs : List Transaction) (now : ℤ) (events : List Event)
    (s : Store)
    → (apply_txs ext cfg txs now events s).1 ≡ run cfg (verified ext txs now) s
unfolding apply_txs run
apply_txs-run ext cfg [] now events s = refl
apply_txs-run ext cfg (tx ∷ txs) now events s = elim (Bool-cases (verify_tx_signature ext tx)) [
  | inl valid ↦
      rw (valid, apply_txs, verified) (apply_txs-run ext cfg txs now _ (execute cfg tx now s).1)
  | inr invalid ↦ rw (invalid, apply_txs, verified) (apply_txs-run ext cfg txs now events s)
]

-- The header names no state root, or the one that the store has.
abbrev pub RootAgrees : External → Block → Store → Type 0
RootAgrees ext b s =
    (b.header.state_root ≡ empty_hash) ⊎ (compute_state_root ext s ≡ b.header.state_root)

finish_agrees :
    (ext : External) (b : Block) (events : List Event) (s : Store)
    → RootAgrees ext b s
    → finish ext b events s ≡ (applied events, put_block b s)
unfolding finish
finish_agrees ext b events s h = ground arith

finish_differs :
    (ext : External) (b : Block) (events : List Event) (s : Store)
    → ¬ RootAgrees ext b s
    → finish ext b events s
      ≡ (state_root_mismatch b.header.height b.header.state_root (compute_state_root ext s), s)
unfolding finish
finish_differs ext b events s h = ground arith

pub block_applied :
    (ext : External) (cfg : Settings) (b : Block) (s : Store)
    → RootAgrees ext b (run cfg (verified ext b.transactions b.header.timestamp) s)
    → apply_block ext cfg b s ≡ (
      applied (apply_txs ext cfg b.transactions b.header.timestamp [] s).0,
      put_block b (run cfg (verified ext b.transactions b.header.timestamp) s),
    )
unfolding apply_block
block_applied ext cfg b s h =
    rw (apply_txs-run ext cfg b.transactions b.header.timestamp [] s) (finish_agrees ext b _ _ h)

-- If the header names another state root than the one that results, the block is refused with the
-- two roots and is not stored, and what its transactions wrote stays written.
pub block_refused :
    (ext : External) (cfg : Settings) (b : Block) (s : Store)
    → ¬ RootAgrees ext b (run cfg (verified ext b.transactions b.header.timestamp) s)
    → apply_block ext cfg b s ≡ (
      state_root_mismatch b.header.height b.header.state_root
          (compute_state_root ext (run cfg (verified ext b.transactions b.header.timestamp) s)),
      run cfg (verified ext b.transactions b.header.timestamp) s,
    )
unfolding apply_block
block_refused ext cfg b s h =
    rw (apply_txs-run ext cfg b.transactions b.header.timestamp [] s) (finish_differs ext b _ _ h)

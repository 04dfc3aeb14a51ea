-- ===== src/Machine/Execute/Chain.antt =====
-- Transactions write no block and no latest height: the handlers of crates/rc-state/src against the block columns.
use routinechain.Base.{ℕ, ℤ, ◌≡◌, refl, arith, Option, List, [], ◌∷◌, ◌∙◌}
use routinechain.Types.Bytes.{Id32, Hash}
use routinechain.Types.State.{Escrow, Dispute}
use routinechain.Types.Transaction.{TxPayload, release_escrow, vote_dispute, Transaction}
use routinechain.Types.Block.{Block}
use routinechain.Store.{Store, set_nonce}
use routinechain.Machine.Execute.{Settings, dispatch, anchor, execute, run}
use routinechain.Machine.Execute.Nonce.{execute_keeps}
use routinechain.Machine.Token
use routinechain.Machine.Participant
use routinechain.Machine.Settlement
use routinechain.Machine.Escrow
use routinechain.Machine.Escrow.Cases.{release_keeps}
use routinechain.Machine.Dispute
use routinechain.Machine.Dispute.Cases.{vote_keeps}

-- the block columns
abbrev pub chain : Store → (ℕ → Option Block) × Option ℕ
chain s = (s.blocks, s.latest_height)

complete-chain :
    (escrow_id : Id32) (e : Escrow) (evidence_hash : Hash) (now : ℤ) (reward : ℕ) (s : Store)
    → chain (Escrow.complete escrow_id e evidence_hash now reward s).1 ≡ chain s
unfolding Escrow.complete
complete-chain escrow_id e evidence_hash now reward s = ground arith

cast-chain :
    (dispute_id : Id32) (d : Dispute) (now : ℤ) (reward threshold : ℕ) (s : Store)
    → chain (Dispute.cast dispute_id d now reward threshold s).1 ≡ chain s
unfolding Dispute.cast Dispute.resolve Dispute.settle_parties
cast-chain dispute_id d now reward threshold s = ground arith

dispatch-chain :
    (cfg : Settings) (sender : Id32) (p : TxPayload) (now : ℤ) (s : Store)
    → chain (dispatch cfg sender p now s).1 ≡ chain s
unfolding dispatch anchor Token.transfer Token.spend Participant.register Participant.update
    Participant.deactivate Settlement.record_settlement Settlement.record_rating Escrow.create
    Escrow.refund Dispute.raise Dispute.submit_evidence
dispatch-chain cfg sender (release_escrow id evidence) now s =
    release_keeps (λ s'. chain s' ≡ chain s) sender id evidence now _ s refl
      λ e found able. complete-chain id e evidence now _ s
dispatch-chain cfg sender (vote_dispute id decision) now s =
    vote_keeps (λ s'. chain s' ≡ chain s) id sender decision now _ _ s refl
      λ d p found registered able. cast-chain id _ now _ _ s
dispatch-chain cfg sender _ now s = ground arith

execute-chain :
    (cfg : Settings) (tx : Transaction) (now : ℤ) (s : Store)
    → chain (execute cfg tx now s).1 ≡ chain s
execute-chain cfg tx now s =
    execute_keeps (λ s'. chain s' ≡ chain s) cfg tx now s refl
      (dispatch-chain cfg tx.sender tx.payload now (set_nonce tx.sender tx.nonce s))

pub run-chain :
    (cfg : Settings) (txs : List (Transaction × ℤ)) (s : Store) → chain (run cfg txs s) ≡ chain s
unfolding run
run-chain cfg [] s = refl
run-chain cfg ((tx, now) ∷ txs) s =
    run-chain cfg txs (execute cfg tx now s).1 ∙ execute-chain cfg tx now s

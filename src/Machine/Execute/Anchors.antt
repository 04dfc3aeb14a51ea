-- ===== src/Machine/Execute/Anchors.antt =====
-- Anchors are written once: `AnchorMerkleRoot` in `execute` of crates/rc-state/src/lib.rs.
use routinechain.Base.{ℤ, ◌≡◌, List, [], ◌∷◌, some, false, arith, refl, contains}
use routinechain.Types.Bytes.{Id32}
use routinechain.Types.State.{AnchorRecord}
use routinechain.Types.Transaction.{TxPayload, release_escrow, vote_dispute, Transaction}
use routinechain.Store.{Store, set_nonce}
use routinechain.Machine.Execute.{Settings, dispatch, anchor, execute, run}
use routinechain.Machine.Execute.Nonce.{execute_keeps}
use routinechain.Machine.Token
use routinechain.Machine.Participant
use routinechain.Machine.Settlement
use routinechain.Machine.Escrow
use routinechain.Machine.Escrow.Cases.{release_keeps}
use routinechain.Machine.Escrow.Moves.{complete_frame}
use routinechain.Machine.Dispute
use routinechain.Machine.Dispute.Cases.{vote_keeps, cast_frame}

dispatch_anchored :
    (cfg : Settings) (sender : Id32) (p : TxPayload) (now : ℤ) (s : Store) (j : Id32)
    (a : AnchorRecord)
    → s.anchors j ≡ some a
    → (dispatch cfg sender p now s).1.anchors j ≡ some a
unfolding dispatch anchor Token.transfer Token.spend Participant.register Participant.update
    Participant.deactivate Settlement.record_settlement Settlement.record_rating Escrow.create
    Escrow.refund Dispute.raise Dispute.submit_evidence
dispatch_anchored cfg sender (release_escrow id evidence) now s j a h =
    release_keeps (λ s'. s'.anchors j ≡ some a) sender id evidence now _ s h
      λ e found able. rw (complete_frame id e evidence now _ s).2 h
dispatch_anchored cfg sender (vote_dispute id decision) now s j a h =
    vote_keeps (λ s'. s'.anchors j ≡ some a) id sender decision now _ _ s h
      λ d p found registered able. rw (cast_frame id _ now _ _ s).2 h
dispatch_anchored cfg sender _ now s j a h = ground arith

-- Once a batch is anchored, its record is the same after any transactions.
anchors_permanent :
    (cfg : Settings) (txs : List (Transaction × ℤ)) (s : Store) (j : Id32) (a : AnchorRecord)
    → s.anchors j ≡ some a
    → (run cfg txs s).anchors j ≡ some a
unfolding run
anchors_permanent cfg [] s j a h = h
anchors_permanent cfg ((tx, now) ∷ txs) s j a h =
    anchors_permanent cfg txs (execute cfg tx now s).1 j a (
      execute_keeps (λ s'. s'.anchors j ≡ some a) cfg tx now s h
        (dispatch_anchored cfg tx.sender tx.payload now (set_nonce tx.sender tx.nonce s) j a h))

dispatch_foreign :
    (cfg : Settings) (sender : Id32) (p : TxPayload) (now : ℤ) (s : Store)
    → contains cfg.platform_keys sender ≡ false
    → (dispatch cfg sender p now s).1.anchors ≡ s.anchors
unfolding dispatch anchor Token.transfer Token.spend Participant.register Participant.update
    Participant.deactivate Settlement.record_settlement Settlement.record_rating Escrow.create
    Escrow.refund Dispute.raise Dispute.submit_evidence
dispatch_foreign cfg sender (release_escrow id evidence) now s h =
    release_keeps (λ s'. s'.anchors ≡ s.anchors) sender id evidence now _ s refl
      λ e found able. (complete_frame id e evidence now _ s).2
dispatch_foreign cfg sender (vote_dispute id decision) now s h =
    vote_keeps (λ s'. s'.anchors ≡ s.anchors) id sender decision now _ _ s refl
      λ d p found registered able. (cast_frame id _ now _ _ s).2
dispatch_foreign cfg sender _ now s h = ground arith

-- A transaction whose sender is not a platform key changes no anchor.
anchors_need_platform :
    (cfg : Settings) (tx : Transaction) (now : ℤ) (s : Store)
    → contains cfg.platform_keys tx.sender ≡ false
    → (execute cfg tx now s).1.anchors ≡ s.anchors
anchors_need_platform cfg tx now s h =
    execute_keeps (λ s'. s'.anchors ≡ s.anchors) cfg tx now s refl
      (dispatch_foreign cfg tx.sender tx.payload now (set_nonce tx.sender tx.nonce s) h)

-- ===== src/Machine/Execute/Disputes.antt =====
-- What executing transactions does to the disputes.
use routinechain.Base.{ℤ, ◌≡◌, List, [], ◌∷◌, some, arith, IsDistinct}
use routinechain.Types.Bytes.{Id32}
use routinechain.Types.State.{Dispute}
use routinechain.Types.Transaction.{
  TxPayload, release_escrow, raise_dispute, vote_dispute, submit_evidence, Transaction,
}
use routinechain.Store.{Store, set_nonce, empty}
use routinechain.Machine.Execute.{Settings, dispatch, anchor, execute, run}
use routinechain.Machine.Execute.Nonce.{execute_keeps}
use routinechain.Machine.Token
use routinechain.Machine.Participant
use routinechain.Machine.Settlement
use routinechain.Machine.Escrow
use routinechain.Machine.Escrow.Cases.{release_keeps}
use routinechain.Machine.Escrow.Moves.{complete_frame}
use routinechain.Machine.Dispute.{voters}
use routinechain.Machine.Dispute.Cases.{vote_keeps}
use routinechain.Machine.Dispute.Induction.{
  Holds, IsKept, same-Holds, raise-Holds, submit_evidence-Holds, cast-Holds,
}
use routinechain.Machine.Dispute.Votes.{IsSound, InPhase, IsSound-IsKept}

-- A property that every stored version keeps holds of every dispute after a payload is handled.
dispatch-Holds {ℓ} :
    (Q : Dispute → Type ℓ) (cfg : Settings) (sender : Id32) (p : TxPayload) (now : ℤ) (s : Store)
    → IsKept Q cfg.dispute_vote_threshold s
    → ((j : Id32) → Holds Q (s.disputes j))
    → (j : Id32) → Holds Q ((dispatch cfg sender p now s).1.disputes j)
unfolding dispatch anchor Token.transfer Token.spend Participant.register Participant.update
    Participant.deactivate Settlement.record_settlement Settlement.record_rating Escrow.create
    Escrow.refund
dispatch-Holds Q cfg sender (release_escrow id evidence) now s kept h j =
    release_keeps (λ s'. Holds Q (s'.disputes j)) sender id evidence now _ s (h j)
      λ e found able. same-Holds Q s.disputes _ j (complete_frame id e evidence now _ s).1 (h j)
dispatch-Holds Q cfg sender (vote_dispute id decision) now s kept h j =
    vote_keeps (λ s'. Holds Q (s'.disputes j)) id sender decision now _ _ s (h j)
      λ d p found registered able.
        cast-Holds Q cfg.dispute_vote_threshold id sender d p decision now _ s j kept registered
          able (rw found at (h id)) (h j)
dispatch-Holds Q cfg sender (raise_dispute id escrow_id reason evidence) now s kept h j =
    raise-Holds Q cfg.dispute_vote_threshold id escrow_id sender reason evidence now s j kept (h j)
dispatch-Holds Q cfg sender (submit_evidence id evidence) now s kept h j =
    submit_evidence-Holds Q cfg.dispute_vote_threshold sender id evidence s j kept (h id) (h j)
dispatch-Holds Q cfg sender p now s kept h j =
    same-Holds Q s.disputes (dispatch cfg sender p now s).1.disputes j (ground arith) (h j)

pub execute-Holds {ℓ} :
    (Q : Dispute → Type ℓ) (cfg : Settings) (tx : Transaction) (now : ℤ) (s : Store)
    → IsKept Q cfg.dispute_vote_threshold (set_nonce tx.sender tx.nonce s)
    → ((j : Id32) → Holds Q (s.disputes j))
    → (j : Id32) → Holds Q ((execute cfg tx now s).1.disputes j)
execute-Holds Q cfg tx now s kept h j =
    execute_keeps (λ s'. Holds Q (s'.disputes j)) cfg tx now s (h j)
      (dispatch-Holds Q cfg tx.sender tx.payload now (set_nonce tx.sender tx.nonce s) kept h j)

run-IsSound :
    (cfg : Settings) (txs : List (Transaction × ℤ)) (s : Store)
    → ((j : Id32) → Holds (IsSound cfg.dispute_vote_threshold) (s.disputes j))
    → (j : Id32) → Holds (IsSound cfg.dispute_vote_threshold) ((run cfg txs s).disputes j)
unfolding run
run-IsSound cfg [] s h j = h j
run-IsSound cfg ((tx, now) ∷ txs) s h j =
    run-IsSound cfg txs (execute cfg tx now s).1
      (execute-Holds (IsSound cfg.dispute_vote_threshold) cfg tx now s
        (IsSound-IsKept cfg.dispute_vote_threshold _) h)
      j

-- In every store that transactions build from an empty one, no arbiter has two votes on a dispute,
-- and its phase agrees with its votes: no vote and no resolution before the voting phase, fewer
-- votes than the threshold and no resolution in it, and once resolved at least as many votes as the
-- threshold and the resolution that they decide.
pub disputes_sound :
    (cfg : Settings) (txs : List (Transaction × ℤ)) (j : Id32) (d : Dispute)
    → (run cfg txs empty).disputes j ≡ some d
    → IsDistinct (voters d.votes) × InPhase cfg.dispute_vote_threshold d.state d.votes d.resolution
disputes_sound cfg txs j d found = rw found at (run-IsSound cfg txs empty (λ _. tt) j)

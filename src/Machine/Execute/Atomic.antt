-- ===== src/Machine/Execute/Atomic.antt =====
-- A failed transaction: `execute` of crates/rc-state/src/lib.rs writes as it goes and has no
-- rollback, so that nothing is left behind rests on which records the store holds.
use routinechain.Base.{
  ℕ, ℤ, ◌≡◌, inl, inr, List, some, true, false, arith, sym, ap, ◌∙◌, ltb, lt→ltb, if◌then◌else◌,
}
use native.Mathlib.Decide.{dec_lt}
use routinechain.Types.Bytes.{Id32, Hash}
use routinechain.Types.State.{Escrow, Dispute}
use routinechain.Types.Transaction.{
  TxPayload, release_escrow, refund_escrow, vote_dispute, Transaction, DisputeDecision,
}
use routinechain.Store.{Store, set_nonce, get_nonce, empty}
use routinechain.Machine.Action.{is_err}
use routinechain.Machine.Execute.{Settings, dispatch, anchor, execute, run}
use routinechain.Machine.Execute.Nonce.{execute_accepted, execute_replayed}
use routinechain.Machine.Token
use routinechain.Machine.Participant
use routinechain.Machine.Participant.{is_some}
use routinechain.Machine.Settlement
use routinechain.Machine.Escrow
use routinechain.Machine.Escrow.Cases.{release_cases}
use routinechain.Machine.Dispute
use routinechain.Machine.Dispute.Cases.{vote_cases}
use routinechain.Machine.Execute.Parties.{HasParties, run-HasParties}

complete-ok :
    (escrow_id : Id32) (e : Escrow) (evidence_hash : Hash) (now : ℤ) (reward : ℕ) (s : Store)
    → HasParties s (some e)
    → is_err (Escrow.complete escrow_id e evidence_hash now reward s).0 ≡ false
unfolding Escrow.complete
complete-ok escrow_id e evidence_hash now reward s h = ground arith

cast_atomic :
    (dispute_id : Id32) (d : Dispute) (now : ℤ) (reward threshold : ℕ) (s : Store)
    → is_err (Dispute.cast dispute_id d now reward threshold s).0 ≡ true
    → (Dispute.cast dispute_id d now reward threshold s).1 ≡ s
unfolding Dispute.cast Dispute.resolve Dispute.settle_parties
cast_atomic dispute_id d now reward threshold s h = ground arith

release_atomic :
    (sender escrow_id : Id32) (evidence_hash : Hash) (now : ℤ) (reward : ℕ) (s : Store)
    → HasParties s (s.escrows escrow_id)
    → is_err (Escrow.release sender escrow_id evidence_hash now reward s).0 ≡ true
    → (Escrow.release sender escrow_id evidence_hash now reward s).1 ≡ s
release_atomic sender escrow_id evidence_hash now reward s h failed =
    elim (release_cases sender escrow_id evidence_hash now reward s) [
      | inl (same, _) ↦ same
      | inr (e, found, able, done) ↦
          cc (complete-ok escrow_id e evidence_hash now reward s (rw found at h), done)
    ]

vote_atomic :
    (dispute_id voter : Id32) (decision : DisputeDecision) (now : ℤ) (reward threshold : ℕ)
    (s : Store)
    → is_err (Dispute.vote dispute_id voter decision now reward threshold s).0 ≡ true
    → (Dispute.vote dispute_id voter decision now reward threshold s).1 ≡ s
vote_atomic dispute_id voter decision now reward threshold s failed =
    elim (vote_cases dispute_id voter decision now reward threshold s) [
      | inl (same, _) ↦ same
      | inr (d, p, found, registered, able, done) ↦
          ap (λ r. r.1) done
          ∙ cast_atomic dispute_id _ now reward threshold s
              (ap (λ r. is_err r.0) (sym done) ∙ failed)
    ]

dispatch_atomic :
    (cfg : Settings) (sender : Id32) (p : TxPayload) (now : ℤ) (s : Store)
    → ((j : Id32) → HasParties s (s.escrows j))
    → is_err (dispatch cfg sender p now s).0 ≡ true
    → (dispatch cfg sender p now s).1 ≡ s
unfolding dispatch anchor Token.transfer Token.spend Participant.register Participant.update
    Participant.deactivate Settlement.record_settlement Settlement.record_rating Escrow.create
    Escrow.refund Dispute.raise Dispute.submit_evidence
dispatch_atomic cfg sender (release_escrow id evidence) now s h failed =
    release_atomic sender id evidence now _ s (h id) failed
dispatch_atomic cfg sender (refund_escrow id) now s h failed = ground (arith, h id)
dispatch_atomic cfg sender (vote_dispute id decision) now s h failed =
    vote_atomic id sender decision now _ _ s failed
dispatch_atomic cfg sender _ now s h failed = ground arith

-- What a failed transaction leaves: the store as it was, or with its nonce recorded.
execute_atomic :
    (cfg : Settings) (tx : Transaction) (now : ℤ) (s : Store)
    → ((j : Id32) → HasParties s (s.escrows j))
    → is_err (execute cfg tx now s).0 ≡ true
    → (execute cfg tx now s).1
      ≡ (if ltb (get_nonce tx.sender s) tx.nonce then set_nonce tx.sender tx.nonce s else s)
execute_atomic cfg tx now s h failed = elim (dec_lt (get_nonce tx.sender s) tx.nonce) [
  | yes lt ↦
      let done = execute_accepted cfg tx now s lt in
      rw (lt→ltb _ _ lt) (
        ap (λ r. r.1) done
        ∙ dispatch_atomic cfg tx.sender tx.payload now (set_nonce tx.sender tx.nonce s) h
            (ap (λ r. is_err r.0) (sym done) ∙ failed))
  | no ge ↦ rw (execute_replayed cfg tx now s (omega arith)) (ground arith)
]

-- In every store that transactions build from an empty one, a transaction that fails leaves the
-- store exactly as it was, but for the sender's nonce: it is recorded if it was above the last one.
pub failure_atomic :
    (cfg : Settings) (txs : List (Transaction × ℤ)) (tx : Transaction) (now : ℤ)
    → is_err (execute cfg tx now (run cfg txs empty)).0 ≡ true
    → (execute cfg tx now (run cfg txs empty)).1 ≡ (
        if ltb (get_nonce tx.sender (run cfg txs empty)) tx.nonce
        then set_nonce tx.sender tx.nonce (run cfg txs empty)
        else run cfg txs empty)
failure_atomic cfg txs tx now =
    execute_atomic cfg tx now (run cfg txs empty) (run-HasParties cfg txs empty (λ _. tt))

-- ===== src/Machine/Execute/Participants.antt =====
-- What executing transactions does to the participants.
use routinechain.Base.{ℕ, ℤ, ◌≡◌, List, [], ◌∷◌, arith, Option, none, some, true, ◌||◌, not}
use routinechain.Types.Bytes.{Id32, Hash}
use routinechain.Types.State.{Participant, Escrow, Dispute}
use routinechain.Types.Transaction.{TxPayload, release_escrow, vote_dispute, Transaction}
use routinechain.Store.{Store, set_nonce}
use routinechain.Machine.Execute.{Settings, dispatch, anchor, execute, run}
use routinechain.Machine.Execute.Nonce.{execute_keeps}
use routinechain.Machine.Token
use routinechain.Machine.Participant
use routinechain.Machine.Settlement
use routinechain.Machine.Escrow
use routinechain.Machine.Dispute
use routinechain.Machine.Dispute.Cases.{vote_keeps}
use routinechain.Machine.Escrow.Cases.{release_keeps}

-- Two versions of a participant: the identity stays, and a participant that left does not return.
abbrev pub Lasts : Option Participant → Option Participant → Type 0
Lasts none _ = Unit
Lasts (some p) none = ⊥
Lasts (some p) (some p') =
    (p'.id ≡ p.id)
    × (p'.p_type ≡ p.p_type)
    × (p'.registered_at ≡ p.registered_at)
    × ((p.is_active || not p'.is_active) ≡ true)

Lasts-refl : (o : Option Participant) → Lasts o o
Lasts-refl none = tt
Lasts-refl (some p) = ground arith

Lasts-trans : (a b c : Option Participant) → Lasts a b → Lasts b c → Lasts a c
Lasts-trans none b c h k = tt
Lasts-trans (some a) none c h k = absurd h
Lasts-trans (some a) (some b) none h k = absurd k
Lasts-trans (some a) (some b) (some c) h k = ground arith

complete-Lasts :
    (j escrow_id : Id32) (e : Escrow) (evidence_hash : Hash) (now : ℤ) (reward : ℕ) (s : Store)
    → Lasts
        (s.participants j)
        ((Escrow.complete escrow_id e evidence_hash now reward s).1.participants j)
unfolding Escrow.complete
complete-Lasts j escrow_id e evidence_hash now reward s = ground arith

cast-Lasts :
    (j dispute_id : Id32) (d : Dispute) (now : ℤ) (reward threshold : ℕ) (s : Store)
    → Lasts (s.participants j) ((Dispute.cast dispute_id d now reward threshold s).1.participants j)
unfolding Dispute.cast Dispute.resolve Dispute.settle_parties
cast-Lasts j dispute_id d now reward threshold s = ground arith

dispatch-Lasts :
    (j : Id32) (cfg : Settings) (sender : Id32) (p : TxPayload) (now : ℤ) (s : Store)
    → Lasts (s.participants j) ((dispatch cfg sender p now s).1.participants j)
unfolding dispatch anchor Token.transfer Token.spend Participant.register Participant.update
    Participant.deactivate Settlement.record_settlement Settlement.record_rating Escrow.create
    Escrow.refund Dispute.raise Dispute.submit_evidence
dispatch-Lasts j cfg sender (release_escrow id evidence) now s =
    release_keeps (λ s'. Lasts (s.participants j) (s'.participants j)) sender id evidence now _ s
      (Lasts-refl (s.participants j)) λ e found able. complete-Lasts j id e evidence now _ s
dispatch-Lasts j cfg sender (vote_dispute id decision) now s =
    vote_keeps (λ s'. Lasts (s.participants j) (s'.participants j)) id sender decision now _ _ s
      (Lasts-refl (s.participants j)) λ d p found registered able. cast-Lasts j id _ now _ _ s
dispatch-Lasts j cfg sender _ now s = ground arith

pub execute-Lasts :
    (j : Id32) (cfg : Settings) (tx : Transaction) (now : ℤ) (s : Store)
    → Lasts (s.participants j) ((execute cfg tx now s).1.participants j)
execute-Lasts j cfg tx now s =
    execute_keeps (λ s'. Lasts (s.participants j) (s'.participants j)) cfg tx now s
      (Lasts-refl (s.participants j))
      (dispatch-Lasts j cfg tx.sender tx.payload now (set_nonce tx.sender tx.nonce s))

-- Whatever transactions are executed, a registered participant stays registered under the same id,
-- type and registration time, and one that was deactivated is not active again.
run-Lasts :
    (j : Id32) (cfg : Settings) (txs : List (Transaction × ℤ)) (s : Store)
    → Lasts (s.participants j) ((run cfg txs s).participants j)
unfolding run
run-Lasts j cfg [] s = Lasts-refl (s.participants j)
run-Lasts j cfg ((tx, now) ∷ txs) s =
    Lasts-trans (s.participants j) _ _ (execute-Lasts j cfg tx now s)
      (run-Lasts j cfg txs (execute cfg tx now s).1)

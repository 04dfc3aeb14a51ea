-- ===== src/Machine/Execute/Parties.antt =====
-- Every escrow that `execute` of crates/rc-state/src/lib.rs stores is between participants.
use routinechain.Base.{
  ℤ, ◌≡◌, inl, inr, List, [], ◌∷◌, none, some, Option, true, arith, refl, ap, ◌∙◌, Option-cases,
}
use routinechain.Types.Bytes.{Id32}
use routinechain.Types.State.{Escrow, Participant}
use routinechain.Types.Transaction.{TxPayload, release_escrow, vote_dispute, Transaction}
use routinechain.Store.{Store, set_nonce}
use routinechain.Machine.Execute.{Settings, dispatch, anchor, execute, run}
use routinechain.Machine.Execute.Nonce.{execute_keeps}
use routinechain.Machine.Execute.Participants.{Lasts, execute-Lasts}
use routinechain.Machine.Execute.Escrows.{execute-Continues}
use routinechain.Machine.Escrow.Lifecycle.{Continues}
use routinechain.Machine.Token
use routinechain.Machine.Participant
use routinechain.Machine.Participant.{is_some}
use routinechain.Machine.Settlement
use routinechain.Machine.Escrow
use routinechain.Machine.Escrow.Cases.{release_keeps}
use routinechain.Machine.Escrow.Moves.{complete-escrows}
use routinechain.Machine.Dispute
use routinechain.Machine.Dispute.Cases.{vote_keeps, cast_frame}

-- The parties of an escrow are registered.
abbrev pub HasParties : Store → Option Escrow → Type 0
HasParties s none = Unit
HasParties s (some e) =
    (is_some (s.participants e.buyer) ≡ true) × (is_some (s.participants e.seller) ≡ true)

is_some-Lasts : (o o' : Option Participant) → Lasts o o' → is_some o ≡ true → is_some o' ≡ true
is_some-Lasts none o' l h = cc
is_some-Lasts (some p) none l h = absurd l
is_some-Lasts (some p) (some p') l h = refl

HasParties-Lasts :
    (s s' : Store) (o : Option Escrow)
    → ((j : Id32) → Lasts (s.participants j) (s'.participants j))
    → HasParties s o
    → HasParties s' o
HasParties-Lasts s s' none l h = tt
HasParties-Lasts s s' (some e) l h =
    (is_some-Lasts _ _ (l e.buyer) h.0, is_some-Lasts _ _ (l e.seller) h.1)

HasParties-Continues :
    (s : Store) (e : Escrow) (o : Option Escrow)
    → Continues (some e) o
    → HasParties s (some e)
    → HasParties s o
HasParties-Continues s e none c h = absurd c
HasParties-Continues s e (some e') c h =
    (ap (λ i. is_some (s.participants i)) c.0 ∙ h.0, ap (λ i. is_some (s.participants i)) c.1 ∙ h.1)

-- An escrow that a payload brings into the store is between participants.
dispatch_fresh :
    (cfg : Settings) (sender : Id32) (p : TxPayload) (now : ℤ) (s : Store) (j : Id32)
    → s.escrows j ≡ none
    → HasParties s ((dispatch cfg sender p now s).1.escrows j)
unfolding dispatch anchor Token.transfer Token.spend Participant.register Participant.update
    Participant.deactivate Settlement.record_settlement Settlement.record_rating Escrow.create
    Escrow.refund Dispute.raise Dispute.submit_evidence
dispatch_fresh cfg sender (release_escrow id evidence) now s j h =
    release_keeps (λ s'. HasParties s (s'.escrows j)) sender id evidence now _ s (rw h tt)
      λ e found able. rw (complete-escrows id e evidence now _ s) (ground arith)
dispatch_fresh cfg sender (vote_dispute id decision) now s j h =
    vote_keeps (λ s'. HasParties s (s'.escrows j)) id sender decision now _ _ s (rw h tt)
      λ d p found registered able. rw ((cast_frame id _ now _ _ s).1, h) tt
dispatch_fresh cfg sender _ now s j h = ground arith

execute_fresh :
    (cfg : Settings) (tx : Transaction) (now : ℤ) (s : Store) (j : Id32)
    → s.escrows j ≡ none
    → HasParties s ((execute cfg tx now s).1.escrows j)
execute_fresh cfg tx now s j h =
    execute_keeps (λ s'. HasParties s (s'.escrows j)) cfg tx now s (rw h tt)
      (dispatch_fresh cfg tx.sender tx.payload now (set_nonce tx.sender tx.nonce s) j h)

execute-HasParties :
    (cfg : Settings) (tx : Transaction) (now : ℤ) (s : Store) (j : Id32)
    → HasParties s (s.escrows j)
    → HasParties (execute cfg tx now s).1 ((execute cfg tx now s).1.escrows j)
execute-HasParties cfg tx now s j h = elim (Option-cases (s.escrows j)) [
  | inl free ↦
      HasParties-Lasts s (execute cfg tx now s).1 _ (λ i. execute-Lasts i cfg tx now s)
        (execute_fresh cfg tx now s j free)
  | inr (e, found) ↦
      HasParties-Lasts s (execute cfg tx now s).1 _ (λ i. execute-Lasts i cfg tx now s)
        (HasParties-Continues s e _ (rw found at (execute-Continues cfg tx now s j))
          (rw found at h))
]

-- From a store whose escrows are between participants, every run leads to such a store.
pub run-HasParties :
    (cfg : Settings) (txs : List (Transaction × ℤ)) (s : Store)
    → ((j : Id32) → HasParties s (s.escrows j))
    → (j : Id32) → HasParties (run cfg txs s) ((run cfg txs s).escrows j)
unfolding run
run-HasParties cfg [] s h j = h j
run-HasParties cfg ((tx, now) ∷ txs) s h j =
    run-HasParties cfg txs (execute cfg tx now s).1 (λ k. execute-HasParties cfg tx now s k (h k)) j

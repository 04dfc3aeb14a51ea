-- ===== src/Machine/Execute/Escrows.antt =====
-- What executing transactions does to the escrows (`execute` of crates/rc-state/src/lib.rs).
use routinechain.Base.{ℤ, ◌≡◌, refl, arith, List, [], ◌∷◌, none, some, true, ◌∙◌, Option}
use routinechain.Types.Bytes.{Id32}
use routinechain.Types.State.{EscrowState, Escrow, disputed}
use routinechain.Types.Transaction.{
  TxPayload, create_escrow, release_escrow, refund_escrow, raise_dispute, vote_dispute, Transaction,
}
use routinechain.Store.{Store, set_nonce}
use routinechain.Machine.Execute.{Settings, dispatch, anchor, execute, run}
use routinechain.Machine.Execute.Nonce.{execute_keeps}
use routinechain.Machine.Token
use routinechain.Machine.Participant
use routinechain.Machine.Settlement
use routinechain.Machine.Escrow.Cases.{release_keeps}
use routinechain.Machine.Escrow.Lifecycle.{
  Continues, Continues-refl, Continues-trans, same-Continues, EscrowPath, path_of_settled,
  path_of_disputed,
}
use routinechain.Machine.Escrow.Moves.{
  Moves-Continues, refund-Moves, raise-Moves, create-Continues, complete-Continues,
}
use routinechain.Machine.Dispute
use routinechain.Machine.Dispute.{is_settled}
use routinechain.Machine.Dispute.Cases.{vote_keeps, cast_frame}

dispatch-Continues :
    (cfg : Settings) (sender : Id32) (p : TxPayload) (now : ℤ) (s : Store) (j : Id32)
    → Continues (s.escrows j) ((dispatch cfg sender p now s).1.escrows j)
unfolding dispatch anchor Token.transfer Token.spend Participant.register Participant.update
    Participant.deactivate Settlement.record_settlement Settlement.record_rating
    Dispute.submit_evidence
dispatch-Continues cfg sender (create_escrow id buyer seller amount expires_at) now s j =
    create-Continues sender id buyer seller amount expires_at now s j
dispatch-Continues cfg sender (release_escrow id evidence) now s j =
    release_keeps (λ s'. Continues (s.escrows j) (s'.escrows j)) sender id evidence now _ s
      (Continues-refl (s.escrows j))
      λ e found able. complete-Continues id e evidence now _ s j found (ground arith)
dispatch-Continues cfg sender (refund_escrow id) now s j =
    Moves-Continues s.escrows _ id j (refund-Moves sender id now s)
dispatch-Continues cfg sender (raise_dispute id escrow_id reason evidence) now s j =
    Moves-Continues s.escrows _ escrow_id j (raise-Moves id escrow_id sender reason evidence now s)
dispatch-Continues cfg sender (vote_dispute id decision) now s j =
    vote_keeps (λ s'. Continues (s.escrows j) (s'.escrows j)) id sender decision now _ _ s
      (Continues-refl (s.escrows j))
      λ d p found registered able. same-Continues s.escrows _ j (cast_frame id _ now _ _ s).1
dispatch-Continues cfg sender p now s j =
    same-Continues s.escrows (dispatch cfg sender p now s).1.escrows j (ground arith)

pub execute-Continues :
    (cfg : Settings) (tx : Transaction) (now : ℤ) (s : Store) (j : Id32)
    → Continues (s.escrows j) ((execute cfg tx now s).1.escrows j)
execute-Continues cfg tx now s j =
    execute_keeps (λ s'. Continues (s.escrows j) (s'.escrows j)) cfg tx now s
      (Continues-refl (s.escrows j))
      (dispatch-Continues cfg tx.sender tx.payload now (set_nonce tx.sender tx.nonce s) j)

-- Whatever transactions are executed, an escrow stays in the store, keeps its parties, its amount
-- and its times, and its state moves only along the steps of an escrow's life.
pub run-Continues :
    (cfg : Settings) (txs : List (Transaction × ℤ)) (s : Store) (j : Id32)
    → Continues (s.escrows j) ((run cfg txs s).escrows j)
unfolding run
run-Continues cfg [] s j = Continues-refl (s.escrows j)
run-Continues cfg ((tx, now) ∷ txs) s j =
    Continues-trans (s.escrows j) _ _ (execute-Continues cfg tx now s j)
      (run-Continues cfg txs (execute cfg tx now s).1 j)

-- A settled or disputed escrow is found in the same state after any transactions.
state_kept :
    (P : EscrowState → Type 0)
    → ((a b : EscrowState) → P a → EscrowPath a b → b ≡ a)
    → (o : Option Escrow) (e : Escrow) → P e.state
    → Continues (some e) o
    → (e' : Escrow) × (o ≡ some e') × (e'.state ≡ e.state)
state_kept P fixed none e h c = absurd c
state_kept P fixed (some e') e h c = (e', refl, fixed _ _ h c.5)

-- A released or refunded escrow stays in its state whatever transactions are executed: it is not
-- paid out twice, and not disputed.
settled_final :
    (cfg : Settings) (txs : List (Transaction × ℤ)) (s : Store) (j : Id32) (e : Escrow)
    → s.escrows j ≡ some e
    → is_settled e.state ≡ true
    → (e' : Escrow) × ((run cfg txs s).escrows j ≡ some e') × (e'.state ≡ e.state)
settled_final cfg txs s j e found h =
    state_kept (λ a. is_settled a ≡ true) (λ a b p q. path_of_settled p q) _ e h
      (rw found at (run-Continues cfg txs s j))

-- A disputed escrow stays disputed whatever transactions are executed, the resolving votes
-- included: it can never be released or refunded.
pub disputed_final :
    (cfg : Settings) (txs : List (Transaction × ℤ)) (s : Store) (j : Id32) (e : Escrow)
    → s.escrows j ≡ some e
    → e.state ≡ disputed
    → (e' : Escrow) × ((run cfg txs s).escrows j ≡ some e') × (e'.state ≡ disputed)
disputed_final cfg txs s j e found h =
    let (e', there, same) =
      state_kept (λ a. a ≡ disputed) (λ a b p q. path_of_disputed p q) _ e h
        (rw found at (run-Continues cfg txs s j)) in
    (e', there, same ∙ h)

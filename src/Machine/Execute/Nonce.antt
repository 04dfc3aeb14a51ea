-- ===== src/Machine/Execute/Nonce.antt =====
-- Replay protection: the nonces that `StateMachine::execute` of crates/rc-state/src/lib.rs records.
use routinechain.Base.{ℤ, ◌≢◌, ◌≡◌, ◌≤◌, ◌<◌, refl, arith, List, [], ◌∷◌, update}
use native.Mathlib.Decide.{dec_lt}
use native.Mathlib.Nat.{le_trans, le_refl}
use routinechain.Types.Bytes.{Id32}
use routinechain.Types.Transaction.{TxPayload, release_escrow, vote_dispute, Transaction}
use routinechain.Store.{Store, get_nonce, set_nonce}
use routinechain.Machine.Action.{nonce_too_low, err}
use routinechain.Machine.Execute.{Settings, dispatch, anchor, execute, check_and_update_nonce, run}
use routinechain.Machine.Token
use routinechain.Machine.Participant
use routinechain.Machine.Settlement
use routinechain.Machine.Escrow
use routinechain.Machine.Escrow.Cases.{release_keeps}
use routinechain.Machine.Escrow.Moves.{complete_frame}
use routinechain.Machine.Dispute
use routinechain.Machine.Dispute.Cases.{vote_keeps, cast_frame}

-- No handler touches the nonces.
pub dispatch-nonces :
    (cfg : Settings) (sender : Id32) (p : TxPayload) (now : ℤ) (s : Store)
    → (dispatch cfg sender p now s).1.nonces ≡ s.nonces
unfolding dispatch anchor Token.transfer Token.spend Participant.register Participant.update
    Participant.deactivate Settlement.record_settlement Settlement.record_rating Escrow.create
    Escrow.refund Dispute.raise Dispute.submit_evidence
dispatch-nonces cfg sender (release_escrow id evidence) now s =
    release_keeps (λ s'. s'.nonces ≡ s.nonces) sender id evidence now _ s refl
      λ e found able. (complete_frame id e evidence now _ s).0
dispatch-nonces cfg sender (vote_dispute id decision) now s =
    vote_keeps (λ s'. s'.nonces ≡ s.nonces) id sender decision now _ _ s refl
      λ d p found registered able. (cast_frame id _ now _ _ s).0
dispatch-nonces cfg sender _ now s = ground arith

-- A transaction whose nonce is not above the sender's last one is refused and changes nothing.
pub execute_replayed :
    (cfg : Settings) (tx : Transaction) (now : ℤ) (s : Store)
    → tx.nonce ≤ get_nonce tx.sender s
    → execute cfg tx now s ≡ (err (nonce_too_low tx.nonce (get_nonce tx.sender s)), s)
unfolding execute check_and_update_nonce
execute_replayed cfg tx now s h = ground arith

-- Any other transaction has its nonce recorded and goes to its handler.
pub execute_accepted :
    (cfg : Settings) (tx : Transaction) (now : ℤ) (s : Store)
    → get_nonce tx.sender s < tx.nonce
    → execute cfg tx now s ≡ dispatch cfg tx.sender tx.payload now (set_nonce tx.sender tx.nonce s)
unfolding execute check_and_update_nonce
execute_accepted cfg tx now s h = ground arith

-- A property of the store holds after a transaction if it holds now, and if its handler keeps it
-- once the nonce is recorded.
pub execute_keeps {ℓ} :
    (P : Store → Type ℓ) (cfg : Settings) (tx : Transaction) (now : ℤ) (s : Store)
    → P s
    → P (dispatch cfg tx.sender tx.payload now (set_nonce tx.sender tx.nonce s)).1
    → P (execute cfg tx now s).1
execute_keeps P cfg tx now s same handled = elim (dec_lt (get_nonce tx.sender s) tx.nonce) [
  | yes h ↦ rw (execute_accepted cfg tx now s h) handled
  | no h ↦ rw (execute_replayed cfg tx now s (omega arith)) same
]

pub execute-nonces :
    (cfg : Settings) (tx : Transaction) (now : ℤ) (s : Store)
    → get_nonce tx.sender s < tx.nonce
    → (execute cfg tx now s).1.nonces ≡ update s.nonces tx.sender tx.nonce
execute-nonces cfg tx now s h =
    rw (execute_accepted cfg tx now s h) (dispatch-nonces cfg tx.sender tx.payload now _)

-- After a transaction, accepted or not, its nonce is not above the one that is recorded.
execute_records :
    (cfg : Settings) (tx : Transaction) (now : ℤ) (s : Store)
    → tx.nonce ≤ get_nonce tx.sender (execute cfg tx now s).1
execute_records cfg tx now s = elim (dec_lt (get_nonce tx.sender s) tx.nonce) [
  | yes h ↦ rw (execute-nonces cfg tx now s h) (ground arith)
  | no h ↦ rw (execute_replayed cfg tx now s (omega arith)) (omega arith)
]

-- A transaction leaves the nonces of the others.
pub execute-other_nonce :
    (cfg : Settings) (tx : Transaction) (now : ℤ) (s : Store) (id : Id32)
    → id ≢ tx.sender
    → get_nonce id (execute cfg tx now s).1 ≡ get_nonce id s
execute-other_nonce cfg tx now s id ne = elim (dec_lt (get_nonce tx.sender s) tx.nonce) [
  | yes h ↦ rw (execute-nonces cfg tx now s h) (ground arith)
  | no h ↦ rw (execute_replayed cfg tx now s (omega arith)) refl
]

-- No transaction lowers a nonce.
pub execute-nonce_mono :
    (cfg : Settings) (tx : Transaction) (now : ℤ) (s : Store) (id : Id32)
    → get_nonce id s ≤ get_nonce id (execute cfg tx now s).1
execute-nonce_mono cfg tx now s id = elim (dec_lt (get_nonce tx.sender s) tx.nonce) [
  | yes h ↦ rw (execute-nonces cfg tx now s h) (ground arith)
  | no h ↦ rw (execute_replayed cfg tx now s (omega arith)) (le_refl _)
]

run-nonce_mono :
    (cfg : Settings) (txs : List (Transaction × ℤ)) (s : Store) (id : Id32)
    → get_nonce id s ≤ get_nonce id (run cfg txs s)
unfolding run
run-nonce_mono cfg [] s id = le_refl _
run-nonce_mono cfg ((tx, now) ∷ txs) s id =
    le_trans (execute-nonce_mono cfg tx now s id)
      (run-nonce_mono cfg txs (execute cfg tx now s).1 id)

-- Once a transaction has been executed, with any outcome, executing it again is refused with the
-- nonce error and changes nothing, whatever transactions came between.
pub replay_refused :
    (cfg : Settings) (tx : Transaction) (now later : ℤ) (between : List (Transaction × ℤ))
    (s : Store)
    → let s' = run cfg between (execute cfg tx now s).1 in
      execute cfg tx later s' ≡ (err (nonce_too_low tx.nonce (get_nonce tx.sender s')), s')
replay_refused cfg tx now later between s =
    execute_replayed cfg tx later _
      (le_trans (execute_records cfg tx now s) (run-nonce_mono cfg between _ tx.sender))

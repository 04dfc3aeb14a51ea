-- ===== src/Machine/Execute/Statistics.antt =====
-- The statistics of the participants: how the counters of crates/rc-types/src/state.rs relate.
use routinechain.Base.{
  ℕ, ◌+◌, ◌*◌, ℤ, ◌≡◌, ◌≤◌, List, [], ◌∷◌, arith, Option, none, some, u64_max, length, ◌^◌,
}
use native.Mathlib.Nat.{zero-add, add-zero, add-suc, suc-add}
use native.Mathlib.Numerals.{add-one}
use routinechain.Types.Bytes.{Id32, Hash}
use routinechain.Types.State.{Participant, Escrow, Dispute}
use routinechain.Types.Transaction.{TxPayload, release_escrow, vote_dispute, Transaction}
use routinechain.Store.{Store, set_nonce, empty}
use routinechain.Machine.Execute.{Settings, dispatch, anchor, execute, run}
use routinechain.Machine.Execute.Nonce.{execute_keeps}
use routinechain.Machine.Token
use routinechain.Machine.Participant
use routinechain.Machine.Settlement
use routinechain.Machine.Escrow
use routinechain.Machine.Dispute
use routinechain.Machine.Dispute.Cases.{vote_keeps}
use routinechain.Machine.Escrow.Cases.{release_keeps}

-- The statistics after `n` transactions.
abbrev pub Counted : ℕ → Option Participant → Type 0
Counted n none = Unit
Counted n (some p) =
    (p.success_tx ≤ p.total_tx)
    × (p.rating_sum ≤ 500 * p.rating_count)
    × (p.total_tx ≤ n + n)
    × (p.rating_count ≤ n)

complete-Counted :
    (n : ℕ) (j escrow_id : Id32) (e : Escrow) (evidence_hash : Hash) (now : ℤ) (reward : ℕ)
    (s : Store)
    → n + n + 2 ≤ u64_max
    → Counted n (s.participants j)
    → Counted (n + 1) ((Escrow.complete escrow_id e evidence_hash now reward s).1.participants j)
unfolding Escrow.complete
complete-Counted n j escrow_id e evidence_hash now reward s h = ground arith

cast-Counted :
    (n : ℕ) (j dispute_id : Id32) (d : Dispute) (now : ℤ) (reward threshold : ℕ) (s : Store)
    → Counted n (s.participants j)
    → Counted (n + 1) ((Dispute.cast dispute_id d now reward threshold s).1.participants j)
unfolding Dispute.cast Dispute.resolve Dispute.settle_parties
cast-Counted n j dispute_id d now reward threshold s c = ground arith

Counted-suc : (n : ℕ) (o : Option Participant) → Counted n o → Counted (n + 1) o
Counted-suc n none c = tt
Counted-suc n (some p) c = ground arith

dispatch-Counted :
    (n : ℕ) (j : Id32) (cfg : Settings) (sender : Id32) (p : TxPayload) (now : ℤ) (s : Store)
    → n + n + 2 ≤ u64_max
    → 500 * n + 500 ≤ u64_max
    → Counted n (s.participants j)
    → Counted (n + 1) ((dispatch cfg sender p now s).1.participants j)
unfolding dispatch anchor Token.transfer Token.spend Participant.register Participant.update
    Participant.deactivate Settlement.record_settlement Settlement.record_rating Escrow.create
    Escrow.refund Dispute.raise Dispute.submit_evidence
dispatch-Counted n j cfg sender (release_escrow id evidence) now s h h' c =
    release_keeps (λ s'. Counted (n + 1) (s'.participants j)) sender id evidence now _ s
      (Counted-suc n _ c) λ e found able. complete-Counted n j id e evidence now _ s h c
dispatch-Counted n j cfg sender (vote_dispute id decision) now s h h' c =
    vote_keeps (λ s'. Counted (n + 1) (s'.participants j)) id sender decision now _ _ s
      (Counted-suc n _ c) λ d p found registered able. cast-Counted n j id _ now _ _ s c
dispatch-Counted n j cfg sender _ now s h h' c = ground arith

run-Counted :
    (n : ℕ) (j : Id32) (cfg : Settings) (txs : List (Transaction × ℤ)) (s : Store)
    → n + length txs ≤ 2 ^ 54
    → Counted n (s.participants j)
    → Counted (n + length txs) ((run cfg txs s).participants j)
unfolding run
run-Counted n j cfg [] s h c = rw add-zero c
run-Counted n j cfg ((tx, now) ∷ txs) s h c =
    rw (add-suc, ← suc-add, ← add-one)
      (run-Counted (n + 1) j cfg txs (execute cfg tx now s).1 (omega arith) (
        execute_keeps (λ s'. Counted (n + 1) (s'.participants j)) cfg tx now s (Counted-suc n _ c)
          (dispatch-Counted n j cfg tx.sender tx.payload now (set_nonce tx.sender tx.nonce s)
            (omega arith) (omega arith) c)))

-- From an empty store, after any run of at most 2^54 transactions, no participant has more
-- successful transactions than transactions, more than 500 rating points for each rating, more than
-- two counted transactions for each transaction of the run, or more ratings than transactions of
-- the run.
pub run_statistics :
    (j : Id32) (cfg : Settings) (txs : List (Transaction × ℤ)) (p : Participant)
    → length txs ≤ 2 ^ 54
    → (run cfg txs empty).participants j ≡ some p
    → (p.success_tx ≤ p.total_tx)
      × (p.rating_sum ≤ 500 * p.rating_count)
      × (p.total_tx ≤ length txs + length txs)
      × (p.rating_count ≤ length txs)
run_statistics j cfg txs p h found =
    rw found at (rw zero-add at (run-Counted 0 j cfg txs empty (omega arith) tt))

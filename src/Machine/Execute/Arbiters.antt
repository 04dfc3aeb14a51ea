-- ===== src/Machine/Execute/Arbiters.antt =====
-- Who votes on a dispute: the voters that `vote` of crates/rc-state/src/modules/dispute.rs stores.
use routinechain.Base.{
  ℕ, ℤ, ◌≡◌, List, [], ◌∷◌, none, some, true, Option, arith, All, All-append, ◌∙◌,
}
use routinechain.Types.Bytes.{Id32}
use routinechain.Types.State.{Dispute, DisputeVote, Participant}
use routinechain.Types.Transaction.{Transaction, ParticipantType, type_code, DisputeDecision}
use routinechain.Store.{Store, set_nonce, empty}
use routinechain.Machine.Execute.{Settings, execute, run}
use routinechain.Machine.Execute.Participants.{Lasts, execute-Lasts}
use routinechain.Machine.Dispute.{with_vote}
use routinechain.Machine.Dispute.Cases.{votable}
use routinechain.Machine.Dispute.Induction.{Holds, IsKept}
use routinechain.Machine.Execute.Disputes.{execute-Holds}

-- A registered participant of type `Arbiter`.
abbrev pub IsArbiter : Option Participant → Type 0
IsArbiter none = ⊥
IsArbiter (some p) = p.p_type ≡ type_code ParticipantType.arbiter

-- Every vote of the dispute is an arbiter's.
abbrev pub HasArbiters : Store → Dispute → Type 0
HasArbiters s d = All (λ v. IsArbiter (s.participants v.voter)) d.votes

HasArbiters-with_vote :
    (s : Store) (d : Dispute) (p : Participant) (voter : Id32) (decision : DisputeDecision)
    (now : ℤ)
    → s.participants voter ≡ some p
    → votable d p voter ≡ true
    → HasArbiters s d
    → HasArbiters s (with_vote d voter decision now)
HasArbiters-with_vote s d p voter decision now registered able h =
    All-append _ d.votes _ h (rw registered (ground arith), tt)

HasArbiters-IsKept : (t : ℕ) (s : Store) → IsKept (HasArbiters s) t s
HasArbiters-IsKept t s = record {
  fresh = λ dispute_id escrow_id raised_by reason evidence_hash now. tt;
  evidenced = λ d evidence_hash early h. h;
  counted = λ d p voter decision now registered able few h.
      HasArbiters-with_vote s d p voter decision now registered able h;
  decided = λ d p voter decision now registered able enough h.
      HasArbiters-with_vote s d p voter decision now registered able h;
}

IsArbiter-Lasts : (o o' : Option Participant) → Lasts o o' → IsArbiter o → IsArbiter o'
IsArbiter-Lasts none o' l h = absurd h
IsArbiter-Lasts (some p) none l h = absurd l
IsArbiter-Lasts (some p) (some p') l h = l.1 ∙ h

arbiters_last :
    (s s' : Store) (votes : List DisputeVote)
    → ((j : Id32) → Lasts (s.participants j) (s'.participants j))
    → All (λ v. IsArbiter (s.participants v.voter)) votes
    → All (λ v. IsArbiter (s'.participants v.voter)) votes
arbiters_last s s' [] l h = tt
arbiters_last s s' (v ∷ votes) l h =
    (IsArbiter-Lasts _ _ (l v.voter) h.0, arbiters_last s s' votes l h.1)

Holds-Lasts :
    (s s' : Store) (o : Option Dispute)
    → ((j : Id32) → Lasts (s.participants j) (s'.participants j))
    → Holds (HasArbiters s) o
    → Holds (HasArbiters s') o
Holds-Lasts s s' none l h = tt
Holds-Lasts s s' (some d) l h = arbiters_last s s' d.votes l h

run-HasArbiters :
    (cfg : Settings) (txs : List (Transaction × ℤ)) (s : Store)
    → ((j : Id32) → Holds (HasArbiters s) (s.disputes j))
    → (j : Id32) → Holds (HasArbiters (run cfg txs s)) ((run cfg txs s).disputes j)
unfolding run
run-HasArbiters cfg [] s h j = h j
run-HasArbiters cfg ((tx, now) ∷ txs) s h j =
    let s' = (execute cfg tx now s).1 in
    run-HasArbiters cfg txs s'
      (λ k.
        Holds-Lasts s s' (s'.disputes k) (λ i. execute-Lasts i cfg tx now s)
          (execute-Holds (HasArbiters s) cfg tx now s
            (HasArbiters-IsKept cfg.dispute_vote_threshold (set_nonce tx.sender tx.nonce s)) h k))
      j

-- In every store that transactions build from an empty one, each voter on a dispute is a
-- participant of type `Arbiter`.
voters_are_arbiters :
    (cfg : Settings) (txs : List (Transaction × ℤ)) (j : Id32) (d : Dispute)
    → (run cfg txs empty).disputes j ≡ some d
    → All (λ v. IsArbiter ((run cfg txs empty).participants v.voter)) d.votes
voters_are_arbiters cfg txs j d found = rw found at (run-HasArbiters cfg txs empty (λ _. tt) j)

-- ===== src/Machine/Dispute/Votes.antt =====
-- What holds of every stored dispute.
use routinechain.Base.{
  ℕ, ℤ, ◌≡◌, ◌≤◌, ◌<◌, List, [], ◌∷◌, ◌++◌, Option, none, some, true, false, arith, refl, length,
  leb, contains, IsDistinct, IsDistinct-snoc,
}
use mathlib.Core.List.{map-append}
use routinechain.Types.Bytes.{Id32, Hash}
use routinechain.Types.Transaction.{DisputeDecision}
use routinechain.Types.State.{DisputeState, DisputeVote, Dispute, voting, resolved}
use routinechain.Store.{Store}
use routinechain.Machine.Dispute.Induction.{resolved_dispute, with_evidence, IsKept}
use routinechain.Machine.Dispute.{
  takes_votes, voters, with_vote, decide, takes_evidence, takes_evidence,
}

-- The phase of a dispute agrees with its votes, for the threshold `t`.
abbrev pub InPhase : ℕ → DisputeState → List DisputeVote → Option ℕ → Type 0
InPhase t resolved votes resolution = (t ≤ length votes) × (resolution ≡ some (decide votes))
InPhase t voting votes resolution = (length votes < t) × (resolution ≡ none)
InPhase t _ votes resolution = (votes ≡ []) × (resolution ≡ none)

-- No arbiter has voted twice, and the phase agrees with the votes.
abbrev pub IsSound : ℕ → Dispute → Type 0
IsSound t d = IsDistinct (voters d.votes) × InPhase t d.state d.votes d.resolution

voters-with_vote :
    (d : Dispute) (voter : Id32) (decision : DisputeDecision) (now : ℤ)
    → voters (with_vote d voter decision now).votes ≡ voters d.votes ++ voter ∷ []
voters-with_vote d voter decision now = map-append _ d.votes _

with_vote-IsDistinct :
    (d : Dispute) (voter : Id32) (decision : DisputeDecision) (now : ℤ)
    → IsDistinct (voters d.votes)
    → contains (voters d.votes) voter ≡ false
    → IsDistinct (voters (with_vote d voter decision now).votes)
with_vote-IsDistinct d voter decision now h new =
    rw (voters-with_vote d voter decision now) (IsDistinct-snoc (voters d.votes) voter h new)

no_resolution :
    (t : ℕ) (d : Dispute) → IsSound t d → takes_votes d.state ≡ true → d.resolution ≡ none
no_resolution t d h v = ground arith

counted-IsSound :
    (t : ℕ) (d : Dispute) (voter : Id32) (decision : DisputeDecision) (now : ℤ)
    → IsSound t d
    → takes_votes d.state ≡ true
    → contains (voters d.votes) voter ≡ false
    → leb t (length (with_vote d voter decision now).votes) ≡ false
    → IsSound t (with_vote d voter decision now)
counted-IsSound t d voter decision now h v new few =
    (with_vote-IsDistinct d voter decision now h.0 new, (ground arith, no_resolution t d h v))

resolved-IsSound :
    (t : ℕ) (d : Dispute) (voter : Id32) (decision : DisputeDecision) (now : ℤ)
    → IsSound t d
    → contains (voters d.votes) voter ≡ false
    → leb t (length (with_vote d voter decision now).votes) ≡ true
    → IsSound t (resolved_dispute (with_vote d voter decision now) now)
resolved-IsSound t d voter decision now h new enough =
    (with_vote-IsDistinct d voter decision now h.0 new, (ground arith, refl))

evidence-IsSound :
    (t : ℕ) (d : Dispute) (evidence_hash : Hash)
    → takes_evidence d.state ≡ true
    → IsSound t d
    → IsSound t (with_evidence d evidence_hash)
evidence-IsSound t d evidence_hash early h = ground arith

-- Every version of a dispute that is stored is sound.
pub IsSound-IsKept : (t : ℕ) (s : Store) → IsKept (IsSound t) t s
IsSound-IsKept t s = record {
  fresh = λ dispute_id escrow_id raised_by reason evidence_hash now. (tt, (refl, refl));
  evidenced = λ d evidence_hash early h. evidence-IsSound t d evidence_hash early h;
  counted = λ d p voter decision now registered able few h.
      counted-IsSound t d voter decision now h (ground arith) (ground arith) few;
  decided = λ d p voter decision now registered able enough h.
      resolved-IsSound t d voter decision now h (ground arith) enough;
}

-- ===== src/Machine/Dispute/Tally.antt =====
-- The tally of `vote` in crates/rc-state/src/modules/dispute.rs against a plain count of votes.
use routinechain.Base.{
  ℕ, ◌+◌, ◌^◌, ◌≡◌, ◌<◌, List, [], ◌∷◌, ◌==◌, if◌then◌else◌, ltb, arith, length,
}
use routinechain.Types.State.{DisputeVote}
use routinechain.Machine.Dispute.{tally, decide}

-- How many votes carry a decision code.
abbrev pub count : ℕ → List DisputeVote → ℕ
count k [] = 0
count k (v ∷ votes) = (if v.decision == k then 1 else 0) + count k votes

-- The counters never wrap while the votes are fewer than 2^32, and a vote to split raises both.
tally_lem :
    (b s : ℕ) (votes : List DisputeVote)
    → b + length votes < 2 ^ 32
    → s + length votes < 2 ^ 32
    → tally (b, s) votes
      ≡ (b + (count 0 votes + count 2 votes), s + (count 1 votes + count 2 votes))
unfolding tally
tally_lem b s [] h k = ground arith
tally_lem b s (v ∷ votes) h k = ground (
  arith,
  tally_lem b s votes,
  tally_lem (b + 1) s votes,
  tally_lem b (s + 1) votes,
  tally_lem (b + 1) (s + 1) votes,
)

-- A dispute is decided by the votes for the buyer (code 0) against those for the seller (code 1):
-- the larger number wins, equal numbers split, and votes to split (code 2) make no difference.
decide_majority :
    (votes : List DisputeVote)
    → length votes < 2 ^ 32
    → decide votes ≡ (
        if ltb (count 1 votes) (count 0 votes)
        then 0
        else if ltb (count 0 votes) (count 1 votes)
        then 1
        else 2)
unfolding decide
decide_majority votes h = rw (tally_lem 0 0 votes (omega arith) (omega arith)) (ground arith)

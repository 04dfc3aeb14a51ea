-- ===== src/Machine/Dispute.antt =====
-- crates/rc-state/src/modules/dispute.rs: raising a dispute, evidence, and the arbiters' votes.
pub mod Cases
pub mod Tally
pub mod Induction
pub mod Votes
pub mod Raise
use routinechain.Base.{
  ℕ, ℤ, Bool, true, false, not, ◌&&◌, none, some, List, [], ◌∷◌, ◌++◌, ltb, leb, ◌==◌,
  if◌then◌else◌, add_u32, saturating_add, saturating_sub, length, map, contains,
}
use routinechain.Types.Bytes.{Id32, Hash}
use routinechain.Types.Transaction.{
  DisputeReason, reason_code, DisputeDecision, decision_code, ParticipantType, type_code,
}
use routinechain.Types.State.{
  Participant, EscrowState, DisputeState, raised, evidence, voting, resolved, DisputeVote, Dispute,
  Event,
}
use routinechain.Store.{
  get_participant, set_participant, get_escrow, set_escrow, get_dispute, set_dispute,
}
use routinechain.Machine.Action.{
  Action, escrow_not_found, not_party, escrow_settled, dispute_not_found, not_in_evidence_phase,
  voter_not_registered, not_arbiter, not_in_voting_phase, already_voted, pure, gets, ok_or, modify,
  fail_if, ◌>>=◌, ◌>>◌,
}
use routinechain.Machine.Settlement.{reward}

-- `if let Some(mut p) = store.get_participant(id)? { change p; store.set_participant(id, &p)? }`
unfoldable pub adjust : Id32 → (Participant → Participant) → Action (Unit {0})
adjust id change = do
  found ← gets (get_participant id)
  elim found [ none ↦ pure tt | some p ↦ modify (set_participant id (change p)) ]

-- `state == Released || state == Refunded`
abbrev pub is_settled : EscrowState → Bool
is_settled EscrowState.released = true
is_settled EscrowState.refunded = true
is_settled _ = false

abbrev pub new_dispute : Id32 → Id32 → Id32 → DisputeReason → Hash → ℤ → Dispute
new_dispute dispute_id escrow_id raised_by reason evidence_hash timestamp = record {
  id = dispute_id;
  escrow_id = escrow_id;
  raised_by = raised_by;
  reason = reason_code reason;
  evidence_hashes = evidence_hash ∷ [];
  votes = [];
  state = raised;
  resolution = none;
  raised_at = timestamp;
  resolved_at = none;
}

abbrev pub accused : Participant → Participant
accused p = record p { dispute_count = saturating_add p.dispute_count 1 }

unfoldable pub raise : Id32 → Id32 → Id32 → DisputeReason → Hash → ℤ → Action (List Event)
unfolding adjust
raise dispute_id escrow_id raised_by reason evidence_hash timestamp = do
  found ← gets (get_escrow escrow_id)
  escrow ← ok_or found escrow_not_found
  fail_if (not (raised_by == escrow.buyer) && not (raised_by == escrow.seller)) not_party
  fail_if (is_settled escrow.state) escrow_settled
  modify (
      set_escrow escrow_id
        (record escrow { state = EscrowState.disputed; dispute_id = some dispute_id }))
  modify (
      set_dispute dispute_id
        (new_dispute dispute_id escrow_id raised_by reason evidence_hash timestamp))
  adjust (if raised_by == escrow.buyer then escrow.seller else escrow.buyer) accused
  pure (Event.dispute_raised dispute_id escrow_id ∷ [])

-- `state == Raised || state == Evidence`
abbrev pub takes_evidence : DisputeState → Bool
takes_evidence raised = true
takes_evidence evidence = true
takes_evidence _ = false

unfoldable pub submit_evidence : Id32 → Id32 → Hash → Action (List Event)
submit_evidence sender dispute_id evidence_hash = do
  found ← gets (get_dispute dispute_id)
  dispute ← ok_or found dispute_not_found
  escrow_found ← gets (get_escrow dispute.escrow_id)
  escrow ← ok_or escrow_found escrow_not_found
  fail_if (not (sender == escrow.buyer) && not (sender == escrow.seller)) not_party
  fail_if (not (takes_evidence dispute.state)) not_in_evidence_phase
  modify (
      set_dispute dispute_id (record dispute {
        state = evidence;
        evidence_hashes = dispute.evidence_hashes ++ evidence_hash ∷ [];
      }))
  pure []

-- One round of the tally: the two u32 counters after a vote.
abbrev pub count_vote : ℕ × ℕ → DisputeVote → ℕ × ℕ
count_vote (buyer, seller) v =
    if v.decision == 0
    then (add_u32 buyer 1, seller)
    else if v.decision == 1
    then (buyer, add_u32 seller 1)
    else if v.decision == 2
    then (add_u32 buyer 1, add_u32 seller 1)
    else (buyer, seller)

unfoldable pub tally : ℕ × ℕ → List DisputeVote → ℕ × ℕ
tally counts [] = counts
tally counts (v ∷ votes) = tally (count_vote counts v) votes

unfoldable pub decide : List DisputeVote → ℕ
unfolding tally
decide votes =
    let (favor_buyer, favor_seller) = tally (0, 0) votes in
    if ltb favor_seller favor_buyer then 0 else if ltb favor_buyer favor_seller then 1 else 2

abbrev pub won : Id32 → Id32 → Participant → Participant
won winner raised_by p = record p {
  dispute_won = saturating_add p.dispute_won 1;
  dispute_count =
      if not (raised_by == winner) then saturating_sub p.dispute_count 1 else p.dispute_count;
}

abbrev pub lost : Id32 → Id32 → Participant → Participant
lost loser raised_by p = record p {
  dispute_count = saturating_add p.dispute_count (if raised_by == loser then 2 else 1);
}

-- the statistics and the reward, `if resolution != 2`
unfoldable pub settle_parties : Id32 → Id32 → Id32 → ℕ → Action (List Event)
unfolding adjust reward
settle_parties winner loser raised_by dispute_won_reward = do
  adjust winner (won winner raised_by)
  adjust loser (lost loser raised_by)
  reward winner dispute_won_reward "dispute_won" []

-- the branch of `vote` that is taken when enough votes are in
unfoldable pub resolve : Id32 → Dispute → ℤ → ℕ → Action (List Event)
resolve dispute_id dispute timestamp dispute_won_reward = do
  let resolution = decide dispute.votes
  found ← gets (get_escrow dispute.escrow_id)
  escrow ← ok_or found escrow_not_found
  events ←
      (if resolution == 2
        then pure []
        else settle_parties (if resolution == 0 then escrow.buyer else escrow.seller)
            (if resolution == 0 then escrow.seller else escrow.buyer) dispute.raised_by
            dispute_won_reward)
  modify (
      set_dispute dispute_id (record dispute {
        state = resolved;
        resolution = some resolution;
        resolved_at = some timestamp;
      }))
  pure (events ++ Event.dispute_resolved dispute_id resolution ∷ [])

-- `state == Voting` once `Raised` and `Evidence` have moved to `Voting`
abbrev pub takes_votes : DisputeState → Bool
takes_votes resolved = false
takes_votes _ = true

abbrev pub voters : List DisputeVote → List Id32
voters = map (λ v. v.voter)

-- the dispute with one more vote
abbrev pub with_vote : Dispute → Id32 → DisputeDecision → ℤ → Dispute
with_vote dispute voter decision timestamp = record dispute {
  state = voting;
  votes =
      dispute.votes
      ++ record { voter = voter; decision = decision_code decision; voted_at = timestamp } ∷ [];
}

-- the part of `vote` after its guards
unfoldable pub cast : Id32 → Dispute → ℤ → ℕ → ℕ → Action (List Event)
cast dispute_id updated timestamp dispute_won_reward vote_threshold =
    if leb vote_threshold (length updated.votes)
    then resolve dispute_id updated timestamp dispute_won_reward
    else (do modify (set_dispute dispute_id updated); pure [])

unfoldable pub vote : Id32 → Id32 → DisputeDecision → ℤ → ℕ → ℕ → Action (List Event)
vote dispute_id voter decision timestamp dispute_won_reward vote_threshold = do
  found ← gets (get_dispute dispute_id)
  dispute ← ok_or found dispute_not_found
  voter_found ← gets (get_participant voter)
  voter_participant ← ok_or voter_found voter_not_registered
  fail_if (not (voter_participant.p_type == type_code ParticipantType.arbiter)) not_arbiter
  fail_if (not (takes_votes dispute.state)) not_in_voting_phase
  fail_if (contains (voters dispute.votes) voter) already_voted
  cast dispute_id (with_vote dispute voter decision timestamp) timestamp dispute_won_reward
      vote_threshold

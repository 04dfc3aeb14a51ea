-- ===== src/Machine/Settlement.antt =====
-- crates/rc-state/src/modules/settlement.rs: settlements and ratings, each with a reward.
use routinechain.Base.{
  ℕ, ℤ, Bool, not, ◌&&◌, List, [], ◌∷◌, ◌++◌, ltb, leb, ◌==◌, if◌then◌else◌, add_u64,
  saturating_add, String,
}
use routinechain.Types.Bytes.{Id32}
use routinechain.Types.Transaction.{SettlementData}
use routinechain.Types.State.{Participant, SettlementRecord, Event}
use routinechain.Types.Score.{compute_trust_score}
use routinechain.Store.{get_participant, set_participant, set_settlement}
use routinechain.Machine.Action.{
  Action, sender_not_participant, participant_not_found, pure, gets, ok_or, modify, fail_if, ◌>>=◌,
  ◌>>◌,
}
use routinechain.Machine.Token.{mint}

-- `if reward_amount > 0 { events.extend(mint(..)?) }`
unfoldable pub reward : Id32 → ℕ → String → List Event → Action (List Event)
unfolding mint
reward to amount reason events =
    if ltb 0 amount
    then (do minted ← mint to amount reason; pure (events ++ minted))
    else pure events

abbrev pub settlement_of : Id32 → SettlementData → ℤ → SettlementRecord
settlement_of participant_id d timestamp = record {
  record_id = d.record_id;
  participant_id = participant_id;
  gross_amount = d.gross_amount;
  platform_fee = d.platform_fee;
  net_amount = d.net_amount;
  currency = d.currency;
  settled_at = d.settled_at;
  recorded_at = timestamp;
}

-- the statistics after a settlement
abbrev pub settled : Participant → SettlementData → ℤ → Participant
settled p d timestamp = record p {
  total_tx = saturating_add p.total_tx 1;
  success_tx = saturating_add p.success_tx 1;
  total_volume = saturating_add p.total_volume d.gross_amount;
  total_settled = saturating_add p.total_settled d.net_amount;
  last_activity_at = timestamp;
}

-- `settlement::record`
unfoldable pub record_settlement : Id32 → Id32 → SettlementData → ℤ → ℕ → Action (List Event)
unfolding reward
record_settlement sender participant_id d timestamp reward_amount = do
  fail_if (not (sender == participant_id)) sender_not_participant
  found ← gets (get_participant participant_id)
  p ← ok_or found participant_not_found
  modify (set_settlement d.record_id (settlement_of participant_id d timestamp))
  modify (set_participant participant_id (settled p d timestamp))
  reward participant_id reward_amount "settlement_reward"
      (Event.settlement_recorded participant_id d.record_id ∷ [])

-- the statistics after a rating; the sums are plain `+=` on u64
abbrev pub rated : Participant → ℕ → Bool → ℤ → Participant
rated p rating success timestamp =
    let counts = ltb 0 rating && leb rating 500 in
    record p {
      rating_sum = if counts then add_u64 p.rating_sum rating else p.rating_sum;
      rating_count = if counts then add_u64 p.rating_count 1 else p.rating_count;
      total_tx = if not success then add_u64 p.total_tx 1 else p.total_tx;
      last_activity_at = timestamp;
    }

unfoldable pub record_rating : Id32 → ℕ → Bool → ℤ → ℕ → Action (List Event)
unfolding reward
record_rating participant_id rating success timestamp reward_amount = do
  found ← gets (get_participant participant_id)
  p ← ok_or found participant_not_found
  modify (set_participant participant_id (rated p rating success timestamp))
  reward participant_id reward_amount "rating_reward" (
      Event.rating_recorded participant_id (compute_trust_score (rated p rating success timestamp))
      ∷ [])

-- ===== src/Machine/Participant.antt =====
-- crates/rc-state/src/modules/participant.rs: registration, metadata, deactivation.
use routinechain.Base.{ℤ, String, Bool, true, false, not, Option, none, some, List, [], ◌∷◌, ◌==◌}
use routinechain.Types.Bytes.{Id32}
use routinechain.Types.Transaction.{ParticipantType, type_code}
use routinechain.Types.State.{Participant, Event}
use routinechain.Store.{get_participant, set_participant}
use routinechain.Machine.Action.{
  Action, sender_not_participant, participant_exists, participant_not_found, pure, gets, ok_or,
  modify, fail_if, ◌>>=◌, ◌>>◌,
}

abbrev pub is_some {ℓ} : {A : Type ℓ} → Option A → Bool
is_some none = false
is_some (some _) = true

-- the participant that `register` stores
abbrev pub new_participant : Id32 → ParticipantType → String → ℤ → Participant
new_participant id p_type metadata timestamp = record {
  id = id;
  p_type = type_code p_type;
  metadata = metadata;
  total_tx = 0;
  success_tx = 0;
  dispute_count = 0;
  dispute_won = 0;
  rating_sum = 0;
  rating_count = 0;
  total_volume = 0;
  total_settled = 0;
  registered_at = timestamp;
  last_activity_at = timestamp;
  is_active = true;
}

unfoldable pub register : Id32 → Id32 → ParticipantType → String → ℤ → Action (List Event)
register sender id p_type metadata timestamp = do
  fail_if (not (sender == id)) sender_not_participant
  found ← gets (get_participant id)
  fail_if (is_some found) participant_exists
  modify (set_participant id (new_participant id p_type metadata timestamp))
  pure (Event.participant_registered id (type_code p_type) ∷ [])

unfoldable pub update : Id32 → Id32 → String → ℤ → Action (List Event)
update sender id metadata timestamp = do
  fail_if (not (sender == id)) sender_not_participant
  found ← gets (get_participant id)
  p ← ok_or found participant_not_found
  modify (set_participant id (record p { metadata = metadata; last_activity_at = timestamp }))
  pure (Event.participant_updated id ∷ [])

unfoldable pub deactivate : Id32 → Id32 → Action (List Event)
deactivate sender id = do
  fail_if (not (sender == id)) sender_not_participant
  found ← gets (get_participant id)
  p ← ok_or found participant_not_found
  modify (set_participant id (record p { is_active = false }))
  pure (Event.participant_deactivated id ∷ [])

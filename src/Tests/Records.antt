-- ===== src/Tests/Records.antt =====
-- Single records and single handlers.
use routinechain.Base.{◌≡◌, ◌≢◌, refl, arith, pos, ◌≤◌}
use routinechain.Types.Transaction.{ParticipantType}
use routinechain.Types.Score.{full_score, compute_trust_score}
use routinechain.Types.Score.Bounds.{trust_score_range, five_stars_overflow}
use routinechain.Types.Bytes.{Id32}
use routinechain.Types.State.{Participant}
use routinechain.Machine.Participant.{new_participant}
use routinechain.Machine.Escrow.{bought, sold}
use routinechain.Tests.World.{veteran}

five_stars_overflow_example :
    (200000 ≤ full_score (veteran 500 1))
    × (compute_trust_score (veteran 500 1) ≢ full_score (veteran 500 1))
five_stars_overflow_example = five_stars_overflow (veteran 500 1) (omega arith) (omega arith) refl

trust_score_range_example :
    (compute_trust_score (veteran 4 1) ≤ 10000)
    × (compute_trust_score (veteran 4 1) ≡ full_score (veteran 4 1))
trust_score_range_example = trust_score_range (veteran 4 1) (omega arith) (omega arith)

abbrev party : Id32 → Participant
party id = new_participant id ParticipantType.buyer "" (pos 0)

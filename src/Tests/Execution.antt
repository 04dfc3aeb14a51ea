-- ===== src/Tests/Execution.antt =====
-- Runs of transactions.
use routinechain.Base.{◌≡◌, refl, ap, arith, [], ◌∷◌, ◌++◌, pos, some, true, ◌≤◌, ◌+◌, IsDistinct}
use routinechain.Types.Transaction.{ParticipantType}
use routinechain.Types.State.{Escrow, disputed, rcw_transferred}
use routinechain.Store.{empty, set_nonce}
use routinechain.Machine.Action.{err, nonce_too_low}
use routinechain.Machine.Execute.{check_and_update_nonce, dispatch, execute, run}
use routinechain.Machine.Execute.Atomic.{failure_atomic}
use routinechain.Machine.Execute.Ledger.{events_account}
use routinechain.Machine.Execute.Escrows.{run-Continues, disputed_final}
use routinechain.Machine.Execute.Nonce.{replay_refused}
use routinechain.Machine.Execute.Disputes.{disputes_sound}
use routinechain.Machine.Execute.Statistics.{run_statistics}
use routinechain.Machine.Apply.{state_root_mismatch, apply_block}
use routinechain.Machine.Apply.Blocks.{verified, block_refused}
use routinechain.Machine.Token.Accounts.{holding}
use routinechain.Machine.Escrow.Lifecycle.{Continues}
use routinechain.Machine.Settlement.{rated}
use routinechain.Machine.Participant.{new_participant}
use routinechain.Machine.Dispute.{voters}
use routinechain.Machine.Dispute.Votes.{InPhase}
use routinechain.Machine.Token
use routinechain.Root.{compute_state_root}
use routinechain.Tests.World.{
  cfg, overdraw, opened, judged, raise_it, vote_it, open_escrow, rate_seller, transfer_it,
  fresh_escrow, disputed_escrow, judged_dispute, funded_store, ext, block_of,
}

failure_atomic_example :
    (execute cfg overdraw (pos 5) (run cfg opened empty)).1 ≡ set_nonce 1 9 (run cfg opened empty)
unfolding execute run check_and_update_nonce dispatch Token.transfer
    routinechain.Machine.Participant.register routinechain.Machine.Escrow.create
failure_atomic_example = failure_atomic cfg opened overdraw (pos 5) refl

events_account_example : holding 1 (execute cfg transfer_it (pos 5) funded_store).1 + 40 ≡ 80
unfolding execute check_and_update_nonce dispatch Token.transfer
events_account_example =
    events_account 1 cfg transfer_it (pos 5) funded_store (rcw_transferred 1 2 40 ∷ []) refl
      (omega arith)

run-Continues_example :
    Continues
      (some fresh_escrow)
      ((run cfg ((raise_it, pos 3) ∷ (vote_it, pos 4) ∷ []) (run cfg opened empty)).escrows 10)
unfolding run execute check_and_update_nonce dispatch routinechain.Machine.Participant.register
    routinechain.Machine.Escrow.create
run-Continues_example =
    run-Continues cfg ((raise_it, pos 3) ∷ (vote_it, pos 4) ∷ []) (run cfg opened empty) 10

disputed_final_example :
    (e' : Escrow) × ((run cfg
          ((vote_it, pos 4) ∷ [])
          (run cfg (opened ++ (raise_it, pos 3) ∷ []) empty)).escrows
        10
      ≡ some e')
    × (e'.state ≡ disputed)
unfolding run execute check_and_update_nonce dispatch routinechain.Machine.Participant.register
    routinechain.Machine.Escrow.create routinechain.Machine.Dispute.raise
disputed_final_example =
    disputed_final cfg ((vote_it, pos 4) ∷ []) (run cfg (opened ++ (raise_it, pos 3) ∷ []) empty) 10
      disputed_escrow refl refl

replay_refused_example :
    (execute cfg open_escrow
      (pos 9)
      (run cfg ((raise_it, pos 3) ∷ []) (execute cfg open_escrow (pos 2) empty).1)).0
    ≡ err (nonce_too_low 2 3)
unfolding run execute check_and_update_nonce dispatch routinechain.Machine.Escrow.create
    routinechain.Machine.Dispute.raise
replay_refused_example =
    ap (λ r. r.0) (replay_refused cfg open_escrow (pos 2) (pos 9) ((raise_it, pos 3) ∷ []) empty)

disputes_sound_example :
    IsDistinct (voters judged_dispute.votes)
    × InPhase 1 judged_dispute.state judged_dispute.votes judged_dispute.resolution
unfolding run execute check_and_update_nonce dispatch routinechain.Machine.Participant.register
    routinechain.Machine.Escrow.create routinechain.Machine.Dispute.raise
    routinechain.Machine.Dispute.vote routinechain.Machine.Dispute.cast
    routinechain.Machine.Dispute.resolve routinechain.Machine.Dispute.decide
    routinechain.Machine.Dispute.settle_parties
disputes_sound_example = disputes_sound cfg judged 20 judged_dispute refl

run_statistics_example : (0 ≤ 0) × (500 ≤ 500) × (0 ≤ 10) × (1 ≤ 5)
unfolding run execute check_and_update_nonce dispatch routinechain.Machine.Participant.register
    routinechain.Machine.Escrow.create routinechain.Machine.Settlement.record_rating
run_statistics_example =
    run_statistics 2 cfg (opened ++ (rate_seller, pos 4) ∷ [])
      (rated (new_participant 2 ParticipantType.seller "s" (pos 1)) 500 true (pos 4)) (omega arith)
      refl

block_refused_example : apply_block ext cfg (block_of 1 99) empty ≡ (
  state_root_mismatch 1 99 3,
  (run cfg (verified ext (block_of 1 99).transactions (pos 6)) empty),
)
unfolding compute_state_root
block_refused_example = block_refused ext cfg (block_of 1 99) empty (ground arith)

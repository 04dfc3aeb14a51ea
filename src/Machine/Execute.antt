-- ===== src/Machine/Execute.antt =====
-- `StateMachine::execute` of crates/rc-state/src/lib.rs: the replay check, and the dispatch of a
-- transaction to its handler.
pub mod Nonce
pub mod Escrows
pub mod Ledger
pub mod Participants
pub mod Disputes
pub mod Arbiters
pub mod Parties
pub mod Atomic
pub mod Anchors
pub mod Statistics
pub mod Chain
use routinechain.Base.{ℕ, ℤ, not, List, [], ◌∷◌, leb, contains}
use routinechain.Types.Bytes.{Id32, Hash}
use routinechain.Types.Transaction.{
  TxPayload, register_participant, update_participant, deactivate_participant, record_settlement,
  record_rating, create_escrow, release_escrow, refund_escrow, raise_dispute, submit_evidence,
  vote_dispute, transfer_rcw, spend_rcw, anchor_merkle_root, Transaction,
}
use routinechain.Types.State.{Event}
use routinechain.Types.Config.{RewardConfig}
use routinechain.Store.{Store, get_nonce, set_nonce, get_anchor, set_anchor}
use routinechain.Machine.Action.{
  Action, nonce_too_low, not_platform, anchor_exists, pure, gets, modify, fail_if, ◌>>=◌, ◌>>◌,
}
use routinechain.Machine.Token
use routinechain.Machine.Participant
use routinechain.Machine.Participant.{is_some}
use routinechain.Machine.Settlement
use routinechain.Machine.Escrow
use routinechain.Machine.Dispute

-- the fields of `StateMachine` other than the store
pub record Settings : Type 0 where
  pub reward_config : RewardConfig
  pub dispute_vote_threshold : ℕ
  pub platform_keys : List Id32

-- `StateMachine::new`
abbrev pub new_settings : RewardConfig → Settings
new_settings rewards = record {
  reward_config = rewards;
  dispute_vote_threshold = 3;
  platform_keys = [];
}

-- `with_dispute_threshold`
abbrev pub with_dispute_threshold : Settings → ℕ → Settings
with_dispute_threshold cfg threshold = record cfg { dispute_vote_threshold = threshold }

-- `with_platform_keys`
abbrev pub with_platform_keys : Settings → List Id32 → Settings
with_platform_keys cfg keys = record cfg { platform_keys = keys }

unfoldable pub check_and_update_nonce : Transaction → Action (Unit {0})
check_and_update_nonce tx = do
  current_nonce ← gets (get_nonce tx.sender)
  fail_if (leb tx.nonce current_nonce) (nonce_too_low tx.nonce current_nonce)
  modify (set_nonce tx.sender tx.nonce)

-- the arm of `execute` for `AnchorMerkleRoot`
unfoldable pub anchor : Settings → Id32 → Id32 → Hash → ℕ → ℕ → ℕ → ℤ → Action (List Event)
anchor cfg sender batch_id merkle_root entry_count from_entry_id to_entry_id timestamp = do
  fail_if (not (contains cfg.platform_keys sender)) not_platform
  found ← gets (get_anchor batch_id)
  fail_if (is_some found) anchor_exists
  modify (
      set_anchor batch_id (record {
        batch_id = batch_id;
        merkle_root = merkle_root;
        entry_count = entry_count;
        from_entry_id = from_entry_id;
        to_entry_id = to_entry_id;
        anchored_at = timestamp;
      }))
  pure (Event.anchor_recorded batch_id merkle_root entry_count ∷ [])

-- the `match &tx.payload`
unfoldable pub dispatch : Settings → Id32 → TxPayload → ℤ → Action (List Event)
dispatch cfg sender (register_participant id p_type metadata) now =
    Participant.register sender id p_type metadata now
dispatch cfg sender (update_participant id metadata) now = Participant.update sender id metadata now
dispatch cfg sender (deactivate_participant id) now = Participant.deactivate sender id
dispatch cfg sender (record_settlement participant_id details) now =
    Settlement.record_settlement sender participant_id details now
      cfg.reward_config.settlement_recorded
dispatch cfg sender (record_rating participant_id rating success) now =
    Settlement.record_rating participant_id rating success now cfg.reward_config.rating_submitted
dispatch cfg sender (create_escrow escrow_id buyer seller amount expires_at) now =
    Escrow.create sender escrow_id buyer seller amount expires_at now
dispatch cfg sender (release_escrow escrow_id evidence_hash) now =
    Escrow.release sender escrow_id evidence_hash now cfg.reward_config.escrow_completed
dispatch cfg sender (refund_escrow escrow_id) now = Escrow.refund sender escrow_id now
dispatch cfg sender (raise_dispute dispute_id escrow_id reason evidence_hash) now =
    Dispute.raise dispute_id escrow_id sender reason evidence_hash now
dispatch cfg sender (submit_evidence dispute_id evidence_hash) now =
    Dispute.submit_evidence sender dispute_id evidence_hash
dispatch cfg sender (vote_dispute dispute_id decision) now =
    Dispute.vote dispute_id sender decision now cfg.reward_config.dispute_won
      cfg.dispute_vote_threshold
dispatch cfg sender (transfer_rcw to amount memo) now = Token.transfer sender to amount memo
dispatch cfg sender (spend_rcw amount purpose) now = Token.spend sender amount purpose
dispatch cfg sender (anchor_merkle_root batch_id root count first last) now =
    anchor cfg sender batch_id root count first last now

unfoldable pub execute : Settings → Transaction → ℤ → Action (List Event)
execute cfg tx now = do check_and_update_nonce tx; dispatch cfg tx.sender tx.payload now

-- a run of transactions at their block times, failed ones included
unfoldable pub run : Settings → List (Transaction × ℤ) → Store → Store
run cfg [] s = s
run cfg ((tx, now) ∷ txs) s = run cfg txs (execute cfg tx now s).1

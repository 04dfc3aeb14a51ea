-- ===== src/Types/State.antt =====
-- crates/rc-types/src/state.rs: what the chain stores, and the events it reports.
use routinechain.Base.{ℕ, ℤ, String, Bool, Option, List, add_u64}
use routinechain.Types.Bytes.{Id32, Hash}

pub record Participant : Type 0 where
  pub id : Id32
  pub p_type : ℕ
  pub metadata : String
  pub total_tx : ℕ
  pub success_tx : ℕ
  pub dispute_count : ℕ
  pub dispute_won : ℕ
  pub rating_sum : ℕ
  pub rating_count : ℕ
  pub total_volume : ℕ
  pub total_settled : ℕ
  pub registered_at : ℤ
  pub last_activity_at : ℤ
  pub is_active : Bool

pub record RcwBalance : Type 0 where
  pub owner : Id32
  pub earned : ℕ
  pub purchased : ℕ

-- `RCWBalance::total`, a plain `+` on u64
abbrev pub total : RcwBalance → ℕ
total b = add_u64 b.earned b.purchased

pub data EscrowState : Type 0 where
  created funded released refunded disputed : EscrowState

pub record Escrow : Type 0 where
  pub id : Id32
  pub buyer : Id32
  pub seller : Id32
  pub amount : ℕ
  pub state : EscrowState
  pub created_at : ℤ
  pub expires_at : ℤ
  pub evidence_hash : Option Hash
  pub dispute_id : Option Id32

pub data DisputeState : Type 0 where
  raised evidence voting resolved : DisputeState

pub record DisputeVote : Type 0 where
  pub voter : Id32
  pub decision : ℕ
  pub voted_at : ℤ

pub record Dispute : Type 0 where
  pub id : Id32
  pub escrow_id : Id32
  pub raised_by : Id32
  pub reason : ℕ
  pub evidence_hashes : List Hash
  pub votes : List DisputeVote
  pub state : DisputeState
  pub resolution : Option ℕ
  pub raised_at : ℤ
  pub resolved_at : Option ℤ

pub record SettlementRecord : Type 0 where
  pub record_id : Id32
  pub participant_id : Id32
  pub gross_amount : ℕ
  pub platform_fee : ℕ
  pub net_amount : ℕ
  pub currency : ℕ
  pub settled_at : ℤ
  pub recorded_at : ℤ

pub record AnchorRecord : Type 0 where
  pub batch_id : Id32
  pub merkle_root : Hash
  pub entry_count : ℕ
  pub from_entry_id : ℕ
  pub to_entry_id : ℕ
  pub anchored_at : ℤ

-- The fields of each variant stand in the source's order.
pub data Event : Type 0 where
  participant_registered : (id : Id32) (p_type : ℕ) → Event
  participant_updated participant_deactivated : (id : Id32) → Event
  settlement_recorded : (participant_id record_id : Id32) → Event
  rating_recorded : (participant_id : Id32) (new_score : ℕ) → Event
  escrow_created : (escrow_id buyer seller : Id32) (amount : ℕ) → Event
  escrow_released escrow_refunded : (escrow_id : Id32) → Event
  dispute_raised : (dispute_id escrow_id : Id32) → Event
  dispute_resolved : (dispute_id : Id32) (decision : ℕ) → Event
  rcw_minted : (to : Id32) (amount : ℕ) (reason : String) → Event
  rcw_transferred : (from to : Id32) (amount : ℕ) → Event
  rcw_spent : (from : Id32) (amount : ℕ) (purpose : String) → Event
  anchor_recorded : (batch_id : Id32) (merkle_root : Hash) (entry_count : ℕ) → Event

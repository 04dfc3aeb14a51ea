-- ===== src/Types/Transaction.antt =====
-- crates/rc-types/src/transaction.rs: signed transactions and their payloads.
use routinechain.Base.{ℕ, ℤ, String, Bool}
use routinechain.Types.Bytes.{Id32, Hash, Signature}

pub data ParticipantType : Type 0 where
  seller buyer author content_work franchisee investor host influencer brand agency :
      ParticipantType
  service_provider buyer_agent seller_agent matching_agent arbiter : ParticipantType

-- `p_type as u8`, the discriminants of the enum
abbrev pub type_code : ParticipantType → ℕ
type_code ParticipantType.seller = 1
type_code ParticipantType.buyer = 2
type_code ParticipantType.author = 10
type_code ParticipantType.content_work = 11
type_code ParticipantType.franchisee = 20
type_code ParticipantType.investor = 21
type_code ParticipantType.host = 22
type_code ParticipantType.influencer = 30
type_code ParticipantType.brand = 31
type_code ParticipantType.agency = 32
type_code ParticipantType.service_provider = 40
type_code ParticipantType.buyer_agent = 50
type_code ParticipantType.seller_agent = 51
type_code ParticipantType.matching_agent = 52
type_code ParticipantType.arbiter = 54

pub record SettlementData : Type 0 where
  pub record_id : Id32
  pub gross_amount : ℕ
  pub platform_fee : ℕ
  pub net_amount : ℕ
  pub currency : ℕ
  pub settled_at : ℤ

pub data DisputeReason : Type 0 where
  not_delivered damaged not_as_described unauthorized other : DisputeReason

-- `reason as u8`
abbrev pub reason_code : DisputeReason → ℕ
reason_code DisputeReason.not_delivered = 0
reason_code DisputeReason.damaged = 1
reason_code DisputeReason.not_as_described = 2
reason_code DisputeReason.unauthorized = 3
reason_code DisputeReason.other = 99

pub data DisputeDecision : Type 0 where
  favor_buyer favor_seller split : DisputeDecision

-- `decision as u8`
abbrev pub decision_code : DisputeDecision → ℕ
decision_code DisputeDecision.favor_buyer = 0
decision_code DisputeDecision.favor_seller = 1
decision_code DisputeDecision.split = 2

-- The fields of each variant stand in the source's order.
pub data TxPayload : Type 0 where
  register_participant : (id : Id32) (p_type : ParticipantType) (metadata : String) → TxPayload
  update_participant : (id : Id32) (metadata : String) → TxPayload
  deactivate_participant : (id : Id32) → TxPayload
  record_settlement : (participant_id : Id32) (details : SettlementData) → TxPayload
  record_rating : (participant_id : Id32) (rating : ℕ) (success : Bool) → TxPayload
  create_escrow : (escrow_id buyer seller : Id32) (amount : ℕ) (expires_at : ℤ) → TxPayload
  release_escrow : (escrow_id : Id32) (evidence_hash : Hash) → TxPayload
  refund_escrow : (escrow_id : Id32) → TxPayload
  raise_dispute :
      (dispute_id escrow_id : Id32) (reason : DisputeReason) (evidence_hash : Hash) → TxPayload
  submit_evidence : (dispute_id : Id32) (evidence_hash : Hash) → TxPayload
  vote_dispute : (dispute_id : Id32) (decision : DisputeDecision) → TxPayload
  transfer_rcw : (to : Id32) (amount : ℕ) (memo : String) → TxPayload
  spend_rcw : (amount : ℕ) (purpose : String) → TxPayload
  anchor_merkle_root :
      (batch_id : Id32) (merkle_root : Hash) (entry_count from_entry_id to_entry_id : ℕ) → TxPayload

pub record Transaction : Type 0 where
  pub payload : TxPayload
  pub sender : Id32
  pub signature : Signature
  pub timestamp : ℤ
  pub nonce : ℕ

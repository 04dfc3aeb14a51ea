-- ===== src/Store.antt =====
-- crates/rc-store/src/lib.rs: the store by its contents. The key prefixes keep the kinds of record
-- apart, so each kind is a map of its own here (a column); the bytes under them, the database's own
-- failures and `compute_state_root` are not in this view.
pub mod Disk
use routinechain.Base.{ℕ, Option, none, some, update}
use routinechain.Types.Bytes.{Id32}
use routinechain.Types.State.{
  Participant, RcwBalance, Escrow, Dispute, SettlementRecord, AnchorRecord,
}
use routinechain.Types.Block.{Block}

pub record Store : Type 0 where
  pub blocks : ℕ → Option Block
  pub latest_height : Option ℕ
  pub participants : Id32 → Option Participant
  pub settlements : Id32 → Option SettlementRecord
  pub balances : Id32 → Option RcwBalance
  pub escrows : Id32 → Option Escrow
  pub disputes : Id32 → Option Dispute
  pub nonces : Id32 → Option ℕ
  pub anchors : Id32 → Option AnchorRecord

-- a new database
abbrev pub empty : Store
empty = record {
  blocks = λ _. none;
  latest_height = none;
  participants = λ _. none;
  settlements = λ _. none;
  balances = λ _. none;
  escrows = λ _. none;
  disputes = λ _. none;
  nonces = λ _. none;
  anchors = λ _. none;
}

abbrev pub or_zero : Option ℕ → ℕ
or_zero none = 0
or_zero (some n) = n

abbrev pub put_block : Block → Store → Store
put_block b s = record s {
  blocks = update s.blocks b.header.height b;
  latest_height = some b.header.height;
}

abbrev pub get_block : ℕ → Store → Option Block
get_block height s = s.blocks height

abbrev pub get_latest_height : Store → ℕ
get_latest_height s = or_zero s.latest_height

abbrev pub get_participant : Id32 → Store → Option Participant
get_participant id s = s.participants id

abbrev pub set_participant : Id32 → Participant → Store → Store
set_participant id p s = record s { participants = update s.participants id p }

abbrev pub get_settlement : Id32 → Store → Option SettlementRecord
get_settlement id s = s.settlements id

abbrev pub set_settlement : Id32 → SettlementRecord → Store → Store
set_settlement id r s = record s { settlements = update s.settlements id r }

-- an owner that has no entry has the default balance
abbrev pub balance_or_default : Id32 → Option RcwBalance → RcwBalance
balance_or_default owner none = record { owner = owner; earned = 0; purchased = 0 }
balance_or_default owner (some b) = b

abbrev pub get_balance : Id32 → Store → RcwBalance
get_balance owner s = balance_or_default owner (s.balances owner)

abbrev pub set_balance : Id32 → RcwBalance → Store → Store
set_balance owner b s = record s { balances = update s.balances owner b }

abbrev pub get_escrow : Id32 → Store → Option Escrow
get_escrow id s = s.escrows id

abbrev pub set_escrow : Id32 → Escrow → Store → Store
set_escrow id e s = record s { escrows = update s.escrows id e }

abbrev pub get_nonce : Id32 → Store → ℕ
get_nonce sender s = or_zero (s.nonces sender)

abbrev pub set_nonce : Id32 → ℕ → Store → Store
set_nonce sender n s = record s { nonces = update s.nonces sender n }

abbrev pub get_anchor : Id32 → Store → Option AnchorRecord
get_anchor id s = s.anchors id

abbrev pub set_anchor : Id32 → AnchorRecord → Store → Store
set_anchor id a s = record s { anchors = update s.anchors id a }

abbrev pub get_dispute : Id32 → Store → Option Dispute
get_dispute id s = s.disputes id

abbrev pub set_dispute : Id32 → Dispute → Store → Store
set_dispute id d s = record s { disputes = update s.disputes id d }

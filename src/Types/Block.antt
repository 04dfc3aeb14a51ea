-- ===== src/Types/Block.antt =====
-- crates/rc-types/src/block.rs: blocks, their headers, and the validators' signatures.
use routinechain.Base.{ℕ, ℤ, Bool, List, [], ◌==◌, length}
use routinechain.Types.Bytes.{Id32, Hash, empty_hash, Signature}
use routinechain.Types.Transaction.{Transaction}

pub record BlockHeader : Type 0 where
  pub height : ℕ
  pub prev_hash : Hash
  pub timestamp : ℤ
  pub tx_count : ℕ
  pub tx_hash : Hash
  pub state_root : Hash
  pub proposer : Id32

pub record NodeSignature : Type 0 where
  pub node_id : Id32
  pub signature : Signature

pub record Block : Type 0 where
  pub header : BlockHeader
  pub transactions : List Transaction
  pub signatures : List NodeSignature

-- `Block::genesis`
abbrev pub genesis : ℤ → Id32 → Block
genesis timestamp proposer = record {
  header = record {
    height = 0;
    prev_hash = empty_hash;
    timestamp = timestamp;
    tx_count = 0;
    tx_hash = empty_hash;
    state_root = empty_hash;
    proposer = proposer;
  };
  transactions = [];
  signatures = [];
}

-- `Block::is_genesis`
abbrev pub is_genesis : Block → Bool
is_genesis b = b.header.height == 0

-- `Block::signature_count`
abbrev pub signature_count : Block → ℕ
signature_count b = length b.signatures

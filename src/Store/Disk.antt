-- ===== src/Store/Disk.antt =====
-- crates/rc-store/src/lib.rs as it reads and writes the database: the keys, the encodings, and the
-- failures of both. RocksDB and bincode are parameters.
pub mod Contents
pub mod Writes
pub mod Columns
pub mod Refines
pub mod Batch
use routinechain.Base.{
  ℕ, String, Bool, true, false, Option, none, some, List, [], ◌∷◌, ◌++◌, ◌==◌, if◌then◌else◌,
  length, to_be_bytes, from_be_bytes,
}
use routinechain.Types.Bytes.{Id32}
use routinechain.Types.State.{
  Participant, RcwBalance, Escrow, Dispute, SettlementRecord, AnchorRecord,
}
use routinechain.Types.Block.{Block}
use routinechain.External.{Bytes}
use routinechain.Store.{balance_or_default}
use routinechain.Root.{
  prefix_participant, prefix_settlement, prefix_balance, prefix_escrow, prefix_dispute,
  prefix_nonce, prefix_anchor,
}

-- `Result<_, String>`, the error of the database or of bincode by its text
pub data Io (A : Type 0) : Type 0 where
  done : A → Io A
  failed : String → Io A

infixl 5 ◌>>=◌
abbrev pub ◌>>=◌ : {A B : Type 0} → Io A → (A → Io B) → Io B
done a >>= f = f a
failed e >>= f = failed e

-- The operations of RocksDB that the store calls. `write` takes the puts of a `WriteBatch`.
pub record Database : Type 1 where
  pub Db : Type 0
  pub get : Db → Bytes → Io (Option Bytes)
  pub put : Db → Bytes → Bytes → Io Db
  pub write : Db → List (Bytes × Bytes) → Io Db

-- `bincode::serialize` and `bincode::deserialize` at one type
pub record Codec (A : Type 0) : Type 0 where
  pub serialize : A → Io Bytes
  pub deserialize : Bytes → Io A

-- the types that the store serializes
pub record Codecs : Type 0 where
  pub block : Codec Block
  pub participant : Codec Participant
  pub settlement : Codec SettlementRecord
  pub balance : Codec RcwBalance
  pub escrow : Codec Escrow
  pub dispute : Codec Dispute
  pub anchor : Codec AnchorRecord

abbrev pub prefix_block : Bytes
prefix_block = b'b' ∷ b'l' ∷ b'k' ∷ b'/' ∷ []

-- "meta/latest_height"
abbrev pub key_latest_height : Bytes
key_latest_height =
    b'm' ∷ b'e' ∷ b't' ∷ b'a' ∷ b'/' ∷ b'l' ∷ b'a' ∷ b't' ∷ b'e' ∷ b's' ∷ b't' ∷ b'_' ∷ b'h' ∷ b'e'
    ∷ b'i' ∷ b'g' ∷ b'h' ∷ b't' ∷ []

-- an id as its 32 bytes
abbrev pub id_bytes : Id32 → Bytes
id_bytes id = to_be_bytes 32 id

abbrev pub block_key : ℕ → Bytes
block_key height = prefix_block ++ to_be_bytes 8 height

-- the value of `get` as a typed one
unfoldable pub decoded : {A : Type 0} → Codec A → Option Bytes → Io (Option A)
decoded c none = done none
decoded c (some bytes) = do value ← c.deserialize bytes; done (some value)

-- the value of `get` as a number: any other length than eight bytes reads as 0
unfoldable pub decoded_u64 : Io (Option Bytes) → ℕ
decoded_u64 (done (some bytes)) = if length bytes == 8 then from_be_bytes 0 bytes else 0
decoded_u64 (done none) = 0
decoded_u64 (failed _) = 0

module _ (D : Database) (codecs : Codecs) where
  unfoldable pub get_state : {A : Type 0} → Codec A → Bytes → Bytes → D.Db → Io (Option A)
  get_state c prefix key db = do found ← D.get db (prefix ++ key); decoded c found

  unfoldable pub set_state : {A : Type 0} → Codec A → Bytes → Bytes → A → D.Db → Io D.Db
  set_state c prefix key value db = do bytes ← c.serialize value; D.put db (prefix ++ key) bytes

  unfoldable pub put_block : Block → D.Db → Io D.Db
  put_block b db = do
    bytes ← codecs.block.serialize b
    db' ← D.put db (block_key b.header.height) bytes
    D.put db' key_latest_height (to_be_bytes 8 b.header.height)

  unfoldable pub get_block : ℕ → D.Db → Io (Option Block)
  get_block height db = do found ← D.get db (block_key height); decoded codecs.block found

  unfoldable pub get_latest_height : D.Db → ℕ
  get_latest_height db = decoded_u64 (D.get db key_latest_height)

  unfoldable pub get_participant : Id32 → D.Db → Io (Option Participant)
  get_participant id db = get_state codecs.participant prefix_participant (id_bytes id) db

  unfoldable pub set_participant : Id32 → Participant → D.Db → Io D.Db
  set_participant id p db = set_state codecs.participant prefix_participant (id_bytes id) p db

  unfoldable pub get_settlement : Id32 → D.Db → Io (Option SettlementRecord)
  get_settlement id db = get_state codecs.settlement prefix_settlement (id_bytes id) db

  unfoldable pub set_settlement : Id32 → SettlementRecord → D.Db → Io D.Db
  set_settlement id r db = set_state codecs.settlement prefix_settlement (id_bytes id) r db

  unfoldable pub get_balance : Id32 → D.Db → Io RcwBalance
  get_balance owner db = do
    found ← get_state codecs.balance prefix_balance (id_bytes owner) db
    done (balance_or_default owner found)

  unfoldable pub set_balance : Id32 → RcwBalance → D.Db → Io D.Db
  set_balance owner b db = set_state codecs.balance prefix_balance (id_bytes owner) b db

  unfoldable pub get_escrow : Id32 → D.Db → Io (Option Escrow)
  get_escrow id db = get_state codecs.escrow prefix_escrow (id_bytes id) db

  unfoldable pub set_escrow : Id32 → Escrow → D.Db → Io D.Db
  set_escrow id e db = set_state codecs.escrow prefix_escrow (id_bytes id) e db

  unfoldable pub get_nonce : Id32 → D.Db → ℕ
  get_nonce sender db = decoded_u64 (D.get db (prefix_nonce ++ id_bytes sender))

  unfoldable pub set_nonce : Id32 → ℕ → D.Db → Io D.Db
  set_nonce sender nonce db = D.put db (prefix_nonce ++ id_bytes sender) (to_be_bytes 8 nonce)

  unfoldable pub get_anchor : Id32 → D.Db → Io (Option AnchorRecord)
  get_anchor id db = get_state codecs.anchor prefix_anchor (id_bytes id) db

  unfoldable pub set_anchor : Id32 → AnchorRecord → D.Db → Io D.Db
  set_anchor id a db = set_state codecs.anchor prefix_anchor (id_bytes id) a db

  unfoldable pub get_dispute : Id32 → D.Db → Io (Option Dispute)
  get_dispute id db = get_state codecs.dispute prefix_dispute (id_bytes id) db

  unfoldable pub set_dispute : Id32 → Dispute → D.Db → Io D.Db
  set_dispute id d db = set_state codecs.dispute prefix_dispute (id_bytes id) d db

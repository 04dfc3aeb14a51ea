-- ===== src/Store/Disk/Writes.antt =====
-- The writes of the store as values: what each does on disk, to the columns, and to the contents.
use routinechain.Base.{ℕ, ◌^◌, ◌<◌, List, [], ◌∷◌, ◌++◌, to_be_bytes}
use routinechain.Types.Bytes.{Id32}
use routinechain.Types.State.{
  Participant, RcwBalance, Escrow, Dispute, SettlementRecord, AnchorRecord,
}
use routinechain.Types.Block.{Block}
use routinechain.External.{Bytes}
use routinechain.Root.{
  prefix_participant, prefix_settlement, prefix_balance, prefix_escrow, prefix_dispute,
  prefix_nonce, prefix_anchor,
}
use routinechain.Store
use routinechain.Store.{Store}
use routinechain.Store.Disk
use routinechain.Store.Disk.{
  Io, done, ◌>>=◌, Database, Codecs, id_bytes, block_key, key_latest_height,
}
use routinechain.Store.Disk.Contents.{RoundTrips}

pub data Write : Type 0 where
  block_write : Block → Write
  participant_write : Id32 → Participant → Write
  settlement_write : Id32 → SettlementRecord → Write
  balance_write : Id32 → RcwBalance → Write
  escrow_write : Id32 → Escrow → Write
  dispute_write : Id32 → Dispute → Write
  nonce_write : Id32 → ℕ → Write
  anchor_write : Id32 → AnchorRecord → Write

-- Ids have 32 bytes; heights and nonces are u64.
abbrev pub Fits : Write → Type 0
Fits (block_write b) = b.header.height < 256 ^ 8
Fits (participant_write id _) = id < 256 ^ 32
Fits (settlement_write id _) = id < 256 ^ 32
Fits (balance_write id _) = id < 256 ^ 32
Fits (escrow_write id _) = id < 256 ^ 32
Fits (dispute_write id _) = id < 256 ^ 32
Fits (nonce_write id n) = (id < 256 ^ 32) × (n < 256 ^ 8)
Fits (anchor_write id _) = id < 256 ^ 32

-- on the columns
abbrev pub store_write : Write → Store → Store
store_write (block_write b) s = Store.put_block b s
store_write (participant_write id p) s = Store.set_participant id p s
store_write (settlement_write id r) s = Store.set_settlement id r s
store_write (balance_write id b) s = Store.set_balance id b s
store_write (escrow_write id e) s = Store.set_escrow id e s
store_write (dispute_write id d) s = Store.set_dispute id d s
store_write (nonce_write id n) s = Store.set_nonce id n s
store_write (anchor_write id a) s = Store.set_anchor id a s

abbrev pub store_writes : List Write → Store → Store
store_writes [] s = s
store_writes (w ∷ ws) s = store_writes ws (store_write w s)

-- on disk
module _ (D : Database) (codecs : Codecs) where
  unfoldable pub disk_write : Write → D.Db → Io D.Db
  disk_write (block_write b) db = Disk.put_block D codecs b db
  disk_write (participant_write id p) db = Disk.set_participant D codecs id p db
  disk_write (settlement_write id r) db = Disk.set_settlement D codecs id r db
  disk_write (balance_write id b) db = Disk.set_balance D codecs id b db
  disk_write (escrow_write id e) db = Disk.set_escrow D codecs id e db
  disk_write (dispute_write id d) db = Disk.set_dispute D codecs id d db
  disk_write (nonce_write id n) db = Disk.set_nonce D codecs id n db
  disk_write (anchor_write id a) db = Disk.set_anchor D codecs id a db

  unfoldable pub disk_writes : List Write → D.Db → Io D.Db
  disk_writes [] db = done db
  disk_writes (w ∷ ws) db = do db' ← disk_write w db; disk_writes ws db'

-- The encoding of what is written is read back.
abbrev pub IsLossless : Codecs → Write → Type 0
IsLossless codecs (block_write b) = RoundTrips codecs.block b
IsLossless codecs (participant_write id p) = RoundTrips codecs.participant p
IsLossless codecs (settlement_write id r) = RoundTrips codecs.settlement r
IsLossless codecs (balance_write id b) = RoundTrips codecs.balance b
IsLossless codecs (escrow_write id e) = RoundTrips codecs.escrow e
IsLossless codecs (dispute_write id d) = RoundTrips codecs.dispute d
IsLossless codecs (nonce_write id n) = Unit
IsLossless codecs (anchor_write id a) = RoundTrips codecs.anchor a

-- on the contents: the keys and the values that are put
module _ (codecs : Codecs) where
  abbrev pub puts_of : (w : Write) → IsLossless codecs w → List (Bytes × Bytes)
  puts_of (block_write b) l =
      (block_key b.header.height, l.0) ∷ (key_latest_height, to_be_bytes 8 b.header.height) ∷ []
  puts_of (participant_write id p) l = (prefix_participant ++ id_bytes id, l.0) ∷ []
  puts_of (settlement_write id r) l = (prefix_settlement ++ id_bytes id, l.0) ∷ []
  puts_of (balance_write id b) l = (prefix_balance ++ id_bytes id, l.0) ∷ []
  puts_of (escrow_write id e) l = (prefix_escrow ++ id_bytes id, l.0) ∷ []
  puts_of (dispute_write id d) l = (prefix_dispute ++ id_bytes id, l.0) ∷ []
  puts_of (nonce_write id n) l = (prefix_nonce ++ id_bytes id, to_be_bytes 8 n) ∷ []
  puts_of (anchor_write id a) l = (prefix_anchor ++ id_bytes id, l.0) ∷ []

-- ===== src/Store/Disk/Batch.antt =====
-- `StoreBatch` of crates/rc-store/src/lib.rs: puts that are collected and written at once. Its
-- `expect` on an encoding is a failure here.
pub mod Commit
use routinechain.Base.{ℕ, List, [], ◌∷◌, ◌++◌, to_be_bytes}
use routinechain.Types.Bytes.{Id32}
use routinechain.Types.State.{Participant, RcwBalance, Escrow, Dispute, SettlementRecord}
use routinechain.External.{Bytes}
use routinechain.Root.{
  prefix_participant, prefix_settlement, prefix_balance, prefix_escrow, prefix_dispute,
  prefix_nonce,
}
use routinechain.Store.Disk.{Io, done, ◌>>=◌, Database, Codec, Codecs, id_bytes}

pub record StoreBatch : Type 0 where
  pub batch : List (Bytes × Bytes)

abbrev pub new_batch : StoreBatch
new_batch = record { batch = [] }

-- `self.batch.put(key, value)`
abbrev pub batch_put : Bytes → Bytes → StoreBatch → StoreBatch
batch_put key value b = record { batch = b.batch ++ (key, value) ∷ [] }

unfoldable pub put_state : {A : Type 0} → Codec A → Bytes → Bytes → A → StoreBatch → Io StoreBatch
put_state c prefix key value b = do
  bytes ← c.serialize value
  done (batch_put (prefix ++ key) bytes b)

module _ (codecs : Codecs) where
  unfoldable pub set_participant : Id32 → Participant → StoreBatch → Io StoreBatch
  set_participant id p b = put_state codecs.participant prefix_participant (id_bytes id) p b

  unfoldable pub set_settlement : Id32 → SettlementRecord → StoreBatch → Io StoreBatch
  set_settlement id r b = put_state codecs.settlement prefix_settlement (id_bytes id) r b

  unfoldable pub set_balance : Id32 → RcwBalance → StoreBatch → Io StoreBatch
  set_balance owner bal b = put_state codecs.balance prefix_balance (id_bytes owner) bal b

  unfoldable pub set_escrow : Id32 → Escrow → StoreBatch → Io StoreBatch
  set_escrow id e b = put_state codecs.escrow prefix_escrow (id_bytes id) e b

  unfoldable pub set_dispute : Id32 → Dispute → StoreBatch → Io StoreBatch
  set_dispute id d b = put_state codecs.dispute prefix_dispute (id_bytes id) d b

unfoldable pub set_nonce : Id32 → ℕ → StoreBatch → Io StoreBatch
set_nonce sender nonce b =
    done (batch_put (prefix_nonce ++ id_bytes sender) (to_be_bytes 8 nonce) b)

unfoldable pub commit_batch : (D : Database) → StoreBatch → D.Db → Io D.Db
commit_batch D b db = D.write db b.batch

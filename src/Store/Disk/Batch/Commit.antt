-- ===== src/Store/Disk/Batch/Commit.antt =====
-- A batch against the same writes made one by one.
use routinechain.Base.{◌≡◌, refl, sym, ap, ◌∙◌, List, [], ◌∷◌, ◌++◌, All}
use routinechain.External.{Bytes}
use routinechain.Root.{
  prefix_participant, prefix_settlement, prefix_balance, prefix_escrow, prefix_dispute,
}
use routinechain.Store.Disk.{Io, done, ◌>>=◌, Database, Codec, Codecs, id_bytes}
use routinechain.Store.Disk.Contents.{Contents, written, written_all, Reliable, RoundTrips}
use routinechain.Store.Disk.Writes.{
  Write, block_write, participant_write, settlement_write, balance_write, escrow_write,
  dispute_write, nonce_write, anchor_write, IsLossless, disk_writes, puts_of,
}
use routinechain.Store.Disk.Refines.{disk_write-Leaves}
use routinechain.Store.Disk.Batch
use routinechain.Store.Disk.Batch.{StoreBatch, new_batch, batch_put, put_state, commit_batch}

-- A batch takes every kind of record but blocks and anchors.
abbrev pub IsBatchable : Write → Type 0
IsBatchable (block_write _) = ⊥
IsBatchable (anchor_write _ _) = ⊥
IsBatchable _ = Unit

unfoldable pub batch_write : Codecs → (w : Write) → IsBatchable w → StoreBatch → Io StoreBatch
batch_write codecs (participant_write id p) _ b = Batch.set_participant codecs id p b
batch_write codecs (settlement_write id r) _ b = Batch.set_settlement codecs id r b
batch_write codecs (balance_write id bal) _ b = Batch.set_balance codecs id bal b
batch_write codecs (escrow_write id e) _ b = Batch.set_escrow codecs id e b
batch_write codecs (dispute_write id d) _ b = Batch.set_dispute codecs id d b
batch_write codecs (nonce_write id n) _ b = Batch.set_nonce id n b
batch_write codecs (block_write _) h b = absurd h
batch_write codecs (anchor_write _ _) h b = absurd h

unfoldable pub batch_writes :
    Codecs → (ws : List Write) → All IsBatchable ws → StoreBatch → Io StoreBatch
batch_writes codecs [] h b = done b
batch_writes codecs (w ∷ ws) h b = do b' ← batch_write codecs w h.0 b; batch_writes codecs ws h.1 b'

put_state-eq :
    {A : Type 0} (c : Codec A) (prefix key : Bytes) (a : A) (b : StoreBatch) (l : RoundTrips c a)
    → put_state c prefix key a b ≡ done (batch_put (prefix ++ key) l.0 b)
unfolding put_state
put_state-eq c prefix key a b l = rw (l.1) refl

-- A batched write appends the puts that the write itself makes.
batch_write-puts :
    (codecs : Codecs) (w : Write) (h : IsBatchable w) (b : StoreBatch) (l : IsLossless codecs w)
    → batch_write codecs w h b ≡ done (record { batch = b.batch ++ puts_of codecs w l })
unfolding batch_write Batch.set_participant Batch.set_settlement Batch.set_balance Batch.set_escrow
    Batch.set_dispute Batch.set_nonce
batch_write-puts codecs (participant_write id p) h b l =
    put_state-eq codecs.participant prefix_participant (id_bytes id) p b l
batch_write-puts codecs (settlement_write id r) h b l =
    put_state-eq codecs.settlement prefix_settlement (id_bytes id) r b l
batch_write-puts codecs (balance_write id x) h b l =
    put_state-eq codecs.balance prefix_balance (id_bytes id) x b l
batch_write-puts codecs (escrow_write id e) h b l =
    put_state-eq codecs.escrow prefix_escrow (id_bytes id) e b l
batch_write-puts codecs (dispute_write id d) h b l =
    put_state-eq codecs.dispute prefix_dispute (id_bytes id) d b l
batch_write-puts codecs (nonce_write id n) h b l = refl
batch_write-puts codecs (block_write _) h b l = absurd h
batch_write-puts codecs (anchor_write _ _) h b l = absurd h

written_all-append :
    (xs ys : List (Bytes × Bytes)) (m : Contents)
    → written_all (xs ++ ys) m ≡ written_all ys (written_all xs m)
written_all-append [] ys m = refl
written_all-append ((key, value) ∷ xs) ys m = written_all-append xs ys (written key value m)

module _ (D : Database) (codecs : Codecs) (reliable : Reliable D) where
  -- The batch that is built on top of another one, and the writes one by one on top of its effect.
  batch_against_writes :
      (ws : List Write) (h : All IsBatchable ws) (b : StoreBatch) (m : Contents) (db : D.Db)
      → All (IsLossless codecs) ws
      → reliable.contents db ≡ written_all b.batch m
      → (b' : StoreBatch) × (db' : D.Db) × (batch_writes codecs ws h b ≡ done b')
        × (disk_writes D codecs ws db ≡ done db')
        × (reliable.contents db' ≡ written_all b'.batch m)
  unfolding batch_writes disk_writes
  batch_against_writes [] h b m db l e = (b, db, refl, refl, e)
  batch_against_writes (w ∷ ws) h b m db l e =
      let (db1, done1, is1) = disk_write-Leaves D codecs reliable w db l.0 in
      let puts = puts_of codecs w l.0 in
      let (b', db', batched, written_, same) =
        batch_against_writes ws h.1 (record { batch = b.batch ++ puts }) m db1 l.1
          (is1 ∙ ap (written_all puts) e ∙ sym (written_all-append b.batch puts m)) in
      (b', db', rw (batch_write-puts codecs w h.0 b l.0) batched, rw done1 written_, same)

-- In a database that does not fail, with encodings that are read back, a batch of records and
-- nonces is built and committed, the same writes one by one succeed as well, and both leave the
-- same contents.
pub commit_as_writes :
    (D : Database) (codecs : Codecs) (reliable : Reliable D) (ws : List Write)
    (h : All IsBatchable ws) (db : D.Db)
    → All (IsLossless codecs) ws
    → (b : StoreBatch) × (db' : D.Db) × (db'' : D.Db) × (batch_writes codecs ws h new_batch
        ≡ done b)
      × (commit_batch D b db ≡ done db')
      × (disk_writes D codecs ws db ≡ done db'')
      × (reliable.contents db' ≡ reliable.contents db'')
unfolding commit_batch
commit_as_writes D codecs reliable ws h db l =
    let (b, db'', batched, one_by_one, same) =
      batch_against_writes D codecs reliable ws h new_batch (reliable.contents db) db l refl in
    let (db', committed, is) = reliable.write_contents db b.batch in
    (b, db', db'', batched, committed, one_by_one, is ∙ sym same)

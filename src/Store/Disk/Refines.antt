-- ===== src/Store/Disk/Refines.antt =====
-- The store on disk refines the columns: what is written is read, and nothing else is changed.
use routinechain.Base.{
  ℕ, ◌^◌, ◌<◌, ◌≡◌, refl, subst, sym, ap, ◌∙◌, Option, none, List, [], ◌∷◌, ◌++◌, All, to_be_bytes,
}
use routinechain.Types.Bytes.{Id32}
use routinechain.External.{Bytes}
use routinechain.Types.Block.{Block}
use routinechain.Root.{
  prefix_participant, prefix_settlement, prefix_balance, prefix_escrow, prefix_dispute,
  prefix_nonce, prefix_anchor,
}
use routinechain.Store
use routinechain.Store.{Store, or_zero, empty}
use routinechain.Store.Disk
use routinechain.Store.Disk.{
  Io, done, ◌>>=◌, Database, Codec, Codecs, set_state, get_state, decoded, decoded_u64, id_bytes,
  block_key, key_latest_height,
}
use routinechain.Store.Disk.Contents.{Contents, written, written_all, Reliable, RoundTrips, Column}
use routinechain.Store.Disk.Columns.{Represents, Represents-puts}
use routinechain.Store.Disk.Writes.{
  Write, block_write, participant_write, settlement_write, balance_write, escrow_write,
  dispute_write, nonce_write, anchor_write, Fits, store_write, store_writes, disk_write,
  disk_writes, puts_of, IsLossless,
}

module _ (D : Database) (codecs : Codecs) (reliable : Reliable D) where
  -- A write succeeds and leaves contents as given.
  abbrev pub Leaves : Io D.Db → Contents → Type 0
  Leaves r m = (db' : D.Db) × (r ≡ done db') × (reliable.contents db' ≡ m)

  put-Leaves :
      (db : D.Db) (key value : Bytes)
      → Leaves (D.put db key value) (written key value (reliable.contents db))
  put-Leaves db key value = reliable.put_contents db key value

  set_state-Leaves :
      {A : Type 0} (c : Codec A) (prefix key : Bytes) (a : A) (db : D.Db) (l : RoundTrips c a)
      → Leaves
          (set_state D codecs c prefix key a db)
          (written (prefix ++ key) l.0 (reliable.contents db))
  unfolding set_state
  set_state-Leaves c prefix key a db l = rw (l.1) (put-Leaves db (prefix ++ key) l.0)

  put_block-Leaves :
      (b : Block) (db : D.Db) (l : RoundTrips codecs.block b)
      → Leaves (Disk.put_block D codecs b db) (
          written key_latest_height
            (to_be_bytes 8 b.header.height)
            (written (block_key b.header.height) l.0 (reliable.contents db)))
  unfolding Disk.put_block
  put_block-Leaves b db l =
      let (db1, done1, is1) = put-Leaves db (block_key b.header.height) l.0 in
      let (db2, done2, is2) = put-Leaves db1 key_latest_height (to_be_bytes 8 b.header.height) in
      (
        db2,
        rw (l.1, done1) done2,
        is2 ∙ ap (written key_latest_height (to_be_bytes 8 b.header.height)) is1,
      )

  pub disk_write-Leaves :
      (w : Write) (db : D.Db) (l : IsLossless codecs w)
      → Leaves (disk_write D codecs w db) (written_all (puts_of codecs w l) (reliable.contents db))
  unfolding disk_write Disk.set_participant Disk.set_settlement Disk.set_balance Disk.set_escrow
      Disk.set_dispute Disk.set_nonce Disk.set_anchor
  disk_write-Leaves (block_write b) db l = put_block-Leaves b db l
  disk_write-Leaves (participant_write id p) db l =
      set_state-Leaves codecs.participant prefix_participant (id_bytes id) p db l
  disk_write-Leaves (settlement_write id r) db l =
      set_state-Leaves codecs.settlement prefix_settlement (id_bytes id) r db l
  disk_write-Leaves (balance_write id b) db l =
      set_state-Leaves codecs.balance prefix_balance (id_bytes id) b db l
  disk_write-Leaves (escrow_write id e) db l =
      set_state-Leaves codecs.escrow prefix_escrow (id_bytes id) e db l
  disk_write-Leaves (dispute_write id d) db l =
      set_state-Leaves codecs.dispute prefix_dispute (id_bytes id) d db l
  disk_write-Leaves (nonce_write id n) db l =
      put-Leaves db (prefix_nonce ++ id_bytes id) (to_be_bytes 8 n)
  disk_write-Leaves (anchor_write id a) db l =
      set_state-Leaves codecs.anchor prefix_anchor (id_bytes id) a db l

  -- Writes one after another: all succeed, and the contents represent the columns after all.
  pub disk_writes-Represents :
      (ws : List Write) (db : D.Db) (s : Store)
      → All (IsLossless codecs) ws
      → All Fits ws
      → Represents codecs (reliable.contents db) s
      → (db' : D.Db) × (disk_writes D codecs ws db ≡ done db')
        × Represents codecs (reliable.contents db') (store_writes ws s)
  unfolding disk_writes
  disk_writes-Represents [] db s l fits h = (db, refl, h)
  disk_writes-Represents (w ∷ ws) db s l fits h =
      let (db1, done1, is1) = disk_write-Leaves w db l.0 in
      let (db2, done2, h2) = disk_writes-Represents ws db1 (store_write w s) l.1 fits.1 (
        subst (λ m. Represents codecs m (store_write w s)) (sym is1)
          (Represents-puts codecs (reliable.contents db) s w l.0 fits.0 h)) in
      (db2, rw done1 done2, h2)

  get_state-Column :
      {A : Type 0} (c : Codec A) (prefix : Bytes) (f : Id32 → Option A) (id : Id32) (db : D.Db)
      → id < 256 ^ 32
      → Column 32 c prefix (reliable.contents db) f
      → get_state D codecs c prefix (id_bytes id) db ≡ done (f id)
  unfolding get_state
  get_state-Column c prefix f id db hid h =
      rw (reliable.get_contents db (prefix ++ id_bytes id)) (h id hid)

  -- What represents columns is read as they are.
  pub reads-Represents :
      (db : D.Db) (s : Store) (id height : ℕ)
      → id < 256 ^ 32
      → height < 256 ^ 8
      → Represents codecs (reliable.contents db) s
      → (Disk.get_participant D codecs id db ≡ done (Store.get_participant id s))
        × (Disk.get_settlement D codecs id db ≡ done (Store.get_settlement id s))
        × (Disk.get_balance D codecs id db ≡ done (Store.get_balance id s))
        × (Disk.get_escrow D codecs id db ≡ done (Store.get_escrow id s))
        × (Disk.get_dispute D codecs id db ≡ done (Store.get_dispute id s))
        × (Disk.get_anchor D codecs id db ≡ done (Store.get_anchor id s))
        × (Disk.get_nonce D codecs id db ≡ Store.get_nonce id s)
        × (Disk.get_block D codecs height db ≡ done (Store.get_block height s))
        × (Disk.get_latest_height D codecs db ≡ Store.get_latest_height s)
  unfolding Disk.get_participant Disk.get_settlement Disk.get_balance Disk.get_escrow
      Disk.get_dispute Disk.get_anchor Disk.get_nonce Disk.get_block Disk.get_latest_height
  reads-Represents db s id height hid hh h = (
    get_state-Column codecs.participant prefix_participant s.participants id db hid h.participants,
    get_state-Column codecs.settlement prefix_settlement s.settlements id db hid h.settlements,
    rw (get_state-Column codecs.balance prefix_balance s.balances id db hid h.balances) refl,
    get_state-Column codecs.escrow prefix_escrow s.escrows id db hid h.escrows,
    get_state-Column codecs.dispute prefix_dispute s.disputes id db hid h.disputes,
    get_state-Column codecs.anchor prefix_anchor s.anchors id db hid h.anchors,
    rw (reliable.get_contents db (prefix_nonce ++ id_bytes id)) (h.nonces id hid),
    rw (reliable.get_contents db (block_key height)) (h.blocks height hh),
    rw (reliable.get_contents db key_latest_height) h.latest,
  )

empty-Represents : (codecs : Codecs) → Represents codecs (λ _. none) empty
unfolding decoded decoded_u64
empty-Represents codecs = record {
  blocks = λ n hn. refl;
  latest = refl;
  participants = λ n hn. refl;
  settlements = λ n hn. refl;
  balances = λ n hn. refl;
  escrows = λ n hn. refl;
  disputes = λ n hn. refl;
  nonces = λ n hn. refl;
  anchors = λ n hn. refl;
}

-- In a database that does not fail, that began empty, and in which each written value is encoded so
-- that it is decoded to itself, any writes (ids of 32 bytes, heights and nonces in u64) all succeed,
-- and after them every getter of the store returns what the columns hold after the same writes:
-- for every id the participant, the settlement, the balance, the escrow, the dispute, the anchor and
-- the nonce, for every height the block, and the latest height.
pub writes_read_back :
    (D : Database) (codecs : Codecs) (reliable : Reliable D) (db : D.Db) (ws : List Write)
    (id height : ℕ)
    → reliable.contents db ≡ (λ _. none)
    → All (IsLossless codecs) ws
    → All Fits ws
    → id < 256 ^ 32
    → height < 256 ^ 8
    → let s = store_writes ws empty in
      (db' : D.Db) × (disk_writes D codecs ws db ≡ done db')
      × (Disk.get_participant D codecs id db' ≡ done (Store.get_participant id s))
      × (Disk.get_settlement D codecs id db' ≡ done (Store.get_settlement id s))
      × (Disk.get_balance D codecs id db' ≡ done (Store.get_balance id s))
      × (Disk.get_escrow D codecs id db' ≡ done (Store.get_escrow id s))
      × (Disk.get_dispute D codecs id db' ≡ done (Store.get_dispute id s))
      × (Disk.get_anchor D codecs id db' ≡ done (Store.get_anchor id s))
      × (Disk.get_nonce D codecs id db' ≡ Store.get_nonce id s)
      × (Disk.get_block D codecs height db' ≡ done (Store.get_block height s))
      × (Disk.get_latest_height D codecs db' ≡ Store.get_latest_height s)
writes_read_back D codecs reliable db ws id height fresh l fits hid hh =
    let (db', ok, h) =
      disk_writes-Represents D codecs reliable ws db empty l fits
        (subst (λ m. Represents codecs m empty) (sym fresh) (empty-Represents codecs)) in
    let r = reads-Represents D codecs reliable db' (store_writes ws empty) id height hid hh h in
    (db', ok, r.0, r.1, r.2, r.3, r.4, r.5, r.6, r.7, r.8)

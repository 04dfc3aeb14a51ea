-- ===== src/Store/Disk/Columns.antt =====
-- Each write changes its own column and no other: the keys of different kinds of record differ.
use routinechain.Base.{
  ℕ, ◌^◌, ◌<◌, ◌≡◌, Option, some, ◌++◌, ◌==◌, to_be_bytes, from_be_bytes-to_be_bytes,
  length-to_be_bytes, update, Bool-cases, inl, inr,
}
use routinechain.Root.{
  prefix_participant, prefix_settlement, prefix_balance, prefix_escrow, prefix_dispute,
  prefix_nonce, prefix_anchor,
}
use routinechain.Store.{Store, or_zero}
use routinechain.Store.Disk.{done, Codecs, decoded_u64, prefix_block, key_latest_height}
use routinechain.Store.Disk.Contents.{
  Contents, written, written_all, Column, same_key, Column-written,
}
use routinechain.Store.Disk.Writes.{
  Write, block_write, participant_write, settlement_write, balance_write, escrow_write,
  dispute_write, nonce_write, anchor_write, Fits, store_write, puts_of, IsLossless,
}

-- The nonces are numbers of eight bytes; a missing one reads as 0.
abbrev pub NonceColumn : Contents → (ℕ → Option ℕ) → Type 0
NonceColumn m f =
    (id : ℕ)
    → id < 256 ^ 32
    → decoded_u64 (done (m (prefix_nonce ++ to_be_bytes 32 id))) ≡ or_zero (f id)

decoded_u64-to_be_bytes : (n : ℕ) → n < 256 ^ 8 → decoded_u64 (done (some (to_be_bytes 8 n))) ≡ n
unfolding decoded_u64
decoded_u64-to_be_bytes n h = rw (length-to_be_bytes 8 n) (from_be_bytes-to_be_bytes 8 n h)

NonceColumn-written :
    (m : Contents) (f : ℕ → Option ℕ) (key n : ℕ)
    → key < 256 ^ 32
    → n < 256 ^ 8
    → NonceColumn m f
    → NonceColumn
        (written (prefix_nonce ++ to_be_bytes 32 key) (to_be_bytes 8 n) m)
        (update f key n)
NonceColumn-written m f key n fits small h id hid = elim (Bool-cases (key == id)) [
  | inl same ↦ rw (same_key 32 prefix_nonce key id fits hid, same) (decoded_u64-to_be_bytes n small)
  | inr other ↦ rw (same_key 32 prefix_nonce key id fits hid, other) (h id hid)
]

-- What the contents of a database say of the columns.
pub record Represents (codecs : Codecs) (m : Contents) (s : Store) : Type 0 where
  pub blocks : Column 8 codecs.block prefix_block m s.blocks
  pub latest : decoded_u64 (done (m key_latest_height)) ≡ or_zero s.latest_height
  pub participants : Column 32 codecs.participant prefix_participant m s.participants
  pub settlements : Column 32 codecs.settlement prefix_settlement m s.settlements
  pub balances : Column 32 codecs.balance prefix_balance m s.balances
  pub escrows : Column 32 codecs.escrow prefix_escrow m s.escrows
  pub disputes : Column 32 codecs.dispute prefix_dispute m s.disputes
  pub nonces : NonceColumn m s.nonces
  pub anchors : Column 32 codecs.anchor prefix_anchor m s.anchors

module _ (codecs : Codecs) (m : Contents) (s : Store) where
  blocks-puts :
      (w : Write) (l : IsLossless codecs w)
      → Fits w
      → Column 8 codecs.block prefix_block m s.blocks
      → Column 8 codecs.block prefix_block
          (written_all (puts_of codecs w l) m)
          (store_write w s).blocks
  blocks-puts (block_write b) l fits h = λ n hn.
      Column-written 8 codecs.block prefix_block m s.blocks b.header.height b _ fits l.2 h n hn
  blocks-puts _ l fits h = λ n hn. h n hn

  latest-puts :
      (w : Write) (l : IsLossless codecs w)
      → Fits w
      → decoded_u64 (done (m key_latest_height)) ≡ or_zero s.latest_height
      → decoded_u64 (done (written_all (puts_of codecs w l) m key_latest_height))
        ≡ or_zero (store_write w s).latest_height
  latest-puts (block_write b) l fits h = decoded_u64-to_be_bytes b.header.height fits
  latest-puts _ l fits h = h

  participants-puts :
      (w : Write) (l : IsLossless codecs w)
      → Fits w
      → Column 32 codecs.participant prefix_participant m s.participants
      → Column 32 codecs.participant prefix_participant
          (written_all (puts_of codecs w l) m)
          (store_write w s).participants
  participants-puts (participant_write id p) l fits h =
      Column-written 32 codecs.participant prefix_participant m s.participants id p _ fits l.2 h
  participants-puts _ l fits h = λ n hn. h n hn

  settlements-puts :
      (w : Write) (l : IsLossless codecs w)
      → Fits w
      → Column 32 codecs.settlement prefix_settlement m s.settlements
      → Column 32 codecs.settlement prefix_settlement
          (written_all (puts_of codecs w l) m)
          (store_write w s).settlements
  settlements-puts (settlement_write id r) l fits h =
      Column-written 32 codecs.settlement prefix_settlement m s.settlements id r _ fits l.2 h
  settlements-puts _ l fits h = λ n hn. h n hn

  balances-puts :
      (w : Write) (l : IsLossless codecs w)
      → Fits w
      → Column 32 codecs.balance prefix_balance m s.balances
      → Column 32 codecs.balance prefix_balance
          (written_all (puts_of codecs w l) m)
          (store_write w s).balances
  balances-puts (balance_write id b) l fits h =
      Column-written 32 codecs.balance prefix_balance m s.balances id b _ fits l.2 h
  balances-puts _ l fits h = λ n hn. h n hn

  escrows-puts :
      (w : Write) (l : IsLossless codecs w)
      → Fits w
      → Column 32 codecs.escrow prefix_escrow m s.escrows
      → Column 32 codecs.escrow prefix_escrow
          (written_all (puts_of codecs w l) m)
          (store_write w s).escrows
  escrows-puts (escrow_write id e) l fits h =
      Column-written 32 codecs.escrow prefix_escrow m s.escrows id e _ fits l.2 h
  escrows-puts _ l fits h = λ n hn. h n hn

  disputes-puts :
      (w : Write) (l : IsLossless codecs w)
      → Fits w
      → Column 32 codecs.dispute prefix_dispute m s.disputes
      → Column 32 codecs.dispute prefix_dispute
          (written_all (puts_of codecs w l) m)
          (store_write w s).disputes
  disputes-puts (dispute_write id d) l fits h =
      Column-written 32 codecs.dispute prefix_dispute m s.disputes id d _ fits l.2 h
  disputes-puts _ l fits h = λ n hn. h n hn

  anchors-puts :
      (w : Write) (l : IsLossless codecs w)
      → Fits w
      → Column 32 codecs.anchor prefix_anchor m s.anchors
      → Column 32 codecs.anchor prefix_anchor
          (written_all (puts_of codecs w l) m)
          (store_write w s).anchors
  anchors-puts (anchor_write id a) l fits h =
      Column-written 32 codecs.anchor prefix_anchor m s.anchors id a _ fits l.2 h
  anchors-puts _ l fits h = λ n hn. h n hn

  nonces-puts :
      (w : Write) (l : IsLossless codecs w)
      → Fits w
      → NonceColumn m s.nonces
      → NonceColumn (written_all (puts_of codecs w l) m) (store_write w s).nonces
  nonces-puts (nonce_write id n) l fits h = NonceColumn-written m s.nonces id n fits.0 fits.1 h
  nonces-puts _ l fits h = λ n hn. h n hn

  -- The contents after a write represent the columns after it.
  pub Represents-puts :
      (w : Write) (l : IsLossless codecs w)
      → Fits w
      → Represents codecs m s
      → Represents codecs (written_all (puts_of codecs w l) m) (store_write w s)
  Represents-puts w l fits h = record {
    blocks = blocks-puts w l fits h.blocks;
    latest = latest-puts w l fits h.latest;
    participants = participants-puts w l fits h.participants;
    settlements = settlements-puts w l fits h.settlements;
    balances = balances-puts w l fits h.balances;
    escrows = escrows-puts w l fits h.escrows;
    disputes = disputes-puts w l fits h.disputes;
    nonces = nonces-puts w l fits h.nonces;
    anchors = anchors-puts w l fits h.anchors;
  }

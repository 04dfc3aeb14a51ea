-- ===== src/Consensus/Network.antt =====
-- Messages on the wire, in crates/rc-consensus/src/lib.rs: what `send_to_peer` writes to a
-- connection, and what `listen` makes of the bytes that it reads from one. TCP and its time limits
-- are not modelled; bincode and the reading of bytes are parameters.
pub mod Frames
pub mod Listener
use routinechain.Base.{
  ℕ, suc, zero, ◌*◌, ◌%◌, ◌^◌, Option, none, some, List, [], ◌∷◌, ◌++◌, ltb, leb, if◌then◌else◌,
  length, to_be_bytes, from_be_bytes,
}
use routinechain.Types.Bytes.{Id32}
use routinechain.External.{Bytes}
use routinechain.Store.Disk.{Io, done, failed, ◌>>=◌, Codec}
use routinechain.Consensus.{
  ConsensusMessage, propose, sign, request_txs, submit_tx, view_change, handshake,
}

-- the limit of `listen` on one message
abbrev pub max_message : ℕ
max_message = 16 * 1024 * 1024

-- what `send_to_peer` writes: the length as u32, then the message
unfoldable pub send_bytes : Codec ConsensusMessage → ConsensusMessage → Io Bytes
send_bytes codec msg = do
  bytes ← codec.serialize msg
  done (to_be_bytes 4 (length bytes % 2 ^ 32) ++ bytes)

-- `AsyncReadExt::read_exact` of a number of bytes: the bytes and what is left, if there are as many
abbrev pub ReadExact : Type 0
ReadExact = ℕ → Bytes → Option (Bytes × Bytes)

-- the bytes of one message, if the length prefix is not over the limit
unfoldable pub read_message : ReadExact → Bytes → Option Bytes
read_message read_exact stream = elim (read_exact 4 stream) [
  | none ↦ none
  | some (len_buf, rest) ↦
      if ltb max_message (from_be_bytes 0 len_buf)
      then none
      else elim (read_exact (from_be_bytes 0 len_buf) rest) [
        | none ↦ none
        | some (buf, _) ↦ some buf
      ]
]

-- the sender's identity, taken from the message
abbrev pub peer_id : ConsensusMessage → Id32
peer_id (sign _ sig) = sig.node_id
peer_id (propose b) = b.header.proposer
peer_id (submit_tx tx) = tx.sender
peer_id request_txs = 0
peer_id (view_change _ _ node_id) = node_id
peer_id (handshake node_id _ _) = node_id

-- what a connection delivers to the node, if anything
unfoldable pub receive :
    ReadExact → Codec ConsensusMessage → Bytes → Option (Id32 × ConsensusMessage)
receive read_exact codec stream = elim (read_message read_exact stream) [
  | none ↦ none
  | some buf ↦ elim (codec.deserialize buf) [ done msg ↦ some (peer_id msg, msg) | failed _ ↦ none ]
]

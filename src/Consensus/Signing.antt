-- ===== src/Consensus/Signing.antt =====
-- The signatures of crates/rc-consensus/src/lib.rs: proposing a block, signing a proposal, and
-- counting the signatures of a block.
use routinechain.Base.{
  ℕ, ◌%◌, ◌^◌, ℤ, Bool, true, false, not, Option, none, some, List, [], ◌∷◌, ◌++◌, ◌==◌, leb,
  if◌then◌else◌, length, is_empty, contains,
}
use routinechain.Types.Bytes.{Id32, Hash, empty_hash}
use routinechain.Types.Transaction.{Transaction}
use routinechain.Types.Block.{Block, BlockHeader, NodeSignature}
use routinechain.External.{External, verify}
use routinechain.Consensus.{Consensus, Peer, leader_for_height, drain_pending_txs}

-- `peers.iter().find(|p| &p.id == node_id).map(|p| p.public_key)`
abbrev pub find_key : Id32 → List Peer → Option Id32
find_key id [] = none
find_key id (p ∷ ps) = if p.id == id then some p.public_key else find_key id ps

abbrev pub get_peer_key : Consensus → Id32 → Option Id32
get_peer_key c id = if id == c.node_id then none else find_key id c.peers

-- the key that `verify_block_signature` and `is_finalized` check a signer by: the node's own id, or
-- the key of the peer
abbrev pub signer_key : Consensus → Id32 → Option Id32
signer_key c id = if id == c.node_id then some c.node_id else get_peer_key c id

abbrev pub is_valid_proposer : Consensus → Block → Bool
is_valid_proposer c b = b.header.proposer == leader_for_height c b.header.height

-- `HashSet::remove`
abbrev pub set_remove : Id32 → List Id32 → List Id32
set_remove a [] = []
set_remove a (x ∷ xs) = if x == a then set_remove a xs else x ∷ set_remove a xs

module _ (ext : External) where
  unfoldable pub block_header_hash : BlockHeader → Hash
  block_header_hash h = ext.hash (ext.encode_header h)

  unfoldable pub compute_tx_hash : List Transaction → Hash
  compute_tx_hash txs = if is_empty txs then empty_hash else ext.hash (ext.encode_transactions txs)

  -- the signature that a node makes on a header
  abbrev pub signature_by : Consensus → BlockHeader → NodeSignature
  signature_by c h = record {
    node_id = c.node_id;
    signature = ext.sign (ext.encode_header h) c.private_key;
  }

  -- the clock's reading `now_ms()` is an argument
  unfoldable pub propose_block : ℕ → Hash → Hash → ℤ → Consensus → Block × Consensus
  propose_block height prev_hash state_root now c =
      let (transactions, c') = drain_pending_txs c in
      let header : BlockHeader = record {
        height = height;
        prev_hash = prev_hash;
        timestamp = now;
        tx_count = length transactions % 2 ^ 32;
        tx_hash = compute_tx_hash transactions;
        state_root = state_root;
        proposer = c.node_id;
      } in
      (
        record {
          header = header;
          transactions = transactions;
          signatures = signature_by c header ∷ [];
        },
        c',
      )

  -- the check of the first signature: only that of a known peer is verified
  unfoldable pub first_signature_ok : Consensus → BlockHeader → List NodeSignature → Bool
  first_signature_ok c h [] = false
  first_signature_ok c h (sig ∷ _) = elim (get_peer_key c sig.node_id) [
    | none ↦ true
    | some key ↦ verify ext (ext.encode_header h) sig.signature key
  ]

  unfoldable pub verify_and_sign : Consensus → Block → Hash → Option NodeSignature
  verify_and_sign c b expected_prev_hash =
      if not (is_valid_proposer c b)
      then none
      else if not (b.header.prev_hash == expected_prev_hash)
      then none
      else if not (first_signature_ok c b.header b.signatures)
      then none
      else if not (compute_tx_hash b.transactions == b.header.tx_hash)
      then none
      else some (signature_by c b.header)

  unfoldable pub verify_block_signature : Consensus → Block → NodeSignature → Bool
  verify_block_signature c b sig = elim (signer_key c sig.node_id) [
    | none ↦ false
    | some key ↦ verify ext (ext.encode_header b.header) sig.signature key
  ]

  -- One round of the loop of `is_finalized`: a signer that is new to the set is put in, and taken
  -- out again if it has a key by which the signature is not valid. An unknown signer stays.
  unfoldable pub count_signer : Consensus → BlockHeader → NodeSignature → List Id32 → List Id32
  count_signer c h sig unique_signers =
      if contains unique_signers sig.node_id
      then unique_signers
      else elim (signer_key c sig.node_id) [
        | none ↦ unique_signers ++ sig.node_id ∷ []
        | some key ↦
            if verify ext (ext.encode_header h) sig.signature key
            then unique_signers ++ sig.node_id ∷ []
            else set_remove sig.node_id (unique_signers ++ sig.node_id ∷ [])
      ]

  unfoldable pub unique_signers :
      Consensus → BlockHeader → List NodeSignature → List Id32 → List Id32
  unique_signers c h [] set = set
  unique_signers c h (sig ∷ sigs) set = unique_signers c h sigs (count_signer c h sig set)

  unfoldable pub is_finalized : Consensus → Block → Bool
  is_finalized c b = leb c.min_signatures (length (unique_signers c b.header b.signatures []))

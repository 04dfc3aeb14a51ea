-- ===== src/Consensus/Proposals.antt =====
-- Proposing and signing a block: `propose_block`, `verify_and_sign` and `verify_block_signature` of
-- crates/rc-consensus/src/lib.rs between two nodes.
use routinechain.Base.{ℕ, ℤ, ◌≡◌, ◌≢◌, refl, sym, ap, none, some, true, List, ◌∷◌, arith}
use mathlib.Core.List.{Permᴰ}
use routinechain.Types.Bytes.{Id32, Hash}
use routinechain.Types.Block.{Block, NodeSignature}
use routinechain.External.{Bytes, External, verify}
use routinechain.Consensus.{Consensus, node_ids, leader_for_height_round, is_leader}
use routinechain.Consensus.Leader.{leader_agreed}
use routinechain.Consensus.Signing.{
  find_key, get_peer_key, signer_key, is_valid_proposer, compute_tx_hash, signature_by,
  propose_block, first_signature_ok, verify_and_sign, verify_block_signature,
}

-- What is signed with the secret key verifies under the public one.
abbrev pub Signs : External → ℕ → Id32 → Type 0
Signs ext secret key = (msg : Bytes) → verify ext msg (ext.sign msg secret) key ≡ true

-- The node `a` knows the node `b` under a key that `b` signs for.
abbrev pub Knows : External → Consensus → Consensus → Type 0
Knows ext a b = (key : Id32) × (find_key b.node_id a.peers ≡ some key) × Signs ext b.private_key key

pub signed_when :
    (ext : External) (c : Consensus) (b : Block) (prev : Hash)
    → is_valid_proposer c b ≡ true
    → b.header.prev_hash ≡ prev
    → first_signature_ok ext c b.header b.signatures ≡ true
    → compute_tx_hash ext b.transactions ≡ b.header.tx_hash
    → verify_and_sign ext c b prev ≡ some (signature_by ext c b.header)
unfolding verify_and_sign
signed_when ext c b prev p h f t = ground (arith, p, h, f, t)

pub peer_key :
    (c : Consensus) (id key : Id32)
    → id ≢ c.node_id
    → find_key id c.peers ≡ some key
    → get_peer_key c id ≡ some key
peer_key c id key ne found = ground (arith, found)

pub known_key :
    (c : Consensus) (id key : Id32)
    → id ≢ c.node_id
    → find_key id c.peers ≡ some key
    → signer_key c id ≡ some key
known_key c id key ne found = ground (arith, found)

first_by_known :
    (ext : External) (leader follower : Consensus) (height : ℕ) (prev root : Hash) (now : ℤ)
    → leader.node_id ≢ follower.node_id
    → Knows ext follower leader
    → let b = (propose_block ext height prev root now leader).0 in
      first_signature_ok ext follower b.header b.signatures ≡ true
unfolding first_signature_ok propose_block
first_by_known ext leader follower height prev root now ne (key, found, signs) =
    rw (first_signature_ok, propose_block, peer_key follower leader.node_id key ne found) (signs _)

valid_for_follower :
    (ext : External) (leader follower : Consensus) (height : ℕ) (prev root : Hash) (now : ℤ)
    → is_leader leader height ≡ true
    → Permᴰ (node_ids leader) (node_ids follower)
    → leader.round ≡ follower.round
    → is_valid_proposer follower (propose_block ext height prev root now leader).0 ≡ true
unfolding propose_block
valid_for_follower ext leader follower height prev root now leads p same = ground (
  arith,
  leads,
  ap (leader_for_height_round leader height) same,
  leader_agreed leader follower height follower.round p,
)

pub accepted_by_leader :
    (ext : External) (leader follower : Consensus) (b : Block)
    → leader.node_id ≢ follower.node_id
    → Knows ext leader follower
    → verify_block_signature ext leader b (signature_by ext follower b.header) ≡ true
unfolding verify_block_signature
accepted_by_leader ext leader follower b ne (key, found, signs) =
    rw (verify_block_signature, known_key leader follower.node_id key (λ e. ne (sym e)) found)
      (signs _)

-- A leader's proposal completes: a follower that knows the same nodes, is in the same round and is
-- asked with the block's previous hash signs what the leader proposes, and the leader accepts that
-- signature, if the two have different ids and each knows the other under a key that it signs for.
proposal_completes :
    (ext : External) (leader follower : Consensus) (height : ℕ) (prev root : Hash) (now : ℤ)
    → is_leader leader height ≡ true
    → Permᴰ (node_ids leader) (node_ids follower)
    → leader.round ≡ follower.round
    → leader.node_id ≢ follower.node_id
    → Knows ext follower leader
    → Knows ext leader follower
    → let b = (propose_block ext height prev root now leader).0 in
      (sig : NodeSignature) × (verify_and_sign ext follower b prev ≡ some sig)
      × (sig.node_id ≡ follower.node_id)
      × (verify_block_signature ext leader b sig ≡ true)
unfolding propose_block
proposal_completes ext leader follower height prev root now leads p same ne knows known =
    let b = (propose_block ext height prev root now leader).0 in
    (
      signature_by ext follower b.header,
      signed_when ext follower b prev
          (valid_for_follower ext leader follower height prev root now leads p same) refl
          (first_by_known ext leader follower height prev root now (λ e. ne e) knows) refl,
      refl,
      accepted_by_leader ext leader follower b (λ e. ne e) known,
    )

-- A follower signs a block that names the right leader, previous hash and transaction hash even if
-- the leader never signed it: it is enough that the first signature names a node that the follower
-- does not know, whatever that signature is.
pub forged_proposal_signed :
    (ext : External) (c : Consensus) (b : Block) (forged : NodeSignature)
    (more : List NodeSignature)
    → is_valid_proposer c b ≡ true
    → compute_tx_hash ext b.transactions ≡ b.header.tx_hash
    → b.signatures ≡ forged ∷ more
    → find_key forged.node_id c.peers ≡ none
    → verify_and_sign ext c b b.header.prev_hash ≡ some (signature_by ext c b.header)
unfolding first_signature_ok
forged_proposal_signed ext c b forged more p t sigs unknown =
    signed_when ext c b b.header.prev_hash p refl (rw sigs (ground (arith, unknown))) t

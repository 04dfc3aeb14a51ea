-- ===== src/Consensus/Keys.antt =====
-- The keys by which a node checks signatures, and the signatures that it has checked, as its peers
-- grow: crates/rc-consensus/src/lib.rs.
use routinechain.Base.{
  ℕ, String, ◌≡◌, ◌⊎◌, refl, sym, ap, leb, length, ◌∙◌, Bool-cases, Option-cases, inl, inr, Option,
  none, some, true, List, [], ◌∷◌, ◌++◌, All, arith, ◌==◌,
}
use mathlib.Core.List.{append-nil}
use routinechain.Types.Bytes.{Id32}
use routinechain.Types.Block.{Block, NodeSignature}
use routinechain.External.{External}
use routinechain.Consensus.{
  Peer, Consensus, set_insert, add_peer, receive_view_change, request_view_change,
}
use routinechain.Consensus.Signing.{
  find_key, signer_key, verify_block_signature, count_signer, unique_signers, is_finalized,
}
use routinechain.Consensus.Finality.{sig_counts, count_signer_lem}

-- All signatures of the block are valid by the keys of nodes that the node knows.
abbrev pub AreValid : External → Consensus → Block → List NodeSignature → Type 0
AreValid ext c b sigs = All (λ sig. verify_block_signature ext c b sig ≡ true) sigs

abbrev pub IsSigned : External → Consensus → Option Block → Type 0
IsSigned ext c none = Unit
IsSigned ext c (some b) = AreValid ext c b b.signatures

-- `c'` is the same node as `c`, and has its peers under the same keys.
pub record Continues (c c' : Consensus) : Type 0 where
  pub same_id : c'.node_id ≡ c.node_id
  pub same_secret : c'.private_key ≡ c.private_key
  pub keeps : (id key : Id32) → signer_key c id ≡ some key → signer_key c' id ≡ some key

AreValid-Continues :
    (ext : External) (c c' : Consensus) (b : Block) (sigs : List NodeSignature)
    → Continues c c'
    → AreValid ext c b sigs
    → AreValid ext c' b sigs
unfolding verify_block_signature
AreValid-Continues ext c c' b [] k v = tt
AreValid-Continues ext c c' b (sig ∷ sigs) k v = (
  elim (Option-cases (signer_key c sig.node_id)) [
    | inl unknown ↦ absurd (ground (arith, unknown, v.0))
    | inr (key, found) ↦
        rw (verify_block_signature, k.keeps sig.node_id key found) (ground (arith, found, v.0))
  ],
  AreValid-Continues ext c c' b sigs k v.1,
)

pub IsSigned-Continues :
    (ext : External) (c c' : Consensus) (p : Option Block)
    → Continues c c'
    → IsSigned ext c p
    → IsSigned ext c' p
IsSigned-Continues ext c c' none k h = tt
IsSigned-Continues ext c c' (some b) k h = AreValid-Continues ext c c' b b.signatures k h

find_key-append :
    (id key : Id32) (ps qs : List Peer)
    → find_key id ps ≡ some key
    → find_key id (ps ++ qs) ≡ some key
find_key-append id key [] qs e = absurd (ground (arith, e))
find_key-append id key (p ∷ ps) qs e = ground (arith, e, find_key-append id key ps qs)

pub itself : (c : Consensus) → Continues c c
itself c = record { same_id = refl; same_secret = refl; keeps = λ id key found. found }

pub followed : (a b c : Consensus) → Continues a b → Continues b c → Continues a c
followed a b c h k = record {
  same_id = k.same_id ∙ h.same_id;
  same_secret = k.same_secret ∙ h.same_secret;
  keeps = λ id key found. k.keeps id key (h.keeps id key found);
}

signer_key-append :
    (c c' : Consensus) (qs : List Peer) (id key : Id32)
    → c'.node_id ≡ c.node_id
    → c'.peers ≡ c.peers ++ qs
    → signer_key c id ≡ some key
    → signer_key c' id ≡ some key
signer_key-append c c' qs id key same more found = elim (Bool-cases (id == c.node_id)) [
  | inl self ↦ rw (same, self) (ground (arith, self, found))
  | inr other ↦
      rw (same, other, more) (find_key-append id key c.peers qs (ground (arith, other, found)))
]

with_peers :
    (c c' : Consensus) (qs : List Peer)
    → c'.node_id ≡ c.node_id
    → c'.private_key ≡ c.private_key
    → c'.peers ≡ c.peers ++ qs
    → Continues c c'
with_peers c c' qs id secret peers = record {
  same_id = id;
  same_secret = secret;
  keeps = λ j key found. signer_key-append c c' qs j key id peers found;
}

pub with_same_peers :
    (c c' : Consensus)
    → c'.node_id ≡ c.node_id
    → c'.private_key ≡ c.private_key
    → c'.peers ≡ c.peers
    → Continues c c'
with_same_peers c c' id secret peers =
    with_peers c c' [] id secret (peers ∙ sym (append-nil c.peers))

pub add_peer-Continues :
    (id key : Id32) (address : String) (c : Consensus) → Continues c (add_peer id key address c).1
unfolding add_peer
add_peer-Continues id key address c =
    let new : Peer = record { id = id; address = address; public_key = key } in
    let c' = (add_peer id key address c).1 in
    let frame : (c'.node_id ≡ c.node_id)
        × (c'.private_key ≡ c.private_key)
        × ((c'.peers ≡ c.peers) ⊎ (c'.peers ≡ c.peers ++ new ∷ [])) =
      ground arith in
    elim (frame.2) [
      | inl same ↦ with_same_peers c c' frame.0 frame.1 same
      | inr more ↦ with_peers c c' (new ∷ []) frame.0 frame.1 more
    ]

pub receive-Continues :
    (height round : ℕ) (from : Id32) (c : Consensus)
    → Continues c (receive_view_change height round from c).1
unfolding receive_view_change
receive-Continues height round from c =
    with_same_peers c (receive_view_change height round from c).1 (ground arith) (ground arith)
      (ground arith)

pub request-Continues : (height : ℕ) (c : Consensus) → Continues c (request_view_change height c).1
unfolding request_view_change
request-Continues height c =
    with_same_peers c (request_view_change height c).1 (ground arith) (ground arith) (ground arith)

-- the signers of a list, each once
abbrev pub signers : List NodeSignature → List Id32 → List Id32
signers [] set = set
signers (sig ∷ sigs) set = signers sigs (set_insert sig.node_id set)

valid_counts :
    (ext : External) (c : Consensus) (b : Block) (sig : NodeSignature)
    → verify_block_signature ext c b sig ≡ true
    → sig_counts ext c b.header sig ≡ true
unfolding verify_block_signature
valid_counts ext c b sig valid = ground (arith, valid)

valid_counted :
    (ext : External) (c : Consensus) (b : Block) (sigs : List NodeSignature) (set : List Id32)
    → AreValid ext c b sigs
    → unique_signers ext c b.header sigs set ≡ signers sigs set
unfolding unique_signers
valid_counted ext c b [] set v = refl
valid_counted ext c b (sig ∷ sigs) set v =
    let counted : count_signer ext c b.header sig set ≡ set_insert sig.node_id set =
      count_signer_lem ext c b.header sig set ∙ rw (valid_counts ext c b sig v.0) refl in
    ap (unique_signers ext c b.header sigs) counted
    ∙ valid_counted ext c b sigs (set_insert sig.node_id set) v.1

-- With valid signatures only, a block is final exactly when enough different nodes have signed it.
pub valid_finalized :
    (ext : External) (c : Consensus) (b : Block)
    → AreValid ext c b b.signatures
    → is_finalized ext c b ≡ leb c.min_signatures (length (signers b.signatures []))
unfolding is_finalized
valid_finalized ext c b v =
    ap (λ set. leb c.min_signatures (length set)) (valid_counted ext c b b.signatures [] v)

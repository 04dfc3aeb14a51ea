-- ===== src/Node/Loop/Signatures.antt =====
-- The signatures on the pending block: what messages and a leader's block do to them.
use routinechain.Base.{
  ℕ, ℤ, String, ◌≡◌, refl, sym, ap, subst, Bool-cases, Option-cases, inl, inr, Option, none, some,
  List, [], ◌∷◌, All-append, arith, length, ◌==◌, ◌&&◌, ltb, sub_u64, add_u64,
}
use routinechain.Types.Block.{Block, NodeSignature}
use routinechain.Types.Bytes.{Hash}
use routinechain.Types.Transaction.{Transaction}
use routinechain.Store.{Store, get_latest_height}
use routinechain.External.{External}
use routinechain.Machine.Execute.{Settings}
use routinechain.Consensus.{
  Consensus, ConsensusMessage, propose, sign, request_txs, submit_tx, view_change, handshake,
  add_peer, reset_round,
}
use routinechain.Consensus.Signing.{signer_key, verify_block_signature, is_finalized}
use routinechain.Consensus.Proposals.{Signs}
use routinechain.Consensus.Keys.{
  IsSigned, Continues, with_same_peers, followed, IsSigned-Continues, add_peer-Continues,
  receive-Continues,
}
use routinechain.Node.{produce, conclude, build_block}
use routinechain.Node.Production.{produced}
use routinechain.Node.Loop.{Drained, collect_signature, handle_message, handle_messages}

-- The node is the one of the beginning, and the pending block's signatures are valid.
abbrev pub IsSound : External → Consensus → Consensus → Option Block → Type 0
IsSound ext c0 c p = Continues c0 c × IsSigned ext c p

pub advanced :
    (ext : External) (c0 c c' : Consensus) (p : Option Block)
    → Continues c c'
    → IsSound ext c0 c p
    → IsSound ext c0 c' p
advanced ext c0 c c' p k h = (followed c0 c c' h.0 k, IsSigned-Continues ext c c' p k h.1)

-- Only a valid signature is added.
collect_signature-IsSigned :
    (ext : External) (c : Consensus) (height : ℕ) (sig : NodeSignature) (p : Option Block)
    → IsSigned ext c p
    → IsSigned ext c (collect_signature ext c height sig p)
unfolding collect_signature verify_block_signature
collect_signature-IsSigned ext c height sig none h = h
collect_signature-IsSigned ext c height sig (some pb) h =
    elim (Bool-cases (pb.header.height == height && verify_block_signature ext c pb sig)) [
      | inl valid ↦
          rw (collect_signature, valid)
            (All-append _ pb.signatures (sig ∷ []) h (ground (arith, valid), tt))
      | inr other ↦ rw (collect_signature, other) h
    ]

message-IsSound :
    (ext : External) (addr : String) (c0 : Consensus) (msg : ConsensusMessage) (d : Drained)
    → IsSound ext c0 d.consensus d.pending
    → let d' = handle_message ext addr msg d in IsSound ext c0 d'.consensus d'.pending
unfolding handle_message
message-IsSound ext addr c0 (sign height sig) d h =
    (h.0, collect_signature-IsSigned ext d.consensus height sig d.pending h.1)
message-IsSound ext addr c0 (view_change height round from) d h =
    advanced ext c0 d.consensus _ d.pending (receive-Continues height round from d.consensus) h
message-IsSound ext addr c0 (handshake id key address) d h =
    let joined =
      advanced ext c0 d.consensus _ d.pending (add_peer-Continues id key address d.consensus) h in
    elim (Bool-cases ((add_peer id key address d.consensus).0)) [
      | inl new ↦ rw (handle_message, new) joined
      | inr known ↦ rw (handle_message, known) joined
    ]
message-IsSound ext addr c0 (propose _) d h = h
message-IsSound ext addr c0 (submit_tx _) d h = h
message-IsSound ext addr c0 request_txs d h = h

pub messages-IsSound :
    (ext : External) (addr : String) (c0 : Consensus) (msgs : List ConsensusMessage) (d : Drained)
    → IsSound ext c0 d.consensus d.pending
    → let d' = handle_messages ext addr msgs d in IsSound ext c0 d'.consensus d'.pending
unfolding handle_messages
messages-IsSound ext addr c0 [] d h = h
messages-IsSound ext addr c0 (msg ∷ msgs) d h =
    messages-IsSound ext addr c0 msgs (handle_message ext addr msg d)
      (message-IsSound ext addr c0 msg d h)

-- The leader's own signature is valid by the node's own key.
built-IsSigned :
    (ext : External) (c : Consensus) (height : ℕ) (prev : Hash) (now : ℤ) (txs : List Transaction)
    (s : Store)
    → Signs ext c.private_key c.node_id
    → IsSigned ext c (some (build_block ext c height prev now txs s))
unfolding build_block verify_block_signature
built-IsSigned ext c height prev now txs s signs =
    let own : signer_key c c.node_id ≡ some c.node_id = ground arith in
    (rw (verify_block_signature, own) (signs _), tt)

-- Neither is the round.
pub on_reset : (c : Consensus) → Continues c (reset_round c)
on_reset c = record { same_id = refl; same_secret = refl; keeps = λ id key found. found }

-- The pool is not part of what is kept.
pub pooled : (c : Consensus) (txs : List Transaction) → Continues c (record c { pending_txs = txs })
pooled c txs = record { same_id = refl; same_secret = refl; keeps = λ id key found. found }

produce_frame :
    (ext : External) (cfg : Settings) (now : ℤ) (c : Consensus) (s : Store)
    → let (made, c', s') = produce ext cfg now c s in
      (c'.node_id ≡ c.node_id) × (c'.private_key ≡ c.private_key) × (c'.peers ≡ c.peers)
unfolding produce
produce_frame ext cfg now c s =
    elim (Option-cases (s.blocks (sub_u64 (add_u64 (get_latest_height s) 1) 1))) [
      | inl missing ↦ ground (arith, missing)
      | inr (prev, found) ↦ ground (arith, found)
    ]

produced-IsSigned :
    (ext : External) (cfg : Settings) (now : ℤ) (c : Consensus) (s : Store) (made : Option Block)
    → Signs ext c.private_key c.node_id
    → (produce ext cfg now c s).0 ≡ made
    → IsSigned ext (record c { pending_txs = [] }) made
produced-IsSigned ext cfg now c s none signs e = tt
produced-IsSigned ext cfg now c s (some b) signs e =
    let (made, c', s') = produce ext cfg now c s in
    let (prev, leads, found, end, built) =
      produced ext cfg now c c' s s' b (ap (λ m. (m, c', s')) e) in
    subst (λ x. IsSigned ext (record c { pending_txs = [] }) (some x)) (sym built)
      (built-IsSigned ext (record c { pending_txs = [] }) _ _ now _ _ signs)

pub produce-IsSound :
    (ext : External) (cfg : Settings) (now : ℤ) (c0 c : Consensus) (s : Store)
    → Signs ext c.private_key c.node_id
    → Continues c0 c
    → let (made, c', s') = produce ext cfg now c s in IsSound ext c0 c' made
produce-IsSound ext cfg now c0 c s signs k =
    let (made, c', s') = produce ext cfg now c s in
    let frame = produce_frame ext cfg now c s in
    let emptied : Consensus = record c { pending_txs = [] } in
    advanced ext c0 emptied c' made (with_same_peers emptied c' frame.0 frame.1 frame.2)
      (followed c0 c emptied k (pooled c []), produced-IsSigned ext cfg now c s made signs refl)

pub conclude-IsSound :
    (ext : External) (c0 : Consensus) (b : Block) (c : Consensus) (s : Store)
    → IsSound ext c0 c (some b)
    → let (pending, c', s') = conclude ext b c s in IsSound ext c0 c' pending
unfolding conclude
conclude-IsSound ext c0 b c s h = elim (Bool-cases (ltb 0 (length c.peers))) [
  | inr solo ↦ rw (conclude, solo) (h.0, tt)
  | inl peers ↦ elim (Bool-cases (is_finalized ext c b)) [
    | inl final ↦
        rw (conclude, peers, final) (advanced ext c0 c (reset_round c) none (on_reset c) (h.0, tt))
    | inr waits ↦ rw (conclude, peers, waits) h
  ]
]

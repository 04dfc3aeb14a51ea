-- ===== src/Node/Loop/Messages.antt =====
-- What draining the messages does to the pending block and collects as proposals.
use routinechain.Base.{ℕ, String, Bool-cases, inl, inr, Option, List, [], ◌∷◌, All, All-append}
use routinechain.Types.Block.{Block, NodeSignature}
use routinechain.External.{External}
use routinechain.Consensus.{
  ConsensusMessage, Consensus, propose, sign, request_txs, submit_tx, view_change, handshake,
  add_peer,
}
use routinechain.Node.Loop.{Drained, collect_signature, handle_message, handle_messages}

-- The block in the message, if it is a proposal, satisfies P.
abbrev pub OnProposal : (Block → Type 0) → ConsensusMessage → Type 0
OnProposal P (propose b) = P b
OnProposal P _ = Unit

message-proposals :
    (P : Block → Type 0) (ext : External) (addr : String) (msg : ConsensusMessage) (d : Drained)
    → OnProposal P msg
    → All P d.proposals
    → All P (handle_message ext addr msg d).proposals
unfolding handle_message
message-proposals P ext addr (propose b) d p h = All-append P d.proposals (b ∷ []) h (p, tt)
message-proposals P ext addr (handshake id key address) d p h =
    elim (Bool-cases ((add_peer id key address d.consensus).0)) [
      | inl new ↦ rw (handle_message, new) h
      | inr known ↦ rw (handle_message, known) h
    ]
message-proposals P ext addr (submit_tx _) d p h = h
message-proposals P ext addr (sign _ _) d p h = h
message-proposals P ext addr request_txs d p h = h
message-proposals P ext addr (view_change _ _ _) d p h = h

pub messages-proposals :
    (P : Block → Type 0) (ext : External) (addr : String) (msgs : List ConsensusMessage)
    (d : Drained)
    → All (OnProposal P) msgs
    → All P d.proposals
    → All P (handle_messages ext addr msgs d).proposals
unfolding handle_messages
messages-proposals P ext addr [] d p h = h
messages-proposals P ext addr (msg ∷ msgs) d p h =
    messages-proposals P ext addr msgs (handle_message ext addr msg d) p.1
      (message-proposals P ext addr msg d p.0 h)

-- A property of the pending block that signatures do not touch is kept by messages.
pub messages-pending :
    (P : Option Block → Type 0) (ext : External) (addr : String) (msgs : List ConsensusMessage)
    (d : Drained)
    → ((c : Consensus) (height : ℕ) (sig : NodeSignature) (p : Option Block)
        → P p
        → P (collect_signature ext c height sig p))
    → P d.pending
    → P (handle_messages ext addr msgs d).pending
unfolding handle_messages handle_message
messages-pending P ext addr [] d k h = h
messages-pending P ext addr (sign height sig ∷ msgs) d k h =
    messages-pending P ext addr msgs _ k (k d.consensus height sig d.pending h)
messages-pending P ext addr (handshake id key address ∷ msgs) d k h =
    messages-pending P ext addr msgs _ k
      (elim (Bool-cases ((add_peer id key address d.consensus).0)) [
        | inl new ↦ rw (handle_message, new) h
        | inr known ↦ rw (handle_message, known) h
      ])
messages-pending P ext addr (propose _ ∷ msgs) d k h = messages-pending P ext addr msgs _ k h
messages-pending P ext addr (submit_tx _ ∷ msgs) d k h = messages-pending P ext addr msgs _ k h
messages-pending P ext addr (request_txs ∷ msgs) d k h = messages-pending P ext addr msgs _ k h
messages-pending P ext addr (view_change _ _ _ ∷ msgs) d k h =
    messages-pending P ext addr msgs _ k h

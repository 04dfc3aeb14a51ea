-- ===== src/Node/Loop/Fork.antt =====
-- Two blocks of one height in the main loop of crates/rc-node/src/main.rs: a proposal is applied
-- while a block of the same height waits for signatures.
use routinechain.Base.{
  ℕ, ℤ, ◌≡◌, refl, ap, subst, ◌∙◌, ◌*◌, ◌/◌, ◌%◌, ◌^◌, true, false, Option, none, some, List, [],
  ◌∷◌, ◌++◌, arith, ltb_ℤ, as_i64, wrapping_sub,
}
use routinechain.Types.Block.{Block, NodeSignature}
use routinechain.Types.Config.{ConsensusSettings}
use routinechain.Store.{Store, put_block}
use routinechain.External.{External}
use routinechain.Machine.Execute.{Settings}
use routinechain.Consensus.{Consensus, propose, sign}
use routinechain.Consensus.Signing.{is_finalized, verify_block_signature}
use routinechain.Node.{handle_proposal}
use routinechain.Node.Loop.{
  NodeState, Clock, Sent, to_peers, signed_message, handle_messages, handle_message,
  handle_proposals, settle_pending, prepare, view_timeout, lead, tick,
}
use routinechain.Node.Loop.Heard.{hearing, IsRecent, emptied, resting, signature_tick}

-- The pending block is not yet too old.
abbrev pub IsYoung : ConsensusSettings → Clock → Block → Type 0
IsYoung config clock pb =
    ltb_ℤ (as_i64 (config.block_time_ms / 2 * 4 % 2 ^ 64))
      (wrapping_sub clock.aged pb.header.timestamp)
    ≡ false

module _ (ext : External) (cfg : Settings) (config : ConsensusSettings) (peer_count : ℕ) where
  stays_pending :
      (clock : Clock) (c : Consensus) (s : Store) (pb : Block) (last : ℤ)
      → is_finalized ext (emptied c) pb ≡ false
      → IsYoung config clock pb
      → settle_pending ext cfg config peer_count clock (resting c s (some pb) last)
        ≡ resting c s (some pb) last
  unfolding settle_pending
  stays_pending clock c s pb last few young = rw (settle_pending, few, young) refl

  -- the round from the proposal on
  proposal_round : Clock → Block → NodeState → List Sent × NodeState
  proposal_round clock b n1 =
      let (signed, s') = handle_proposals ext cfg n1.consensus (b ∷ []) n1.store in
      let ready : NodeState = record n1 {
        store = s';
        consensus = record n1.consensus { pending_txs = (n1.consensus.pending_txs ++ []) ++ [] };
      } in
      elim n1.pending_block [
        | some _ ↦ (signed, ready)
        | none ↦
            let (voted, waiting) = view_timeout ext cfg config peer_count clock ready in
            let (led, after) = lead ext cfg config peer_count clock waiting in
            (signed ++ (voted ++ led), after)
      ]

  -- A round in which a proposal comes while another block is pending.
  pub pending_proposal_tick :
      (clock : Clock) (c : Consensus) (s s' : Store) (last : ℤ) (pb b : Block) (sig : NodeSignature)
      → handle_proposal ext cfg (emptied c) b s ≡ (some sig, s')
      → is_finalized ext (emptied c) pb ≡ false
      → IsYoung config clock pb
      → tick ext cfg config peer_count (hearing clock (propose b)) (resting c s (some pb) last)
        ≡ (to_peers (sign b.header.height sig) ∷ [], resting c s' (some pb) last)
  unfolding tick prepare handle_messages handle_message handle_proposals proposal_round
  pending_proposal_tick clock c s s' last pb b sig handled few young =
      ap (proposal_round clock b) (stays_pending clock c s pb last few young)
      ∙ ap
          (λ (r : Option NodeSignature × Store).
            let out : List Sent × NodeState =
              (signed_message b.header.height r.0 ++ [], resting c r.1 (some pb) last) in
            out)
          handled

put_block-blocks :
    (b : Block) (s : Store) (height : ℕ)
    → b.header.height ≡ height
    → (put_block b s).blocks height ≡ some b
put_block-blocks b s height at = ground (arith, at)

-- A node can sign and store two blocks of one height, and end with the second in place of the first:
-- while its own block of the height waits for a signature, it signs and applies another one that is
-- proposed; when the signature for its own block comes, that block takes the place of the other. Its
-- own block is supposed to be not yet final, nor too old, and final with the signature, which is
-- valid; the other one to be stored when it is applied; and the node not to vote for another round.
pub pending_block_replaces :
    (ext : External) (cfg : Settings) (config : ConsensusSettings) (peer_count : ℕ) (k1 k2 : Clock)
    (c : Consensus) (s s' : Store) (last : ℤ) (pb b : Block) (own other : NodeSignature)
    → handle_proposal ext cfg (emptied c) b s ≡ (some own, s')
    → s'.blocks b.header.height ≡ some b
    → b.header.height ≡ pb.header.height
    → is_finalized ext (emptied c) pb ≡ false
    → IsYoung config k1 pb
    → verify_block_signature ext (emptied c) pb other ≡ true
    → is_finalized ext (emptied c) (record pb { signatures = pb.signatures ++ other ∷ [] }) ≡ true
    → IsRecent config k2 k2.finalized
    → let (sent, n1) =
        tick ext cfg config peer_count (hearing k1 (propose b)) (resting c s (some pb) last) in
      let (more, n2) =
        tick ext cfg config peer_count (hearing k2 (sign pb.header.height other)) n1 in
      (sent ≡ to_peers (sign pb.header.height own) ∷ [])
      × (n1.store.blocks pb.header.height ≡ some b)
      × (n2.store.blocks pb.header.height
          ≡ some (record pb { signatures = pb.signatures ++ other ∷ [] }))
pending_block_replaces ext cfg config peer_count k1 k2 c s s' last pb b own other handled applied at
      few young valid final recent =
    let first =
      pending_proposal_tick ext cfg config peer_count k1 c s s' last pb b own handled few young in
    let second =
      ap (tick ext cfg config peer_count (hearing k2 (sign pb.header.height other)))
        (ap (λ r. r.1) first)
      ∙ signature_tick ext cfg config peer_count k2 c s' last pb other valid final recent in
    (
      ap (λ r. r.0) first ∙ ap (λ h. to_peers (sign h own) ∷ []) at,
      ap (λ r. r.1.store.blocks pb.header.height) first
          ∙ subst (λ h. s'.blocks h ≡ some b) at applied,
      ap (λ r. r.1.store.blocks pb.header.height) second
          ∙ put_block-blocks (record pb { signatures = pb.signatures ++ other ∷ [] }) s'
              pb.header.height refl,
    )

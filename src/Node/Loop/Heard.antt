-- ===== src/Node/Loop/Heard.antt =====
-- A round of the main loop of crates/rc-node/src/main.rs in which one message comes: a proposal to
-- a follower, or a signature to the leader whose block is pending.
use routinechain.Base.{
  ℕ, ℤ, ◌≡◌, refl, ap, ◌∙◌, true, false, Option, none, some, List, [], ◌∷◌, ◌++◌, arith, ltb_ℤ,
  as_i64, wrapping_sub,
}
use routinechain.Types.Block.{Block, NodeSignature}
use routinechain.Types.Config.{ConsensusSettings}
use routinechain.Store.{Store, put_block}
use routinechain.External.{External}
use routinechain.Machine.Execute.{Settings}
use routinechain.Consensus.{Consensus, ConsensusMessage, propose, sign, reset_round}
use routinechain.Consensus.Signing.{is_finalized, verify_block_signature}
use routinechain.Node.{produce, handle_proposal}
use routinechain.Node.Loop.{
  NodeState, Clock, Inputs, Sent, to_peers, signed_message, collect_signature, handle_message,
  handle_messages, handle_proposals, settle_pending, prepare, view_timeout, finish_lead, lead, tick,
}

-- a round in which one message comes and no transaction
abbrev pub hearing : Clock → ConsensusMessage → Inputs
hearing clock msg = record { rpc_txs = []; messages = msg ∷ []; pooled_txs = []; clock = clock }

-- The last block is not so long ago that the node votes for another round.
abbrev pub IsRecent : ConsensusSettings → Clock → ℤ → Type 0
IsRecent config clock last =
    ltb_ℤ (as_i64 config.view_change_timeout_ms) (wrapping_sub clock.elapsed last) ≡ false

abbrev pub emptied : Consensus → Consensus
emptied c = record c { pending_txs = [] }

-- a node with an empty pool
abbrev pub resting : Consensus → Store → Option Block → ℤ → NodeState
resting c s pending last = record {
  consensus = emptied c;
  store = s;
  pending_block = pending;
  last_block_time_ms = last;
}

module _ (ext : External) (cfg : Settings) (config : ConsensusSettings) (peer_count : ℕ) where
  produce-waits :
      (now : ℤ) (c : Consensus) (s : Store)
      → c.pending_txs ≡ []
      → produce ext cfg now c s ≡ (none, c, s)
  unfolding produce
  produce-waits now c s empty = ground (arith, empty)

  -- Without pending transactions, and with a recent block, a node that waits for nothing stays so.
  waits :
      (clock : Clock) (n : NodeState)
      → n.consensus.pending_txs ≡ []
      → lead ext cfg config peer_count clock n ≡ ([], n)
  unfolding lead finish_lead
  waits clock n empty =
      ap
        (λ (r : Option Block × Consensus × Store).
          finish_lead ext cfg config peer_count clock r.0 r.1 r.2 n)
        (produce-waits clock.executed n.consensus n.store empty)

  pub no_timeout :
      (clock : Clock) (n : NodeState)
      → IsRecent config clock n.last_block_time_ms
      → view_timeout ext cfg config peer_count clock n ≡ ([], n)
  unfolding view_timeout
  no_timeout clock n recent = ground (arith, recent)

  -- The rest of a round in which nothing is pending and the pool is empty.
  pub rest_of_round :
      (clock : Clock) (sent : List Sent) (ready : NodeState)
      → ready.consensus.pending_txs ≡ []
      → IsRecent config clock ready.last_block_time_ms
      → let (voted, waiting) = view_timeout ext cfg config peer_count clock ready in
        let (led, after) = lead ext cfg config peer_count clock waiting in
        ◌≡◌ {A = List Sent × NodeState} (sent ++ (voted ++ led), after) (sent ++ [], ready)
  rest_of_round clock sent ready empty recent =
      ap
        (λ (r : List Sent × NodeState).
          let (led, after) = lead ext cfg config peer_count clock r.1 in
          (sent ++ (r.0 ++ led), after))
        (no_timeout clock ready recent)
      ∙ ap (λ (r : List Sent × NodeState). (sent ++ r.0, r.1)) (waits clock ready empty)

  -- A round in which a proposal comes that the node signs.
  pub proposal_tick :
      (clock : Clock) (f : Consensus) (s s' : Store) (last : ℤ) (b : Block) (sig : NodeSignature)
      → handle_proposal ext cfg (emptied f) b s ≡ (some sig, s')
      → IsRecent config clock last
      → tick ext cfg config peer_count (hearing clock (propose b)) (resting f s none last)
        ≡ (to_peers (sign b.header.height sig) ∷ [], resting f s' none last)
  unfolding tick prepare handle_messages handle_message settle_pending handle_proposals
  proposal_tick clock f s s' last b sig handled recent =
      ap
        (λ (r : Option NodeSignature × Store).
          let (voted, waiting) =
            view_timeout ext cfg config peer_count clock (resting f r.1 none last) in
          let (led, after) = lead ext cfg config peer_count clock waiting in
          ((signed_message b.header.height r.0 ++ []) ++ (voted ++ led), after))
        handled
      ∙ rest_of_round clock (to_peers (sign b.header.height sig) ∷ []) (resting f s' none last) refl
          recent

  -- The round from the settling of the pending block on, when no other message came.
  settled_round : Clock → NodeState → List Sent × NodeState
  settled_round clock n =
      let ready : NodeState = record n {
        consensus = record n.consensus { pending_txs = (n.consensus.pending_txs ++ []) ++ [] };
      } in
      elim ready.pending_block [
        | some _ ↦ ([], ready)
        | none ↦
            let (voted, waiting) = view_timeout ext cfg config peer_count clock ready in
            let (led, after) = lead ext cfg config peer_count clock waiting in (voted ++ led, after)
      ]

  tick_of_signature :
      (clock : Clock) (c : Consensus) (s : Store) (last : ℤ) (pb : Block) (sig : NodeSignature)
      (p : Option Block)
      → collect_signature ext (emptied c) pb.header.height sig (some pb) ≡ p
      → tick ext cfg config peer_count
          (hearing clock (sign pb.header.height sig))
          (resting c s (some pb) last)
        ≡ settled_round clock (settle_pending ext cfg config peer_count clock (resting c s p last))
  unfolding tick prepare handle_messages handle_message handle_proposals settled_round
  tick_of_signature clock c s last pb sig p collected =
      ap
        (λ q.
          settled_round clock (settle_pending ext cfg config peer_count clock (resting c s q last)))
        collected

  collected :
      (c : Consensus) (pb : Block) (sig : NodeSignature)
      → verify_block_signature ext c pb sig ≡ true
      → collect_signature ext c pb.header.height sig (some pb)
        ≡ some (record pb { signatures = pb.signatures ++ sig ∷ [] })
  unfolding collect_signature
  collected c pb sig valid = ground (arith, valid)

  settled :
      (clock : Clock) (c : Consensus) (s : Store) (last : ℤ) (b : Block)
      → is_finalized ext (emptied c) b ≡ true
      → settle_pending ext cfg config peer_count clock (resting c s (some b) last)
        ≡ resting (reset_round c) (put_block b s) none clock.finalized
  unfolding settle_pending
  settled clock c s last b final = rw (settle_pending, final) refl

  -- A round in which a signature comes that makes the pending block final.
  pub signature_tick :
      (clock : Clock) (c : Consensus) (s : Store) (last : ℤ) (pb : Block) (sig : NodeSignature)
      → let signed : Block = record pb { signatures = pb.signatures ++ sig ∷ [] } in
        verify_block_signature ext (emptied c) pb sig ≡ true
        → is_finalized ext (emptied c) signed ≡ true
        → IsRecent config clock clock.finalized
        → tick ext cfg config peer_count
            (hearing clock (sign pb.header.height sig))
            (resting c s (some pb) last)
          ≡ ([], resting (reset_round c) (put_block signed s) none clock.finalized)
  unfolding settled_round
  signature_tick clock c s last pb sig valid final recent =
      let signed : Block = record pb { signatures = pb.signatures ++ sig ∷ [] } in
      tick_of_signature clock c s last pb sig (some signed) (collected (emptied c) pb sig valid)
      ∙ ap (settled_round clock) (settled clock c s last signed final)
      ∙ rest_of_round clock [] (resting (reset_round c) (put_block signed s) none clock.finalized)
          refl recent

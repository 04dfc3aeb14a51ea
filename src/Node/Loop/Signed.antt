-- ===== src/Node/Loop/Signed.antt =====
-- The signatures on the pending block, over rounds of the main loop.
use routinechain.Base.{
  ℕ, ℤ, ◌/◌, ◌*◌, ◌%◌, ◌^◌, ◌≡◌, subst, ◌∙◌, Bool-cases, Option-cases, inl, inr, Option, none, some,
  List, [], ◌∷◌, length, ◌&&◌, ltb, ltb_ℤ, leb, as_i64, wrapping_sub,
}
use routinechain.Types.Block.{Block}
use routinechain.Types.Config.{ConsensusSettings}
use routinechain.Store.{Store}
use routinechain.External.{External}
use routinechain.Machine.Execute.{Settings}
use routinechain.Consensus.{Consensus, reset_round}
use routinechain.Consensus.Signing.{is_finalized}
use routinechain.Consensus.Proposals.{Signs}
use routinechain.Consensus.Keys.{
  AreValid, IsSigned, Continues, itself, request-Continues, signers, valid_finalized,
}
use routinechain.Node.{produce}
use routinechain.Node.Loop.Signatures.{
  IsSound, advanced, messages-IsSound, pooled, on_reset, produce-IsSound, conclude-IsSound,
}
use routinechain.Node.Loop.Steps.{view_timeout_frame}
use routinechain.Node.Loop.{
  NodeState, Clock, Inputs, handle_messages, settle_pending, prepare, view_timeout, publish,
  finish_lead, lead, tick, ticks,
}

module _ (ext : External) (cfg : Settings) (config : ConsensusSettings) (peer_count : ℕ)
    (c0 : Consensus) where
  settle-IsSound :
      (clock : Clock) (c : Consensus) (s : Store) (p : Option Block) (last : ℤ)
      → IsSound ext c0 c p
      → let n =
          settle_pending ext cfg config peer_count clock
            (record { consensus = c; store = s; pending_block = p; last_block_time_ms = last }) in
        IsSound ext c0 n.consensus n.pending_block
  unfolding settle_pending
  settle-IsSound clock c s none last h = h
  settle-IsSound clock c s (some pb) last h = elim (Bool-cases (is_finalized ext c pb)) [
    | inl final ↦
        rw (settle_pending, final) (advanced ext c0 c (reset_round c) none (on_reset c) (h.0, tt))
    | inr waits ↦
        elim (Bool-cases (
          ltb_ℤ (as_i64 (config.block_time_ms / 2 * 4 % 2 ^ 64))
            (wrapping_sub clock.aged pb.header.timestamp))) [
              | inl old ↦ rw (settle_pending, waits, old) (h.0, tt)
              | inr young ↦ rw (settle_pending, waits, young) h
            ]
  ]

  prepare-IsSound :
      (i : Inputs) (n : NodeState)
      → IsSound ext c0 n.consensus n.pending_block
      → let (sent, ready) = prepare ext cfg config peer_count i n in
        IsSound ext c0 ready.consensus ready.pending_block
  unfolding prepare
  prepare-IsSound i n h =
      let d = handle_messages ext config.listen_address i.messages (record {
        incoming_txs = i.rpc_txs;
        proposals = [];
        pending = n.pending_block;
        consensus = n.consensus;
        sent = [];
      }) in
      let drained = messages-IsSound ext config.listen_address c0 i.messages _ h in
      advanced ext c0 _ _ _ (pooled _ _)
        (settle-IsSound i.clock d.consensus n.store d.pending n.last_block_time_ms drained)

  timeout-IsSound :
      (clock : Clock) (n : NodeState)
      → IsSound ext c0 n.consensus n.pending_block
      → let (sent, n') = view_timeout ext cfg config peer_count clock n in
        IsSound ext c0 n'.consensus n'.pending_block
  unfolding view_timeout
  timeout-IsSound clock n h =
      let late =
        ltb 0 peer_count
        && ltb_ℤ (as_i64 config.view_change_timeout_ms)
            (wrapping_sub clock.elapsed n.last_block_time_ms) in
      elim (Bool-cases late) [
        | inl now ↦
            rw (view_timeout, now)
              (advanced ext c0 n.consensus _ n.pending_block (request-Continues _ n.consensus) h)
        | inr early ↦ rw (view_timeout, early) h
      ]

  finish_lead-IsSound :
      (clock : Clock) (made : Option Block) (c : Consensus) (s : Store) (n : NodeState)
      → n.pending_block ≡ none
      → IsSound ext c0 c made
      → let (sent, n') = finish_lead ext cfg config peer_count clock made c s n in
        IsSound ext c0 n'.consensus n'.pending_block
  unfolding finish_lead publish
  finish_lead-IsSound clock none c s n idle h = (h.0, rw idle tt)
  finish_lead-IsSound clock (some b) c s n idle h = conclude-IsSound ext c0 b c s h

  lead-IsSound :
      (clock : Clock) (n : NodeState)
      → Signs ext c0.private_key c0.node_id
      → n.pending_block ≡ none
      → Continues c0 n.consensus
      → let (sent, n') = lead ext cfg config peer_count clock n in
        IsSound ext c0 n'.consensus n'.pending_block
  unfolding lead
  lead-IsSound clock n signs idle k =
      let (made, c, s) = produce ext cfg clock.executed n.consensus n.store in
      let own : Signs ext n.consensus.private_key n.consensus.node_id =
        rw (k.same_id, k.same_secret) signs in
      finish_lead-IsSound clock made c s n idle
        (produce-IsSound ext cfg clock.executed c0 n.consensus n.store own k)

  tick-IsSound :
      (i : Inputs) (n : NodeState)
      → Signs ext c0.private_key c0.node_id
      → IsSound ext c0 n.consensus n.pending_block
      → let (sent, n') = tick ext cfg config peer_count i n in
        IsSound ext c0 n'.consensus n'.pending_block
  unfolding tick
  tick-IsSound i n signs h =
      let (sent, ready) = prepare ext cfg config peer_count i n in
      let sound = prepare-IsSound i n h in
      elim (Option-cases ready.pending_block) [
        | inr (b, waits) ↦ rw (tick, waits) sound
        | inl idle ↦
            let (same, still) = view_timeout_frame ext cfg config peer_count i.clock ready in
            rw (tick, idle)
              (lead-IsSound i.clock (view_timeout ext cfg config peer_count i.clock ready).1 signs
                (still ∙ idle) (timeout-IsSound i.clock ready sound).0)
      ]

  ticks-IsSound :
      (is : List Inputs) (n : NodeState)
      → Signs ext c0.private_key c0.node_id
      → IsSound ext c0 n.consensus n.pending_block
      → let n' = ticks ext cfg config peer_count is n in
        IsSound ext c0 n'.consensus n'.pending_block
  unfolding ticks
  ticks-IsSound [] n signs h = h
  ticks-IsSound (i ∷ is) n signs h =
      ticks-IsSound is (tick ext cfg config peer_count i n).1 signs (tick-IsSound i n signs h)

-- The pending block carries valid signatures only: from a node without a pending block, whose secret
-- key signs for its id, after any rounds of the main loop, whatever messages came, each signature on
-- the pending block is valid by the key of a node that the node knows; and the block counts as final
-- exactly when at least `min_signatures` different nodes have signed it.
pub pending_block_signed :
    (ext : External) (cfg : Settings) (config : ConsensusSettings) (peer_count : ℕ)
    (is : List Inputs) (n : NodeState) (b : Block)
    → n.pending_block ≡ none
    → Signs ext n.consensus.private_key n.consensus.node_id
    → (ticks ext cfg config peer_count is n).pending_block ≡ some b
    → let c = (ticks ext cfg config peer_count is n).consensus in
      AreValid ext c b b.signatures
      × (is_finalized ext c b ≡ leb c.min_signatures (length (signers b.signatures [])))
pending_block_signed ext cfg config peer_count is n b idle signs pending =
    let sound =
      ticks-IsSound ext cfg config peer_count n.consensus is n signs
        (itself n.consensus, rw idle tt) in
    let c = (ticks ext cfg config peer_count is n).consensus in
    let valid : AreValid ext c b b.signatures = subst (IsSigned ext c) pending sound.1 in
    (valid, valid_finalized ext c b valid)

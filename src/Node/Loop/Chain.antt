-- ===== src/Node/Loop/Chain.antt =====
-- Whole rounds of the main loop against the chain.
use routinechain.Base.{
  ℕ, ◌^◌, ◌<◌, ◌≡◌, ◌⊎◌, inl, inr, sym, subst, ◌∙◌, Option-cases, none, List, [], ◌∷◌, All, u64_max,
}
use routinechain.Types.Config.{ConsensusSettings}
use routinechain.Store.{get_latest_height}
use routinechain.External.{External}
use routinechain.Machine.Execute.{Settings}
use routinechain.Machine.Execute.Chain.{chain}
use routinechain.Node.Chain.{IsChain}
use routinechain.Node.Loop.{
  NodeState, Inputs, Drained, handle_messages, handle_proposals, settle_pending, prepare,
  view_timeout, tick, ticks,
}
use routinechain.Node.Loop.Messages.{OnProposal, messages-proposals, messages-pending}
use routinechain.Node.Loop.Steps.{
  PendingExtends, IsAhead, collect_signature-PendingExtends, handle_proposals-IsChain,
  settle_pending-IsAhead, settle_pending-idle, view_timeout_frame, no_proposals,
  collect_signature-none, lead-IsAhead,
}

-- While an own block is pending, no other one is proposed to the node.
abbrev pub IsUndisputed : Inputs → NodeState → Type 0
IsUndisputed i n = (n.pending_block ≡ none) ⊎ All (OnProposal (λ b. ⊥)) i.messages

-- Proposed heights are u64.
abbrev pub HeightsFit : Inputs → Type 0
HeightsFit i = All (OnProposal (λ b. b.header.height < 2 ^ 64)) i.messages

module _ (ext : External) (cfg : Settings) (config : ConsensusSettings) (peer_count : ℕ) where
  -- Rounds in which proposed heights are u64, none competes with the pending block, and the chain has
  -- not reached the last height when the node looks whether it leads.
  abbrev pub IsOrderly : List Inputs → NodeState → Type 0
  IsOrderly [] n = Unit
  IsOrderly (i ∷ is) n =
      (HeightsFit i
        × IsUndisputed i n
        × (get_latest_height (prepare ext cfg config peer_count i n).1.store < u64_max))
      × IsOrderly is (tick ext cfg config peer_count i n).1

  -- what `prepare` starts with
  abbrev drained : Inputs → NodeState → Drained
  drained i n = handle_messages ext config.listen_address i.messages (record {
    incoming_txs = i.rpc_txs;
    proposals = [];
    pending = n.pending_block;
    consensus = n.consensus;
    sent = [];
  })

  abbrev quieted : Inputs → NodeState → NodeState
  quieted i n =
      let d = drained i n in
      settle_pending ext cfg config peer_count i.clock
        (record n { consensus = d.consensus; pending_block = d.pending })

  quieted-IsAhead :
      (i : Inputs) (n : NodeState)
      → IsAhead ext n.pending_block n.store
      → IsAhead ext (quieted i n).pending_block (quieted i n).store
  quieted-IsAhead i n h =
      settle_pending-IsAhead ext cfg config peer_count i.clock (drained i n).consensus n.store
        (drained i n).pending n.last_block_time_ms
        (
          h.0,
          messages-pending (λ p. PendingExtends ext p (chain n.store)) ext config.listen_address
              i.messages _
              (λ c height sig p e.
                collect_signature-PendingExtends ext (chain n.store) c height sig p e)
              h.1,
        )

  quieted-idle :
      (i : Inputs) (n : NodeState) → n.pending_block ≡ none → (quieted i n).pending_block ≡ none
  quieted-idle i n idle =
      let emptied : (drained i n).pending ≡ none =
        messages-pending (λ p. p ≡ none) ext config.listen_address i.messages _
          (λ c height sig p e. collect_signature-none ext c height sig p e) idle in
      settle_pending-idle ext cfg config peer_count i.clock
        (record n { consensus = (drained i n).consensus; pending_block = (drained i n).pending })
        emptied

  prepare-IsAhead :
      (i : Inputs) (n : NodeState)
      → HeightsFit i
      → IsUndisputed i n
      → IsAhead ext n.pending_block n.store
      → let (sent, ready) = prepare ext cfg config peer_count i n in
        IsAhead ext ready.pending_block ready.store
  unfolding prepare handle_proposals
  prepare-IsAhead i n fits (inl idle) h = (
    handle_proposals-IsChain ext cfg (quieted i n).consensus (drained i n).proposals
        (quieted i n).store (messages-proposals _ ext config.listen_address i.messages _ fits tt)
        (quieted-IsAhead i n h).0,
    rw (quieted-idle i n idle) tt,
  )
  prepare-IsAhead i n fits (inr quiet) h =
      let same =
        no_proposals ext cfg (quieted i n).consensus (drained i n).proposals (quieted i n).store
          (messages-proposals _ ext config.listen_address i.messages _ quiet tt) in
      subst (IsAhead ext (quieted i n).pending_block) (sym same) (quieted-IsAhead i n h)

  tick-IsAhead :
      (i : Inputs) (n : NodeState)
      → HeightsFit i
      → IsUndisputed i n
      → get_latest_height (prepare ext cfg config peer_count i n).1.store < u64_max
      → IsAhead ext n.pending_block n.store
      → let (sent, n') = tick ext cfg config peer_count i n in IsAhead ext n'.pending_block n'.store
  unfolding tick
  tick-IsAhead i n fits quiet below h =
      let (sent, ready) = prepare ext cfg config peer_count i n in
      let ahead = prepare-IsAhead i n fits quiet h in
      elim (Option-cases ready.pending_block) [
        | inr (b, waits) ↦ rw (tick, waits) ahead
        | inl idle ↦
            let waiting = (view_timeout ext cfg config peer_count i.clock ready).1 in
            let (same, still) = view_timeout_frame ext cfg config peer_count i.clock ready in
            rw (tick, idle)
              (lead-IsAhead ext cfg config peer_count i.clock waiting (still ∙ idle)
                (subst (λ s. get_latest_height s < u64_max) (sym same) below)
                (subst (IsChain ext) (sym same) ahead.0))
      ]

  ticks-IsAhead :
      (is : List Inputs) (n : NodeState)
      → IsOrderly is n
      → IsAhead ext n.pending_block n.store
      → let n' = ticks ext cfg config peer_count is n in IsAhead ext n'.pending_block n'.store
  unfolding ticks
  ticks-IsAhead [] n o h = h
  ticks-IsAhead (i ∷ is) n o h =
      ticks-IsAhead is (tick ext cfg config peer_count i n).1 o.1
        (tick-IsAhead i n o.0.0 o.0.1 o.0.2 h)

-- The main loop keeps the blocks a chain: from a node without a pending block whose stored blocks
-- are one (up to the latest height every height has a block of that height, above it none has, and
-- each block names the hash of the header before it), any rounds lead to a node of which the same is
-- true. In these rounds, proposed heights are u64, the latest height is below the last u64 when the
-- node looks whether it leads, and no block is proposed to the node while one of its own is pending.
pub ticks-IsChain :
    (ext : External) (cfg : Settings) (config : ConsensusSettings) (peer_count : ℕ)
    (is : List Inputs) (n : NodeState)
    → n.pending_block ≡ none
    → IsChain ext n.store
    → IsOrderly ext cfg config peer_count is n
    → IsChain ext (ticks ext cfg config peer_count is n).store
ticks-IsChain ext cfg config peer_count is n idle h orderly =
    (ticks-IsAhead ext cfg config peer_count is n orderly (h, rw idle tt)).0

-- ===== src/Node/Loop/Steps.antt =====
-- The steps of one round against the chain: the pending block, the proposals, the leader's block.
use routinechain.Base.{
  ℕ, ℤ, ◌/◌, ◌*◌, ◌%◌, ◌^◌, ◌+◌, ◌<◌, ◌≡◌, sym, ap, subst, ◌∙◌, Bool-cases, inl, inr, Option-cases,
  Option, none, some, List, [], ◌∷◌, ◌++◌, All, arith, ltb, ltb_ℤ, as_i64, wrapping_sub, add_u64,
  sub_u64, u64_max, length, ◌==◌, ◌&&◌, refl,
}
use routinechain.Types.Block.{Block, NodeSignature}
use routinechain.Types.Config.{ConsensusSettings}
use routinechain.Store.{Store, get_latest_height}
use routinechain.External.{External}
use routinechain.Machine.Execute.{Settings}
use routinechain.Machine.Execute.Chain.{chain}
use routinechain.Consensus.{Consensus}
use routinechain.Consensus.Signing.{verify_block_signature, is_finalized}
use routinechain.Node.{produce, conclude, handle_proposal, build_block}
use routinechain.Node.Production.{produced}
use routinechain.Node.Chain.{
  Extends, IsChainOf, IsChain, put_block-IsChain, handle_proposal-IsChain, execute_valid-chain,
}
use routinechain.Node.Loop.{
  NodeState, Clock, collect_signature, handle_proposals, settle_pending, view_timeout, publish,
  finish_lead, lead,
}

-- The pending block, if any, can follow the latest block.
abbrev pub PendingExtends : External → Option Block → (ℕ → Option Block) × Option ℕ → Type 0
PendingExtends ext none c = Unit
PendingExtends ext (some b) c = Extends ext b c

-- The blocks are a chain, and the pending one can follow it.
abbrev pub IsAhead : External → Option Block → Store → Type 0
IsAhead ext p s = IsChain ext s × PendingExtends ext p (chain s)

with_signatures :
    (ext : External) (b : Block) (sigs : List NodeSignature) (c : (ℕ → Option Block) × Option ℕ)
    → Extends ext b c
    → Extends ext (record b { signatures = sigs }) c
with_signatures ext b sigs c e = record {
  next_height = e.next_height;
  previous = e.previous;
  found = e.found;
  links = e.links;
}

pub collect_signature-PendingExtends :
    (ext : External) (ch : (ℕ → Option Block) × Option ℕ) (c : Consensus) (height : ℕ)
    (sig : NodeSignature) (p : Option Block)
    → PendingExtends ext p ch
    → PendingExtends ext (collect_signature ext c height sig p) ch
unfolding collect_signature
collect_signature-PendingExtends ext ch c height sig none h = h
collect_signature-PendingExtends ext ch c height sig (some pb) h =
    elim (Bool-cases (pb.header.height == height && verify_block_signature ext c pb sig)) [
      | inl valid ↦
          rw (collect_signature, valid) (with_signatures ext pb (pb.signatures ++ sig ∷ []) ch h)
      | inr other ↦ rw (collect_signature, other) h
    ]

-- There is nothing to sign without proposals.
pub no_proposals :
    (ext : External) (cfg : Settings) (c : Consensus) (bs : List Block) (s : Store)
    → All (λ b. ⊥) bs
    → (handle_proposals ext cfg c bs s).1 ≡ s
unfolding handle_proposals
no_proposals ext cfg c [] s h = refl
no_proposals ext cfg c (b ∷ bs) s h = absurd h.0

pub collect_signature-none :
    (ext : External) (c : Consensus) (height : ℕ) (sig : NodeSignature) (p : Option Block)
    → p ≡ none
    → collect_signature ext c height sig p ≡ none
unfolding collect_signature
collect_signature-none ext c height sig p e = ap (collect_signature ext c height sig) e

-- The proposals of a round keep the chain.
pub handle_proposals-IsChain :
    (ext : External) (cfg : Settings) (c : Consensus) (bs : List Block) (s : Store)
    → All (λ b. b.header.height < 2 ^ 64) bs
    → IsChain ext s
    → IsChain ext (handle_proposals ext cfg c bs s).1
unfolding handle_proposals
handle_proposals-IsChain ext cfg c [] s fits h = h
handle_proposals-IsChain ext cfg c (b ∷ bs) s fits h =
    handle_proposals-IsChain ext cfg c bs (handle_proposal ext cfg c b s).1 fits.1
      (handle_proposal-IsChain ext cfg c b s fits.0 h)

conclude-IsAhead :
    (ext : External) (b : Block) (c : Consensus) (s : Store)
    → IsChain ext s
    → Extends ext b (chain s)
    → let (pending, c', s') = conclude ext b c s in IsAhead ext pending s'
unfolding conclude
conclude-IsAhead ext b c s h e = elim (Bool-cases (ltb 0 (length c.peers))) [
  | inr solo ↦ rw (conclude, solo) (put_block-IsChain ext s b h e, tt)
  | inl peers ↦ elim (Bool-cases (is_finalized ext c b)) [
    | inl final ↦ rw (conclude, peers, final) (put_block-IsChain ext s b h e, tt)
    | inr waits ↦ rw (conclude, peers, waits) (h, e)
  ]
]

produce-chain :
    (ext : External) (cfg : Settings) (now : ℤ) (c : Consensus) (s : Store)
    → let (made, c', s') = produce ext cfg now c s in chain s' ≡ chain s
unfolding produce
produce-chain ext cfg now c s =
    elim (Option-cases (s.blocks (sub_u64 (add_u64 (get_latest_height s) 1) 1))) [
      | inl missing ↦ ground (arith, missing)
      | inr (prev, found) ↦ ground (arith, found, execute_valid-chain cfg c.pending_txs now s)
    ]

produced-Extends :
    (ext : External) (cfg : Settings) (now : ℤ) (c c' : Consensus) (s s' : Store) (b : Block)
    → produce ext cfg now c s ≡ (some b, c', s')
    → get_latest_height s < u64_max
    → Extends ext b (chain s)
unfolding build_block
produced-Extends ext cfg now c c' s s' b made below =
    let (prev, leads, found, end, built) = produced ext cfg now c c' s s' b made in
    let next : add_u64 (get_latest_height s) 1 ≡ get_latest_height s + 1 = omega arith in
    let last : sub_u64 (add_u64 (get_latest_height s) 1) 1 ≡ get_latest_height s = omega arith in
    record {
      next_height = ap (λ x. x.header.height) built ∙ next;
      previous = prev;
      found = subst (λ k. s.blocks k ≡ some prev) last found;
      links = ap (λ x. x.header.prev_hash) built;
    }

produce-IsAhead :
    (ext : External) (cfg : Settings) (now : ℤ) (c : Consensus) (s : Store)
    → get_latest_height s < u64_max
    → IsChain ext s
    → let (made, c', s') = produce ext cfg now c s in IsAhead ext made s'
produce-IsAhead ext cfg now c s below h =
    let (made, c', s') = produce ext cfg now c s in
    (
      subst (IsChainOf ext) (sym (produce-chain ext cfg now c s)) h,
      subst (PendingExtends ext made) (sym (produce-chain ext cfg now c s))
          (elim (Option-cases made) [
            | inl nothing ↦ rw nothing tt
            | inr (b, some_b) ↦
                rw some_b
                  (produced-Extends ext cfg now c c' s s' b (ap (λ m. (m, c', s')) some_b) below)
          ]),
    )

module _ (ext : External) (cfg : Settings) (config : ConsensusSettings) (peer_count : ℕ) where
  -- The pending block is kept, dropped, or stored as the next one.
  pub settle_pending-IsAhead :
      (clock : Clock) (c : Consensus) (s : Store) (p : Option Block) (last : ℤ)
      → IsAhead ext p s
      → let n =
          settle_pending ext cfg config peer_count clock
            (record { consensus = c; store = s; pending_block = p; last_block_time_ms = last }) in
        IsAhead ext n.pending_block n.store
  unfolding settle_pending
  settle_pending-IsAhead clock c s none last h = h
  settle_pending-IsAhead clock c s (some pb) last h = elim (Bool-cases (is_finalized ext c pb)) [
    | inl final ↦ rw (settle_pending, final) (put_block-IsChain ext s pb h.0 h.1, tt)
    | inr waits ↦
        elim (Bool-cases (
          ltb_ℤ (as_i64 (config.block_time_ms / 2 * 4 % 2 ^ 64))
            (wrapping_sub clock.aged pb.header.timestamp))) [
              | inl old ↦ rw (settle_pending, waits, old) (h.0, tt)
              | inr young ↦ rw (settle_pending, waits, young) h
            ]
  ]

  -- Without a pending block there is nothing to settle.
  pub settle_pending-idle :
      (clock : Clock) (n : NodeState)
      → n.pending_block ≡ none
      → (settle_pending ext cfg config peer_count clock n).pending_block ≡ none
  unfolding settle_pending
  settle_pending-idle clock n idle = rw (settle_pending, idle) idle

  -- The time-out changes neither the store nor the pending block.
  pub view_timeout_frame :
      (clock : Clock) (n : NodeState)
      → let (sent, n') = view_timeout ext cfg config peer_count clock n in
        (n'.store ≡ n.store) × (n'.pending_block ≡ n.pending_block)
  unfolding view_timeout
  view_timeout_frame clock n = ground arith

  finish_lead-IsAhead :
      (clock : Clock) (made : Option Block) (c : Consensus) (s : Store) (n : NodeState)
      → n.pending_block ≡ none
      → IsAhead ext made s
      → let (sent, n') = finish_lead ext cfg config peer_count clock made c s n in
        IsAhead ext n'.pending_block n'.store
  unfolding finish_lead publish
  finish_lead-IsAhead clock none c s n idle h = (h.0, rw idle tt)
  finish_lead-IsAhead clock (some b) c s n idle h = conclude-IsAhead ext b c s h.0 h.1

  -- The leader's step keeps the chain, and a block that it leaves pending can follow it.
  pub lead-IsAhead :
      (clock : Clock) (n : NodeState)
      → n.pending_block ≡ none
      → get_latest_height n.store < u64_max
      → IsChain ext n.store
      → let (sent, n') = lead ext cfg config peer_count clock n in
        IsAhead ext n'.pending_block n'.store
  unfolding lead
  lead-IsAhead clock n idle below h =
      let (made, c, s) = produce ext cfg clock.executed n.consensus n.store in
      finish_lead-IsAhead clock made c s n idle
        (produce-IsAhead ext cfg clock.executed n.consensus n.store below h)

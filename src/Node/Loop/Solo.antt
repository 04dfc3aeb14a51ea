-- ===== src/Node/Loop/Solo.antt =====
-- A node without peers makes progress.
use routinechain.Base.{
  ℕ, ℤ, ◌+◌, ◌<◌, ◌≡◌, refl, ap, ◌∙◌, true, false, none, some, List, [], ◌∷◌, ◌++◌, is_empty, arith,
  add_u64, sub_u64, Option, u64_max,
}
use routinechain.Types.Transaction.{Transaction}
use routinechain.Types.Block.{Block}
use routinechain.Types.Config.{ConsensusSettings}
use routinechain.Store.{Store, put_block, get_latest_height}
use routinechain.External.{External}
use routinechain.Machine.Execute.{Settings}
use routinechain.Consensus.{
  Consensus, is_leader, leader_for_height_round, all_node_ids, sort, insert,
}
use routinechain.Consensus.Signing.{block_header_hash}
use routinechain.Node.{execute_valid, build_block, produce, conclude}
use routinechain.Node.Loop.{
  NodeState, Clock, Inputs, handle_messages, handle_proposals, settle_pending, prepare,
  view_timeout, publish, finish_lead, lead, tick,
}

solo_leads : (c : Consensus) (height : ℕ) → c.peers ≡ [] → is_leader c height ≡ true
unfolding leader_for_height_round all_node_ids sort insert
solo_leads c height alone = ground (arith, alone)

pending_of_valid :
    (cfg : Settings) (txs : List Transaction) (now : ℤ) (s : Store)
    → is_empty (execute_valid cfg txs now s).0 ≡ false
    → is_empty txs ≡ false
unfolding execute_valid
pending_of_valid cfg [] now s some_valid = some_valid
pending_of_valid cfg (tx ∷ txs) now s some_valid = refl

produce-solo :
    (ext : External) (cfg : Settings) (now : ℤ) (c : Consensus) (s : Store) (prev : Block)
    → c.peers ≡ []
    → s.blocks (get_latest_height s) ≡ some prev
    → get_latest_height s < u64_max
    → is_empty (execute_valid cfg c.pending_txs now s).0 ≡ false
    → let (valid, events, after) = execute_valid cfg c.pending_txs now s in
      produce ext cfg now c s ≡ (
        some (
            build_block ext
              (record c { pending_txs = [] })
              (add_u64 (get_latest_height s) 1)
              (block_header_hash ext prev.header)
              now
              valid
              after),
        record c { pending_txs = [] },
        after,
      )
unfolding produce
produce-solo ext cfg now c s prev alone found below some_valid =
    let last : sub_u64 (add_u64 (get_latest_height s) 1) 1 ≡ get_latest_height s = omega arith in
    rw
      (
        produce,
        solo_leads c (add_u64 (get_latest_height s) 1) alone,
        pending_of_valid cfg c.pending_txs now s some_valid,
        last,
        found,
        some_valid,
      )
      refl

conclude-solo :
    (ext : External) (b : Block) (c : Consensus) (s : Store)
    → c.peers ≡ []
    → conclude ext b c s ≡ (none, c, put_block b s)
unfolding conclude
conclude-solo ext b c s alone = rw (conclude, alone) refl

module _ (ext : External) (cfg : Settings) (config : ConsensusSettings) (clock : Clock) where
  -- a node that waits for nothing, and a round in which no message comes
  abbrev pub idle_node : Consensus → Store → ℤ → NodeState
  idle_node c s last = record {
    consensus = c;
    store = s;
    pending_block = none;
    last_block_time_ms = last;
  }

  abbrev pub quiet_round : List Transaction → List Transaction → Inputs
  quiet_round rpc_txs pooled_txs = record {
    rpc_txs = rpc_txs;
    messages = [];
    pooled_txs = pooled_txs;
    clock = clock;
  }

  -- the pool when the node looks whether it leads
  abbrev pub filled : Consensus → List Transaction → List Transaction → Consensus
  filled c rpc_txs pooled_txs = record c { pending_txs = (c.pending_txs ++ rpc_txs) ++ pooled_txs }

  quiet_tick :
      (c : Consensus) (s : Store) (last : ℤ) (rpc_txs pooled_txs : List Transaction)
      → (tick ext cfg config 0 (quiet_round rpc_txs pooled_txs) (idle_node c s last)).1
        ≡ (lead ext cfg config 0 clock (idle_node (filled c rpc_txs pooled_txs) s last)).1
  unfolding tick prepare handle_messages settle_pending handle_proposals view_timeout
  quiet_tick c s last rpc_txs pooled_txs = refl

  lead-solo :
      (c c' : Consensus) (s s' : Store) (b : Block) (last : ℤ)
      → c'.peers ≡ []
      → produce ext cfg clock.executed c s ≡ (some b, c', s')
      → (lead ext cfg config 0 clock (idle_node c s last)).1
        ≡ idle_node c' (put_block b s') clock.stored
  unfolding lead finish_lead publish
  lead-solo c c' s s' b last alone made =
      ap (λ r. (finish_lead ext cfg config 0 clock r.0 r.1 r.2 (idle_node c s last)).1) made
      ∙ ap
          (λ (r : Option Block × Consensus × Store). record {
            consensus = r.1;
            store = r.2;
            pending_block = r.0;
            last_block_time_ms = elim (r.0) [ some _ ↦ last | none ↦ clock.stored ];
          })
          (conclude-solo ext b c' s' alone)

-- A node without peers makes progress: if its pool, with what arrives in a round without messages,
-- holds a transaction that is accepted, then at the end of the round the next block is stored and is
-- the latest one, holds exactly the accepted transactions and names the hash of the one before it;
-- the pool is empty, and nothing is pending. The block of the latest height is supposed to be stored,
-- and that height to be below the last u64.
pub solo_progress :
    (ext : External) (cfg : Settings) (config : ConsensusSettings) (clock : Clock) (c : Consensus)
    (s : Store) (last : ℤ) (rpc_txs pooled_txs : List Transaction) (prev : Block)
    → c.peers ≡ []
    → s.blocks (get_latest_height s) ≡ some prev
    → get_latest_height s < u64_max
    → is_empty (execute_valid cfg ((c.pending_txs ++ rpc_txs) ++ pooled_txs) clock.executed s).0
      ≡ false
    → let i = quiet_round ext cfg config clock rpc_txs pooled_txs in
      let n' = (tick ext cfg config 0 i (idle_node ext cfg config clock c s last)).1 in
      (b : Block) × (n'.store.blocks (get_latest_height s + 1) ≡ some b)
      × (get_latest_height n'.store ≡ get_latest_height s + 1)
      × (b.transactions
          ≡ (execute_valid cfg ((c.pending_txs ++ rpc_txs) ++ pooled_txs) clock.executed s).0)
      × (b.header.prev_hash ≡ block_header_hash ext prev.header)
      × (n'.consensus.pending_txs ≡ [])
      × (n'.pending_block ≡ none)
unfolding build_block
solo_progress ext cfg config clock c s last rpc_txs pooled_txs prev alone found below some_valid =
    let pool = filled ext cfg config clock c rpc_txs pooled_txs in
    let (valid, events, after) = execute_valid cfg pool.pending_txs clock.executed s in
    let emptied : Consensus = record pool { pending_txs = [] } in
    let next : add_u64 (get_latest_height s) 1 ≡ get_latest_height s + 1 = omega arith in
    let b =
      build_block ext emptied (add_u64 (get_latest_height s) 1) (block_header_hash ext prev.header)
        clock.executed valid after in
    let ended =
      quiet_tick ext cfg config clock c s last rpc_txs pooled_txs
      ∙ lead-solo ext cfg config clock pool emptied s after b last alone
          (produce-solo ext cfg clock.executed pool s prev alone found below some_valid) in
    (
      b,
      ap (λ n. n.store.blocks (get_latest_height s + 1)) ended ∙ ground (arith, next),
      ap (λ n. get_latest_height n.store) ended ∙ next,
      refl,
      refl,
      ap (λ n. n.consensus.pending_txs) ended,
      ap (λ n. n.pending_block) ended,
    )

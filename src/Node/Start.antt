-- ===== src/Node/Start.antt =====
-- The start of a node in crates/rc-node/src/main.rs: what `start_node` makes of the configuration,
-- the keypair and the database before its loop. The reading of the files is in Node.Files, the start
-- of the servers is not modelled; the decoding of hex is a parameter.
use routinechain.Base.{
  ℕ, ℤ, String, Option, none, some, List, [], ◌∷◌, ◌==◌, ltb, if◌then◌else◌, length, is_empty,
  from_be_bytes, update, ◌≡◌, ◌⊎◌, inl, inr, subst, sym, ap, arith,
}
use routinechain.Types.Bytes.{Id32}
use routinechain.Types.Block.{genesis}
use routinechain.Types.Config.{PeerConfig, NodeConfig}
use routinechain.Store.{Store, get_block, put_block, empty}
use routinechain.External.{Bytes, External}
use routinechain.Store.Disk.{Io, done, failed}
use routinechain.Machine.Execute.{
  Settings, new_settings, with_dispute_threshold, with_platform_keys,
}
use routinechain.Machine.Execute.Chain.{chain}
use routinechain.Consensus.{Peer, handshake, new_consensus}
use routinechain.Node.Chain.{IsChain, IsChainOf, genesis-IsChain}
use routinechain.Node.Loop.{Sent, to_peers, NodeState, Inputs, ticks}
use routinechain.Node.Loop.Chain.{IsOrderly, ticks-IsChain}

-- a configured key or id, if it is 32 bytes in hex
unfoldable pub parse_key : (String → Io Bytes) → String → Option Id32
parse_key hex_decode hex = elim (hex_decode hex) [
  | failed _ ↦ none
  | done bytes ↦ if length bytes == 32 then some (from_be_bytes 0 bytes) else none
]

unfoldable pub parse_peer : (String → Io Bytes) → PeerConfig → Option Peer
parse_peer hex_decode p = elim (parse_key hex_decode p.id) [
  | none ↦ none
  | some id ↦ elim (parse_key hex_decode p.public_key) [
    | none ↦ none
    | some key ↦ some (record { id = id; address = p.address; public_key = key })
  ]
]

-- `iter().filter_map(f).collect()`
abbrev pub filter_map : {A B : Type 0} → (A → Option B) → List A → List B
filter_map f [] = []
filter_map f (x ∷ xs) = elim (f x) [ none ↦ filter_map f xs | some y ↦ y ∷ filter_map f xs ]

-- the genesis block is stored if there is none
abbrev pub init_genesis : ℤ → Id32 → Store → Store
init_genesis now node_public_key s = elim (get_block 0 s) [
  | some _ ↦ s
  | none ↦ put_block (genesis now node_public_key) s
]

-- what a node knows when its loop begins
pub record Started : Type 0 where
  pub settings : Settings
  pub peer_count : ℕ
  pub sent : List Sent
  pub state : NodeState

-- `start_node` up to its loop: the keypair, and the two readings of the clock, are arguments
unfoldable pub start_node :
    (String → Io Bytes) → NodeConfig → Id32 → ℕ → (genesis_time loop_time : ℤ) → Store → Started
start_node hex_decode config public_key private_key genesis_time loop_time s =
    let peers = filter_map (parse_peer hex_decode) config.peers in
    let min_signatures = if is_empty peers then 1 else config.consensus.min_signatures in
    record {
      settings =
          with_platform_keys
            (with_dispute_threshold (new_settings config.rcw.rewards) config.dispute.vote_threshold)
            (filter_map (parse_key hex_decode) config.platform_keys);
      peer_count = length peers;
      sent =
          if ltb 0 (length peers)
          then to_peers (handshake public_key public_key config.consensus.listen_address) ∷ []
          else [];
      state = record {
        consensus = new_consensus public_key private_key peers min_signatures;
        store = init_genesis genesis_time public_key s;
        pending_block = none;
        last_block_time_ms = loop_time;
      };
    }

-- A database that is new, or that an earlier run left with a chain.
abbrev pub IsStartable : External → Store → Type 0
IsStartable ext s = (chain s ≡ chain empty) ⊎ IsChain ext s

init_genesis-IsChain :
    (ext : External) (now : ℤ) (key : Id32) (s : Store)
    → IsStartable ext s
    → IsChain ext (init_genesis now key s)
init_genesis-IsChain ext now key s (inl new) =
    let absent : s.blocks 0 ≡ none = ap (λ c. c.0 0) new in
    let same : chain (put_block (genesis now key) s) ≡ chain (put_block (genesis now key) empty) =
      ap (λ c. (update c.0 0 (genesis now key), some 0)) new in
    rw (init_genesis, absent) (subst (IsChainOf ext) (sym same) (genesis-IsChain ext now key))
init_genesis-IsChain ext now key s (inr h) =
    let (b, there, at) = h.stored 0 (omega arith) in rw (init_genesis, there) h

-- A node keeps the blocks a chain, over restarts too: started on a new database, or on one whose
-- blocks are a chain, it ends any rounds of its loop with blocks that are a chain (up to the latest
-- height every height has a block of that height, above it none has, and each block names the hash
-- of the header before it). In these rounds, proposed heights are u64, the latest height is below the
-- last u64 when the node looks whether it leads, and no block is proposed to the node while one of
-- its own is pending.
pub node_blocks_linked :
    (ext : External) (hex_decode : String → Io Bytes) (config : NodeConfig) (public_key : Id32)
    (private_key : ℕ) (genesis_time loop_time : ℤ) (s : Store) (node : Started) (is : List Inputs)
    → IsStartable ext s
    → node ≡ start_node hex_decode config public_key private_key genesis_time loop_time s
    → IsOrderly ext node.settings config.consensus node.peer_count is node.state
    → IsChain ext (ticks ext node.settings config.consensus node.peer_count is node.state).store
unfolding start_node
node_blocks_linked ext hex_decode config public_key private_key genesis_time loop_time s node is
      startable started orderly =
    ticks-IsChain ext node.settings config.consensus node.peer_count is node.state
      (ap (λ m. m.state.pending_block) started)
      (subst (λ m. IsChain ext m.state.store) (sym started)
        (init_genesis-IsChain ext genesis_time public_key s startable))
      orderly

-- ===== src/Node/Loop.antt =====
-- One round of the main loop of crates/rc-node/src/main.rs as a step of the node's state. What the
-- channels yield and what the clock reads are arguments; the messages that are sent are a result.
pub mod Messages
pub mod Signatures
pub mod Signed
pub mod Solo
pub mod Steps
pub mod Chain
pub mod Heard
pub mod Fork
pub mod Agreement
use routinechain.Base.{
  ℕ, ℤ, ◌*◌, ◌/◌, ◌%◌, ◌^◌, String, ◌&&◌, Option, none, some, List, [], ◌∷◌, ◌++◌, ◌==◌, ltb, ltb_ℤ,
  as_i64, wrapping_sub, add_u64, add_u32, if◌then◌else◌, length,
}
use routinechain.Types.Transaction.{Transaction}
use routinechain.Types.Block.{Block, NodeSignature}
use routinechain.Types.Config.{ConsensusSettings}
use routinechain.Store.{Store, put_block, get_latest_height}
use routinechain.External.{External}
use routinechain.Machine.Execute.{Settings}
use routinechain.Consensus.{
  Peer, ConsensusMessage, propose, sign, request_txs, submit_tx, view_change, handshake, Consensus,
  push_txs, collect_pending_txs, request_view_change, receive_view_change, reset_round, add_peer,
}
use routinechain.Consensus.Signing.{verify_block_signature, is_finalized}
use routinechain.Node.{produce, conclude, handle_proposal}

-- a call of `broadcast`, or of `send_to_peer`
pub data Sent : Type 0 where
  to_peers : ConsensusMessage → Sent
  to_peer : Peer → ConsensusMessage → Sent

-- the variables of `main` that the loop changes
pub record NodeState : Type 0 where
  pub consensus : Consensus
  pub store : Store
  pub pending_block : Option Block
  pub last_block_time_ms : ℤ

-- the readings of `now_ms()` in one round, each at its place
pub record Clock : Type 0 where
  pub finalized : ℤ
  pub aged : ℤ
  pub elapsed : ℤ
  pub changed : ℤ
  pub executed : ℤ
  pub stored : ℤ

-- what the three channels yield in one round
pub record Inputs : Type 0 where
  pub rpc_txs : List Transaction
  pub messages : List ConsensusMessage
  pub pooled_txs : List Transaction
  pub clock : Clock

-- the variables while messages are drained
pub record Drained : Type 0 where
  pub incoming_txs : List Transaction
  pub proposals : List Block
  pub pending : Option Block
  pub consensus : Consensus
  pub sent : List Sent

-- the signature goes to the pending block, if it is on that and valid
unfoldable pub collect_signature :
    External → Consensus → ℕ → NodeSignature → Option Block → Option Block
collect_signature ext c height sig none = none
collect_signature ext c height sig (some pb) =
    if pb.header.height == height && verify_block_signature ext c pb sig
    then some (record pb { signatures = pb.signatures ++ sig ∷ [] })
    else some pb

-- one message of step 2
unfoldable pub handle_message : External → String → ConsensusMessage → Drained → Drained
handle_message ext listen_address (submit_tx tx) d = record d {
  incoming_txs = d.incoming_txs ++ tx ∷ [];
}
handle_message ext listen_address (propose b) d = record d { proposals = d.proposals ++ b ∷ [] }
handle_message ext listen_address (sign height sig) d = record d {
  pending = collect_signature ext d.consensus height sig d.pending;
}
handle_message ext listen_address request_txs d = d
handle_message ext listen_address (view_change height round from) d = record d {
  consensus = (receive_view_change height round from d.consensus).1;
}
handle_message ext listen_address (handshake id public_key listen_addr) d =
    let (new, c) = add_peer id public_key listen_addr d.consensus in
    if new
    then record d {
      consensus = c;
      sent =
          d.sent
          ++ to_peer (record { id = id; address = listen_addr; public_key = public_key })
              (handshake d.consensus.node_id d.consensus.node_id listen_address)
            ∷ [];
    }
    else record d { consensus = c }

unfoldable pub handle_messages : External → String → List ConsensusMessage → Drained → Drained
handle_messages ext listen_address [] d = d
handle_messages ext listen_address (msg ∷ msgs) d =
    handle_messages ext listen_address msgs (handle_message ext listen_address msg d)

-- the `Sign` that a follower broadcasts
abbrev pub signed_message : ℕ → Option NodeSignature → List Sent
signed_message height none = []
signed_message height (some sig) = to_peers (sign height sig) ∷ []

-- step 4: the proposals in order
unfoldable pub handle_proposals :
    External → Settings → Consensus → List Block → Store → List Sent × Store
handle_proposals ext cfg c [] s = ([], s)
handle_proposals ext cfg c (b ∷ bs) s =
    let (sig, s') = handle_proposal ext cfg c b s in
    let (sent, s'') = handle_proposals ext cfg c bs s' in
    (signed_message b.header.height sig ++ sent, s'')

module _ (ext : External) (cfg : Settings) (config : ConsensusSettings) (peer_count : ℕ) where
  -- step 3: the pending block is stored when it has its signatures, and dropped when it is too old
  unfoldable pub settle_pending : Clock → NodeState → NodeState
  settle_pending clock n = elim n.pending_block [
    | none ↦ n
    | some pb ↦
        if is_finalized ext n.consensus pb
        then record {
          consensus = reset_round n.consensus;
          store = put_block pb n.store;
          pending_block = none;
          last_block_time_ms = clock.finalized;
        }
        else if ltb_ℤ (as_i64 (config.block_time_ms / 2 * 4 % 2 ^ 64))
            (wrapping_sub clock.aged pb.header.timestamp)
        then record n { pending_block = none }
        else n
  ]

  -- steps 1 to 5
  unfoldable pub prepare : Inputs → NodeState → List Sent × NodeState
  prepare i n =
      let d = handle_messages ext config.listen_address i.messages (record {
        incoming_txs = i.rpc_txs;
        proposals = [];
        pending = n.pending_block;
        consensus = n.consensus;
        sent = [];
      }) in
      let n1 =
        settle_pending i.clock (record n { consensus = d.consensus; pending_block = d.pending }) in
      let (signed, s) = handle_proposals ext cfg n1.consensus d.proposals n1.store in
      (
        d.sent ++ signed,
        record n1 {
          store = s;
          consensus = collect_pending_txs i.pooled_txs (push_txs d.incoming_txs n1.consensus);
        },
      )

  -- step 6.5: too long without a block, the node votes for the next round
  unfoldable pub view_timeout : Clock → NodeState → List Sent × NodeState
  view_timeout clock n =
      if ltb 0 peer_count
        && ltb_ℤ (as_i64 config.view_change_timeout_ms)
            (wrapping_sub clock.elapsed n.last_block_time_ms)
      then (let height = add_u64 (get_latest_height n.store) 1 in
          let (changed, c) = request_view_change height n.consensus in
          (
            to_peers (view_change height (add_u32 n.consensus.round 1) n.consensus.node_id) ∷ [],
            record n {
              consensus = c;
              last_block_time_ms = if changed then clock.changed else n.last_block_time_ms;
            },
          ))
      else ([], n)

  -- what becomes of a new block
  unfoldable pub publish : Clock → Block → Consensus → Store → ℤ → List Sent × NodeState
  publish clock b c s last =
      let (pending, c', s') = conclude ext b c s in
      (
        if ltb 0 (length c.peers) then to_peers (propose b) ∷ [] else [],
        record {
          consensus = c';
          store = s';
          pending_block = pending;
          last_block_time_ms = elim pending [ some _ ↦ last | none ↦ clock.stored ];
        },
      )

  -- the end of step 7 or 8, after `produce`
  unfoldable pub finish_lead :
      Clock → Option Block → Consensus → Store → NodeState → List Sent × NodeState
  finish_lead clock none c s n = ([], record n { consensus = c; store = s })
  finish_lead clock (some b) c s n = publish clock b c s n.last_block_time_ms

  -- steps 7 and 8
  unfoldable pub lead : Clock → NodeState → List Sent × NodeState
  lead clock n =
      let (made, c, s) = produce ext cfg clock.executed n.consensus n.store in
      finish_lead clock made c s n

  -- one round
  unfoldable pub tick : Inputs → NodeState → List Sent × NodeState
  tick i n =
      let (sent, ready) = prepare i n in
      elim ready.pending_block [
        | some _ ↦ (sent, ready)
        | none ↦
            let (voted, waiting) = view_timeout i.clock ready in
            let (led, after) = lead i.clock waiting in (sent ++ (voted ++ led), after)
      ]

  -- rounds one after another: the state after all
  unfoldable pub ticks : List Inputs → NodeState → NodeState
  ticks [] n = n
  ticks (i ∷ is) n = ticks is (tick i n).1

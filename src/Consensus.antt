-- ===== src/Consensus.antt =====
-- `Consensus` of crates/rc-consensus/src/lib.rs: a fixed set of nodes that take turns as leader, the
-- votes to change the leader, and the signatures on a block.
pub mod Leader
pub mod Skew
pub mod Rounds
pub mod Voting
pub mod Majority
pub mod Peers
pub mod Network
pub mod Signing
pub mod Proposals
pub mod Finality
pub mod TwoSigners
pub mod Keys
use routinechain.Base.{
  ℕ, ◌+◌, ◌%◌, ◌/◌, String, Bool, true, false, not, ◌&&◌, List, [], ◌∷◌, ◌++◌, ◌==◌, ltb, leb,
  if◌then◌else◌, add_u64, add_u32, length, is_empty, map, contains, suc, zero,
}
use routinechain.Types.Bytes.{Id32}
use routinechain.Types.Transaction.{Transaction}
use routinechain.Types.Block.{Block, NodeSignature}

pub record Peer : Type 0 where
  pub id : Id32
  pub address : String
  pub public_key : Id32

pub data ConsensusMessage : Type 0 where
  propose : Block → ConsensusMessage
  sign : (height : ℕ) → NodeSignature → ConsensusMessage
  request_txs : ConsensusMessage
  submit_tx : Transaction → ConsensusMessage
  view_change : (height round : ℕ) (node_id : Id32) → ConsensusMessage
  handshake : (node_id public_key : Id32) (listen_addr : String) → ConsensusMessage

-- one entry of `view_change_votes`: the key, and the set of voters without repetitions
pub record ViewVotes : Type 0 where
  pub height : ℕ
  pub round : ℕ
  pub voters : List Id32

-- The fields of `Consensus` but the two ends of the channel. The private key is a number.
pub record Consensus : Type 0 where
  pub node_id : Id32
  pub private_key : ℕ
  pub peers : List Peer
  pub min_signatures : ℕ
  pub pending_txs : List Transaction
  pub round : ℕ
  pub view_change_votes : List ViewVotes

-- `Consensus::new`
abbrev pub new_consensus : Id32 → ℕ → List Peer → ℕ → Consensus
new_consensus node_id private_key peers min_signatures = record {
  node_id = node_id;
  private_key = private_key;
  peers = peers;
  min_signatures = min_signatures;
  pending_txs = [];
  round = 0;
  view_change_votes = [];
}

-- `collect_pending_txs`: the transactions that `try_recv` yields are an argument
abbrev pub collect_pending_txs : List Transaction → Consensus → Consensus
collect_pending_txs received c = record c { pending_txs = c.pending_txs ++ received }

abbrev pub has_pending_txs : Consensus → Bool
has_pending_txs c = not (is_empty c.pending_txs)

abbrev pub drain_pending_txs : Consensus → List Transaction × Consensus
drain_pending_txs c = (c.pending_txs, record c { pending_txs = [] })

abbrev pub push_txs : List Transaction → Consensus → Consensus
push_txs txs c = record c { pending_txs = c.pending_txs ++ txs }

-- `ids.sort()`
unfoldable pub insert : Id32 → List Id32 → List Id32
insert x [] = x ∷ []
insert x (y ∷ ys) = let rest = insert x ys in if leb x y then x ∷ y ∷ ys else y ∷ rest

unfoldable pub sort : List Id32 → List Id32
sort [] = []
sort (x ∷ xs) = insert x (sort xs)

-- the ids of `all_node_ids` before they are sorted
abbrev pub node_ids : Consensus → List Id32
node_ids c = map (λ p. p.id) c.peers ++ c.node_id ∷ []

unfoldable pub all_node_ids : Consensus → List Id32
all_node_ids c = sort (node_ids c)

-- `xs[i]`; past the end the default is taken, where the source would panic
abbrev pub nth : Id32 → List Id32 → ℕ → Id32
nth d [] i = d
nth d (x ∷ xs) zero = x
nth d (x ∷ xs) (suc i) = nth d xs i

unfoldable pub leader_for_height_round : Consensus → ℕ → ℕ → Id32
leader_for_height_round c height round =
    let all_nodes = all_node_ids c in
    if is_empty all_nodes
    then c.node_id
    else nth c.node_id all_nodes (add_u64 height round % length all_nodes)

abbrev pub leader_for_height : Consensus → ℕ → Id32
leader_for_height c height = leader_for_height_round c height c.round

abbrev pub is_leader : Consensus → ℕ → Bool
is_leader c height = leader_for_height c height == c.node_id

-- `HashSet::insert`, whose result says whether the value is new
abbrev pub set_insert : Id32 → List Id32 → List Id32
set_insert x xs = if contains xs x then xs else xs ++ x ∷ []

-- `view_change_votes.entry((height, round)).or_default()`
abbrev pub votes_of : ℕ → ℕ → List ViewVotes → List Id32
votes_of h r [] = []
votes_of h r (v ∷ vs) = if v.height == h && v.round == r then v.voters else votes_of h r vs

-- the write through the entry
abbrev pub put_votes : ℕ → ℕ → List Id32 → List ViewVotes → List ViewVotes
put_votes h r voters [] = record { height = h; round = r; voters = voters } ∷ []
put_votes h r voters (v ∷ vs) =
    if v.height == h && v.round == r
    then record v { voters = voters } ∷ vs
    else v ∷ put_votes h r voters vs

-- `retain(|&(h, _), _| h >= height)`
abbrev pub retain : ℕ → List ViewVotes → List ViewVotes
retain height [] = []
retain height (v ∷ vs) = if leb height v.height then v ∷ retain height vs else retain height vs

abbrev pub threshold : Consensus → ℕ
threshold c = length (all_node_ids c) / 2 + 1

unfoldable pub request_view_change : ℕ → Consensus → Bool × Consensus
request_view_change height c =
    let next_round = add_u32 c.round 1 in
    let entry = set_insert c.node_id (votes_of height next_round c.view_change_votes) in
    let votes = put_votes height next_round entry c.view_change_votes in
    if leb (threshold c) (length entry)
    then (true, record c { round = next_round; view_change_votes = retain height votes })
    else (false, record c { view_change_votes = votes })

unfoldable pub receive_view_change : ℕ → ℕ → Id32 → Consensus → Bool × Consensus
receive_view_change height round from c =
    let entry = set_insert from (votes_of height round c.view_change_votes) in
    let votes = put_votes height round entry c.view_change_votes in
    if leb (threshold c) (length entry) && ltb c.round round
    then (true, record c { round = round; view_change_votes = retain height votes })
    else (false, record c { view_change_votes = votes })

abbrev pub reset_round : Consensus → Consensus
reset_round c = record c { round = 0; view_change_votes = [] }

unfoldable pub add_peer : Id32 → Id32 → String → Consensus → Bool × Consensus
add_peer id public_key address c =
    if id == c.node_id
    then (false, c)
    else if contains (map (λ p. p.id) c.peers) id
    then (false, c)
    else (
      true,
      record c {
        peers = c.peers ++ record { id = id; address = address; public_key = public_key } ∷ [];
      },
    )

-- what the loop of the node calls on the votes, the round and the peers
pub data ViewOp : Type 0 where
  timed_out : (height : ℕ) → ViewOp
  vote_received : (height round : ℕ) (from : Id32) → ViewOp
  block_finalized : ViewOp
  peer_found : (id public_key : Id32) (address : String) → ViewOp

unfoldable pub view_step : ViewOp → Consensus → Consensus
view_step (timed_out height) c = (request_view_change height c).1
view_step (vote_received height round from) c = (receive_view_change height round from c).1
view_step block_finalized c = reset_round c
view_step (peer_found id public_key address) c = (add_peer id public_key address c).1

-- the calls of a history, the latest first
unfoldable pub view_run : List ViewOp → Consensus → Consensus
view_run [] c = c
view_run (op ∷ earlier) c = view_step op (view_run earlier c)

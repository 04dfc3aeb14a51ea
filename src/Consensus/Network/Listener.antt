-- ===== src/Consensus/Network/Listener.antt =====
-- `listen` of crates/rc-consensus/src/lib.rs as steps of what runs at once: the loop that accepts
-- connections, a task for each of them, and the channel to the node's loop. What a connection
-- delivers is `receive`; which step comes next is left open.
pub mod Bounded
pub mod Drain
use routinechain.Base.{
  ℕ, ◌<◌, ◌≡◌, true, false, Option, none, some, List, [], ◌∷◌, ◌++◌, leb, length, add_u64, sub_u64,
}
use routinechain.Types.Bytes.{Id32}
use routinechain.External.{Bytes}
use routinechain.Store.Disk.{Codec}
use routinechain.Consensus.{ConsensusMessage}
use routinechain.Consensus.Network.{ReadExact, receive}

abbrev pub max_connections : ℕ
max_connections = 1000

-- where the accepting loop stands, with the connection that it handles: what comes on it
pub data Acceptor : Type 0 where
  accepting : Acceptor
  admitted : (stream : Bytes) → Acceptor  -- past the test of the limit
  counted : (stream : Bytes) → Acceptor  -- past `fetch_add`
  stopped : Acceptor  -- `listen` has returned

-- a task that holds a `ConnectionGuard`
pub data Task : Type 0 where
  reading : (stream : Bytes) → Task
  sending : Id32 → ConsensusMessage → Task  -- at `sender.send(..).await`

pub record Listener : Type 0 where
  pub active_connections : ℕ
  pub acceptor : Acceptor
  pub tasks : List Task
  pub channel : List (Id32 × ConsensusMessage)

abbrev pub init : Listener
init = record { active_connections = 0; acceptor = accepting; tasks = []; channel = [] }

-- A task ends: the drop of its guard counts down.
abbrev pub without : List Task → Listener → Listener
without others l = record l { active_connections = sub_u64 l.active_connections 1; tasks = others }

-- One step. `stop` is an `accept` that fails: `listen` returns, and the tasks go on. The last one is
-- the node's loop, which takes a message from the channel.
pub data Step (read_exact : ReadExact) (codec : Codec ConsensusMessage) (capacity : ℕ)
    (l : Listener) : Listener → Type 0 where
  stop : l.acceptor ≡ accepting → Step read_exact codec capacity l (record l { acceptor = stopped })
  reject :
      l.acceptor ≡ accepting
      → leb max_connections l.active_connections ≡ true
      → Step read_exact codec capacity l l
  admit :
      (stream : Bytes)
      → l.acceptor ≡ accepting
      → leb max_connections l.active_connections ≡ false
      → Step read_exact codec capacity l (record l { acceptor = admitted stream })
  count :
      (stream : Bytes)
      → l.acceptor ≡ admitted stream
      → Step read_exact codec capacity l (record l {
        acceptor = counted stream;
        active_connections = add_u64 l.active_connections 1;
      })
  spawn :
      (stream : Bytes)
      → l.acceptor ≡ counted stream
      → Step read_exact codec capacity l
          (record l { acceptor = accepting; tasks = l.tasks ++ reading stream ∷ [] })
  time_out :
      (before after : List Task) (stream : Bytes)
      → l.tasks ≡ before ++ reading stream ∷ after
      → Step read_exact codec capacity l (without (before ++ after) l)
  fail :
      (before after : List Task) (stream : Bytes)
      → l.tasks ≡ before ++ reading stream ∷ after
      → receive read_exact codec stream ≡ none
      → Step read_exact codec capacity l (without (before ++ after) l)
  read :
      (before after : List Task) (stream : Bytes) (from : Id32) (msg : ConsensusMessage)
      → l.tasks ≡ before ++ reading stream ∷ after
      → receive read_exact codec stream ≡ some (from, msg)
      → Step read_exact codec capacity l (record l { tasks = before ++ sending from msg ∷ after })
  send :
      (before after : List Task) (from : Id32) (msg : ConsensusMessage)
      → l.tasks ≡ before ++ sending from msg ∷ after
      → length l.channel < capacity
      → Step read_exact codec capacity l
          (without (before ++ after) (record l { channel = l.channel ++ (from, msg) ∷ [] }))
  take :
      (first : Id32 × ConsensusMessage) (rest : List (Id32 × ConsensusMessage))
      → l.channel ≡ first ∷ rest
      → Step read_exact codec capacity l (record l { channel = rest })

-- steps one after another
pub data Steps (read_exact : ReadExact) (codec : Codec ConsensusMessage) (capacity : ℕ)
    (l : Listener) : Listener → Type 0 where
  start : Steps read_exact codec capacity l l
  later :
      {m n : Listener}
      → Steps read_exact codec capacity l m
      → Step read_exact codec capacity m n
      → Steps read_exact codec capacity l n

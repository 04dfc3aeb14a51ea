-- ===== src/Consensus/Network/Listener/Drain.antt =====
-- No connection of the listener of crates/rc-consensus/src/lib.rs holds its place for ever.
use routinechain.Base.{
  length, ◌+◌, ◌≤◌, All, ℕ, ◌<◌, ◌≡◌, refl, List, [], ◌∷◌, ◌++◌, add_u64, arith, ap,
}
use routinechain.Types.Bytes.{Id32}
use routinechain.External.{Bytes}
use routinechain.Store.Disk.{Codec}
use routinechain.Consensus.{ConsensusMessage}
use routinechain.Consensus.Network.{ReadExact}
use routinechain.Consensus.Network.Listener.{
  max_connections, Acceptor, accepting, admitted, counted, stopped, Task, reading, sending,
  Listener, init, without, count, spawn, time_out, send, take, Steps, start, later,
}
use routinechain.Consensus.Network.Listener.Bounded.{
  Steps-Sound, uncovered, IsReceived, connections_bounded,
}

-- where the accepting loop comes to once it has handled its connection
abbrev pub settled : Acceptor → Acceptor
settled accepting = accepting
settled (admitted _) = accepting
settled (counted _) = accepting
settled stopped = stopped

settled-uncovered : (a : Acceptor) → uncovered (settled a) ≡ 0
settled-uncovered accepting = refl
settled-uncovered (admitted _) = refl
settled-uncovered (counted _) = refl
settled-uncovered stopped = refl

module _ (read_exact : ReadExact) (codec : Codec ConsensusMessage) (capacity : ℕ) where
  then :
      (l m n : Listener)
      → Steps read_exact codec capacity l m
      → Steps read_exact codec capacity m n
      → Steps read_exact codec capacity l n
  then l m n first start = first
  then l m n first (later {m = k} more step) = later (then l m k first more) step

  drain_channel :
      (l : Listener) (channel : List (Id32 × ConsensusMessage))
      → Steps read_exact codec capacity (record l { channel = channel }) (record l { channel = [] })
  drain_channel l [] = start
  drain_channel l (m ∷ ms) = then _ _ _ (later start (take m ms refl)) (drain_channel l ms)

  -- The states without tasks that some steps lead to, with the accepting loop where it is said.
  abbrev Drained : Acceptor → Listener → Type 0
  Drained a l =
      (m : Listener) × Steps read_exact codec capacity l m × (m.tasks ≡ []) × (m.acceptor ≡ a)

  drain_tasks :
      (l : Listener) (tasks : List Task) (a : Acceptor)
      → 0 < capacity
      → l.acceptor ≡ a
      → Drained a (record l { tasks = tasks })
  drain_tasks l [] a room idle = (record l { tasks = [] }, start, refl, idle)
  drain_tasks l (reading stream ∷ ts) a room idle =
      let here : Listener = record l { tasks = reading stream ∷ ts } in
      let (m, steps, none_left, at) = drain_tasks (without ts here) ts a room idle in
      (m, then _ _ _ (later start (time_out [] ts stream refl)) steps, none_left, at)
  drain_tasks l (sending from msg ∷ ts) a room idle =
      let here : Listener = record l { tasks = sending from msg ∷ ts } in
      let empty : Listener = record here { channel = [] } in
      let sent : Listener = without ts (record empty { channel = (from, msg) ∷ [] }) in
      let (m, steps, none_left, at) = drain_tasks sent ts a room idle in
      (
        m,
        then _ _ _ (drain_channel here l.channel)
            (then _ _ _ (later start (send [] ts from msg refl room)) steps),
        none_left,
        at,
      )

  spawn_counted :
      (l : Listener) (stream : Bytes)
      → 0 < capacity
      → l.acceptor ≡ counted stream
      → Drained accepting l
  spawn_counted l stream room at =
      let next : Listener = record l {
        acceptor = accepting;
        tasks = l.tasks ++ reading stream ∷ [];
      } in
      let (m, steps, none_left, idle) = drain_tasks next next.tasks accepting room refl in
      (m, then _ _ _ (later start (spawn stream at)) steps, none_left, idle)

  count_admitted :
      (l : Listener) (stream : Bytes)
      → 0 < capacity
      → l.acceptor ≡ admitted stream
      → Drained accepting l
  count_admitted l stream room at =
      let next : Listener = record l {
        acceptor = counted stream;
        active_connections = add_u64 l.active_connections 1;
      } in
      let (m, steps, none_left, idle) = spawn_counted next stream room refl in
      (m, then _ _ _ (later start (count stream at)) steps, none_left, idle)

  drain_from : (l : Listener) (a : Acceptor) → 0 < capacity → l.acceptor ≡ a → Drained (settled a) l
  drain_from l accepting room at = drain_tasks l l.tasks accepting room at
  drain_from l stopped room at = drain_tasks l l.tasks stopped room at
  drain_from l (admitted stream) room at = count_admitted l stream room at
  drain_from l (counted stream) room at = spawn_counted l stream room at

-- From every state that the listener gets into, some steps lead to one in which it has no task.
connections_drain :
    (read_exact : ReadExact) (codec : Codec ConsensusMessage) (capacity : ℕ) (l : Listener)
    → 0 < capacity
    → Steps read_exact codec capacity init l
    → (m : Listener) × Steps read_exact codec capacity l m
      × (m.tasks ≡ [])
      × (m.acceptor ≡ settled l.acceptor)
      × (m.active_connections ≡ 0)
connections_drain read_exact codec capacity l room run =
    let (m, steps, none_left, idle) = drain_from read_exact codec capacity l l.acceptor room refl in
    let s =
      Steps-Sound read_exact codec capacity m (then read_exact codec capacity _ _ _ run steps) in
    (
      m,
      steps,
      none_left,
      idle,
      omega (
        arith,
        s.every_task,
        ap length none_left,
        ap uncovered idle,
        settled-uncovered l.acceptor,
      ),
    )

-- The listener keeps its limit and loses no place. Whatever order its steps come in, it counts a
-- connection for each task, and one that is about to get its task; it never counts more than the
-- limit; the channel is never over its capacity; every message in it was delivered by some
-- connection, under the sender's id that stands in it; and, if the channel holds a message at all,
-- some steps lead from there to a state in which it has no task and counts none, and waits for a
-- connection, or, if an `accept` has failed, still has stopped.
pub connections_served :
    (read_exact : ReadExact) (codec : Codec ConsensusMessage) (capacity : ℕ) (l : Listener)
    → 0 < capacity
    → Steps read_exact codec capacity init l
    → (l.active_connections ≡ length l.tasks + uncovered l.acceptor)
      × (l.active_connections ≤ max_connections)
      × (length l.channel ≤ capacity)
      × All (IsReceived read_exact codec) l.channel
      × ((m : Listener) × Steps read_exact codec capacity l m
          × (m.tasks ≡ [])
          × (m.acceptor ≡ settled l.acceptor)
          × (m.active_connections ≡ 0))
connections_served read_exact codec capacity l room run =
    let (every, limit, fits, received) = connections_bounded read_exact codec capacity l run in
    (every, limit, fits, received, connections_drain read_exact codec capacity l room run)

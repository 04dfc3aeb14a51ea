-- ===== src/Tests/Listening.antt =====
-- Votes for a round, and a listener with one connection.
use routinechain.Base.{
  ℕ, ◌+◌, ◌≡◌, ◌≢◌, ◌≤◌, refl, arith, some, List, [], ◌∷◌, ◌++◌, map, length, All,
}
use routinechain.External.{Bytes}
use routinechain.Consensus.{
  Consensus, new_consensus, node_ids, leader_for_height_round, vote_received, view_run,
}
use routinechain.Consensus.Voting.{majority_moves_round}
use routinechain.Consensus.Skew.{rounds_disagree}
use routinechain.Consensus.Network.Listener.{
  max_connections, accepting, Listener, init, admit, count, spawn, read, send, Steps, start, later,
}
use routinechain.Consensus.Network.Listener.Bounded.{IsReceived, uncovered}
use routinechain.Consensus.Network.Listener.Drain.{connections_served}
use routinechain.Tests.Nodes.{node_1, node_2, same_nodes}
use routinechain.Tests.Messages.{vote, of_vote, take_exact}

majority_moves_round_example : (view_run (map (vote_received 4 2) (2 ∷ 3 ∷ [])) node_1).round ≡ 2
unfolding routinechain.Consensus.all_node_ids routinechain.Consensus.sort
    routinechain.Consensus.insert
majority_moves_round_example =
    majority_moves_round 4 2 (2 ∷ 3 ∷ []) node_1 (omega arith) refl (refl, (refl, tt))

rounds_disagree_example : leader_for_height_round node_1 7 1 ≢ leader_for_height_round node_2 7 0
rounds_disagree_example =
    rounds_disagree node_1 node_2 7 1 same_nodes (refl, (refl, (refl, tt))) (omega arith)
      (omega arith) (omega arith)

-- the bytes of the vote on a connection, and the listener when it was sent on
abbrev stream : Bytes
stream = 0 ∷ 0 ∷ 0 ∷ 2 ∷ 8 ∷ 4 ∷ []

abbrev served : Listener
served = record {
  active_connections = 0;
  acceptor = accepting;
  tasks = [];
  channel = (3, vote) ∷ [];
}

serving : Steps take_exact of_vote 1 init served
unfolding routinechain.Consensus.Network.receive routinechain.Consensus.Network.read_message
    routinechain.Base.from_be_bytes
serving =
    later
      (later
        (later (later (later start (admit stream refl refl)) (count stream refl))
          (spawn stream refl))
        (read [] [] stream 3 vote refl refl))
      (send [] [] 3 vote refl (omega arith))

connections_served_example :
    (served.active_connections ≡ length served.tasks + uncovered served.acceptor)
    × (served.active_connections ≤ max_connections)
    × (length served.channel ≤ 1)
    × All (IsReceived take_exact of_vote) served.channel
    × ((m : Listener) × Steps take_exact of_vote 1 served m
        × (m.tasks ≡ [])
        × (m.acceptor ≡ accepting)
        × (m.active_connections ≡ 0))
connections_served_example = connections_served take_exact of_vote 1 served (omega arith) serving

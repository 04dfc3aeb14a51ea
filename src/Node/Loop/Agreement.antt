-- ===== src/Node/Loop/Agreement.antt =====
-- A block of two nodes: the round in which the leader proposes it, the one in which the follower
-- signs it, and the one in which the leader has the signature. The main loop of
-- crates/rc-node/src/main.rs on both sides.
use routinechain.Base.{List}
use routinechain.Types.Transaction.{Transaction}
use routinechain.Types.Block.{Block}
use routinechain.Store.{Store}
use routinechain.External.{External}
use routinechain.Consensus.{Consensus}

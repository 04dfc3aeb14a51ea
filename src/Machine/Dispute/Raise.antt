-- ===== src/Machine/Dispute/Raise.antt =====
-- `raise` of crates/rc-state/src/modules/dispute.rs does not look whether its dispute id is taken.
use routinechain.Types.State.{Escrow, Dispute}
use routinechain.Store.{Store}

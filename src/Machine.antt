-- ===== src/Machine.antt =====
-- crates/rc-state/src: the state machine. Each handler of crates/rc-state/src/modules is a module
-- here, with its proofs in the modules below it; `Execute` is the dispatch of a transaction and
-- `Apply` the application of a block.
pub mod Action
pub mod Token
pub mod Participant
pub mod Settlement
pub mod Escrow
pub mod Dispute
pub mod Execute
pub mod Apply

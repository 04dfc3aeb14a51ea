-- ===== src/Types.antt =====
-- The shared types of crates/rc-types/src: transactions, chain state, blocks, configuration, and
-- the trust score. Ids and hashes (crates/rc-types/src/lib.rs) are 32 bytes that the code compares
-- and sorts; each is the number that its bytes spell, most significant byte first.
pub mod Bytes
pub mod Transaction
pub mod State
pub mod Block
pub mod Config
pub mod Score

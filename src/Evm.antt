-- ===== src/Evm.antt =====
-- The x/evm module of the consensus client: its state, its configuration, and its handlers.
pub mod State
pub mod Timestamp
pub mod Retry
pub mod Inversion
pub mod Keeps
pub mod Keeper
pub mod Payload
pub mod MsgServer
pub mod Prepare
pub mod Samples
mod Tests

-- ===== src/Chain.antt =====
-- A round of consensus over the evm module: cosmos/app/proposal.go and cosmos/x/evm/keeper together,
-- from the proposer's engine to the committed block state.
pub mod Built
pub mod Round
mod Tests

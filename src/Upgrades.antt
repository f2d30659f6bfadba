-- ===== src/Upgrades.antt =====
-- cosmos/app/upgrades.go: the scheduled changes of validators and of the staking pools. The keepers
-- of the SDK that they call are a record of functions on the chain's state.
pub mod Api
pub mod Completed
pub mod Balance
pub mod Add
pub mod Remove
pub mod Reconcile
mod Tests

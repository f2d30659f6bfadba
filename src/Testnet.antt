-- ===== src/Testnet.antt =====
-- cosmos/cmd/nexusd/cmd/testnet_multi_node.go: the files of a network of several nodes on one
-- machine. The SDK's generators of keys, transactions and genesis files are arguments.
pub mod Disk
mod Args
mod Nodes
mod Collect
pub mod Paths
mod Copies
mod Everywhere
mod Ports
mod Stakes
mod Options
mod InPlace
mod Tests

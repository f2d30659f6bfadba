-- ===== src/Lib.antt =====
-- The Nexus node: a Cosmos SDK chain (cosmos/) whose blocks carry the payloads of an Ethereum
-- execution client, driven over the Engine API.
--
-- How the parts work together. When a node proposes a block, cosmos/app/proposal.go puts the permitted
-- transactions of users first and asks the evm keeper (cosmos/x/evm/keeper/abci.go) for the last one:
-- the keeper tells the engine to build on the committed head, polls it for the payload, and wraps
-- the payload in a message. The other validators check the block's shape and the votes
-- (proposal.go) and validate the payload against the committed block state (proposal_server.go).
-- When the block is final, the message server (msg_server.go) validates the payload again, sends it
-- to the engine, moves the engine's head to it, and commits the new block state. The Engine API
-- methods depend on the fork times of the configuration file (cosmos/app/types/chain.go,
-- cosmos/app/chain.go). At the end of a block the hooks that the same file schedules change
-- validators and staking pools (cosmos/app/block_hooks.go, cosmos/app/upgrades.go).
--
-- Files, with the code that they are about:
--   ChainSpec: cosmos/app/types/chain.go, the fork times and the version matrix.
--   Config: cosmos/lib/config.go and cosmos/app/chain.go, `ReadConfigFile` and `LoadChainSpec`.
--   Engine: cosmos/lib/engine.go, the client over RPC and the stub.
--   Evm.State, Evm.Keeper: the block state, the keeper, the SDK's context, the libraries.
--   Evm.Timestamp: `CalculateTimestamp` of cosmos/x/evm/keeper/keeper.go.
--   Evm.Retry: `retry` of cosmos/x/evm/keeper/async.go.
--   Evm.Payload: `validatePayload` of cosmos/x/evm/keeper/msg_server.go.
--   Evm.MsgServer: `ExecutionPayload` of msg_server.go and of proposal_server.go, `sendPayload`.
--   Evm.Prepare: `PrepareProposal` of cosmos/x/evm/keeper/abci.go.
--   Proposal: cosmos/app/proposal.go, the handlers of PrepareProposal and ProcessProposal.
--   Upgrades: cosmos/app/upgrades.go, `ExecuteUnjailing`, `ExecuteAddValidator`,
--     `ExecuteRemoveValidator`, `ExecuteReconcileStakingPools` and what they call.
--   BlockHooks, BlockHooks.Parse: cosmos/app/block_hooks.go, and `EndBlocker` of cosmos/app/app.go, with
--     the gauges that it sets last.
--   GlobalFee: cosmos/x/globalfee and cosmos/app/ante.go, the minimum gas price.
--   Readiness: cosmos/app/rpc_readiness.go and cosmos/x/evm/keeper/readiness.go, GET /readyz.
--   Chain: a round of consensus, through PrepareProposal, ProcessProposal and the commit.
--   Config.Keeper, Config.Secret: `readConfig`, `createEngineClient` and `NewKeeper` of
--     cosmos/x/evm/keeper/keeper.go, and `LoadJWTSecret` of cosmos/lib/jwt.go.
--   Auth: the tokens of cosmos/lib/grpc_jwt.go and cosmos/lib/jwt.go, and cosmos/lib/core_client.go.
--   Alerts: cosmos/app/upgrade_logging.go, cosmos/app/halt_logging.go,
--     cosmos/app/webhook_notifier.go, and `PreBlocker` of cosmos/app/app.go.
--   GlobalFee.Genesis: the store and the genesis of cosmos/x/globalfee.
--   Genesis.Module, Genesis.Params: cosmos/x/evm/types/genesis_compat.go, the genesis of
--     cosmos/x/evm/module/module.go, `UpdateParams` and the query of the parameters.
--   Genesis: cosmos/x/evm/keeper/genesis.go and cosmos/x/evm/types/genesis.go.
--   Export: cosmos/app/export.go, the export of the state and the preparation for height zero.
--   Telemetry: cosmos/app/metrics.go, the gauges of the validators.
--   Testnet: cosmos/cmd/nexusd/cmd/testnet_multi_node.go, the files of a network of several nodes.
--   Testnet.Options, Testnet.InPlace: cosmos/cmd/nexusd/cmd/testnet.go, the network of one validator.
--   Cli: cosmos/genesis/genesis.go, the genesis file that cosmos/cmd/nexusd/cmd/root.go writes, and
--     `appExport` of commands.go.
--   Inbound: cosmos/lib/cosmos_grpc_server.go and `PostSetup` of commands.go.
--   Common: shared names, Boolean tests, lists, results, machine words and texts.
--
-- State. A handler of the evm module takes a node (the committed block state, the process's memory of
-- the version logged last with the changes it logged, and the world) to a result and a node;
-- Evm.State has the monad. The world is a type parameter: the engine, the clock and the Go context are
-- functions on it. The scheduled actions of Upgrades take the chain's state, a type parameter too, to
-- an outcome (done, failed or panicked) and a state; the keepers of the SDK are a record of functions.
-- A call that fails keeps what was written before it, as in the code.
--
-- Numbers. A uint64 is a number below 2 ^ 64, with the wrap-around written out; an int64 is its bit
-- pattern (Common.Words). A hash is the number that its bytes spell. Times of the SDK are seconds,
-- delays are milliseconds. A token amount that is nil is `none`; so is a negative amount of an option, which the
-- code treats like nil. The minimum gas price and the fee that it asks for are integers with a sign.
--
-- Fuel. `retry` loops until the closure succeeds or fails or the context is over, so it takes fuel and
-- is `none` when it runs out. Evm.Retry.Runs has the relation that describes its runs without fuel, and
-- Evm.Retry.Budget the number of attempts that a deadline leaves. Every other loop is a recursion on a list.
--
-- Arguments of the model: the RPC client, JSON, YAML and transaction codecs, the blob hashes of EVM
-- transactions, the text of go-ethereum's errors and hashes, `LegacyDec`, the parsers of addresses and
-- numbers, the bank, staking, slashing, distribution and auth keepers, the HTTP client, the file
-- system. What a theorem needs of them is a record of laws (PoolLaws, RemoveLaws, TokenLaws, AddLaws,
-- DecLaws, HashLaws, Export.Laws with Calm, StoreLaws, OtherLaws, Deadline, CodecLaws, BuilderLaws, JwtLaws,
-- FeeJsonLaws, PostLaws), and the Tests modules have concrete functions that satisfy them.
--
-- Not modelled: the overflow panics of the SDK's big numbers; logging (but for the alerts), and the
-- telemetry of the evm module; the text of errors that nothing reads; the per-attempt timeout of `retry` (the attempt's outcome is whatever the client returns); execution requests of
-- NewPayloadV4 and V5, which every caller leaves nil; the ten-second timeouts of the proposal handlers,
-- which are part of the world's context; spaces outside ASCII around a secret; the texts of the
-- alerts; the migrations; failures of the file system other than a missing file or directory; the lists
-- of cobra's subcommands and the wiring of the SDK's modules, which are declarations.
pub mod BlockHooks
pub mod Inbound
pub mod Cli
pub mod Testnet
pub mod Telemetry
pub mod Export
pub mod Auth
pub mod Alerts
pub mod Chain
pub mod ChainSpec
mod Common
pub mod Config
pub mod Engine
pub mod Evm
pub mod Genesis
pub mod GlobalFee
pub mod Proposal
pub mod Readiness
pub mod Upgrades

-- ===== src/Lib.antt =====
-- The x/wasm module of the IPI node: the smart contract module of a Cosmos SDK chain, which stores
-- WebAssembly code, creates contracts from it, runs them, and sends the messages that they return.
--
-- The parts of the program, and where each is modelled:
-- - Gas: x/wasm/types/gas_register.go. The price of storing, calling and replying, and the
--   conversion between the chain's gas and wasmvm's. All sums wrap at 64 bits as in the source.
-- - Access: the access types, access configs and parameters of x/wasm/types/types.go and params.go,
--   and the address checks of validation.go.
-- - Policy: x/wasm/keeper/authz_policy.go and x/wasm/types/authz_policy.go. Who may upload,
--   instantiate and modify, and which of these rights pass on to a contract's submessages.
-- - Keys: x/wasm/types/keys.go, the positions of types.go, and the counter encoding of
--   x/wasm/keeper/ante.go. Where each record stands in the key-value store.
-- - Chain: what the module uses of the Cosmos SDK. A store, a gas meter and their laws are the
--   record `Chain`, a parameter of everything below. A Go function over an `sdk.Context` is an
--   action `M`: it returns a value, an error or a panic, and the state that it leaves in each case,
--   since writes before an error stay until a caller reverts them. x/wasm/types/context.go keeps
--   its values in a context, which is the record `Context` here.
-- - Dispatch: x/wasm/keeper/msg_dispatcher.go. `DispatchSubmessages` is dispatch_submessages,
--   `dispatchMsgWithGasLimit` is dispatch_with_gas_limit, and the sandbox around each message is
--   sandboxed. It calls a messenger and a contract's `reply`, which are its arguments.
-- - Events: x/wasm/keeper/events.go and the names of x/wasm/types/events.go.
-- - Keeper: x/wasm/keeper/keeper.go. Keeper has the stored records and their access; Runtime has
--   gas, discounts, call depth, responses, replies and the response handler, which ties the
--   dispatcher and `reply` together; Codes has `create`, `importCode` and `setAccessConfig`; Pins
--   the pinned codes; Contracts `instantiate`; Calls `execute`, `Sudo` and `migrate`; Admin the
--   changes of a contract's record; Packets the packets that are acknowledged later.
-- - Tx: x/wasm/types/tx.go and the messages of tx.pb.go, with the checks of validation.go:
--   Validation has the checks of single fields, Basic the `ValidateBasic` of each message.
-- - Addresses: x/wasm/keeper/addresses.go. The two generators of contract addresses.
-- - Server: x/wasm/keeper/msg_server.go. Server and Contracts have a function for each handler, and
--   Permissioned has x/wasm/keeper/contract_keeper.go, the same operations under a fixed policy.
-- - Authz: x/wasm/types/authz.go and json_matching.go. Limits, Filters and Codes have what a limit,
--   a filter and a code grant accept, Grants the loop of `AcceptGrantedMessage`, and Uploads the
--   authorization of uploads. What the authz module of the SDK does with a response is the step
--   relation `Uses` of Runs: it stores the updated grants, or deletes the authorization.
-- - Ante: x/wasm/keeper/ante.go. The decorators that number a block's transactions, limit the gas of
--   simulations, and start the record of the contracts that a transaction uses.
-- - Messengers: x/wasm/keeper/handler_plugin.go. Messengers has the messenger of SDK messages and the
--   chain of messengers, Ibc those that send and acknowledge packets, Burn the one that burns coins.
-- - Ibc: x/wasm/keeper/relay.go (Relay: the keeper's calls of a contract) and x/wasm/ibc.go (Channels:
--   handshakes; Delivery: packets; Callbacks: packets of other modules), x/wasm/keeper/ibc2.go
--   (Second), and the ports of x/wasm/keeper/ibc.go. A packet that arrives without being acknowledged
--   is stored by Keeper's Packets and acknowledged through Messengers.
-- - Genesis: x/wasm/types/genesis.go, with the checks of the records in types.go, and
--   x/wasm/keeper/genesis.go: Import has `InitGenesis`, Export `ExportGenesis` and the iterators.
-- - Queries: x/wasm/keeper/querier.go and the queries of keeper.go: Raw has a contract's entries, Smart
--   the queries that a contract answers, Listings the rest.
-- - Proposals: x/wasm/types/proposal_legacy.go, the checks of proposals, and in Handling
--   x/wasm/keeper/proposal_handler_legacy.go, which carries them out under the policy of governance.
-- - Tests: runs on concrete inputs, and each theorem at an input that meets its hypotheses, over a
--   chain in memory (Tests/MemChain), codecs (Tests/Codecs) and a keeper (Tests/Contracts).
--
-- Data: a text, an address and a byte string are lists of numbers; a `nil` address is the empty list,
-- or `none` where the code tests it apart from an empty one. An error is the sentinel that the code
-- wraps (types/errors.go and the SDK's), marked where `MarkErrorDeterministic` or a further `Wrap`
-- decides what the dispatcher shows to a contract; error texts are not modelled. An unsigned 64-bit
-- or 32-bit sum has its wrap-around written out where the source can reach it.
--
-- Fuel: the response handler and `reply` call each other by way of a contract's messages. `handle`
-- recurses on fuel, which is the number of nested handlers. Each level raises the call depth, and
-- the keeper refuses a depth beyond its maximum, so that more fuel than the depth that is left
-- changes nothing. The printing of numbers uses twenty digits, which hold any 64-bit number.
--
-- Parameters, for code that is not in the repository: the SDK's stores, gas meters, bech32 texts and
-- length prefix, the protobuf codecs, wasmvm with the contracts that it runs, the account and bank
-- keepers, and how errors are printed. Their laws are documented behaviour: what was set is read
-- back, a meter adds what it is charged and stops at its limit, what was marshalled is unmarshalled,
-- a contract writes under its own prefix only, and other modules leave this module's keys alone.
-- The coins of the SDK are `CoinOps`: among valid coins, the order and the difference are those of
-- the amounts, and a difference is valid. Go's JSON, URI and text functions have no laws.
-- For IBC these are the entry points of wasmvm, the ICS-4 wrapper, the channel keepers and the
-- transfer module. The gzip reader of x/wasm/ioutils is a parameter as well, and so is the messenger
-- that the keeper is given.
--
-- Not modelled: the message encoders and the queriers of contracts, migrations and the snapshotter;
-- command line, app wiring, simulation, generated code but for the messages, metrics and tests.
pub mod Base
pub mod Gas
pub mod Access
pub mod Policy
pub mod Keys
pub mod Chain
pub mod Dispatch
pub mod Events
pub mod Keeper
pub mod Tx
pub mod Addresses
pub mod Server
pub mod Authz
pub mod Ante
pub mod Messengers
pub mod Ibc
pub mod Genesis
pub mod Queries
pub mod Proposals
mod Tests

-- ===== src/Lib.antt =====
-- rt-evm: an EVM runtime that keeps a pool of transactions, executes them in blocks over a Merkle
-- trie of accounts, and stores blocks, transactions, receipts and code.
--
-- The parts and how they interact:
-- * crates/model (Model): transactions, blocks and results. Model/Transaction has the three kinds of
--   transactions with their accessors and gas figures, Model/Transaction/Encode the calls on an RLP
--   stream that write them, the hashes and the recovery of the sender, and Model/Transaction/Decode
--   the decoders over a view (Model/Reader); Model/Block has proposals, headers and blocks,
--   Model/Response the results of an execution and receipts, and Model/Codec their codecs. Model/Text
--   has the hexadecimal texts (`Hex`, `hex_decode`) and the addresses with their checksum, of
--   types/primitive.rs and codec/mod.rs; a text is its list of code points.
-- * crates/storage (Storage): `FunStorage`. Each table stands behind a cache that may drop entries
--   at any time (Store/Cached); Storage/Coherence and Storage/History have its invariant and the steps
--   that change it, Storage/Blocks and Storage/Txs reads after writes, and Storage/Accounts the
--   accounts of the world state.
-- * crates/mempool (Mempool): `TinyMempool`, its check of a transaction (Mempool/PreCheck), its
--   insertions, queues, clean-up and the round of the cleaner thread (`clean`). Mempool/History has
--   the steps that change a pool and its invariant.
-- * crates/executor (Executor): Executor/Adapter is the backend that the EVM reads and that its
--   changes are applied to (adapter/mod.rs), Executor/Roots the roots, blooms and code addresses
--   of utils.rs, Executor/Revert its messages of reverts, and Executor/Exec the functions `call`
--   (call_evm), `evm_exec` and `exec` of lib.rs. Executor/Precompiles has the precompiled contracts
--   of precompiles/, one module for each file (Bn128 for the three of the curve), and the table
--   that finds them; Executor/Precompiles/Rounds and Compression describe BLAKE2b beside its code.
-- * crates/blockmgmt (BlockMgmt): a manager for one block. It proposes and executes a list of
--   transactions over the backend, cleans them from the pool, stores the block with its transactions
--   and receipts, and verifies proposals and blocks of others with the storage and the pool.
-- * crates/api (Api): Api/Hub is the task that keeps the filters of clients (`FilterHub` of
--   jsonrpc/impls/filter.rs), with the storage of the time as an argument of each step, and Api/Logs
--   the choice of logs by address and topics (jsonrpc/impls/web3.rs). Api/Blocks and Api/LogFilters
--   are about what the requests of a filter return. Api/Backend is the adapter of adapter.rs through
--   which the servers reach the pool, the storage and the executor, and Api/Web3 the methods of web3.rs
--   that take transactions in, read accounts and run calls, with the error of a failed call
--   (jsonrpc/error.rs), which has its message but not the second text beside it.
--   Api/Requests has the filters that clients send, Api/Range the search for the logs of a range of
--   blocks (`get_logs` of web3.rs), Api/Web3Types what the servers answer (jsonrpc/web3_types.rs) and
--   Api/Reads the methods for blocks, transactions, receipts and storage. Api/Subscription is the task
--   that sends new blocks and logs to websocket clients (jsonrpc/ws_subscription.rs).
-- * src/lib.rs (Runtime): the node. It is created with the first balances (Runtime/Genesis) and a
--   first block, written to files, and restored from them (Runtime/Restart); it passes transactions
--   to the pool and makes managers for blocks.
--
-- State is passed explicitly. The code shares the pool, the trie store and the storage behind `Arc`;
-- here they are fields of the record of the part that changes them, and an operation returns the
-- new record. Results are values of `Outcome` (Common/Outcome): a value, an error, or a panic
-- (`pnk!`, `unwrap`, an overflow of `U256`). A `u64` or a `u32` that is computed wraps (`% 2 ^ w`);
-- `U256` saturates or panics as the code says. Loops are recursion on the list, or on the number of
-- blocks or rounds, that they run through, so no fuel is needed.
--
-- Code of other crates is a parameter, an instance argument of the definitions that use it:
-- Model/Rlp (`Externals`: RLP output, Keccak, Merkle roots, key recovery, the account codec),
-- Store/Table (vsdb), Store/Cache (moka), Store/Trie (vsdb_trie_db), `Files` in Runtime
-- (files and the handles in them), and `Evm` in Executor/Exec (the `StackExecutor` of the crate evm,
-- which calls the precompiled contracts), Model/Reader (the RLP reader), Model/Codec (`Bcs`),
-- Model/Text (`HexCode`, `Letters`: faster_hex and the tables of letters) and
-- Executor/Precompiles/Base (hashes, big numbers and the curve). Tests/World instantiates them
-- with association lists and plain encodings, and the other modules of Tests run the operations
-- on it.
--
-- Not modelled: the network side of the JSON-RPC servers and their methods that answer a constant, the
-- JSON texts of requests and answers (serde, `BlockId` and `Index` of web3_types.rs), the RLP codecs
-- of `Hex` and `Address`, the start of the servers (src/lib.rs), the wrappers of libsecp256k1
-- (crates/utils), and the interleaving of the locks of one call with those of another.
pub mod Common
pub mod Model
pub mod Store
pub mod Storage
pub mod Mempool
pub mod Executor
pub mod BlockMgmt
pub mod Api
pub mod Runtime
pub mod Tests

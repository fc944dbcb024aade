-- ===== src/Lib.antt =====
-- The EVM executor: executing transactions against a state database and building blocks from them.
--
-- Parts. A block builder (src/block_builder.rs) commits transactions one by one. For each it makes
-- a context, which an engine (src/engines.rs) completes, checks that the block has gas left, and
-- hands it to a transaction executor (src/tx_executor.rs). That checks the nonce and the fee cap,
-- buys the gas, runs the interpreter of the crate `evm` against a backend (src/state_proxy.rs) that
-- reads the state database, writes the changes of the run to the database, pays the miner and
-- refunds the gas that is left. The Ethereum engine also computes the gas limit and the base fee of
-- the next block. The precompiled contracts (src/precompile.rs) are what the interpreter calls at
-- the addresses 1 to 9, in two sets: that of Berlin and that of the Scroll chain.
--
-- Files.
-- Base: shared names, Boolean tests, u64 arithmetic, lists over the native numbers, and actions:
--   functions from a state to an outcome (ok, err or panic) and the state, which comes back after
--   an error too. Options, Bytes and Bits: sequencing of options, numbers as bytes, bytes read at
--   places (Windows), and the exclusive or.
-- External: what other crates implement, as interfaces with laws. Uint: the U256 numbers of
--   eth_types, whose operators are exact or panic. Traits: TxTrait and BlockHeaderTrait as records
--   of methods. Evm: the interpreter, as a conversation with its backend that ends in an outcome.
--   StateDb: the trait StateDB; its laws say how each method reads or writes a ledger of accounts.
--   Crypto: hashing, recoverable signatures and the Solidity encoder, with their laws.
--   Host: all of these together, the parameters of the executor. BigUint, Hashes and Bn: the
--   numbers of any size, the hashes and the curve of the precompiled contracts.
-- Types: src/types.rs.
-- StateProxy: the backend, one answer for each query; Reads, Told, Ends and NoErrors prove what a
--   run can do.
-- TxExecutor: Machine (the struct; the fields that methods write are the state), Checks
--   (check_nonce, check_base_fee, buy_gas, refund_gas), Changes (apply_states), Execute (exec_tx,
--   calculate_txfee, execute). Laws holds the proofs: Effects and Needs are rules for sequences of
--   actions, the others apply them to the methods.
-- BlockBuilder: Engine (the trait), Builder (the struct, new, commit, truncate_and_revert), Finish
--   (finalize and withdrawal), Prefetch (prefetch), Laws.
-- Engines: GasMarket (calc_gas_limit, calc_base_fee) and Ethereum (the other methods, and the
--   instance of the trait), with their proofs below them.
-- Poe: src/poe.rs, proofs of execution that are batched and signed; Chains, Batches, Joins and
--   Signatures hold the proofs.
-- Pob: src/pob.rs, the nodes that a block needs, collected and hashed; Nodes and Order hold the
--   proofs. A BTreeMap is the list of its entries by increasing keys.
-- Precompile: src/precompile.rs. Contract (the trait, the errors, and Crates, the parameters from
--   other crates), Sets (the sets, and the run of a contract behind the interpreter's handle), Simple
--   (the copy, the hashes and those that do not run), Ecrecover, ModExp, Curve (the addition, the
--   multiplication and the pairing), Blake2f (the compression function) and Blake2fContract (its
--   bytes). The modules below them hold the proofs.
-- Examples: concrete instances of all parameters, tests, and each theorem at a concrete input.
--
-- Correspondence. Functions keep the source's names, in snake case. An address, a hash and a word
-- are the numbers that their bytes spell; bytes are lists of numbers. A Rust method on `&mut self`
-- is an action on its struct; `?` is the sequencing of actions; `unwrap` is the outcome panic.
-- u64 arithmetic wraps, as in a build without overflow checks; where that matters a theorem states
-- the range in which nothing wraps. The records of eth_types hold the fields that the crate names.
-- Recursion follows lists, counts of turns and the interpreter's conversation; there is no fuel.
-- A loop over a range is recursion on the number of turns that are left. usize has 64 bits, and
-- memory suffices for the vectors that the code builds.
--
-- Not modelled: logging and timing, the tests, and src/lib.rs, which declares modules. The executor
-- takes the interpreter with its precompiled contracts as one parameter, since the crate `evm`
-- calls them; Precompile models them by themselves. The arithmetic of the curve, the hashes, the
-- recovery of a key and the modular power of `num_bigint` are other crates' code.
pub mod Base
pub mod External
pub mod Types
pub mod Engines
pub mod StateProxy
pub mod TxExecutor
pub mod BlockBuilder
pub mod Poe
pub mod Pob
pub mod Precompile
mod Examples

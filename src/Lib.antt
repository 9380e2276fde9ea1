-- ===== src/Lib.antt =====
-- Verification of the RRA module, the Python package under src/rra.
--
-- Seven parts of the package are modelled. They do not call each other: the API and the agents
-- call them.
--
-- * Treasury models src/rra/treasury/coordinator.py, disputes between treasuries with stakes and
--   votes. `Treasury.Types` has the records and enumerations of the file and the coordinator's
--   state; `Registry`, `Disputes`, `Voting`, `Resolution` and `Queries` have its methods under
--   the source's names. `Weights`, `Invariant` and `Opening` are about one dispute, `Soundness`
--   and `Settlement` about one method, `System` about sequences of calls, `Lifecycle` with its
--   child modules about the status of a dispute, `Payout`, `Winner`, `Votes`, `Staking`,
--   `Signers` and `Mediation` about single methods.
-- * Confirmation models src/rra/transaction/confirmation.py, the confirmation of a purchase with
--   a price commitment and a deadline. `Price` reads price texts with the source's pattern, and
--   makes and verifies commitments; `Manager` and `Steps` have the methods of
--   `TransactionConfirmation`; `Invariant`, `Soundness`, `Cleanup`, `System` and `Outcomes` have
--   the proofs.
-- * Delegation models src/rra/auth/delegation.py, what a user lets an agent do and spend.
--   `Scope` has the limits and `DelegationScope`, `Manager` has `ScopedDelegation`, `Limits`
--   proofs about one of them, `System` about sequences of calls.
-- * Rollup models src/rra/l3. `Batch` has the state of `BatchProcessor` of batch_processor.py
--   and the creation of batches, `Processing` and `Settlement` its other methods, `Merkle` its
--   root and proof, `MerkleProof`, `Conservation` with `Conservation.Steps`, `Calls`,
--   `Finality` and `Rejection` the proofs. `Sequencer` has the types of sequencer.py, and `Block`
--   the submission of transactions and the production of blocks, which hands disputes and
--   commitments to the batch processor; `Selection`, `Production`, `Progress`, `Payload`,
--   `History`, `Custody` and `Ledger` have the proofs, and `SortedQueue` a queue with the laws of
--   the record `HeapQueue`, by which the sequencer uses Python's heapq.
-- * Resilience models src/rra/integration/network_resilience.py, calls of a service that may
--   fail. `Breaker` has `CircuitBreaker`, `Client` has `RequestQueue` and `ResilientClient`,
--   `Gate` the specification of the breaker, a gate with three states, `Retry` the decorator
--   `retry` against the client, and `Attempts` and `Trials` the other proofs about the client.
--   `execute_async` and `async_retry` do the same as `execute` and `retry` on what they await.
-- * Sharing models src/rra/crypto/shamir.py and src/rra/privacy/secret_sharing.py, which split a
--   secret into shares. `Arithmetic`, `Shamir` and `Escrow` have the functions of shamir.py,
--   `Threshold` those of secret_sharing.py, which has the inner loop and the polynomials of the
--   other. `Ring`, `Modular`, `Interpolation` and `Masks` have the algebra of the numbers modulo
--   a prime, `Inverses`, `Products` and `Lagrange` the arithmetic of the code in it, and
--   `Split`, `Recovery`, `Secrecy`, `Custody` and `Numbers` the proofs about the shares. That
--   the modulus passes Fermat's test, as every prime does, is a hypothesis of theirs.
-- * Limits models src/rra/api/rate_limiter.py, which limits how often a client may ask. `Backend`
--   has the storage in memory, `Limiters` the token bucket and the sliding window, `Requests` the
--   limiter that asks them in turn. `Counting` and `Window` have the proofs about the window, for
--   which they compare it with one that forgets nothing, `Bucket` and `Burst` those about the
--   bucket, `Chain` and `Minute` those about the limiter.
--
-- `Prelude` has what the parts share: Boolean tests, lists, keys, Python's integers, and
-- dictionaries as association lists that keep the order of insertion. A module `Tests` or
-- `SignerTests` has runs of the code at concrete arguments.
--
-- A method is a function of the state that it finds to the state that it leaves, with its
-- result; an exception is a value of the result. What a method draws from outside is its
-- argument: the time (a number of microseconds in Confirmation, Delegation, Resilience and
-- Limits), random or digested ids, which are numbers, and digests. Where one call reads the
-- clock twice in Confirmation, Delegation and Limits, the readings are taken to be one instant.
-- The SHA-256 digest of a proposal's content is a parameter with no hypothesis. Texts are lists
-- of ASCII codes. Python's integers are `ℤ` for the amounts, weights, priorities, nonces and
-- arguments that the code lets be negative in Treasury, Confirmation, Delegation and the
-- sequencer, and for the number that secret_sharing.py splits. The other numbers, such as
-- times, counters, limits and sizes in a configuration, the stakes of the batch processor, and
-- the thresholds, moduli and shares of Sharing, are taken not to be negative. A Decimal is a
-- number of digits with places behind the point, and its comparisons are exact, as is the
-- arithmetic on floats in Limits. Callbacks are recorded as notices in Treasury, where they are
-- taken to return without calling back; in Confirmation they are functions that may raise,
-- which the source catches. The manager of Confirmation holds a lock where it changes its
-- stores; a call is one step of the model. Loops are structural recursion on the list that the
-- source iterates over, or on the number of attempts or rounds that it allows, so no function
-- takes fuel, but for three loops of Rollup: the two climbs of the Merkle tree take the number
-- of leaves, since each level has fewer nodes than the one below, and the selection of a block
-- takes the number of pending transactions, since each round takes one.
--
-- Not modelled: `to_dict` and other formatting, the free-form metadata, the daemon thread that
-- calls the clean-up, the copy of the request queue on disk, the delays between attempts, the
-- preparation of arguments for contracts, the Miller-Rabin test of the prime, the rate
-- limiter's storage in Redis and its middleware, and the rest of
-- the package: reconciliation and oracle voting, DeFi, cryptography, privacy, identity, the rest of
-- the HTTP API, the bridges to other systems, pricing, negotiation, storage and the contracts' clients.
pub mod Prelude
pub mod Confirmation
pub mod Delegation
pub mod Limits
pub mod Resilience
pub mod Rollup
pub mod Sharing
pub mod Treasury

-- ===== src/Lib.antt =====
-- Mandate Ledger: an engine that lets an agent spend under a signed mandate, and keeps a
-- hash-chained record of every decision. This library models crates/ml-core, crates/ml-adapters
-- and crates/ml-store-postgres.
--
-- The parts. A mandate (crates/ml-core/src/mandate.rs) is a signed scope: merchants, categories,
-- currency, caps, validity, velocity. A cart (cart.rs) is what is bought. The engine `Ledger`
-- (ledger.rs) takes both, checks the one against the other, and appends an event (event.rs) to the
-- store (store.rs), which checks revocation, velocity, budget, the state machine (state.rs) and
-- nonces once more, under its lock, and writes the record of the purchase's context. A rail
-- (rail.rs) answers for payments and their finality. Evidence (evidence.rs) is the chain of one
-- context, which anybody can verify. The adapters (crates/ml-adapters/src) give the engine its
-- carts and rails: native.rs reads a merchant's own cart, mock.rs and sandbox.rs are the rails of
-- tests and of the sandbox, and x402/ reads x402 payment terms as carts and answers for EIP-3009
-- payments on a chain.
--
-- The files.
--   Prelude: lists, maps, integers, results and lawful equality, which every part shares.
--   Text, Hash, Money, Time, Ids, Cart: the values; `String`, hash.rs, money.rs, time.rs, ids.rs,
--     cart.rs.
--   State, Reason, Error, Event: the lifecycle and the messages; state.rs, error.rs, event.rs.
--   Mandate: Pattern (`MerchantPattern`), Scope (`Scope::validate`, `admits`, `is_subset_of`),
--     Body (`attenuate`, `sign`, `verify`, the signer policies); Narrowing and Delegation are
--     about what delegation keeps, and Comparison about the equality of mandates.
--   Evidence: `EvidenceBundle` and `SignedEvidence`; Extend and Signed are about their
--     verification.
--   Rail: the rail boundary.
--   Store: Interface (`trait Store`), Inner and Validate (phase 1 of `MemoryStore::append`),
--     Commit (phase 2), Memory (the queries, `revoke`, `prune`). Append and Log say what an append
--     does, Reach which states a store can come to, and Exact which it can come to through states
--     with a property; each other child is about one thing that the store keeps.
--   Postgres, crates/ml-store-postgres/src: Tables (the schema of migrations/0001_initial.sql),
--     Convert (convert.rs); of store.rs, Decide (phase 1 of `PostgresStore::append`), Write (phase
--     2, the transaction, `revoke`) and Query (the queries, the `Store` instance). Rows, Decided,
--     Stages, Logged and Frames are about the single statements; Agreement, Success, Preserved,
--     Refinement, Start and Runs lead the tables back to the in-memory store, call after call;
--     Races is about two transactions at once.
--   Ledger: Engine (`deny`, `append_plain`, the queries), Authorize, Payment, Settle, Finish,
--     Queries, one file per group of operations of `Ledger`. Runs, Steps, PaymentSteps,
--     FinishSteps and Session lead every operation back to steps of the store; Outcome, Admission
--     and Binding are about the tokens; Retry, Replies and Refusals are about repeated calls and
--     refusals.
--   Cart.Messages: the texts of the cart adapters' errors (cart.rs).
--   X402, crates/ml-adapters/src/x402: Types (types.rs), Assets (assets.rs), Fields (fields.rs),
--     Eip3009 (eip3009.rs), Payment (payment.rs), CartTerms (`X402CartAdapter`, cart.rs), Finality
--     (finality.rs); of rail.rs, Reference (the reference of a payment), Judge (what a receipt
--     says) and Verify (`X402Rail`). Identifiers, References, Accounts, Registry and Pricing are
--     about the values; Payments, Purchases and Recorded about what a verified payment is, alone,
--     against its cart and in the ledger; Evidence and Settlements about what an answer of the
--     chain shows.
--   Adapters: Native (native.rs), Mock (mock.rs), Sandbox (sandbox.rs); Attested is about signed
--     carts, and Reorg about what the sandbox rail reports, and remembers, of a reorganized
--     payment.
--   Tests: concrete parameters, runs, and the theorems at concrete inputs.
--
-- The model. A method of the store is a function from its state to a result and the state after
-- it, since the source holds a lock throughout; the engine is a small monad over such a state, so
-- it runs over any store. `Reach` is the relation of all states that appends, revocations and
-- prunings lead to, in any order, which covers concurrent callers. A call of the Postgres store
-- (`pg_append`) is a function on the tables during which nothing else commits: it commits, or
-- leaves the rows as they were. Its locks do not ensure that for every pair of calls: a release
-- takes no lock of the mandate. `decide` and `write` are its two phases on tables of their own,
-- and Races is about tables that others have changed in between. An error is a value, and what was
-- written before it stays written. Sequence numbers are `u64`: the number of the next event is
-- taken modulo 2 ^ 64, and the reachable states are those reached while a number is left. The
-- count of a velocity window is capped at the largest `u32`. Timestamps are `i64` with a
-- saturating subtraction. Every loop is a recursion on a list, save the digits of a number
-- (Text.Decimal), which run on fuel one more than the number; that this is enough is what reading
-- a printed number back shows.
--
-- Parameters. `rust_decimal` (`DecimalOps`; `DecimalLaws` on the number that a decimal stands for;
-- `DecimalSums`, which says that sums and differences are exact between decimals of few enough
-- digits, since `rust_decimal` rounds beyond its 96 bits), SHA-256, hexadecimal, canonical JSON,
-- Ed25519 (a key's own signature verifies) and the rail; for x402, Keccak-256, secp256k1's
-- recovery, `serde_json` and the answers of the chain's RPC node; for the Postgres store, the JSON
-- of an event's body.
--
-- Not modelled: serde, the `Arc` delegations, the locks' poisoning, clocks, the server, the
-- command line of the sandbox, and of the Postgres store the migrations and a connection that is
-- lost. The texts of refusals are data (`Detail`) and not strings.
pub mod Prelude
pub mod Text
pub mod Hash
pub mod Money
pub mod Time
pub mod Ids
pub mod Cart
pub mod State
pub mod Reason
pub mod Mandate
pub mod Event
pub mod Error
pub mod Evidence
pub mod Rail
pub mod Store
pub mod Postgres
pub mod Ledger
pub mod Adapters
pub mod X402
pub mod Tests

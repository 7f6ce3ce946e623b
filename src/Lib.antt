-- ===== src/Lib.antt =====
-- The Rust engines of the USSD platform (rust-engine/).
--
-- A USSD session is a log of events that other services append to an event store. The session
-- reconstructor folds such a log into the state of the session, checks its hash chain and proves
-- events by Merkle trees; the audit engine builds the Merkle trees of the ledger's records; the
-- payment engine asks mobile money providers for payments, stores them, follows the providers'
-- callbacks and appends events to an outbox; the reconciliation engine compares the platform's
-- transactions with a provider's statement; the messaging engine sends messages through the
-- operators' gateways; the ledger query service reads the ledger.
--
-- Files:
--   Prelude      lists, texts, integers, instants, maps, results, computations with effects and
--                decimal amounts
--   Audit/Merkle      rust-engine/audit/src/domain/merkle.rs: build_merkle_tree, merkle_proof,
--                verify_merkle_proof. A tree is one vector of all levels, as in the source.
--   Audit/Records, Audit/Repository     the records, errors and queries of that crate:
--                infrastructure/postgres.rs, domain/error.rs
--   Audit/Handler     application/audit.rs: the proofs, checksums, daily batches, chain and batch
--                verifications, trails and reports; sign_batch_hash of infrastructure/signing.rs
--   Session/State     rust-engine/session-reconstructor/src/domain/session.rs: fold_session_state
--   Session/Integrity, Session/Merkle     application/reconstruct.rs of that crate:
--                verify_integrity, compute_event_hash, compute_merkle_proof
--   Session/Reconstruct     reconstruct_session and fetch_event_hashes of the same file, over the
--                cache of infrastructure/cache.rs
--   Session/Grpc     ports/grpc.rs of that crate: the methods that are implemented, with the errors
--                they answer
--   Payment/Provider, Payment/Domain     rust-engine/payment-engine/src/domain/: the statuses,
--                validation and transitions of a payment
--   Payment/Store, Payment/Repository     infrastructure/postgres.rs and infrastructure/outbox.rs of
--                that crate: the rows, and the statements in their order
--   Payment/Initiate, Payment/Callback     application/initiate.rs and application/callback.rs: the
--                handlers, as computations over the world that the statements change
--   Payment/Grpc     ports/grpc.rs of that crate: the methods that are implemented
--   Reconciliation    rust-engine/reconciliation-engine/src: domain/ in Domain, and of
--                application/handler.rs match_transactions and is_match in Matching and
--                start_reconciliation in Run, over the ports; the store of
--                infrastructure/postgres_recon_store.rs in Store, over the tables that
--                postgres-schema/V070__reconciliation_settlement.sql declares in Schema, the calls
--                that resolve items through it in Resolution, and its lists of runs and items in
--                Listing
--   Messaging    rust-engine/messaging-engine/src: domain/ in Domain, application/handler.rs in
--                Handler, the delivery log of infrastructure/postgres_delivery.rs in DeliveryLog, and
--                infrastructure/redis_rate_limit.rs in RateLimit
--   Ledger       the enumerations of rust-engine/ledger-query-service/src/domain/ and their codes
--   Tests        concrete runs
-- A child of a module holds what is shown of it.
--
-- What is not in the repository is a parameter: SHA-256, hexadecimal text, JSON values, decimal
-- amounts, the clock, the database's failures and its row-level security, and the providers'
-- answers and statements. A panic on an index is `none`. Loops over a vector are recursion on the
-- vector; the loops `while level_len > 1` take the number of leaves as fuel, which is enough since
-- every round leaves fewer nodes; the retries are a recursion on the three attempts.
--
-- A table of the database is the list of its rows, a statement does what its SQL says, and any
-- statement may fail; `WITH RECURSIVE` is a recursion on the depths that are left.
--
-- Not modelled: the gRPC servers of the engines but the session reconstructor's and the payment
-- engine's, the structures of protobuf messages, the providers' HTTP adapters, the templates of
-- messages, the signing backends, process start and configuration, the waits between retries, and
-- the expiry of cache entries, which can only drop entries between calls. Of the stores the
-- statements that no handler runs, and of the reconciliation store the matching rules, are left out.
pub mod Prelude
pub mod Audit
pub mod Session
pub mod Payment
pub mod Reconciliation
pub mod Messaging
pub mod Ledger
mod Tests

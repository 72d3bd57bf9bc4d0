-- ===== src/Lib.antt =====
-- Models of the Grosh backend: how a bank transaction becomes a stored row.
--
-- The ingestion service reads statements of a bank and puts raw items on a Kafka topic. The
-- normalization service turns each into a normalized transaction and sends it on, or stages it
-- while the transactions of its user are reprocessed. The enrichment service takes one at a time.
-- Its orchestrator reads the account, asks the transfer detection of the source whether the
-- transaction is one half of a transfer between two accounts of the user, converts the amount into
-- the display currencies with the stored rates, and stores the row and the anomalies found, all in
-- one database transaction. The ingestion service keeps the rates up to date, and starts and
-- follows the jobs that reprocess the transactions of a user. The API service opens and ends the
-- sessions of users.
--
-- Parts, files and code (paths are from the repository's root; E is
-- services/enrichment/src/grosh_enrichment, I is services/ingestion/src/grosh_ingestion, N is
-- services/normalization/src/grosh_normalization, P is services/api/src/grosh_api):
--   * Prelude: tests, lists and text that all parts share.
--   * Domain: events and rows of shared/src/grosh_shared/domain and shared/migrations/versions;
--     JSON values, integers, and the errors that end a run (Domain/Values, Int, Errors).
--   * Database: the tables as lists of rows.
--   * Accounts: E/repositories/account_repo.py.
--   * Transfer: E/sources/monobank. Descriptions (descriptions.py), Flags (transfer/flags.py),
--     Evidence (transfer/iban_classifier.py), Records and Anomalies (transfer/anomalies.py,
--     services/transfer_detection.py), Decision (transfer/decision.py), Queries (transfer/repo.py,
--     repositories/anomaly_repo.py), Metadata (transfer/metadata.py), Detector
--     (transfer/detector.py). Each function has the name of the code's; `_decide_many` is
--     survivors_of and decide_survivors under decide_many, and the second half of
--     `detect_and_pair` is pair_up.
--   * Decimal: the arithmetic of Python's decimal module that the conversion uses.
--   * Rates: Lookup (E/repositories/currency_rate_repo.py), Convert and Display
--     (E/services/currency_conversion_service.py), Ingest
--     (I/repositories/currency_rate_repo.py, I/services/currency_rate_service.py).
--   * Enrichment: E/services/enrichment_orchestrator.py, E/repositories/transaction_repo.py and
--     the wiring of E/main.py. Outcome, Gate, Parts, Redelivery and Links hold proofs.
--     Consumer is the loop of E/consumers/enrichment_consumer.py, as a step relation in which
--     commits are not waited for, and a process that ends gets all messages without one again.
--   * Kafka: the poll with its error budget and the produce with one retry, of
--     shared/src/grosh_shared/messaging/kafka_resilience.py, N/kafka.py and E/kafka.py.
--   * Manual: I/sources/manual/service.py with I/repositories/account_repo.py and
--     I/repositories/user_settings_repo.py.
--   * Normalization: the normalizers of N/sources and their models (normalize_monobank,
--     normalize_manual), and N/consumers/normalization_consumer.py (Consumer).
--   * Staging: N/repositories/staging_repo.py, the routing of the normalization consumer, and
--     N/services/staging_drain_service.py (Drain). Interleaving is the step relation of drains that
--     may be cancelled, routings and changes of locks.
--   * Replay: stored rows read back as events (`TransactionRow` of
--     shared/src/grosh_shared/domain/normalized.py and
--     N/repositories/transaction_read_repo.py).
--   * Reprocess: N/services/reprocess_orchestrator.py and N/repositories/reprocess_repo.py.
--   * Backfill: the loop of `run_backfill` in I/sources/monobank/backfill.py.
--   * Jobs: Status (I/services/job_status_service.py), Submit (I/services/reprocess_dispatcher.py and
--     I/services/backfill_service.py), Trigger and Trigger/Bulk (I/routers/reprocess.py,
--     I/routers/admin_reprocess.py and the queries of I/repositories that they use).
--   * Linking: the tables and queries of I/sources/monobank/repo.py. Linking/Service is
--     I/sources/monobank/linking_service.py (link, unlink, list), Webhook the webhook of
--     I/sources/monobank/router.py and `reregister_webhooks`, Backfills the backfill endpoints of the
--     router with I/services/account_access.py. link_client, link_new, create_fresh and after_insert
--     are the branches of `link`, and link_accounts its loop. Stuck, Steps and Errored hold the
--     proofs on integrations with an error, Linked, Bound, Loop, Orphans, Again and Relinked those
--     on linking again, Pushed, Started and Windows those on the endpoints.
--   * Auth: P/services/auth_service.py, the bearer token of P/deps.py, and the repositories of users,
--     refresh tokens and revoked tokens. Kept, Rotation and Revocation hold proofs.
--
-- Conventions. A query is a function of the list of rows, an update returns the new list. An error
-- that the code raises is a value of Result; the run that raises it stores nothing. UUIDs are
-- natural numbers, instants are microseconds. What lies outside the repository is a parameter: the
-- rows that other transactions hold locked (SKIP LOCKED), the ids that the database makes, how
-- Python prints decimals and UUIDs (Printer, Texts), whether the broker takes a message (Broker), the
-- parsing of payloads, UUID5 and the table of currencies, the Kubernetes API (BatchApi), the bank and
-- pgcrypto (Outside of Linking), and hashes, bcrypt and JWTs (Crypto).
--
-- Bounds. Decimals have 28 digits, rounded half even. The count of digits runs on fuel, a thousand
-- digits, which the bounded columns and factors stay far below. The chain of rate sources is walked
-- to depth 10, the code's own cap. The loop of the backfill runs on fuel, of which more than the
-- newest timestamp is enough, as proved.
--
-- Not modelled: the advisory locks of a user and of a reprocessing, of which the first makes the runs
-- of a user follow one another; the listener connection of the staging service and the shutdown of its
-- tasks; the job over all users, and the jobs that run a backfill; the HTTP clients of the banks; the
-- renaming and deletion of accounts; the administration of users and what the API only reads; the ML
-- service, the frontend and the deployment; foreign keys and the columns that no modelled code reads;
-- row-level security, but for the accounts that a backfill request reads; a BufferError of a backfill;
-- the overflow of BIGINT and NUMERIC columns.
pub mod Prelude
pub mod Domain
pub mod Accounts
pub mod Transfer
pub mod Database
pub mod Decimal
pub mod Rates
pub mod Enrichment
pub mod Replay
pub mod Backfill
pub mod Reprocess
pub mod Kafka
pub mod Staging
pub mod Manual
pub mod Linking
pub mod Normalization
pub mod Jobs
pub mod Auth

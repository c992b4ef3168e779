-- ===== src/Lib.antt =====
-- A verification library for the data intake service of this repository (app/app). Five of its parts
-- are modelled: the intake of requests for a company's data, the ingestion of its raw documents, the
-- checks of a data set, the delivery of messages, and the registration of data sets with the knowledge
-- service.
--
-- Intake (Intake.antt and below) is `SecurityRequestService` of app/app/application/securities/
-- request_service.py over `SqlRequestStore` and `SqlWatchlist` of app/app/infrastructure/securities/
-- request_store.py, with the rules of app/app/domain/securities/requests.py:
--   Intake/Domain     the types and rules of requests.py (`progress_after_approval`, `clean_reason`, …)
--   Intake/Unit       the tables, one database session over them, and actions that may fail
--   Intake/Store      `create`, `join`, `withdraw_requester`, `decide`, `close` and the lookups
--   Intake/Queries    the lists, the progress of ingestions and datasets, `start_ingestion`
--   Intake/Watchlist  `SqlWatchlist`
--   Intake/Views      `_view`, `_views`, `_my_open_count`
--   Intake/Steps, Intake/Submit, Intake/Service   the operations of the service
--   Intake/Calls      calls one after another, each in its own unit of work
-- Intake/Keeps, Stable, Reading and Operations carry a relation between the tables through every
-- operation; History, Integrity and Soundness do so for two relations. Counting, Endings, Room,
-- Limit, Additions and Bounded count the open requests of a person. Decisions, Rejection and
-- Watching are about single operations, and Examples holds runs on concrete tables.
-- SecurityCode.antt is `SecurityCode` of app/app/domain/securities/models.py, and CrossApp.antt the
-- origin of a user of app/app/domain/cross_app.py.
--
-- Delivery (Delivery.antt and below) is app/app/infrastructure/messaging/ (durable_delivery.py,
-- durable_tasks.py, delivery_schedule.py) with `SqlOutboxRepository` of
-- app/app/infrastructure/repositories/outbox.py and `OutboxEvent` of app/app/application/dto/outbox.py:
--   Delivery/Event      what an event must be
--   Delivery/Outbox     the tables, `enqueue`, `claim_inbox_once`
--   Delivery/Queue      `claim_delivery`, `finish_delivery`, `_dead_letter`
--   Delivery/Journal    `reconcile`, `replay`
--   Delivery/Execution  `claim_execution`, `renew`, `release`, `consume`
--   Delivery/Batch      `claim_batch`, `mark_published`, `mark_failed`
-- Delivery/Exclusive, Burial, Revival and Intent are about publishers, the journal and `enqueue`; Epochs,
-- Claims, Fence and Once about the leases of consumers over sequences of operations.
--
-- Ingestion (Ingestion.antt and below) is `SecurityIngestionService` of app/app/application/securities/
-- ingestion_service.py over `SqlIngestionStore` of app/app/infrastructure/securities/store.py:
--   Ingestion/Domain     the types of app/app/domain/securities/models.py
--   Ingestion/Storage    `put_bytes` of app/app/infrastructure/storage/object_storage.py
--   Ingestion/Store      the tables; `start`, `begin`, `finish`, `record_build_refusal`
--   Ingestion/Archive    `security_object_key`, `archive`
--   Ingestion/Context    `_Context`: `fetch`, `fetch_optional`, `_fetch_with_retry`
--   Ingestion/Summary, Ingestion/Service   `_summarize`; `request`, `run`, `ingest`
--   Ingestion/Json, Eastmoney, Reports, Cninfo   the two collectors of app/app/application/securities/
--                        collectors/ (eastmoney_f10.py, cninfo.py), over a parser
-- A collector is a tree of requests (`Script`): each next request depends on the contents before it, so
-- a theorem on all trees holds of all collectors that let the errors of `fetch` through, as these do.
-- Keeps carries a property of the tables and the items through any collection; Existing, Effects and
-- Failures are about `archive`, Keys and Objects about the bucket; Collection, Collected, Seen, Refines,
-- Retry and Once about collections and batches; Totals, Finished and Ended about a run; Slices, Relisted
-- and Downloaded about the collectors.
--
-- Dataset (Dataset.antt and below) is app/app/application/securities/dataset/ (quality.py, basis.py):
--   Dataset/Domain          the rows and figures of app/app/domain/securities/dataset.py, and the rules
--                           of app/app/domain/securities/financial_catalog.py
--   Dataset/Reconciliation  `_residual`, `_reconciliation`
--   Dataset/Screening       `screen`
--   Dataset/Basis           `assign_basis`
--   Dataset/Structure, Continuity, Official   `_structure`, `_continuity`, `_official`, `_basis_coverage`
--   Dataset/Quality         the other checks, `run_checks`, and the report's `passed`
-- Continuous, Clean and Published are about a report that passes, Left, Screened, Breach and Listed about
-- `screen`, Entries, Grouped, Evidence and Founded about `assign_basis`.
--
-- Registration (Registration.antt and below) is app/app/application/securities/registration_service.py:
--   Registration/Registrar  `KnowledgeDatasetRegistrar` of app/app/infrastructure/securities/
--                           knowledge_registrar.py, with app/app/domain/securities/registration.py
--   Registration/Records    `SqlDatasetRecords` of app/app/infrastructure/securities/dataset_records.py
--   Registration/Service    `DatasetRegistrationService`, and `register_security_dataset` of
--                           app/app/infrastructure/messaging/delivery_handlers.py
--
-- The parts meet where the intake starts an ingestion: `start_security_ingestion` stores a batch and
-- enqueues a delivery; the intake keeps the ids of the batches that were enqueued, and the ingestion
-- begins such a batch when its delivery is consumed. What it archives becomes the rows and figures of
-- a data set, which the checks let be published or not; a published one is registered. The handlers of
-- the ingestion and of the registration are among those that a consumption runs.
--
-- Conventions. A text is the list of its code points. A UUID is its number, and a time is a number: of
-- microseconds in the delivery, of an abstract clock in the intake. An action of the intake fails
-- with an error as a value, and then leaves the tables as they were; an exception of the source is
-- such an error. What the code takes from outside is a parameter: the tables of characters of Python
-- (`strip`, `\d`), new UUIDs, clocks, what other transactions commit in between, the handlers of
-- messages, the encodings of JSON and of times, and how PostgreSQL reads the text of a time; in the
-- ingestion also the fetcher, SHA-256, the client of S3, the parser of JSON and the patterns of `re`; in
-- the data set what Python computes with floats, which are opaque bits. The loops of the source run
-- over lists and are structural recursions. Three loops count: the three attempts of a request, where
-- the last attempt always ends the loop; the ten pages of announcements, with the error of the source
-- after them; and the slices of five periods, for which the number of periods is enough.
--
-- Not modelled: the columns created_at and updated_at where no query reads them, the texts of error
-- messages, logging and metrics; the locks of a transaction, but for the rows that SKIP LOCKED passes
-- over; the order of the watchlist by code; the heartbeat of a consumption but for its effects on the
-- tables. A statement of SQL reads the clock once. Of the ingestion: an identifier that is no UUID; two
-- archivings at once, which may both miss the artifact of the other, as a transaction of the store is
-- one step here; the texts of a source's row; the metadata of an object. An object of the bucket is a
-- file of the local backend, or a version of an object of S3, and writing it again replaces its content.
-- Of the collectors: a negative number where an integer is read, which is taken for no number, and an
-- exception that is no CollectError, such as a time out of range. Of the intake: what others commit in
-- the middle of a call that fails. Of the data set: the names and notes of checks, the parsing of
-- statements and reports, the tables of the file and the service that builds it. Crawling, the
-- extraction of reports, authentication, the HTTP interfaces and the command line are not modelled.
mod Prelude
pub mod Registration
pub mod Rows
pub mod SecurityCode
pub mod CrossApp
pub mod Dataset
pub mod Delivery
pub mod Ingestion
pub mod Intake

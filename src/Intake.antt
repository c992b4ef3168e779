-- ===== src/Intake.antt =====
-- Requests for the ingestion of a security: app/app/domain/securities/requests.py,
-- app/app/application/securities/request_service.py and
-- app/app/infrastructure/securities/request_store.py.
pub mod Domain
pub mod Unit
pub mod Store
pub mod Queries
pub mod Watchlist
pub mod Views
pub mod Steps
pub mod Submit
pub mod Service
pub mod Keeps
pub mod Rows
pub mod Stable
pub mod Reading
pub mod Operations
pub mod Calls
pub mod History
pub mod Integrity
pub mod Soundness
pub mod Examples
pub mod Decisions
pub mod Rejection
pub mod Counting
pub mod Endings
pub mod Room
pub mod Limit
pub mod Additions
pub mod Bounded
pub mod Watching

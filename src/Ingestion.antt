-- ===== src/Ingestion.antt =====
-- The collection of a company's raw documents: app/app/application/securities/ingestion_service.py with
-- its collectors, and app/app/infrastructure/securities/store.py.
pub mod Domain
pub mod Storage
pub mod Store
pub mod Archive
pub mod Objects
pub mod Keys
pub mod Context
pub mod Summary
pub mod Service
pub mod Json
pub mod Eastmoney
pub mod Slices
pub mod Reports
pub mod Relisted
pub mod Cninfo
pub mod Downloaded
pub mod Keeps
pub mod Existing
pub mod Effects
pub mod Failures
pub mod Collection
pub mod Collected
pub mod Seen
pub mod Retry
pub mod Once
pub mod Totals
pub mod Finished
pub mod Ended
pub mod Refines
pub mod Examples
pub mod Trials

-- ===== src/Dataset.antt =====
-- The checks that decide whether a data set is published: app/app/application/securities/dataset/quality.py
-- and basis.py.
pub mod Domain
pub mod Reconciliation
pub mod Screening
pub mod Basis
pub mod Structure
pub mod Continuity
pub mod Official
pub mod Quality
pub mod Continuous
pub mod Clean
pub mod Published
pub mod Left
pub mod Screened
pub mod Breach
pub mod Listed
pub mod Entries
pub mod Grouped
pub mod Evidence
pub mod Founded
pub mod Examples

-- ===== src/Registration.antt =====
-- The registration of data sets with the knowledge service: app/app/application/securities/registration_service.py,
-- app/app/infrastructure/securities/knowledge_registrar.py and dataset_records.py.
pub mod Registrar
pub mod Records
pub mod Service
pub mod Outcomes
pub mod Refusals
pub mod Examples

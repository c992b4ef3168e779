-- ===== src/Delivery.antt =====
-- The delivery of messages: app/app/infrastructure/messaging/ (durable_delivery.py, durable_tasks.py,
-- delivery_schedule.py), app/app/infrastructure/repositories/outbox.py and app/app/application/dto/outbox.py.
pub mod Event
pub mod Outbox
pub mod Queue
pub mod Journal
pub mod Execution
pub mod Batch
pub mod Exclusive
pub mod Epochs
pub mod Claims
pub mod Fence
pub mod Once
pub mod Burial
pub mod Revival
pub mod Intent
pub mod Examples

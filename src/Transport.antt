-- ===== src/Transport.antt =====
-- src/transport.rs and src/connection_fault.rs: delivery plans and their execution.
pub mod Fault
pub mod Config
pub mod Valid
pub mod Plan
mod Covers
pub mod Planned
pub mod Deliver
pub mod Written
pub mod Sent
pub mod Settled
pub mod Delivered
mod Tests

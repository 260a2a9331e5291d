-- ===== src/Framing.antt =====
-- src/framing.rs: faults in the length headers of a reply.
pub mod Visit
pub mod Config
pub mod Select
pub mod Corrupt
pub mod Mutate
mod Indices
pub mod Splice
pub mod Ahead
mod Own
mod Chosen
pub mod Spliced
pub mod Differs
pub mod Faulty
mod Tests

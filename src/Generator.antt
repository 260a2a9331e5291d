-- ===== src/Generator.antt =====
-- src/generator.rs: the generator of frames, and of scalars that replace one another.
pub mod Config
pub mod Scalars
pub mod Drawn
pub mod Different
pub mod Kinds
pub mod Frames
mod Bounds
mod Distinct
mod Tests

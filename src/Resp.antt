-- ===== src/Resp.antt =====
-- src/resp.rs: RESP frames, their encoder, the parser and the reader of raw frames.
pub mod Frame
pub mod Same
pub mod Encode
pub mod Wire
pub mod Lines
pub mod Canonical
mod Words
pub mod RoundTrip
pub mod Result
pub mod Parse
pub mod Reader
mod Tests

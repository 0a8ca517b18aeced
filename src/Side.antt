-- ===== src/Side.antt =====
-- The side transport of src/side_transport.rs: frames in chunks, and their assembly.
pub mod Hash
pub mod Frames
pub mod Sending
pub mod Assembly
pub mod Room
pub mod Assemble
mod Counted
mod Expired
mod RoomMade
mod Chunks
mod Delivered
mod Inserted
mod Copied
mod Whole
mod Journey
mod Streamed
mod Reported
pub mod Cursors
mod Slots
mod Resumes
mod Canonical
mod Sends
mod Tests

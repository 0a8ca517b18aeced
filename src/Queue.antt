-- ===== src/Queue.antt =====
-- `BoundedDeque` of src/src/queue.rs: a double-ended queue with a byte budget.
pub mod Ring
pub mod Room
pub mod Push
pub mod Batch
pub mod Turn
pub mod Valid
pub mod Retain
pub mod Trims
pub mod Fifo
pub mod Order
pub mod Priority
pub mod Admission
pub mod BatchFits
pub mod GroupFits
pub mod TurnFair
pub mod Growth
pub mod TurnOwed
pub mod Select
pub mod Reclaim
pub mod Kept
pub mod TurnKept
pub mod Reach
mod Tests

-- ===== src/Courier/Queue.antt =====
-- The durable queue (internal/evidence/courier/queue.go): its state, admission and retirement.
-- Every method runs under the queue's lock, so a call is one step. A file operation's outcome is
-- an argument of the step. Sizes and sequences stay far below 2^63 and are not wrapped.
pub mod Disk
pub mod State
pub mod Admit
pub mod Retire
pub mod Model
pub mod Cases
pub mod Admission
pub mod Capacity
pub mod Open
pub mod Limits
pub mod Custody
pub mod Retirement
pub mod Unrestored
pub mod Delivery

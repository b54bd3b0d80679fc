-- ===== src/Courier/Queue/Model.antt =====
-- The queue as an ordered list of records with their encoded sizes: what the maps and counters of
-- queue.go are indices of.
pub mod Counters
pub mod Items
pub mod Rep
pub mod Indexed
pub mod Permuted
pub mod Order
pub mod Arranged
pub mod Keep
pub mod Drop

-- ===== src/Samples.antt =====
-- The theorems at concrete inputs: queues, clocks and registries as the program could hold them.
mod Stores
mod Openings
mod Carriages
mod Queues
mod Lanes
mod Deliveries
mod Reports
mod Receivers
mod Clocks
mod Sites

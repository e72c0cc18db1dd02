-- ===== src/Examples.antt =====
-- The theorems at concrete inputs.
pub mod Stock
pub mod Shop
pub mod Cancels
pub mod Server
pub mod Tables
pub mod Sales
pub mod Remote
pub mod People
pub mod Shelf
pub mod Queues
pub mod Routes
pub mod Texts
pub mod Requests
pub mod Connections
pub mod Gateways
pub mod Caches

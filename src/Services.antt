-- ===== src/Services.antt =====
-- app/services, with the repositories that they use: each method is an action on the store.
pub mod Transitions
pub mod Unlock
pub mod Tasks
pub mod Execution
pub mod Order
pub mod Nodes
pub mod Workers
pub mod Scheduling
pub mod Dispatch
pub mod Listings
pub mod Metrics
pub mod Queues
pub mod Monitoring

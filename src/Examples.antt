-- ===== src/Examples.antt =====
-- Small inputs for every component: runs of the model, and the theorems applied to them.
mod Dag
mod States
mod Stores
mod Execution
mod Order
mod Tasks
mod Scheduling
mod Workers
mod Monitoring
mod Migrations
mod Metrics
mod Dispatch
mod Execute
mod Queues

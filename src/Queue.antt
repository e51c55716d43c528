-- ===== src/Queue.antt =====
-- runtime/queue.py: the persisted job queue. The definitions stand in `Job`, `History`, `Access`,
-- `Create`, `Lifecycle`, `Maintenance` and, for the view of clients, `Lives`; the modules of proofs are
-- named for what they prove.
pub mod Job
pub mod History
pub mod Access
pub mod Create
pub mod Lifecycle
pub mod Maintenance
pub mod Sound
pub mod Healthy
pub mod Loading
pub mod Moves
pub mod Retries
pub mod Outcomes
pub mod Distinct
pub mod Rewrites
pub mod Promotion
pub mod Listing
pub mod Repairs
pub mod Pruning
pub mod Lives
pub mod Refines
pub mod Refinement
pub mod Keys
pub mod Creation
pub mod Samples
pub mod Examples

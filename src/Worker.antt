-- ===== src/Worker.antt =====
-- runtime/worker.py: workers, their leases on jobs, and the running of jobs. The definitions stand in
-- `Record`, `World`, `Repair`, `Claim`, `Run` and `Loop`; the other modules are proofs.
pub mod Record
pub mod World
pub mod Repair
pub mod Claim
pub mod Run
pub mod Loop
pub mod LoopEnds
pub mod Updates
pub mod Reclaims
pub mod Claims
pub mod Releases
pub mod Deliveries
pub mod Examples

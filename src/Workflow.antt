-- ===== src/Workflow.antt =====
-- runtime/workflow.py: a workflow is a list of steps, one action and a finish with waits in between.
-- The definitions stand in `State`, `Steps`, `Settings`, `Waits`, `Children` and `History`; the other
-- modules are proofs and examples.
pub mod State
pub mod Steps
pub mod Settings
pub mod Waits
pub mod Children
pub mod History
pub mod Writes
pub mod Lookup
pub mod Detours
pub mod Rounds
pub mod Registers
pub mod Keeping
pub mod Endings
pub mod Completion
pub mod Examples

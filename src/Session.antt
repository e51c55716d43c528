-- ===== src/Session.antt =====
-- runtime/session.py: conversations with their messages, who may use them, and the compaction of what
-- is long past. The definitions stand in `Record`, `Checks`, `Preview`, `Continuity`, `Summary`, `Store`,
-- `Access`, `Upkeep`, `Cleanup`, `Budget`, `Compacting`, `Drafts` and `Messages`; the other modules are
-- proofs.
pub mod Record
pub mod Checks
pub mod Preview
pub mod Continuity
pub mod Summary
pub mod Bounds
pub mod Store
pub mod Access
pub mod Upkeep
pub mod Cleanup
pub mod Budget
pub mod Compacting
pub mod Drafts
pub mod Messages
pub mod Normal
pub mod Appends
pub mod Answers
pub mod Grants
pub mod Tokens
pub mod Pruned
pub mod Returning
pub mod Reports
pub mod Pruning
pub mod Compactions
pub mod Settled
pub mod Samples
pub mod Examples

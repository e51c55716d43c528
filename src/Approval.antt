-- ===== src/Approval.antt =====
-- runtime/approval.py: approvals that an operator grants or refuses. `State` holds the record and the
-- operations on the directory of approvals; `Trails` proves what the history of an approval says, and
-- `Finality` that an approval at its end stays as it is.
pub mod State
pub mod Trails
pub mod Finality
pub mod Examples

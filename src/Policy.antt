-- ===== src/Policy.antt =====
-- runtime/policy.py: what an agent's policy allows. `Rules` has the rules and the decision,
-- `Validation` the checks on a policy before it is used; `Decisions` proves what is decided.
pub mod Rules
pub mod Validation
pub mod Decisions
pub mod Production
pub mod Examples

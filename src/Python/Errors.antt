-- ===== src/Python/Errors.antt =====
-- The exceptions that the runtime raises: Python's own, and those of runtime/errors.py with the
-- attributes that they carry.
use clarityos.Prelude.{String}

pub data Exception : Type 0 where
  value_error type_error file_not_found timeout_error runtime_error overflow_error :
      String → Exception
  policy_denied : (message capability policy_name : String) → Exception
  delegation_denied : (message capability workflow_id : String) → Exception
  budget_exceeded : (message budget_name : String) → Exception
  approval_state : (message approval_id : String) → Exception
  operator_auth : (message header_name : String) → Exception
  session_auth : (message header_name session_id : String) → Exception

-- `type(exc).__name__`
unfoldable pub type_name : Exception → String
type_name (value_error _) = "ValueError"
type_name (type_error _) = "TypeError"
type_name (file_not_found _) = "FileNotFoundError"
type_name (timeout_error _) = "TimeoutError"
type_name (runtime_error _) = "RuntimeError"
type_name (overflow_error _) = "OverflowError"
type_name (policy_denied _ _ _) = "PolicyDeniedError"
type_name (delegation_denied _ _ _) = "DelegationDeniedError"
type_name (budget_exceeded _ _) = "BudgetExceededError"
type_name (approval_state _ _) = "ApprovalStateError"
type_name (operator_auth _ _) = "OperatorAuthError"
type_name (session_auth _ _ _) = "SessionAuthError"

-- `str(exc)`
unfoldable pub message : Exception → String
message (value_error m) = m
message (type_error m) = m
message (file_not_found m) = m
message (timeout_error m) = m
message (runtime_error m) = m
message (overflow_error m) = m
message (policy_denied m _ _) = m
message (delegation_denied m _ _) = m
message (budget_exceeded m _) = m
message (approval_state m _) = m
message (operator_auth m _) = m
message (session_auth m _ _) = m

-- ===== src/Session/Access.antt =====
-- Who may use a session (runtime/session.py). The digest of a token, SHA-256 in the source, is a
-- parameter.
use clarityos.Prelude.{
  String, Bool, not, ◌||◌, Option, none, some, ◌<>◌, ◌==◌, string_eq, if◌then◌else◌,
}
use clarityos.Python.Errors.{Exception, session_auth}
use clarityos.Python.Exec.{Result, ok, err, and_then, refuse}
use clarityos.Python.Text.{strip, is_empty}
use clarityos.Session.Checks.{normalize_optional_text}
use clarityos.Session.Record.{session_status_eq, Session}

abbrev pub default_header : String
default_header = "X-Session-Token"

abbrev pub session_auth_required : Session → Bool
session_auth_required session = session.ownership.auth_required

-- `session_token.strip() if isinstance(session_token, str) else ""`
abbrev pub candidate_of : Option String → String
candidate_of none = ""
candidate_of (some token) = strip token

abbrev pub token_missing : String → Session → Exception
token_missing header session =
    session_auth ("Session token is required via `" <> header <> "`") header session.session_id

abbrev pub token_wrong : String → Session → Exception
token_wrong header session =
    session_auth ("Valid session token is required via `" <> header <> "`") header
      session.session_id

module _ (session_token_hash : String → String) where
  -- The comparison with the stored digest, which is a stripped text.
  unfoldable pub verify_candidate :
      (header_name : String) → Session → (candidate : String) → Option String → Result (Unit {0})
  verify_candidate header session candidate none = err (token_missing header session)
  verify_candidate header session candidate (some expected) =
      if is_empty expected || is_empty candidate
      then err (token_missing header session)
      else refuse (not (session_token_hash candidate == expected)) (token_wrong header session)

  unfoldable pub verify_session_access :
      Session → (session_token : Option String) → (header_name : String) → Result (Unit {0})
  unfolding verify_candidate normalize_optional_text
  verify_session_access session session_token header =
      if not (session_auth_required session)
      then ok tt
      else and_then (normalize_optional_text session.ownership.token_hash "ownership.token_hash")
          (verify_candidate header session (candidate_of session_token))

-- ===== src/Session/Preview.antt =====
-- The bounded texts of runtime/session.py: previews of messages, and summaries within a number of
-- characters. `isoformat` turns a time into its text.
use clarityos.Prelude.{
  ℕ, suc, ◌+◌, ◌-◌, String, Bool, true, false, Option, none, some, List, [], ◌∷◌, map, ltb, leb,
  length, ◌<>◌, if◌then◌else◌,
}
use clarityos.Python.Text.{rstrip, strip, text_length, text_take, is_empty, show_nat}
use clarityos.Session.Checks.{normalize_content}
use clarityos.Session.Record.{
  session_status_eq, MessageRole, MessageStatus, RoleCounts, SessionMessage, answered, assistant,
  message_status_name, role_name, system, user,
}

-- `s[:limit - 3]`, where a negative end counts from the end of the text
abbrev pub but_three : ℕ → String → String
but_three limit s =
    if leb 3 limit then text_take (limit - 3) s else text_take (text_length s - (3 - limit)) s

-- `truncate_text` of a text
unfoldable pub truncate_text : ℕ → String → String
truncate_text limit value =
    if leb (text_length value) limit then value else rstrip (but_three limit value) <> "..."

-- `a or b`, of texts
abbrev pub or_else : String → String → String
or_else a b = if is_empty a then b else a

-- `default_title` of a message
unfoldable pub default_title : String → String
default_title content =
    let stripped = strip content in
    if leb (text_length stripped) 60 then stripped else rstrip (text_take 57 stripped) <> "..."

in_brackets : MessageStatus → String
in_brackets status = "[" <> message_status_name status <> "]"

abbrev pub is_answered : MessageStatus → Bool
is_answered answered = true
is_answered _ = false

labelled : SessionMessage → String
labelled message =
    if is_answered message.status
    then role_name message.role
    else role_name message.role <> " (" <> message_status_name message.status <> ")"

preview_of : ℕ → MessageStatus → Option String → String
unfolding in_brackets truncate_text
preview_of limit status none =
    or_else (truncate_text limit (in_brackets status)) (in_brackets status)
preview_of limit status (some content) = or_else (truncate_text limit content) (in_brackets status)

unfoldable pub message_preview_for_summary : ℕ → SessionMessage → String
unfolding labelled preview_of
message_preview_for_summary limit message =
    "- "
    <> labelled message
    <> ": "
    <> preview_of limit message.status (normalize_content message.content)

-- The lines behind the first, where `used` characters are taken: a line that is too long ends the text.
unfoldable pub bounded_rest : (max_chars used : ℕ) → List String → String
bounded_rest max_chars used [] = ""
bounded_rest max_chars used (line ∷ lines) =
    let candidate = "\n" <> line in
    let rest = bounded_rest max_chars (used + text_length candidate) lines in
    if ltb max_chars (used + text_length candidate) then "\n..." else candidate <> rest

unfoldable pub bounded_lines_text : List String → (max_chars : ℕ) → String
unfolding bounded_rest
bounded_lines_text [] max_chars = ""
bounded_lines_text (line ∷ lines) max_chars =
    if ltb max_chars (text_length line)
    then or_else (truncate_text max_chars line) (text_take max_chars line)
    else line <> bounded_rest max_chars (text_length line) lines

add_role : RoleCounts → MessageRole → RoleCounts
add_role n user = record n { users = suc n.users }
add_role n assistant = record n { assistants = suc n.assistants }
add_role n system = record n { systems = suc n.systems }

count_roles : RoleCounts → List SessionMessage → RoleCounts
count_roles n [] = n
count_roles n (message ∷ messages) = count_roles (add_role n message.role) messages

unfoldable pub role_counts : List SessionMessage → RoleCounts
unfolding count_roles add_role
role_counts messages = count_roles (record { users = 0; assistants = 0; systems = 0 }) messages

-- The time of the last message; `first` is that of the first.
unfoldable pub last_created : ℕ → List SessionMessage → ℕ
last_created first [] = first
last_created first (message ∷ messages) = last_created message.created_at messages

module _ (isoformat : ℕ → String) where
  heading : ℕ → List SessionMessage → String
  heading first messages =
      let n = role_counts messages in
      "Compacted "
      <> show_nat (length messages)
      <> " earlier messages spanning "
      <> isoformat first
      <> " to "
      <> isoformat (last_created first messages)
      <> ". Roles: user="
      <> show_nat n.users
      <> ", assistant="
      <> show_nat n.assistants
      <> ", system="
      <> show_nat n.systems
      <> "."

  unfoldable pub summarize_message_window : List SessionMessage → (max_chars : ℕ) → String
  unfolding heading bounded_lines_text message_preview_for_summary
  summarize_message_window [] max_chars = "No messages were selected for continuity compaction."
  summarize_message_window (message ∷ messages) max_chars =
      bounded_lines_text
        (heading message.created_at (message ∷ messages)
          ∷ map (message_preview_for_summary 96) (message ∷ messages))
        max_chars

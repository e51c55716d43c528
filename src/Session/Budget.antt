-- ===== src/Session/Budget.antt =====
-- How much of a session the next prompt carries, and what is advised for it (runtime/session.py,
-- `session_continuity_budget`).
use clarityos.Prelude.{
  ℕ, Bool, not, ◌&&◌, ◌||◌, Option, none, some, List, ltb, leb, length, keep_if, elem, string_eq,
  if◌then◌else◌,
}
use clarityos.Python.Text.{text_length}
use clarityos.Session.Checks.{is_missing}
use clarityos.Session.Continuity.{ContinuityView, continuity_metadata}
use clarityos.Session.Record.{CarriedSummary, Compaction, Session, SessionMessage}

-- The limits of `continuity_budget_limits` that the advice looks at.
pub record BudgetLimits : Type 0 where
  pub keep_recent_messages : ℕ
  pub recent_message_limit : ℕ
  pub source_memory_limit : ℕ
  pub max_summary_chars : ℕ
  pub max_uncompacted_messages : ℕ
  pub max_messages_before_compaction : ℕ

abbrev pub continuity_budget_limits : BudgetLimits
continuity_budget_limits = record {
  keep_recent_messages = 6;
  recent_message_limit = 4;
  source_memory_limit = 4;
  max_summary_chars = 900;
  max_uncompacted_messages = 8;
  max_messages_before_compaction = 12;
}

pub data Recommendation : Type 0 where
  within_budget compact_now recompact_now refresh_summary monitor_budget : Recommendation

pub record BudgetCounts : Type 0 where
  pub total_messages : ℕ
  pub uncompacted_messages : ℕ
  pub new_messages_since_compaction : ℕ
  pub carry_forward_recent_messages : ℕ
  pub carry_forward_source_memories : ℕ
  pub carry_forward_source_workflows : ℕ
  pub carry_forward_summary_chars : ℕ

pub record ContinuityBudget : Type 0 where
  pub limits : BudgetLimits
  pub counts : BudgetCounts
  pub has_compaction : Bool
  pub has_summary : Bool
  pub recommendation : Recommendation

abbrev pub uncompacted : Option Compaction → List SessionMessage → List SessionMessage
uncompacted none messages = messages
uncompacted (some c) messages =
    keep_if (λ m. not (elem m.message_id c.compacted_message_ids)) messages

abbrev new_since : Option Compaction → List SessionMessage → List SessionMessage
new_since none messages = messages
new_since (some c) messages =
    keep_if
      (λ m.
        not (elem m.message_id c.compacted_message_ids)
        && not (elem m.message_id c.retained_message_ids))
      messages

-- A number read off the summary, which is 0 where there is none.
abbrev of_summary : Option CarriedSummary → (CarriedSummary → ℕ) → ℕ
of_summary none f = 0
of_summary (some summary) f = f summary

unfoldable pub budget_counts : ContinuityView → List SessionMessage → BudgetCounts
budget_counts view messages = record {
  total_messages = length messages;
  uncompacted_messages = length (uncompacted view.active_compaction messages);
  new_messages_since_compaction = length (new_since view.active_compaction messages);
  carry_forward_recent_messages = of_summary view.active_summary (λ s. length s.recent_message_ids);
  carry_forward_source_memories = of_summary view.active_summary (λ s. length s.source_memory_ids);
  carry_forward_source_workflows =
      of_summary view.active_summary (λ s. length s.source_workflow_ids);
  carry_forward_summary_chars = of_summary view.active_summary (λ s. text_length s.summary);
}

unfoldable pub recommend :
    BudgetLimits → BudgetCounts → (has_compaction has_summary : Bool) → Recommendation
recommend limits n has_compaction has_summary =
    if not has_compaction && ltb limits.max_messages_before_compaction n.total_messages
    then compact_now
    else if has_compaction && ltb limits.max_uncompacted_messages n.uncompacted_messages
    then recompact_now
    else if not has_summary && has_compaction
    then refresh_summary
    else if leb limits.recent_message_limit n.carry_forward_recent_messages
        || leb limits.source_memory_limit n.carry_forward_source_memories
        || leb limits.max_summary_chars n.carry_forward_summary_chars
    then monitor_budget
    else within_budget

unfoldable pub session_continuity_budget : Session → ContinuityBudget
unfolding budget_counts recommend
session_continuity_budget session =
    let view = continuity_metadata session in
    let n = budget_counts view session.messages in
    let has_compaction = not (is_missing view.active_compaction) in
    let has_summary = not (is_missing view.active_summary) in
    record {
      limits = continuity_budget_limits;
      counts = n;
      has_compaction = has_compaction;
      has_summary = has_summary;
      recommendation = recommend continuity_budget_limits n has_compaction has_summary;
    }

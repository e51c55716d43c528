-- ===== src/Queue/History.antt =====
-- The transition history of a job (runtime/queue.py): what a write records of what it changed.
use clarityos.Prelude.{
  ℕ, String, Bool, true, false, not, ◌&&◌, Option, none, some, List, [], ◌∷◌, ◌++◌, ltb,
  if◌then◌else◌, ◌==◌, string_eq, nat_eq, option_eq,
}
use clarityos.Prelude.Int.{ℤ}
use clarityos.Python.Json.{Json, Fields, eq_json}
use clarityos.Python.Text.{or_text}
use clarityos.Queue.Job.{JobType, JobStatus, JobError, status_eq}

-- The classes of an event, under the source's texts.
pub data EventType : Type 0 where
  created claimed completed failed dead_lettered canceled retry_scheduled requeued : EventType
  rescheduled status_changed worker_assignment_changed reclaimed ready_at_changed : EventType
  updated : EventType

-- A changed field with its values before and after.
pub data FieldChange : Type 0 where
  status : JobStatus → JobStatus → FieldChange
  worker_id : Option String → Option String → FieldChange
  claimed_at lease_expires_at next_retry_at : Option ℕ → Option ℕ → FieldChange
  dead_lettered_at canceled_at : Option ℕ → Option ℕ → FieldChange
  ready_at attempt_count reclaim_count : ℕ → ℕ → FieldChange
  result : Option Json → Option Json → FieldChange
  error : Option JobError → Option JobError → FieldChange

-- The `details` that the callers give.
pub data Details : Type 0 where
  without_details terminal : Details
  retry_delay_seconds ready_at : ℕ → Details
  reasons : List String → Details

pub data HistoryEntry : Type 0 where
  creation : (timestamp : ℕ) → JobStatus → (ready_at : ℕ) → (priority : ℤ) → HistoryEntry
  transition :
      EventType
      → (timestamp : ℕ) → (from to : JobStatus) → (worker_id : Option String) → (attempt_count : ℕ)
      → (reason : Option String) → List FieldChange
      → Details
      → HistoryEntry

-- The dataclass `QueueJob`.
pub record QueueJob : Type 0 where
  pub job_id : String
  pub job_type : JobType
  pub status : JobStatus
  pub priority : ℤ
  pub ready_at : ℕ
  pub payload : Fields
  pub workflow_id : Option String
  pub parent_job_id : Option String
  pub idempotency_key : Option String
  pub worker_id : Option String
  pub claimed_at : Option ℕ
  pub lease_expires_at : Option ℕ
  pub reclaim_count : ℕ
  pub last_requeue_reason : Option String
  pub attempt_count : ℕ
  pub max_attempts : ℕ
  pub retry_backoff_seconds : ℕ
  pub last_failure_at : Option ℕ
  pub next_retry_at : Option ℕ
  pub dead_lettered_at : Option ℕ
  pub canceled_at : Option ℕ
  pub cancel_reason : Option String
  pub result : Option Json
  pub error : Option JobError
  pub transition_history : List HistoryEntry
  pub created_at : ℕ
  pub updated_at : ℕ

same_result : Option Json → Option Json → Bool
same_result none none = true
same_result (some a) (some b) = eq_json a b
same_result _ _ = false

same_error : Option JobError → Option JobError → Bool
same_error none none = true
same_error (some a) (some b) = a.type == b.type && a.message == b.message
same_error _ _ = false

-- One round of the loop over the field names.
changed : Bool → FieldChange → List FieldChange → List FieldChange
changed same change rest = if same then rest else change ∷ rest

unfoldable pub job_transition_changed_fields : QueueJob → QueueJob → List FieldChange
unfolding same_result same_error changed
job_transition_changed_fields c u =
    changed (c.status == u.status) (FieldChange.status c.status u.status) (
      changed (c.worker_id == u.worker_id) (FieldChange.worker_id c.worker_id u.worker_id) (
        changed (c.claimed_at == u.claimed_at) (FieldChange.claimed_at c.claimed_at u.claimed_at) (
          changed (c.lease_expires_at == u.lease_expires_at)
            (FieldChange.lease_expires_at c.lease_expires_at u.lease_expires_at)
            (changed (c.ready_at == u.ready_at) (FieldChange.ready_at c.ready_at u.ready_at) (
              changed (c.attempt_count == u.attempt_count)
                (FieldChange.attempt_count c.attempt_count u.attempt_count)
                (changed (c.next_retry_at == u.next_retry_at)
                  (FieldChange.next_retry_at c.next_retry_at u.next_retry_at)
                  (changed (c.reclaim_count == u.reclaim_count)
                    (FieldChange.reclaim_count c.reclaim_count u.reclaim_count)
                    (changed (c.dead_lettered_at == u.dead_lettered_at)
                      (FieldChange.dead_lettered_at c.dead_lettered_at u.dead_lettered_at)
                      (changed (c.canceled_at == u.canceled_at)
                        (FieldChange.canceled_at c.canceled_at u.canceled_at)
                        (changed (same_result c.result u.result)
                          (FieldChange.result c.result u.result)
                          (changed (same_error c.error u.error) (FieldChange.error c.error u.error)
                            [])))))))))))

-- The event of a change of status; `retried` is the test on the two attempt counts.
unfoldable pub status_event : JobStatus → JobStatus → Bool → EventType
status_event from JobStatus.running retried = claimed
status_event from JobStatus.completed retried = completed
status_event from JobStatus.failed retried = failed
status_event from JobStatus.dead_letter retried = dead_lettered
status_event from JobStatus.canceled retried = canceled
status_event from JobStatus.scheduled retried = if retried then retry_scheduled else status_changed
status_event JobStatus.running JobStatus.queued retried = requeued
status_event JobStatus.failed JobStatus.queued retried = rescheduled
status_event JobStatus.dead_letter JobStatus.queued retried = rescheduled
status_event JobStatus.scheduled JobStatus.queued retried = rescheduled
status_event from JobStatus.queued retried = status_changed

unfoldable pub classify_job_transition_event : QueueJob → QueueJob → EventType
unfolding status_event
classify_job_transition_event c u =
    if not (c.status == u.status)
    then status_event c.status u.status (ltb c.attempt_count u.attempt_count)
    else if not (c.worker_id == u.worker_id)
    then worker_assignment_changed
    else if not (c.reclaim_count == u.reclaim_count)
    then reclaimed
    else if not (c.ready_at == u.ready_at)
    then ready_at_changed
    else updated

abbrev pub error_message : Option JobError → Option String
error_message none = none
error_message (some e) = some e.message

-- `transition_reason or cancel_reason or last_requeue_reason or error.message`
abbrev pub reason_of : Option String → QueueJob → Option String
reason_of transition_reason u =
    or_text transition_reason
      (or_text u.cancel_reason (or_text u.last_requeue_reason (error_message u.error)))

append_transition :
    List FieldChange → QueueJob → QueueJob → Option String → Details → List HistoryEntry
append_transition [] c u reason _ = c.transition_history
append_transition (change ∷ changes) c u reason details =
    c.transition_history
    ++ transition (classify_job_transition_event c u) u.updated_at c.status u.status u.worker_id
        u.attempt_count (reason_of reason u) (change ∷ changes) details
      ∷ []

unfoldable pub build_job_transition_history :
    Option QueueJob → QueueJob → Option String → Details → List HistoryEntry
unfolding append_transition
build_job_transition_history none u reason _ =
    u.transition_history ++ creation u.updated_at u.status u.ready_at u.priority ∷ []
build_job_transition_history (some c) u reason details =
    append_transition (job_transition_changed_fields c u) c u reason details

-- ===== src/Worker/Record.antt =====
-- The record of a worker, its lease and its transition history (runtime/worker.py).
use clarityos.Prelude.{
  ℕ, String, Bool, true, false, not, ◌&&◌, Option, none, some, List, [], ◌∷◌, ◌++◌, ltb, nat_beq,
  if◌then◌else◌, Eq, ◌==◌, string_eq, nat_eq, option_eq, ◌≡◌, ◌↔◌, arith,
}

pub data WorkerStatus : Type 0 where
  idle busy expired : WorkerStatus

abbrev pub worker_status_code : WorkerStatus → ℕ
worker_status_code idle = 0
worker_status_code busy = 1
worker_status_code expired = 2

pub worker_status_beq_iff :
    (a b : WorkerStatus) → (nat_beq (worker_status_code a) (worker_status_code b) ≡ true) ↔ (a ≡ b)
worker_status_beq_iff a b = ground arith

instance abbrev pub worker_status_eq : Eq WorkerStatus
worker_status_eq = record {
  equals = λ a b. nat_beq (worker_status_code a) (worker_status_code b);
  equals_iff = worker_status_beq_iff;
}

pub data WorkerEvent : Type 0 where
  job_assigned job_released status_changed heartbeat lease_updated : WorkerEvent

pub data WorkerChange : Type 0 where
  status : WorkerStatus → WorkerStatus → WorkerChange
  current_job_id : Option String → Option String → WorkerChange
  last_heartbeat_at lease_expires_at : ℕ → ℕ → WorkerChange

pub data WorkerDetails : Type 0 where
  without_details : WorkerDetails
  reset : (forced : Bool) → (requeued_job_ids : List String) → WorkerDetails

pub data WorkerEntry : Type 0 where
  creation : (timestamp : ℕ) → WorkerStatus → (lease_seconds : ℕ) → WorkerEntry
  transition :
      WorkerEvent
      → (timestamp : ℕ) → (from to : WorkerStatus) → (current_job_id : Option String)
      → (reason : Option String) → List WorkerChange
      → WorkerDetails
      → WorkerEntry

pub record Worker : Type 0 where
  pub worker_id : String
  pub name : String
  pub status : WorkerStatus
  pub lease_seconds : ℕ
  pub last_heartbeat_at : ℕ
  pub lease_expires_at : ℕ
  pub current_job_id : Option String
  pub transition_history : List WorkerEntry
  pub created_at : ℕ
  pub updated_at : ℕ

worker_changed : Bool → WorkerChange → List WorkerChange → List WorkerChange
worker_changed same change rest = if same then rest else change ∷ rest

unfoldable pub worker_transition_changed_fields : Worker → Worker → List WorkerChange
unfolding worker_changed
worker_transition_changed_fields c u =
    worker_changed (c.status == u.status) (WorkerChange.status c.status u.status) (
      worker_changed (c.current_job_id == u.current_job_id)
        (WorkerChange.current_job_id c.current_job_id u.current_job_id)
        (worker_changed (c.last_heartbeat_at == u.last_heartbeat_at)
          (WorkerChange.last_heartbeat_at c.last_heartbeat_at u.last_heartbeat_at)
          (worker_changed (c.lease_expires_at == u.lease_expires_at)
            (WorkerChange.lease_expires_at c.lease_expires_at u.lease_expires_at) [])))

abbrev pub holds_job : Worker → Bool
holds_job w = elim w.current_job_id [ none ↦ false | some j ↦ true ]

unfoldable pub classify_worker_transition_event : Worker → Worker → WorkerEvent
classify_worker_transition_event c u =
    if not (c.current_job_id == u.current_job_id)
    then (if holds_job u then job_assigned else job_released)
    else if not (c.status == u.status)
    then status_changed
    else if not (c.last_heartbeat_at == u.last_heartbeat_at)
    then heartbeat
    else lease_updated

append_entry :
    List WorkerChange → Worker → Worker → Option String → WorkerDetails → List WorkerEntry
append_entry [] c u _ _ = c.transition_history
append_entry (change ∷ changes) c u reason details =
    c.transition_history
    ++ transition (classify_worker_transition_event c u) u.updated_at c.status u.status
        u.current_job_id reason (change ∷ changes) details
      ∷ []

unfoldable pub build_worker_transition_history :
    Option Worker → Worker → Option String → WorkerDetails → List WorkerEntry
unfolding append_entry
build_worker_transition_history none u _ _ =
    u.transition_history ++ creation u.updated_at u.status u.lease_seconds ∷ []
build_worker_transition_history (some c) u reason details =
    append_entry (worker_transition_changed_fields c u) c u reason details

unfoldable pub worker_lease_expired : ℕ → Worker → Bool
worker_lease_expired now w = not (ltb now w.lease_expires_at)

-- `worker_summary` is what every write stores: a lease that ran out shows in the status. Its field
-- `lease_expired` is `worker_lease_expired`, which every reader computes anew.
unfoldable pub worker_summary : ℕ → Worker → Worker
unfolding worker_lease_expired
worker_summary now w = record w {
  status = if worker_lease_expired now w && holds_job w then expired else w.status;
}

-- ===== src/Lib.antt =====
-- The part of clarityos that keeps background work: jobs in a queue, workers that lease and run them,
-- approvals that an operator decides, workflows of steps, and sessions, the conversations of users with
-- agents. Each part keeps its state in a directory of JSON files, one to an id, and its operations read
-- files, check, and write files; those on a workflow work on an object, which is then written.
--
-- * `Queue` models runtime/queue.py. `Queue.Job` has the statuses and the checks of arguments,
--   `Queue.History` the record `QueueJob` and its history, `Queue.Access` update_job, load_job,
--   list_jobs, ready_jobs and promote_due_jobs, `Queue.Create` create_job, `Queue.Lifecycle`
--   requeue_job, record_job_failure, cancel_job, reschedule_job (and complete_job of
--   runtime/worker.py), `Queue.Maintenance` repair_stale_job_state, prune_jobs and queue_summary. The
--   invariant of a directory of jobs is `IsHealthy` of `Queue.Healthy`: no two files have one name,
--   each file is named for its job, and each job's status fits its other fields (`Queue.Sound`).
--   `Queue.Lives` is the queue as its clients see it: for an id its phase, attempts, limits and
--   backoff, and what each call does to these.
-- * `Worker` models runtime/worker.py, which works on the jobs through the queue's operations: a
--   `World` is the two directories. `Worker.Record` has the record, `Worker.World` its reads and writes
--   and the heartbeat, `Worker.Repair` reset_worker and repair_orphaned_workers, `Worker.Claim`
--   reclaim_expired_leases and claim_next_job, `Worker.Run` run_claimed_job and its neighbours,
--   `Worker.Loop` the polling of runtime/worker_loop.py.
-- * `Approval` models runtime/approval.py.
-- * `Workflow` models runtime/workflow.py: `Workflow.State` the records and the tables of statuses,
--   `Workflow.Steps` the moves of steps and the end of a workflow, `Workflow.Settings` the checks of
--   retry policies, subrun policies and delegations, `Workflow.Waits` the waits for approvals and
--   retries, `Workflow.Children` new workflows and what is registered with one, `Workflow.History`
--   write_workflow with the history that it keeps. A workflow is an object that the source changes in
--   place; here an operation takes the state and gives the new one back.
-- * `Session` models runtime/session.py: `Session.Record` the records and `Session.Checks` the checks of
--   their parts, `Session.Preview`, `Session.Continuity` and `Session.Summary` the bounded texts, the
--   compactions and the summary that is carried forward, `Session.Store` write_session, load_session
--   and the history, `Session.Access` verify_session_access, `Session.Upkeep` create_session,
--   list_sessions and archive_session, `Session.Cleanup` prune_sessions, `Session.Budget`
--   session_continuity_budget, `Session.Compacting` compact_session_continuity, `Session.Drafts` what
--   comes before the answer to a message, and `Session.Messages` append_session_message. The status
--   `open` is written `opened`, and the entries `continuity` and `maintenance` of the metadata are
--   fields. The digest of tokens, the listing of stored memories, the text of a time, the grounding of
--   a prompt (`ground_prompt`) and the start of a workflow (`start`, of runtime/workflow_runner.py) are
--   parameters; `start` returns or raises, and leaves the files of sessions alone.
-- * `Policy` models runtime/policy.py: `Policy.Rules` the matching of rules, evaluate_policy and
--   enforce_policy, with `fnmatch` and the resolving of paths as parameters, `Policy.Validation` the
--   checks of a policy, where the production mode is an argument.
-- * `Python` has what the source uses of its language: exceptions (with those of runtime/errors.py),
--   functions that raise or change a state, JSON values and their equality, `str.strip`, and
--   directories. `Prelude` has the notation, lists, integers and a stable sort.
--
-- A function that changes files is a function from the state to a result and a state: what was
-- written before an exception stays written. A directory is an association list in the order in which
-- `glob` finds the files; a directory that is not there is an empty one. Records have all their
-- fields, where the source fills in a default for a file of an older version; the field
-- `lease_expired` that summaries add is the function that computes it. Numbers are unbounded, as in
-- Python, and a JSON number has no fraction.
--
-- A timestamp is a number of microseconds since the epoch, in UTC. An operation takes the time at
-- which it runs, and every reading of the clock in it gives that time. Isoformat texts of one offset
-- compare as their times do, which the sorting keys of the source rely on. `datetime` ends with the year
-- 9999: build_ready_at raises an OverflowError behind `latest_time`, for the delay of a new or
-- rescheduled job and for the retry of a failed one, and `check_cutoff` does where what is old enough to
-- be pruned lies before the year 1. The ends of leases and approvals, and the retries
-- of workflows, are taken to be before it. The ids that `uuid4` draws
-- are arguments. The loops run over lists and need no fuel, but for the worker loop, whose rounds are
-- the fuel: the rounds that its two limits allow are enough, by `Worker.LoopEnds`. A round is given the
-- times of its run and its heartbeat, and what other processes did to the directories before it.
--
-- The workflow that a job runs (dispatch_job of runtime/worker.py, with runtime/workflow_runner.py
-- behind it) is the parameter `dispatch`: a function that may raise and may change both directories.
-- The theorems on it assume that it leaves the running worker's own file alone, and that the queue is
-- healthy and holds the job when it is done.
--
-- Not modelled: the health reports queue_health_summary and worker_health_summary, the versions of
-- state files (runtime/state.py), the loading of workflows, budgets, memories, the agent and its tools,
-- e-mail intake, the web API, and what reads the environment and the command line of a worker.
-- Operations of two processes at once are not modelled: the source takes no lock, and each operation
-- here runs alone.
pub mod Prelude
pub mod Python
pub mod Queue
pub mod Session
pub mod Worker
pub mod Approval
pub mod Workflow
pub mod Policy

-- ===== src/Queue/Creation.antt =====
-- What `create_job` stores, and that an idempotency key is served once.
use clarityos.Prelude.{
  ℕ, ◌<◌, String, ◌≡◌, refl, sym, ◌∙◌, subst, true, Option, none, some, arith, ◌==◌, ==_iff,
  ==_refl, string_eq, option_eq, if◌then◌else◌, In, inl, inr, Bool-cases,
}
use clarityos.Prelude.Int.{ℤ}
use clarityos.Python.Exec.{ok, err}
use clarityos.Python.Json.Reflexive.{IsDict, eq_dict_refl}
use clarityos.Python.Directory.{files, read, write, read-write}
use clarityos.Python.Files.{read-In, In-files, write-IsDirectory}
use clarityos.Queue.Job.{
  type_eq, normalize_positive_int, normalize_priority, build_ready_at, job_status_for_ready_at,
}
use clarityos.Queue.History.{QueueJob, without_details, build_job_transition_history}
use clarityos.Queue.Access.{Jobs, write_job, find_job_by_idempotency_key}
use clarityos.Queue.Create.{
  JobRequest, CheckedRequest, check_request, idempotent_request_matches, new_job, enqueue,
  key_taken, find_or_enqueue, create_job,
}
use clarityos.Queue.Sound.{IsSound}
use clarityos.Queue.Healthy.{Fits, IsHealthy, IsHealthy-write}
use clarityos.Queue.Loading.{Replaces-write}
use clarityos.Queue.Moves.{Moves}
use clarityos.Queue.Keys.{IsUnused, check_request-key, find-unused, find-used}

-- The checks of a request leave at least one attempt.
check_request-attempts :
    (r : JobRequest) (c : CheckedRequest) → check_request r ≡ ok c → 0 < c.max_attempts
unfolding check_request normalize_positive_int
check_request-attempts r c e = ground arith

module _ (now : ℕ) (id : String) (r : JobRequest) (c : CheckedRequest) (ready : ℕ)
    (priority : ℤ) where
  new_job-IsSound : 0 < c.max_attempts → IsSound (new_job now id r c ready priority)
  unfolding new_job job_status_for_ready_at
  new_job-IsSound h = record { has_attempts = h; fits = ground arith }

  -- The new job as it is written.
  written : Jobs → QueueJob
  written d = record (new_job now id r c ready priority) {
    transition_history =
        build_job_transition_history (read id d) (new_job now id r c ready priority) none
          without_details;
  }

  written-Fits : (d : Jobs) → 0 < c.max_attempts → Fits id (written d)
  unfolding written new_job job_status_for_ready_at
  written-Fits d h = (refl, record { has_attempts = h; fits = ground arith })

-- The fields of a new job.
pub record IsNew (now : ℕ) (r : JobRequest) (c : CheckedRequest) (at : ℕ) (rank : ℤ) (j : QueueJob)
    : Type 0 where
  pub status : j.status ≡ job_status_for_ready_at now at
  pub ready_at : j.ready_at ≡ at
  pub priority : j.priority ≡ rank
  pub attempt_count : j.attempt_count ≡ 0
  pub max_attempts : j.max_attempts ≡ c.max_attempts
  pub key : j.idempotency_key ≡ c.idempotency_key
  pub job_type : j.job_type ≡ c.job_type
  pub payload : j.payload ≡ c.payload
  pub workflow_id : j.workflow_id ≡ r.workflow_id
  pub parent_job_id : j.parent_job_id ≡ r.parent_job_id

-- What the request asks for is there to be computed: its time and its priority.
pub record IsAccepted (now : ℕ) (r : JobRequest) (c : CheckedRequest) (at : ℕ) (rank : ℤ)
    : Type 0 where
  pub checked : check_request r ≡ ok c
  pub time : build_ready_at now r.delay_seconds r.run_at ≡ ok at
  pub rank_ok : normalize_priority r.priority ≡ ok rank

module _ (now : ℕ) (id : String) (r : JobRequest) (c : CheckedRequest) (at : ℕ) (rank : ℤ)
    {d : Jobs} (h : IsHealthy d) (accepted : IsAccepted now r c at rank) where
  abbrev new : QueueJob
  new = written now id r c at rank d

  write-new_eq : enqueue now id r c d ≡ (ok new, write id new d)
  unfolding enqueue write_job written new_job
  write-new_eq = rw (accepted.time, accepted.rank_ok) refl

  new-Fits : Fits id new
  new-Fits = written-Fits now id r c at rank d (check_request-attempts r c accepted.checked)

  find_or_enqueue_eq :
      (key : Option String)
      → c.idempotency_key ≡ key
      → IsUnused key d
      → find_or_enqueue now id r c key d ≡ (ok new, write id new d)
  unfolding find_or_enqueue
  find_or_enqueue_eq none e unused = write-new_eq
  find_or_enqueue_eq (some key) e unused =
      rw (find-unused key h (check_request-key r c key accepted.checked e) unused) write-new_eq

  create_eq : IsUnused c.idempotency_key d → create_job now id r d ≡ (ok new, write id new d)
  unfolding create_job
  create_eq unused = rw accepted.checked (find_or_enqueue_eq c.idempotency_key refl unused)

  new-IsNew : IsNew now r c at rank new
  unfolding written new_job
  new-IsNew = record {
    status = refl;
    ready_at = refl;
    priority = refl;
    attempt_count = refl;
    max_attempts = refl;
    key = refl;
    job_type = refl;
    payload = refl;
    workflow_id = refl;
    parent_job_id = refl;
  }

  -- In a healthy directory, for a request that passes the checks, with a readable time and
  -- priority, and with no idempotency key or one that no stored job has: `create_job` returns and
  -- stores under the drawn id a job with the request's fields, no attempts, and the status that
  -- its time asks for; the directory stays healthy and no other file changes.
  pub create_job-IsNew :
      IsUnused c.idempotency_key d
      → (j : QueueJob) × IsNew now r c at rank j × Moves id d j (create_job now id r)
  create_job-IsNew unused =
      (new, new-IsNew, rw (create_eq unused) (refl, Replaces-write h new-Fits))

  module _ (key : String) (named : c.idempotency_key ≡ some key)
      (unused : IsUnused (some key) d) where
    -- Only the new job has the key.
    only_new :
        (i : QueueJob) → In i (files (write id new d)) → i.idempotency_key ≡ some key → i ≡ new
    only_new i m has =
        let (k, found) = In-files i _ (write-IsDirectory id new d h.names) m in
        elim (Bool-cases (id == k)) [
          | inl same ↦ ground (arith, found, read-write k id new d)
          | inr other ↦
              let old : read k d ≡ some i = sym (read-write k id new d ∙ rw other refl) ∙ found in
              absurd
                (ground (arith, unused i (read-In k i d old), ==_iff i.idempotency_key (some key)))
        ]

    new-key : new.idempotency_key ≡ some key
    unfolding written new_job
    new-key = named

    new-matches : IsDict c.payload → idempotent_request_matches new r c ≡ true
    unfolding idempotent_request_matches written new_job
    new-matches dict = ground (
      arith,
      ==_refl c.job_type,
      eq_dict_refl c.payload dict,
      ==_refl r.workflow_id,
      ==_refl r.parent_job_id,
    )

    twice_found :
        (now' : ℕ) (id' : String)
        → IsDict c.payload
        → find_or_enqueue now' id' r c (some key) (write id new d) ≡ (ok new, write id new d)
    unfolding find_or_enqueue
    twice_found now' id' dict =
        let (i, found, m, has) =
          find-used key (IsHealthy-write id new h new-Fits)
            (check_request-key r c key accepted.checked named) new
            (read-In id new _ (Replaces-write h new-Fits).stored)
            ((==_iff new.idempotency_key (some key)).1 new-key) in
        rw found (rw (only_new i m has, new-matches dict) refl)

    second_run :
        (now' : ℕ) (id' : String)
        → IsDict c.payload
        → create_job now' id' r (write id new d) ≡ (ok new, write id new d)
    unfolding create_job
    second_run now' id' dict = rw accepted.checked (
        subst (λ k. find_or_enqueue now' id' r c k (write id new d) ≡ (ok new, write id new d))
          (sym named) (twice_found now' id' dict))

    -- In a healthy directory, for a request that passes the checks, with a readable time and
    -- priority, a payload without double keys, and an idempotency key that no stored job has: once
    -- `create_job` has stored its job, a second call with the same request, at any time and with
    -- any drawn id, returns what the first returned and leaves the directory as the first left it.
    pub create_job_twice :
        (now' : ℕ) (id' : String)
        → IsDict c.payload
        → create_job now' id' r (create_job now id r d).1 ≡ create_job now id r d
    create_job_twice now' id' dict =
        rw (create_eq (subst (λ k. IsUnused k d) (sym named) unused)) (second_run now' id' dict)

module _ (now : ℕ) (id : String) (r : JobRequest) (c : CheckedRequest) {d : Jobs} (h : IsHealthy d)
    (checked : check_request r ≡ ok c) (key : String) (named : c.idempotency_key ≡ some key) where
  used_found :
      (i : QueueJob)
      → find_job_by_idempotency_key key d ≡ ok (some i)
      → find_or_enqueue now id r c (some key) d
        ≡ ((if idempotent_request_matches i r c then ok i else err (key_taken key)), d)
  unfolding find_or_enqueue
  used_found i found = rw found (elim (Bool-cases (idempotent_request_matches i r c)) [
    | inl e ↦ rw e refl
    | inr e ↦ rw e refl
  ])

  -- In a healthy directory in which some job has the idempotency key of a request that passes the
  -- checks, `create_job` changes nothing: a stored job with that key is returned if it matches the
  -- request, and if not, the call raises that the key is taken.
  pub create_job_again :
      (j : QueueJob)
      → In j (files d)
      → j.idempotency_key ≡ some key
      → (i : QueueJob) × In i (files d)
        × (i.idempotency_key ≡ some key)
        × (create_job now id r d
            ≡ ((if idempotent_request_matches i r c then ok i else err (key_taken key)), d))
  unfolding create_job
  create_job_again j m has =
      let (i, found, there, same) =
        find-used key h (check_request-key r c key checked named) j m
          ((==_iff j.idempotency_key (some key)).1 has) in
      (
        i,
        there,
        same,
        rw checked (
            subst
              (λ k.
                find_or_enqueue now id r c k d
                ≡ ((if idempotent_request_matches i r c then ok i else err (key_taken key)), d))
              (sym named) (used_found i found)),
      )

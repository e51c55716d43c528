-- ===== src/Queue/Healthy.antt =====
-- The invariant of the whole directory of jobs, and what `update_job` and `load_job` do where it holds.
use clarityos.Prelude.{ℕ, String, ◌≡◌, refl, ◌∙◌, Option, none, some, [], ◌∷◌, arith}
use clarityos.Python.Exec.{ok, traverse}
use clarityos.Python.Directory.{files, read, write}
use clarityos.Python.Files.{IsDirectory, AllFiles, write-IsDirectory, AllFiles-read, AllFiles-write}
use clarityos.Queue.History.{QueueJob, Details}
use clarityos.Queue.Access.{
  Jobs, load_job_snapshot, apply_changes, missing_job, update_job, load_all,
}
use clarityos.Queue.Sound.{IsSound, apply_changes-IsSound}

-- A file named for a job holds that job, in a sound state.
abbrev pub Fits : String → QueueJob → Type 0
Fits id j = (j.job_id ≡ id) × IsSound j

pub record IsHealthy (d : Jobs) : Type 0 where
  pub names : IsDirectory d
  pub jobs : AllFiles Fits d

pub IsHealthy-empty : IsHealthy []
IsHealthy-empty = record { names = tt; jobs = tt }

pub IsHealthy-read :
    {d : Jobs} (id : String) (j : QueueJob) → IsHealthy d → read id d ≡ some j → Fits id j
IsHealthy-read {d} id j h e = AllFiles-read Fits id j d h.jobs e

pub IsHealthy-write :
    {d : Jobs} (id : String) (j : QueueJob) → IsHealthy d → Fits id j → IsHealthy (write id j d)
IsHealthy-write {d} id j h fit = record {
  names = write-IsDirectory id j d h.names;
  jobs = AllFiles-write Fits id j d h.jobs fit;
}

pub load_job_snapshot-ok : (j : QueueJob) → IsSound j → load_job_snapshot j ≡ ok j
unfolding load_job_snapshot
load_job_snapshot-ok j h = ground (arith, h.has_attempts)

traverse-ok : (d : Jobs) → AllFiles Fits d → traverse load_job_snapshot (files d) ≡ ok (files d)
traverse-ok [] h = refl
traverse-ok ((k, j) ∷ d) h = rw (load_job_snapshot-ok j h.0.1, traverse-ok d h.1)

-- Every file of a healthy directory loads.
pub load_all-ok : {d : Jobs} → IsHealthy d → load_all d ≡ ok (files d)
unfolding load_all
load_all-ok {d} h = traverse-ok d h.jobs

module _ (now : ℕ) (id : String) (reason : Option String) (details : Details)
    (changes : QueueJob → QueueJob) {d : Jobs} (h : IsHealthy d) where
  pub update_job-missing :
      read id d ≡ none → update_job now id reason details changes d ≡ (missing_job id, d)
  unfolding update_job
  update_job-missing e = rw e

  module _ (j : QueueJob) (found : read id d ≡ some j) where
    abbrev pub updated : QueueJob
    updated = apply_changes now reason details changes j

    -- An update of a stored job writes the changed record and returns it.
    pub update_job-found :
        IsSound (changes j)
        → update_job now id reason details changes d ≡ (ok updated, write id updated d)
    unfolding update_job
    update_job-found sound = rw found (
        rw (load_job_snapshot-ok j (IsHealthy-read id j h found).1) (
          rw
            (load_job_snapshot-ok updated
              (apply_changes-IsSound now reason details changes j sound))
            refl))

    pub updated-Fits : (changes j).job_id ≡ j.job_id → IsSound (changes j) → Fits id updated
    unfolding apply_changes
    updated-Fits same sound = (
      same ∙ (IsHealthy-read id j h found).0,
      apply_changes-IsSound now reason details changes j sound,
    )

    pub update_job-IsHealthy :
        (changes j).job_id ≡ j.job_id
        → IsSound (changes j)
        → IsHealthy (update_job now id reason details changes d).1
    update_job-IsHealthy same sound =
        rw (update_job-found sound) (IsHealthy-write id updated h (updated-Fits same sound))

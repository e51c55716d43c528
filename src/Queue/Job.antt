-- ===== src/Queue/Job.antt =====
-- The record of a job (runtime/queue.py, `QueueJob`), its vocabularies and the checks on raw values.
-- A timestamp is a number of microseconds in UTC; the dataclass has no fields but these.
use clarityos.Prelude.{
  ◌≤◌, ◌<◌, ℕ, zero, suc, ◌+◌, ◌*◌, String, ◌<>◌, ◌≡◌, refl, Bool, true, false, not, Option, none,
  some, List, [], ◌∷◌, ◌++◌, arith, nat_beq, ltb, leb, if◌then◌else◌, Eq, ◌==◌, elem, string_eq,
  ◌↔◌, ◌-◌, ◌/◌,
}
use clarityos.Prelude.Int.{ℤ, pos}
use clarityos.Python.Errors.{Exception, value_error, type_error, overflow_error}
use clarityos.Python.Exec.{Result, ok, err, and_then}
use clarityos.Python.Json.{Json, null, bool, int, str, arr, obj, Items, nil, cons, Fields, as_int}
use clarityos.Python.Text.{strip, is_blank, show_nat}

pub data JobType : Type 0 where
  workflow_start workflow_resume workflow_subrun : JobType

pub data JobStatus : Type 0 where
  queued scheduled running completed failed dead_letter canceled : JobStatus

abbrev pub type_code : JobType → ℕ
type_code workflow_start = 0
type_code workflow_resume = 1
type_code workflow_subrun = 2

abbrev pub status_code : JobStatus → ℕ
status_code queued = 0
status_code scheduled = 1
status_code running = 2
status_code completed = 3
status_code failed = 4
status_code dead_letter = 5
status_code canceled = 6

pub type_beq_iff : (a b : JobType) → (nat_beq (type_code a) (type_code b) ≡ true) ↔ (a ≡ b)
type_beq_iff a b = ground arith

instance abbrev pub type_eq : Eq JobType
type_eq = record { equals = λ a b. nat_beq (type_code a) (type_code b); equals_iff = type_beq_iff }

pub status_beq_iff : (a b : JobStatus) → (nat_beq (status_code a) (status_code b) ≡ true) ↔ (a ≡ b)
status_beq_iff a b = ground arith

instance abbrev pub status_eq : Eq JobStatus
status_eq = record {
  equals = λ a b. nat_beq (status_code a) (status_code b);
  equals_iff = status_beq_iff;
}

unfoldable pub status_name : JobStatus → String
status_name queued = "queued"
status_name scheduled = "scheduled"
status_name running = "running"
status_name completed = "completed"
status_name failed = "failed"
status_name dead_letter = "dead_letter"
status_name canceled = "canceled"

-- TERMINAL_JOB_STATUSES
abbrev pub is_terminal : JobStatus → Bool
is_terminal completed = true
is_terminal failed = true
is_terminal dead_letter = true
is_terminal canceled = true
is_terminal _ = false

unfoldable pub normalize_job_type : String → Result JobType
normalize_job_type t =
    if t == "workflow_start"
    then ok workflow_start
    else if t == "workflow_resume"
    then ok workflow_resume
    else if t == "workflow_subrun"
    then ok workflow_subrun
    else err (value_error ("Unknown job type: " <> t))

unfoldable pub normalize_job_status : String → Result JobStatus
normalize_job_status s =
    if s == "queued"
    then ok queued
    else if s == "scheduled"
    then ok scheduled
    else if s == "running"
    then ok running
    else if s == "completed"
    then ok completed
    else if s == "failed"
    then ok failed
    else if s == "dead_letter"
    then ok dead_letter
    else if s == "canceled"
    then ok canceled
    else err (value_error ("Unknown job status: " <> s))

need_int : String → Option ℤ → Result ℤ
need_int complaint none = err (value_error complaint)
need_int complaint (some n) = ok n

unfoldable pub normalize_priority : Json → Result ℤ
unfolding need_int
normalize_priority v = need_int "Job priority must be an integer" (as_int v)

unfoldable pub positive_or : String → Option ℤ → Result ℕ
positive_or complaint (some (pos (suc n))) = ok (suc n)
positive_or complaint _ = err (value_error complaint)

non_negative_or : String → Option ℤ → Result ℕ
non_negative_or complaint (some (pos n)) = ok n
non_negative_or complaint _ = err (value_error complaint)

unfoldable pub normalize_positive_int : Json → String → Result ℕ
unfolding positive_or
normalize_positive_int v field_name =
    positive_or ("Job `" <> field_name <> "` must be a positive integer") (as_int v)

unfoldable pub normalize_non_negative_int : Json → String → Result ℕ
unfolding non_negative_or
normalize_non_negative_int v field_name =
    non_negative_or ("Job `" <> field_name <> "` must be a non-negative integer") (as_int v)

some_limit : Result ℕ → Result (Option ℕ)
some_limit (ok n) = ok (some n)
some_limit (err e) = err e

unfoldable pub normalize_optional_limit : Json → String → Result (Option ℕ)
unfolding positive_or some_limit
normalize_optional_limit null field_name = ok none
normalize_optional_limit v field_name =
    some_limit (positive_or ("Queue `" <> field_name <> "` must be a positive integer") (as_int v))

-- The loop over the raw statuses; `normalized` holds what was seen.
unfoldable pub collect_statuses : String → List JobStatus → Items → Result (List JobStatus)
collect_statuses field_name normalized nil = ok normalized
collect_statuses field_name normalized (cons (str raw) rest) =
    let status = normalize_job_status (strip raw) in
    if is_blank raw
    then err (value_error ("Queue `" <> field_name <> "` must contain non-empty status strings"))
    else and_then status λ s.
      if not (is_terminal s)
      then err (
          value_error (
            "Queue `" <> field_name
            <> "` may only include terminal statuses: completed, failed, dead_letter, canceled"))
      else collect_statuses field_name
          (if elem s normalized then normalized else normalized ++ s ∷ []) rest
collect_statuses field_name normalized (cons _ rest) =
    err (value_error ("Queue `" <> field_name <> "` must contain non-empty status strings"))

unfoldable pub normalize_job_status_list : Json → String → Result (List JobStatus)
unfolding collect_statuses
normalize_job_status_list null field_name = ok (dead_letter ∷ [])
normalize_job_status_list (arr nil) field_name =
    err (value_error ("Queue `" <> field_name <> "` must be a non-empty list"))
normalize_job_status_list (arr (cons v vs)) field_name = collect_statuses field_name [] (cons v vs)
normalize_job_status_list _ field_name =
    err (value_error ("Queue `" <> field_name <> "` must be a non-empty list"))

-- The `error` of a job: the exception's type and message.
pub record JobError : Type 0 where
  pub type : String
  pub message : String

abbrev pub seconds : ℕ → ℕ
seconds n = n * 1000000

unfoldable pub duration_seconds_since : ℕ → Option ℕ → Option ℕ
duration_seconds_since now none = none
duration_seconds_since now (some t) = some ((now - t) / 1000000)

unfoldable pub occurred_within_seconds : ℕ → Option ℕ → ℕ → Bool
occurred_within_seconds now none n = false
occurred_within_seconds now (some t) n = leb ((now - t) / 1000000) n

-- `run_at` as `datetime.fromisoformat` reads it: a moment, a text that it refuses, or a time with no
-- offset, which Python then refuses to compare with the clock.
pub data RunAt : Type 0 where
  moment : ℕ → RunAt
  unreadable : String → RunAt
  no_offset : RunAt

-- Python's truth of a value
abbrev pub is_truthy : Json → Bool
is_truthy null = false
is_truthy (bool b) = b
is_truthy (int (pos zero)) = false
is_truthy (int _) = true
is_truthy (str s) = not (s == "")
is_truthy (arr nil) = false
is_truthy (arr _) = true
is_truthy (obj Fields.end) = false
is_truthy (obj _) = true

unfoldable pub job_status_for_ready_at : ℕ → ℕ → JobStatus
job_status_for_ready_at now ready_at = if ltb now ready_at then scheduled else queued

-- The refusal of a time with no offset is `job_status_for_ready_at`'s, which every caller calls next.
parse_run_at : RunAt → Result ℕ
parse_run_at (moment t) = ok t
parse_run_at (unreadable text) = err (value_error ("Invalid isoformat string: " <> text))
parse_run_at no_offset = err (type_error "can't compare offset-naive and offset-aware datetimes")

-- The end of the year 9999, behind which `datetime` has no times.
abbrev pub latest_time : ℕ
latest_time = 253402300799999999

-- What `timedelta` or its addition to the clock raises for a number of seconds that is too large.
abbrev pub overflow_text : ℕ → String
overflow_text n =
    if leb (n / 86400) 999999999
    then "date value out of range"
    else if leb (n / 86400) 2147483647
    then "days=" <> show_nat (n / 86400) <> "; must have magnitude <= 999999999"
    else "Python int too large to convert to C int"

abbrev pub no_such_time : ℕ → Exception
no_such_time n = overflow_error (overflow_text n)

after_delay : ℕ → Result ℕ → Result ℕ
after_delay now (ok n) =
    if leb (now + seconds n) latest_time then ok (now + seconds n) else err (no_such_time n)
after_delay now (err e) = err e

unfoldable pub build_ready_at : ℕ → Json → Option RunAt → Result ℕ
unfolding parse_run_at non_negative_or after_delay
build_ready_at now delay_seconds (some run_at) =
    if is_truthy delay_seconds
    then err (value_error "Job accepts either `delay_seconds` or `run_at`, not both")
    else parse_run_at run_at
build_ready_at now delay_seconds none =
    after_delay now
      (non_negative_or "Job `delay_seconds` must be a non-negative integer" (as_int delay_seconds))

-- The time from the start of the year 1, where `datetime` begins, to the epoch.
abbrev pub before_epoch : ℕ
before_epoch = 62135596800000000

-- The time `n` seconds before `now`, from which on nothing is pruned, must be one of `datetime`.
unfoldable pub check_cutoff : ℕ → ℕ → Result (Unit {0})
check_cutoff now n = if leb (seconds n) (now + before_epoch) then ok tt else err (no_such_time n)

pub check_cutoff-ok : (now n : ℕ) → seconds n ≤ now + before_epoch → check_cutoff now n ≡ ok tt
unfolding check_cutoff
check_cutoff-ok now n h = ground arith

pub check_cutoff-err :
    (now n : ℕ) → now + before_epoch < seconds n → check_cutoff now n ≡ err (no_such_time n)
unfolding check_cutoff
check_cutoff-err now n h = ground arith

-- The time of a delay that is a number.
pub build_ready_at_delay :
    (now n : ℕ)
    → build_ready_at now (int (pos n)) none
      ≡ (if leb (now + seconds n) latest_time then ok (now + seconds n) else err (no_such_time n))
unfolding build_ready_at non_negative_or after_delay
build_ready_at_delay now n = refl

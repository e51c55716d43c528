-- ===== src/Worker/Loop.antt =====
-- The loop of a worker (runtime/worker_loop.py, `run_worker_loop`): it runs jobs one after another, and
-- beats and sleeps where there was none. Round n runs a job at the time `run_at n` and beats at the time
-- `beat_at n`; what other processes did to the files before it, while this one slept or ran, is
-- `others n`. The arguments are the integers that the signature asks for: texts, which only the
-- environment gives, are left out, and so is the sleeping.
use clarityos.Prelude.{
  ℕ, zero, suc, ◌+◌, String, ◌<>◌, Bool, true, false, ◌&&◌, Option, none, some, List, [], ◌∷◌, ◌++◌,
  leb, length, if◌then◌else◌, ◌==◌, nat_eq, option_eq,
}
use clarityos.Prelude.Int.{ℤ, pos}
use clarityos.Python.Errors.{Exception, value_error}
use clarityos.Python.Exec.{Result, ok, err, and_then, map_result, Exec, lift, ◌>>=◌, ◌>>◌}
use clarityos.Python.Json.{Json, null, int}
use clarityos.Queue.Job.{JobError}
use clarityos.Queue.History.{QueueJob}
use clarityos.Queue.Lifecycle.{error_of}
use clarityos.Worker.Record.{Worker}
use clarityos.Worker.World.{World, load_worker, register_worker, heartbeat_worker}
use clarityos.Worker.Repair.{Reset, repair_orphaned_workers}
use clarityos.Worker.Run.{run_next_job}

not_allowed : String → Bool → Exception
not_allowed field_name true = value_error ("`" <> field_name <> "` must be zero or greater")
not_allowed field_name false = value_error ("`" <> field_name <> "` must be greater than zero")

unfoldable pub parse_positive_int : ℤ → (field_name : String) → (allow_zero : Bool) → Result ℕ
unfolding not_allowed
parse_positive_int (pos (suc n)) field_name allow_zero = ok (suc n)
parse_positive_int (pos zero) field_name true = ok 0
parse_positive_int _ field_name allow_zero = err (not_allowed field_name allow_zero)

unfoldable pub parse_optional :
    Option ℤ → (field_name : String) → (allow_zero : Bool) → Result (Option ℕ)
parse_optional none field_name allow_zero = ok none
parse_optional (some n) field_name allow_zero =
    map_result some (parse_positive_int n field_name allow_zero)

pub record LoopLimits : Type 0 where
  pub max_jobs : Option ℕ
  pub max_idle_polls : Option ℕ

-- The variables of the loop.
pub record Turns : Type 0 where
  pub processed_jobs : ℕ
  pub idle_polls : ℕ
  pub errors : List JobError

abbrev pub no_turns : Turns
no_turns = record { processed_jobs = 0; idle_polls = 0; errors = [] }

-- `limit is not None and count >= limit`
abbrev pub limit_reached : Option ℕ → ℕ → Bool
limit_reached none count = false
limit_reached (some limit) count = leb limit count

-- What a round of the loop comes to: the next round, or the end by `break` or by an exception.
pub data Round : Type 0 where
  goes_on : Turns → World → Round
  over : Result Turns → World → Round

abbrev pub Ending : Type 0
Ending = Option (Result Turns × World)

-- `rest` is the loop from the next round on.
abbrev pub follow : Round → (rest : Turns → World → Ending) → Ending
follow (over r s) rest = some (r, s)
follow (goes_on t s) rest = rest t s

abbrev pub idle_turn : Turns → Turns
idle_turn t = record t { idle_polls = t.idle_polls + 1 }

unfoldable pub after_beat :
    LoopLimits → (encountered_error : Bool) → Turns → Result Worker × World → Round
after_beat l encountered_error t (err e, s) = over (err e) s
after_beat l encountered_error t (ok w, s) =
    if limit_reached l.max_idle_polls t.idle_polls
    then over (ok t) s
    else if encountered_error && l.max_idle_polls == some 0
    then over (ok t) s
    else goes_on t s

module _ (dispatch : QueueJob → Exec World Json) (run_at beat_at : ℕ → ℕ)
    (others : ℕ → World → World) (worker_id : String) where
  abbrev beat : ℕ → Exec World Worker
  beat n = heartbeat_worker (beat_at n) worker_id

  unfoldable pub after_run : ℕ → LoopLimits → Turns → Result (Option QueueJob) × World → Round
  unfolding after_beat
  after_run n l t (ok (some job), s) =
      goes_on (record t { processed_jobs = t.processed_jobs + 1; idle_polls = 0 }) s
  after_run n l t (ok none, s) = after_beat l false (idle_turn t) (beat n s)
  after_run n l t (err exc, s) =
      after_beat l true (idle_turn (record t { errors = t.errors ++ error_of exc ∷ [] })) (beat n s)

  -- The body of `while True`, in round n.
  unfoldable pub run_round : ℕ → LoopLimits → Turns → World → Round
  unfolding after_run
  run_round n l t s =
      if limit_reached l.max_jobs t.processed_jobs
      then over (ok t) s
      else after_run n l t (run_next_job dispatch (run_at n) worker_id (others n s))

  -- The loop from round n on; `none` means that the fuel ran out.
  unfoldable pub poll_loop : (fuel : ℕ) → ℕ → LoopLimits → Turns → World → Ending
  unfolding run_round
  poll_loop zero n l t s = none
  poll_loop (suc fuel) n l t s =
      follow (run_round n l t s) (λ t' s'. poll_loop fuel (suc n) l t' s')

-- `errors[-5:]`
last_five : List JobError → List JobError
last_five [] = []
last_five (e ∷ errors) = if leb (length errors) 4 then e ∷ errors else last_five errors

pub record LoopSummary : Type 0 where
  pub worker_id : String
  pub worker : Worker
  pub processed_jobs : ℕ
  pub idle_polls : ℕ
  pub error_count : ℕ
  pub errors : List JobError
  pub repair_snapshot : List Reset

unfoldable pub summarize_loop : String → List Reset → Turns → Exec World LoopSummary
unfolding last_five
summarize_loop worker_id repairs t s = (
  map_result
      (λ w. record {
        worker_id = worker_id;
        worker = w;
        processed_jobs = t.processed_jobs;
        idle_polls = t.idle_polls;
        error_count = length t.errors;
        errors = last_five t.errors;
        repair_snapshot = repairs;
      })
      (load_worker worker_id s),
  s,
)

pub record LoopArguments : Type 0 where
  pub worker_name : Option String
  pub lease_seconds : ℤ
  pub poll_seconds : ℤ
  pub max_jobs : Option ℤ
  pub max_idle_polls : Option ℤ
  pub repair_orphans_on_start : Bool

-- The checks of the arguments, in their order: the length of the lease and the limits.
unfoldable pub parse_arguments : LoopArguments → Result (ℕ × LoopLimits)
unfolding parse_positive_int parse_optional
parse_arguments a = and_then (parse_positive_int a.lease_seconds "lease_seconds" false) (λ lease.
    and_then (parse_positive_int a.poll_seconds "poll_seconds" true) (λ _.
      and_then (parse_optional a.max_jobs "max_jobs" false) (λ jobs.
        map_result (λ idle. (lease, record { max_jobs = jobs; max_idle_polls = idle }))
          (parse_optional a.max_idle_polls "max_idle_polls" true))))

repair_on_start : ℕ → Bool → Exec World (List Reset)
repair_on_start now true s = repair_orphaned_workers now null s
repair_on_start now false s = (ok [], s)

-- What comes before the loop: the checks, the registration and the repair of orphans.
unfoldable pub start_loop :
    ℕ → (worker_id : String) → LoopArguments → Exec World (LoopLimits × List Reset)
unfolding repair_on_start
start_loop now worker_id a = do
  checked ← lift (parse_arguments a)
  register_worker now worker_id a.worker_name (int (pos checked.0))
  repairs ← repair_on_start now a.repair_orphans_on_start
  λ s. (ok (checked.1, repairs), s)

module _ (dispatch : QueueJob → Exec World Json) (run_at beat_at : ℕ → ℕ)
    (others : ℕ → World → World) (worker_id : String) where
  unfoldable pub end_loop : List Reset → Ending → Option (Result LoopSummary × World)
  end_loop repairs none = none
  end_loop repairs (some (err e, s)) = some (err e, s)
  end_loop repairs (some (ok t, s)) = some (summarize_loop worker_id repairs t s)

  unfoldable pub loop_started :
      (fuel : ℕ) → Result (LoopLimits × List Reset) × World → Option (Result LoopSummary × World)
  unfolding end_loop
  loop_started fuel (err e, s) = some (err e, s)
  loop_started fuel (ok (l, repairs), s) =
      end_loop repairs (poll_loop dispatch run_at beat_at others worker_id fuel 0 l no_turns s)

  -- `worker_id` is the id that `uuid.uuid4` draws for the new worker, `now` the time of the start.
  unfoldable pub run_worker_loop :
      (fuel : ℕ) → (now : ℕ) → LoopArguments → World → Option (Result LoopSummary × World)
  unfolding loop_started poll_loop start_loop summarize_loop
  run_worker_loop fuel now a s = loop_started fuel (start_loop now worker_id a s)

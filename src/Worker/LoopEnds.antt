-- ===== src/Worker/LoopEnds.antt =====
-- That the loop of a worker ends where both of its limits are set (runtime/worker_loop.py).
use clarityos.Prelude.{
  ℕ, zero, suc, ◌+◌, ◌-◌, ◌*◌, ◌≤◌, ◌<◌, ◌≡◌, refl, Option, none, some, List, arith, ◌⊎◌, inl, inr,
  leb, true, false, Bool, String, Bool-cases, leb→le, ap, nat_eq, option_eq,
}
use clarityos.Python.Exec.{Result, ok, err, Exec, continue, ◌>>=◌}
use clarityos.Python.Errors.{Exception}
use clarityos.Python.Json.{Json, int}
use clarityos.Prelude.Int.{pos}
use clarityos.Queue.History.{QueueJob}
use clarityos.Worker.Record.{Worker}
use clarityos.Worker.World.{World, load_worker, register_worker}
use clarityos.Worker.Repair.{Reset}
use clarityos.Worker.Loop.{
  LoopLimits, Turns, no_turns, Round, goes_on, over, idle_turn, after_beat, after_run, run_round,
  poll_loop, Ending, follow, LoopSummary, LoopArguments, parse_arguments, start_loop,
  summarize_loop, end_loop, loop_started, run_worker_loop,
}

abbrev pub limits : ℕ → ℕ → LoopLimits
limits jobs polls = record { max_jobs = some jobs; max_idle_polls = some polls }

-- How many rounds are left at most.
abbrev rounds_left : ℕ → ℕ → Turns → ℕ
rounds_left jobs polls t = (jobs - t.processed_jobs) * (polls + 1) + (polls + 1 - t.idle_polls)

-- The limits are not passed.
abbrev pub Within : ℕ → ℕ → Turns → Type 0
Within jobs polls t = (t.processed_jobs ≤ jobs) × (t.idle_polls ≤ polls)

-- Why the loop may end: enough jobs, or enough polls one after another without one.
abbrev pub IsOver : ℕ → ℕ → Turns → Type 0
IsOver jobs polls t =
    (t.processed_jobs ≤ jobs)
    × (t.idle_polls ≤ polls + 1)
    × ((t.processed_jobs ≡ jobs) ⊎ ((polls ≤ t.idle_polls) × (0 < t.idle_polls)))

abbrev pub EndsWell : ℕ → ℕ → Result Turns → Type 0
EndsWell jobs polls (err e) = Unit
EndsWell jobs polls (ok t) = IsOver jobs polls t

-- The limits hold of what the loop reports, and one of them is met.
abbrev pub SummaryFits : ℕ → ℕ → Result LoopSummary → Type 0
SummaryFits jobs polls (err e) = Unit
SummaryFits jobs polls (ok summary) =
    (summary.processed_jobs ≤ jobs)
    × (summary.idle_polls ≤ polls + 1)
    × ((summary.processed_jobs ≡ jobs) ⊎ ((polls ≤ summary.idle_polls) × (0 < summary.idle_polls)))

abbrev Progress : ℕ → ℕ → Turns → Round → Type 0
Progress jobs polls t (over r s) = EndsWell jobs polls r
Progress jobs polls t (goes_on t' s) =
    Within jobs polls t' × (rounds_left jobs polls t' < rounds_left jobs polls t)

-- A round with a job, and a round without one, leave fewer.
fewer_jobs :
    (jobs p polls i : ℕ)
    → p < jobs
    → i ≤ polls
    → (jobs - (p + 1)) * (polls + 1) + (polls + 1 - 0) < (jobs - p) * (polls + 1) + (polls + 1 - i)
fewer_jobs jobs p polls i more within =
    let e : jobs - p ≡ (jobs - (p + 1)) + 1 = omega arith in
    omega (arith, ap (λ (n : ℕ). n * (polls + 1)) e)

fewer_polls :
    (jobs polls : ℕ) (t t' : Turns)
    → t.idle_polls ≤ polls
    → t'.processed_jobs ≡ t.processed_jobs
    → t'.idle_polls ≡ t.idle_polls + 1
    → rounds_left jobs polls t' < rounds_left jobs polls t
fewer_polls jobs polls t t' within same next =
    omega (arith, ap (λ (n : ℕ). (jobs - n) * (polls + 1)) same)

first_rounds : (jobs polls : ℕ) → rounds_left jobs polls no_turns ≡ (jobs + 1) * (polls + 1)
first_rounds jobs polls =
    let e : jobs - 0 ≡ jobs = omega arith in
    let unused : polls + 1 - 0 ≡ polls + 1 = omega arith in
    omega (arith, ap (λ (n : ℕ). n * (polls + 1)) e, unused)

after_beat-Progress :
    (jobs polls : ℕ) (encountered : Bool) (t t' : Turns) (r : Result Worker × World)
    → Within jobs polls t
    → t.processed_jobs < jobs
    → t'.processed_jobs ≡ t.processed_jobs
    → t'.idle_polls ≡ t.idle_polls + 1
    → Progress jobs polls t (after_beat (limits jobs polls) encountered t' r)
unfolding after_beat
after_beat-Progress jobs polls encountered t t' (err e, s) within more same next = tt
after_beat-Progress jobs polls encountered t t' (ok w, s) within more same next =
    elim (Bool-cases (leb polls t'.idle_polls)) [
      | inl idle ↦ rw idle (omega arith, omega arith, inr (leb→le _ _ idle, omega arith))
      | inr busy ↦ rw busy (ground (arith, fewer_polls jobs polls t t' within.1 same next))
    ]

module _ (dispatch : QueueJob → Exec World Json) (run_at beat_at : ℕ → ℕ)
    (others : ℕ → World → World) (id : String) (jobs polls : ℕ) where
  after_run-Progress :
      (n : ℕ) (t : Turns) (r : Result (Option QueueJob) × World)
      → Within jobs polls t
      → t.processed_jobs < jobs
      → Progress jobs polls t
          (after_run dispatch run_at beat_at others id n (limits jobs polls) t r)
  unfolding after_run
  after_run-Progress n t (ok (some j), s) within more = (
    (omega arith, omega arith),
    fewer_jobs jobs t.processed_jobs polls t.idle_polls more within.1,
  )
  after_run-Progress n t (ok none, s) within more =
      after_beat-Progress jobs polls false t (idle_turn t) _ within more refl refl
  after_run-Progress n t (err e, s) within more =
      after_beat-Progress jobs polls true t _ _ within more refl refl

  run_round-Progress :
      (n : ℕ) (t : Turns) (s : World)
      → Within jobs polls t
      → Progress jobs polls t
          (run_round dispatch run_at beat_at others id n (limits jobs polls) t s)
  unfolding run_round
  run_round-Progress n t s within = elim (Bool-cases (leb jobs t.processed_jobs)) [
    | inl enough ↦ rw enough (within.0, omega arith, inl (omega (arith, leb→le _ _ enough)))
    | inr more ↦ rw more (after_run-Progress n t _ within (ground arith))
  ]

  abbrev Ends : Ending → Type 0
  Ends o = (r : Result Turns) × (s : World) × (o ≡ some (r, s)) × EndsWell jobs polls r

  follow-Ends :
      (t : Turns) (fuel : ℕ) (o : Round) (rest : Turns → World → Ending)
      → Progress jobs polls t o
      → rounds_left jobs polls t < suc fuel
      → ((t' : Turns) (s' : World)
          → Within jobs polls t'
          → rounds_left jobs polls t' < fuel
          → Ends (rest t' s'))
      → Ends (follow o rest)
  follow-Ends t fuel (over r s) rest p enough later = (r, s, refl, p)
  follow-Ends t fuel (goes_on t' s) rest p enough later = later t' s p.0 (omega arith)

  -- With as much fuel as there are rounds left, the loop ends, and by its own limits.
  poll_loop-Ends :
      (fuel n : ℕ) (t : Turns) (s : World)
      → Within jobs polls t
      → rounds_left jobs polls t < fuel
      → Ends (poll_loop dispatch run_at beat_at others id fuel n (limits jobs polls) t s)
  unfolding poll_loop
  poll_loop-Ends zero n t s within enough = absurd (omega arith)
  poll_loop-Ends (suc fuel) n t s within enough =
      follow-Ends t fuel _ _ (run_round-Progress n t s within) enough (poll_loop-Ends fuel (suc n))

  abbrev Reports : Option (Result LoopSummary × World) → Type 0
  Reports o = (r : Result LoopSummary) × (s : World) × (o ≡ some (r, s)) × SummaryFits jobs polls r

  summarize_loop-SummaryFits :
      (repairs : List Reset) (t : Turns) (s : World) (loaded : Result Worker)
      → load_worker id s ≡ loaded
      → IsOver jobs polls t
      → SummaryFits jobs polls (summarize_loop id repairs t s).0
  unfolding summarize_loop
  summarize_loop-SummaryFits repairs t s (ok w) e h = rw e h
  summarize_loop-SummaryFits repairs t s (err exc) e h = rw e tt

  end_loop-Reports :
      (repairs : List Reset) (o : Ending)
      → Ends o
      → Reports (end_loop dispatch run_at beat_at others id repairs o)
  unfolding end_loop
  end_loop-Reports repairs o (err e, s, ended, h) = rw ended (err e, s, refl, tt)
  end_loop-Reports repairs o (ok t, s, ended, h) = rw ended (
    (summarize_loop id repairs t s).0,
    (summarize_loop id repairs t s).1,
    refl,
    summarize_loop-SummaryFits repairs t s _ refl h,
  )

  abbrev Starts : Result (LoopLimits × List Reset) × World → Type 0
  Starts r =
      ((e : Exception) × (s : World) × (r ≡ (err e, s)))
      ⊎ ((rs : List Reset) × (s : World) × (r ≡ (ok (limits jobs polls, rs), s)))

  abbrev with_limits : List Reset → Exec World (LoopLimits × List Reset)
  with_limits rs s = (ok (limits jobs polls, rs), s)

  repaired-Starts : (r : Result (List Reset)) (s : World) → Starts (continue r with_limits s)
  repaired-Starts (ok rs) s = inr (rs, s, refl)
  repaired-Starts (err e) s = inl (e, s, refl)

  registered-Starts :
      (repair : Exec World (List Reset)) (r : Result Worker) (s : World)
      → Starts (continue r (λ _. repair >>= with_limits) s)
  registered-Starts repair (ok w) s = repaired-Starts (repair s).0 (repair s).1
  registered-Starts repair (err e) s = inl (e, s, refl)

  start_loop-Starts :
      (now : ℕ) (a : LoopArguments) (lease : ℕ) (s : World)
      → parse_arguments a ≡ ok (lease, limits jobs polls)
      → Starts (start_loop now id a s)
  unfolding start_loop
  start_loop-Starts now a lease s parsed =
      rw parsed (registered-Starts _ (register_worker now id a.worker_name (int (pos lease)) s).0 _)

  loop_started-Reports :
      (fuel : ℕ)
      → (jobs + 1) * (polls + 1) < fuel
      → (r : Result (LoopLimits × List Reset) × World) → Starts r
      → Reports (loop_started dispatch run_at beat_at others id fuel r)
  unfolding loop_started
  loop_started-Reports fuel enough r (inl (e, s, q)) = rw q (err e, s, refl, tt)
  loop_started-Reports fuel enough r (inr (rs, s, q)) = rw q (
      end_loop-Reports rs _ (
        poll_loop-Ends fuel 0 no_turns s (omega arith, omega arith)
          (omega (arith, first_rounds jobs polls))))

  -- A loop with both limits set, whose arguments pass the checks: whatever the jobs do, and
  -- whatever other processes do to the files between the rounds, the loop ends with fuel for more
  -- rounds than (`max_jobs` + 1) * (`max_idle_polls` + 1). It ends by an exception, or it reports no
  -- more jobs than `max_jobs` and no more idle polls than `max_idle_polls` + 1, and then either
  -- `max_jobs` jobs were processed or at least `max_idle_polls` polls, and one at least, were idle
  -- one after another.
  pub run_worker_loop-ends :
      (a : LoopArguments) (lease : ℕ)
      → parse_arguments a ≡ ok (lease, limits jobs polls)
      → (fuel : ℕ) → (jobs + 1) * (polls + 1) < fuel
      → (now : ℕ) (s : World)
      → (r : Result LoopSummary) × (s' : World) × (run_worker_loop dispatch run_at beat_at others id
            fuel now a s
          ≡ some (r, s'))
        × SummaryFits jobs polls r
  unfolding run_worker_loop
  run_worker_loop-ends a lease parsed fuel enough now s =
      loop_started-Reports fuel enough _ (start_loop-Starts now a lease s parsed)

-- ===== src/Queue/Pruning.antt =====
-- `prune_jobs` deletes jobs at their end only, and no more than the limit.
use clarityos.Prelude.{
  ℕ, zero, suc, take, All-of_In, ◌⊎◌, ◌≤◌, ◌<◌, ◌+◌, String, ◌≡◌, refl, sym, ap, ◌∙◌, subst, Bool,
  true, false, Option, none, some, List, [], ◌∷◌, ◌++◌, arith, ◌==◌, ==_iff, string_eq,
  if◌then◌else◌, In, All, elem, inl, inr, Bool-cases, length, length-take, keep_if, In-keep_if,
  keep_if-In, and_true,
}
use clarityos.Prelude.Sort.{sort_by, In-sort_by, sort_by-In}
use clarityos.Python.Exec.{ok, err, and_then-eq-ok}
use clarityos.Python.Json.{Json, null, bool, int, str, arr, obj, Items, nil, cons}
use clarityos.Python.Text.{is_blank, strip}
use clarityos.Python.Directory.{read, unlink, read-unlink}
use clarityos.Python.Files.{read-In, unlink-IsDirectory, AllFiles-unlink}
use clarityos.Queue.Job.{
  JobStatus, status_eq, dead_letter, is_terminal, seconds, before_epoch, no_such_time,
  check_cutoff-ok, check_cutoff-err, collect_statuses, normalize_job_status,
  normalize_job_status_list, normalize_non_negative_int, normalize_optional_limit,
}
use clarityos.Queue.History.{QueueJob}
use clarityos.Queue.Access.{Jobs, cut}
use clarityos.Queue.Maintenance.{
  is_prunable, terminated_before, unlink_all, prune_candidates, prune_jobs,
}
use clarityos.Queue.Healthy.{Fits, IsHealthy, IsHealthy-read}
use clarityos.Queue.Distinct.{
  In-files-read, In-cut, AreDistinct, Differ, cut-AreDistinct, sort_by-AreDistinct,
  keep_if-AreDistinct,
}
use clarityos.Queue.Rewrites.{IsStored, job_ids, In-ids}
use clarityos.Queue.Listing.{list_stored-ok, IsListing}

abbrev pub IsFinal : JobStatus → Type 0
IsFinal s = is_terminal s ≡ true

All-snoc :
    (xs : List JobStatus) (s : JobStatus) → All IsFinal xs → IsFinal s → All IsFinal (xs ++ s ∷ [])
All-snoc [] s h e = (e, tt)
All-snoc (x ∷ xs) s h e = (h.0, All-snoc xs s h.1 e)

All-grow :
    (b : Bool) (xs : List JobStatus) (s : JobStatus)
    → All IsFinal xs
    → IsFinal s
    → All IsFinal (if b then xs else xs ++ s ∷ [])
All-grow true xs s h e = h
All-grow false xs s h e = All-snoc xs s h e

module _ (field_name : String) where
  collected :
      (done : List JobStatus) (raws : Items) (wanted : List JobStatus)
      → All IsFinal done
      → collect_statuses field_name done raws ≡ ok wanted
      → All IsFinal wanted
  unfolding collect_statuses
  collected done nil wanted h e = subst (All IsFinal) (cc) h
  collected done (cons (str raw) rest) wanted h e = elim (Bool-cases (is_blank raw)) [
    | inl blank ↦ cc (rw blank at e)
    | inr text ↦
        let (s, named, next) = and_then-eq-ok (normalize_job_status (strip raw)) _ (rw text at e) in
        elim (Bool-cases (is_terminal s)) [
          | inl over ↦
              collected (if elem s done then done else done ++ s ∷ []) rest wanted
                (All-grow (elem s done) done s h over) (rw over at next)
          | inr active ↦ cc (rw active at next)
        ]
  ]
  collected done (cons null rest) wanted h e = cc
  collected done (cons (bool b) rest) wanted h e = cc
  collected done (cons (int n) rest) wanted h e = cc
  collected done (cons (arr xs) rest) wanted h e = cc
  collected done (cons (obj fs) rest) wanted h e = cc

-- The reads after the deletions.
read-unlink_all :
    (k : String) (js : List QueueJob) (d : Jobs)
    → read k (unlink_all js d).1 ≡ (if elem k (job_ids js) then none else read k d)
unfolding unlink_all
read-unlink_all k [] d = refl
read-unlink_all k (j ∷ js) d = ground (
  arith,
  read-unlink_all k js d,
  read-unlink_all k js (unlink j.job_id d),
  read-unlink k j.job_id d,
  ==_iff k j.job_id,
  ==_iff j.job_id k,
)

-- Whatever list of statuses `normalize_job_status_list` accepts or supplies, each of them is terminal.
pub normalize_job_status_list-IsFinal :
    (statuses : Json) (field_name : String) (wanted : List JobStatus)
    → normalize_job_status_list statuses field_name ≡ ok wanted
    → All IsFinal wanted
unfolding normalize_job_status_list
normalize_job_status_list-IsFinal null f wanted e =
    subst (All IsFinal) {x = dead_letter ∷ []} (cc) (refl, tt)
normalize_job_status_list-IsFinal (bool b) f wanted e = cc
normalize_job_status_list-IsFinal (int n) f wanted e = cc
normalize_job_status_list-IsFinal (str s) f wanted e = cc
normalize_job_status_list-IsFinal (arr nil) f wanted e = cc
normalize_job_status_list-IsFinal (arr (cons v vs)) f wanted e =
    collected f [] (cons v vs) wanted tt e
normalize_job_status_list-IsFinal (obj fs) f wanted e = cc

elem-IsFinal :
    (s : JobStatus) (wanted : List JobStatus)
    → All IsFinal wanted
    → elem s wanted ≡ true
    → IsFinal s
elem-IsFinal s [] h e = cc
elem-IsFinal s (w ∷ wanted) h e = elim (Bool-cases (s == w)) [
  | inl same ↦ subst IsFinal (sym ((==_iff s w).0 same)) h.0
  | inr other ↦ elem-IsFinal s wanted h.1 (rw other at e)
]

unlink-IsHealthy : (k : String) {d : Jobs} → IsHealthy d → IsHealthy (unlink k d)
unlink-IsHealthy k {d} h = record {
  names = unlink-IsDirectory k d h.names;
  jobs = AllFiles-unlink Fits k d h.jobs;
}

maybe_unlinked :
    (b : Bool) (k : String) {d : Jobs} → IsHealthy d → IsHealthy (if b then unlink k d else d)
maybe_unlinked true k h = unlink-IsHealthy k h
maybe_unlinked false k h = h

unlink_all-IsHealthy : (js : List QueueJob) {d : Jobs} → IsHealthy d → IsHealthy (unlink_all js d).1
unfolding unlink_all
unlink_all-IsHealthy [] h = h
unlink_all-IsHealthy (j ∷ js) h = unlink_all-IsHealthy js (maybe_unlinked _ j.job_id h)

-- What is left of stored jobs after the deletion of another one is stored still.
still-All :
    (j : QueueJob) (js : List QueueJob) (d : Jobs)
    → All (Differ j) js
    → All (IsStored d) js
    → All (IsStored (unlink j.job_id d)) js
still-All j [] d apart there = tt
still-All j (i ∷ js) d apart there =
    (read-unlink i.job_id j.job_id d ∙ rw apart.0 there.0, still-All j js d apart.1 there.1)

-- The reported ids are those of the jobs.
ids-unlink_all :
    (js : List QueueJob) (d : Jobs)
    → AreDistinct js
    → All (IsStored d) js
    → (unlink_all js d).0 ≡ job_ids js
unfolding unlink_all
ids-unlink_all [] d apart there = refl
ids-unlink_all (j ∷ js) d apart there = rw there.0 (
    ap (λ ids. j.job_id ∷ ids)
      (ids-unlink_all js (unlink j.job_id d) apart.1 (still-All j js d apart.0 there.1)))

length-ids : (js : List QueueJob) → length (job_ids js) ≡ length js
length-ids [] = refl
length-ids (j ∷ js) = ap suc (length-ids js)

-- A limit is reached, or leaves nothing out.
cut_cases :
    (limit : Option ℕ) (js : List QueueJob)
    → ((n : ℕ) × (limit ≡ some n) × (length (cut limit js) ≡ n)) ⊎ (cut limit js ≡ js)
cut_cases none js = inr refl
cut_cases (some n) js = elim (take_cases n js) [
  | inl full ↦ inl (n, refl, full)
  | inr all ↦ inr all
]
  where
    take_cases : (n : ℕ) (js : List QueueJob) → (length (take n js) ≡ n) ⊎ (take n js ≡ js)
    take_cases zero js = inl refl
    take_cases (suc n) [] = inr refl
    take_cases (suc n) (j ∷ js) = elim (take_cases n js) [
      | inl full ↦ inl (ap suc full)
      | inr all ↦ inr (ap (λ is. j ∷ is) all)
    ]

-- What a pruning does, where `wanted`, `older` and `limit` are its arguments after their checks, and
-- `ids` is what it returns.
pub record IsPruning (now : ℕ) (wanted : List JobStatus) (older : ℕ) (limit : Option ℕ)
    (d d' : Jobs) (ids : List String) : Type 0 where
  pub healthy : IsHealthy d'
  pub pruned : List QueueJob
  pub reported : ids ≡ job_ids pruned
  pub distinct : AreDistinct pruned
  pub removed :
      (j : QueueJob)
      → In j pruned
      → (read j.job_id d ≡ some j)
        × (is_terminal j.status ≡ true)
        × (is_prunable now wanted older j ≡ true)
  pub reads : (k : String) → read k d' ≡ (if elem k ids then none else read k d)
  pub bounded : (n : ℕ) → limit ≡ some n → length ids ≤ n
  pub enough :
      ((n : ℕ) × (limit ≡ some n) × (length ids ≡ n))
      ⊎ ((k : String) (j : QueueJob)
          → read k d ≡ some j
          → is_prunable now wanted older j ≡ true
          → read k d' ≡ none)

module _ (now : ℕ) (wanted : List JobStatus) (older : ℕ) (limit : Option ℕ) {d : Jobs}
    (h : IsHealthy d) (js : List QueueJob) (l : IsListing none d js)
    (final : All IsFinal wanted) where
  abbrev chosen : List QueueJob
  chosen = prune_candidates now wanted older limit js

  In-chosen : (j : QueueJob) → In j chosen → IsStored d j × (is_prunable now wanted older j ≡ true)
  unfolding prune_candidates
  In-chosen j m =
      let (there, prunable) = In-keep_if _ j js (In-sort_by _ j _ (In-cut j limit _ m)) in
      (In-files-read j h (l.listed j there).0, prunable)

  chosen-AreDistinct : AreDistinct chosen
  unfolding prune_candidates
  chosen-AreDistinct =
      cut-AreDistinct limit _ (sort_by-AreDistinct _ _ (keep_if-AreDistinct _ js l.distinct))

  -- The limit is reached, or all the jobs that may be pruned are chosen.
  chosen_cases :
      ((n : ℕ) × (limit ≡ some n) × (length chosen ≡ n))
      ⊎ ((j : QueueJob) → In j js → is_prunable now wanted older j ≡ true → In j chosen)
  unfolding prune_candidates
  chosen_cases =
      elim (cut_cases limit
        (sort_by terminated_before (keep_if (is_prunable now wanted older) js))) [
          | inl full ↦ inl full
          | inr all ↦
              inr (λ j m p. subst (In j) (sym all) (sort_by-In _ j _ (keep_if-In _ j js m p)))
        ]

  length-chosen : (n : ℕ) → limit ≡ some n → length chosen ≤ n
  unfolding prune_candidates
  length-chosen n e = rw e (omega (arith, length-take n (sort_by _ (keep_if _ js))))

  prunable-final :
      (j : QueueJob) → is_prunable now wanted older j ≡ true → is_terminal j.status ≡ true
  unfolding is_prunable
  prunable-final j p = elem-IsFinal j.status wanted final (and_true _ _ p).0

  chosen_ids : (unlink_all chosen d).0 ≡ job_ids chosen
  chosen_ids =
      ids-unlink_all chosen d chosen-AreDistinct (All-of_In chosen λ j m. (In-chosen j m).0)

  pruning : IsPruning now wanted older limit d (unlink_all chosen d).1 (unlink_all chosen d).0
  pruning = record {
    healthy = unlink_all-IsHealthy chosen h;
    pruned = chosen;
    reported = chosen_ids;
    distinct = chosen-AreDistinct;
    removed = λ j m. let (there, p) = In-chosen j m in (there, prunable-final j p, p);
    reads = λ k. rw chosen_ids (read-unlink_all k chosen d);
    bounded = λ n e. omega (arith, ap length chosen_ids, length-ids chosen, length-chosen n e);
    enough = elim chosen_cases [
      | inl (n, e, full) ↦ inl (n, e, ap length chosen_ids ∙ length-ids chosen ∙ full)
      | inr all ↦ inr (λ k j found p.
          let named = (IsHealthy-read k j h found).0 in
          read-unlink_all k chosen d
          ∙ rw
              (subst (λ i. elem i (job_ids chosen) ≡ true) named
                (In-ids j chosen (all j (l.complete j (read-In k j d found) refl) p)))
              refl)
    ];
  }

-- In a healthy directory, with arguments that pass the checks and a time limit that does not lie before
-- the year 1, `prune_jobs` returns the ids of the
-- jobs that it deletes, each once, and keeps the directory healthy. Each of these jobs was stored, and
-- its status is terminal and wanted and its end old enough; every other file is as it was. The limit
-- bounds their number, and if fewer are deleted, or if there is no limit, no stored job that may be
-- pruned is left. A time limit before the year 1 raises an OverflowError, and nothing is deleted.
pub prune_jobs_lem :
    (now : ℕ) (statuses older_than_seconds limit : Json) (wanted : List JobStatus) (older : ℕ)
    (left : Option ℕ) {d : Jobs}
    → IsHealthy d
    → normalize_job_status_list statuses "prune.statuses" ≡ ok wanted
    → normalize_non_negative_int older_than_seconds "prune.older_than_seconds" ≡ ok older
    → normalize_optional_limit limit "prune.limit" ≡ ok left
    → (seconds older ≤ now + before_epoch
        → (ids : List String) × ((prune_jobs now statuses older_than_seconds limit d).0 ≡ ok ids)
          × IsPruning now wanted older left d
              (prune_jobs now statuses older_than_seconds limit d).1
              ids)
      × (now + before_epoch < seconds older
          → prune_jobs now statuses older_than_seconds limit d ≡ (err (no_such_time older), d))
unfolding prune_jobs
prune_jobs_lem now statuses older_than_seconds limit wanted older left h s o n =
    let (js, listed, l) = list_stored-ok none h in
    let final = normalize_job_status_list-IsFinal statuses "prune.statuses" wanted s in
    (
      λ in_range.
          rw (s, o, n, check_cutoff-ok now older in_range, listed)
            (_, refl, pruning now wanted older left h js l final),
      λ too_old. rw (s, o, n, check_cutoff-err now older too_old) refl,
    )

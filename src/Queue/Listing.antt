-- ===== src/Queue/Listing.antt =====
-- The order of the queue, and what `list_jobs` and `ready_jobs` return.
use clarityos.Prelude.{
  ℕ, ◌≡◌, refl, Bool, true, false, Option, none, List, [], ◌∷◌, arith, ltb, lex, ◌==◌, ==_iff, In,
  All, keep_if, In-keep_if, keep_if-In,
}
use clarityos.Prelude.Int.{ℤ, ltb_ℤ}
use clarityos.Prelude.Sort.{
  sort_by, In-sort_by, sort_by-In, IsWeakOrder, IsSorted, sort_by-IsSorted,
}
use clarityos.Python.Exec.{ok}
use clarityos.Python.Directory.{files}
use clarityos.Queue.Job.{JobStatus, queued, status_eq}
use clarityos.Queue.History.{QueueJob}
use clarityos.Queue.Access.{
  Jobs, queue_rank, job_before, promote_due_jobs, has_status, list_stored, list_jobs, ready_jobs,
}
use clarityos.Queue.Healthy.{IsHealthy, load_all-ok}
use clarityos.Queue.Distinct.{
  AreDistinct, files-AreDistinct, keep_if-AreDistinct, sort_by-AreDistinct,
}
use clarityos.Queue.Promotion.{promote_due_jobs_lem}

-- A comparison by a first key, and by a second comparison where the keys tie.
lex-trans_not :
    (x y z : ℕ) (r r' r'' : Bool)
    → (r ≡ false → r' ≡ false → r'' ≡ false)
    → lex (ltb x y) (ltb y x) r ≡ false
    → lex (ltb y z) (ltb z y) r' ≡ false
    → lex (ltb x z) (ltb z x) r'' ≡ false
lex-trans_not x y z r r' r'' h k e = ground arith

lex_ℤ-trans_not :
    (x y z : ℤ) (r r' r'' : Bool)
    → (r ≡ false → r' ≡ false → r'' ≡ false)
    → lex (ltb_ℤ y x) (ltb_ℤ x y) r ≡ false
    → lex (ltb_ℤ z y) (ltb_ℤ y z) r' ≡ false
    → lex (ltb_ℤ z x) (ltb_ℤ x z) r'' ≡ false
lex_ℤ-trans_not x y z r r' r'' h k e = ground arith

ltb-trans_not : (x y z : ℕ) → ltb x y ≡ false → ltb y z ≡ false → ltb x z ≡ false
ltb-trans_not x y z h k = ground arith

job_before-asym : (a b : QueueJob) → job_before a b ≡ true → job_before b a ≡ false
unfolding job_before
job_before-asym a b h = ground arith

job_before-trans_not :
    (a b c : QueueJob) → job_before a b ≡ false → job_before b c ≡ false → job_before a c ≡ false
unfolding job_before
job_before-trans_not a b c = lex-trans_not (queue_rank a) (queue_rank b) (queue_rank c) _ _ _ (
    lex_ℤ-trans_not a.priority b.priority c.priority _ _ _ (
      lex-trans_not a.ready_at b.ready_at c.ready_at _ _ _
        (ltb-trans_not a.created_at b.created_at c.created_at)))

pub job_before-IsWeakOrder : IsWeakOrder job_before
job_before-IsWeakOrder = record { asym = job_before-asym; trans_not = job_before-trans_not }

-- What a listing of a directory holds.
pub record IsListing (status : Option JobStatus) (d : Jobs) (js : List QueueJob) : Type 0 where
  pub sorted : IsSorted job_before js
  pub distinct : AreDistinct js
  pub listed : (j : QueueJob) → In j js → In j (files d) × (has_status status j ≡ true)
  pub complete : (j : QueueJob) → In j (files d) → has_status status j ≡ true → In j js

listing : Option JobStatus → Jobs → List QueueJob
listing status d = sort_by job_before (keep_if (has_status status) (files d))

listing-IsListing :
    (status : Option JobStatus) {d : Jobs} → IsHealthy d → IsListing status d (listing status d)
unfolding listing
listing-IsListing status {d} h = record {
  sorted = sort_by-IsSorted job_before-IsWeakOrder _;
  distinct =
      sort_by-AreDistinct job_before _
        (keep_if-AreDistinct (has_status status) (files d) (files-AreDistinct h));
  listed = λ j m. In-keep_if (has_status status) j (files d) (In-sort_by job_before j _ m);
  complete = λ j m s. sort_by-In job_before j _ (keep_if-In (has_status status) j (files d) m s);
}

pub list_stored-ok :
    (status : Option JobStatus) {d : Jobs}
    → IsHealthy d
    → (js : List QueueJob) × (list_stored status d ≡ ok js) × IsListing status d js
unfolding list_stored listing
list_stored-ok status {d} h =
    (listing status d, rw (load_all-ok h) refl, listing-IsListing status h)

-- In a healthy directory, `list_jobs` first promotes what is due and then returns, in the order of
-- the queue (queued jobs first, then by falling priority, rising ready time and age), the stored jobs
-- with the given status, each of them and no others.
pub list_jobs_lem :
    (now : ℕ) (status : Option JobStatus) {d : Jobs}
    → IsHealthy d
    → (js : List QueueJob) × (list_jobs now status d ≡ (ok js, (promote_due_jobs now none d).1))
      × IsListing status (promote_due_jobs now none d).1 js
unfolding list_jobs
list_jobs_lem now status {d} h =
    let (ps, returned, healthy, reads) = promote_due_jobs_lem now h in
    let (js, loaded, is_listing) = list_stored-ok status healthy in
    (js, rw returned (rw loaded refl), is_listing)

-- What `ready_jobs` returns: the queued jobs, the best one first.
pub record IsQueue (d : Jobs) (js : List QueueJob) : Type 0 where
  pub sorted : IsSorted job_before js
  pub ready : (j : QueueJob) → In j js → In j (files d) × (j.status ≡ queued)
  pub complete : (j : QueueJob) → In j (files d) → j.status ≡ queued → In j js

All-keep_if :
    (j : QueueJob) (p : QueueJob → Bool) (js : List QueueJob)
    → All (λ i. job_before i j ≡ false) js
    → All (λ i. job_before i j ≡ false) (keep_if p js)
All-keep_if j p [] h = tt
All-keep_if j p (i ∷ js) h = ground (arith, All-keep_if j p js)

keep_if-IsSorted :
    (p : QueueJob → Bool) (js : List QueueJob)
    → IsSorted job_before js
    → IsSorted job_before (keep_if p js)
keep_if-IsSorted p [] h = tt
keep_if-IsSorted p (j ∷ js) h = ground (arith, keep_if-IsSorted p js, All-keep_if j p js h.0)

-- In a healthy directory, `ready_jobs` first promotes what is due and then returns the jobs that
-- are queued, all of them and no others, in the order of the queue: by falling priority, rising
-- ready time and age.
pub ready_jobs_lem :
    (now : ℕ) {d : Jobs}
    → IsHealthy d
    → (js : List QueueJob) × (ready_jobs now d ≡ (ok js, (promote_due_jobs now none d).1))
      × IsQueue (promote_due_jobs now none d).1 js
unfolding ready_jobs
ready_jobs_lem now {d} h =
    let (js, listed, l) = list_jobs_lem now none h in
    (
      keep_if (λ j. j.status == queued) js,
      rw listed refl,
      record {
        sorted = keep_if-IsSorted _ js l.sorted;
        ready = λ j m.
            let (there, is_ready) = In-keep_if (λ i. i.status == queued) j js m in
            ((l.listed j there).0, (==_iff j.status queued).0 is_ready);
        complete = λ j m s. keep_if-In _ j js (l.complete j m refl) ((==_iff j.status queued).1 s);
      },
    )

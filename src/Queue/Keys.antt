-- ===== src/Queue/Keys.antt =====
-- The search for a job by its idempotency key (runtime/queue.py, `_find_job_by_idempotency_key`).
use clarityos.Prelude.{
  String, ◌≡◌, ◌≢◌, refl, sym, ap, ◌∙◌, subst, List-cases, Bool, true, false, Option, none, some,
  List, [], ◌∷◌, arith, ◌==◌, ==_iff, string_eq, option_eq, In, inl, inr, Bool-cases, keep_if,
  In-keep_if, keep_if-In,
}
use clarityos.Prelude.Sort.{sort_by, In-sort_by, sort_by-In}
use clarityos.Python.Exec.{ok}
use clarityos.Python.Json.{Json, str}
use clarityos.Python.Text.{is_blank, strip}
use clarityos.Python.Directory.{files}
use clarityos.Queue.Job.{type_eq}
use clarityos.Queue.History.{QueueJob}
use clarityos.Queue.Access.{Jobs, find_job_by_idempotency_key, newer, first}
use clarityos.Queue.Create.{JobRequest, CheckedRequest, check_request, need_key}
use clarityos.Queue.Healthy.{IsHealthy, load_all-ok}

-- No stored job has the key.
abbrev pub IsUnused : Option String → Jobs → Type 0
IsUnused none d = Unit
IsUnused (some key) d = (j : QueueJob) → In j (files d) → (j.idempotency_key == some key) ≡ false

nothing_kept :
    (p : QueueJob → Bool) (js : List QueueJob)
    → ((j : QueueJob) → In j js → p j ≡ false)
    → keep_if p js ≡ []
nothing_kept p [] h = refl
nothing_kept p (j ∷ js) h = rw (h j (inl refl)) (nothing_kept p js (λ i m. h i (inr m)))

not_blank_empty : is_blank "" ≢ false
unfolding strip
not_blank_empty e = cc

blank_or_other : (key : String) → need_key (str key) ≡ ok (some "") → is_blank key ≢ false
unfolding need_key
blank_or_other key e full =
    let same : key ≡ "" = ground arith in
    not_blank_empty (subst (λ t. is_blank t ≡ false) same full)

need_key_empty : (j : Json) → need_key j ≢ ok (some "")
unfolding need_key strip
need_key_empty (str key) e = elim (Bool-cases (is_blank key)) [
  | inl blank ↦ cc
  | inr full ↦ absurd (blank_or_other key e full)
]
need_key_empty j e = cc

check_request-need_key :
    (r : JobRequest) (c : CheckedRequest)
    → check_request r ≡ ok c
    → need_key r.idempotency_key ≡ ok c.idempotency_key
unfolding check_request
check_request-need_key r c e = ground arith

-- A key that passes the checks is not empty.
pub check_request-key :
    (r : JobRequest) (c : CheckedRequest) (key : String)
    → check_request r ≡ ok c
    → c.idempotency_key ≡ some key
    → (key == "") ≡ false
check_request-key r c key e k = elim (Bool-cases (key == "")) [
  | inl empty ↦ absurd (
      need_key_empty r.idempotency_key
        (check_request-need_key r c e ∙ ap ok k ∙ ap (λ t. ok (some t)) ((==_iff key "").0 empty)))
  | inr named ↦ named
]

module _ (key : String) {d : Jobs} (h : IsHealthy d) (named : (key == "") ≡ false) where
  abbrev found_jobs : List QueueJob
  found_jobs = sort_by newer (keep_if (λ j. j.idempotency_key == some key) (files d))

  find-eq : find_job_by_idempotency_key key d ≡ ok (first found_jobs)
  unfolding find_job_by_idempotency_key
  find-eq = rw (named, load_all-ok h) refl

  pub find-unused : IsUnused (some key) d → find_job_by_idempotency_key key d ≡ ok none
  unfolding sort_by
  find-unused unused =
      find-eq ∙ ap (λ js. ok (first (sort_by newer js))) (nothing_kept _ (files d) unused)

  -- Where some job has the key, the search returns a stored job with it.
  pub find-used :
      (j : QueueJob)
      → In j (files d)
      → (j.idempotency_key == some key) ≡ true
      → (i : QueueJob) × (find_job_by_idempotency_key key d ≡ ok (some i))
        × In i (files d)
        × (i.idempotency_key ≡ some key)
  find-used j m k = elim (List-cases found_jobs) [
    | inl e ↦ absurd (subst (In j) e (sort_by-In newer j _ (keep_if-In _ j (files d) m k)))
    | inr (i, rest, e) ↦
        let (there, has_key) =
          In-keep_if _ i (files d) (In-sort_by newer i _ (subst (In i) (sym e) (inl refl))) in
        (
          i,
          find-eq ∙ ap (λ js. ok (first js)) e,
          there,
          (==_iff i.idempotency_key (some key)).0 has_key,
        )
  ]

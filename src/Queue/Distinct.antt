-- ===== src/Queue/Distinct.antt =====
-- The jobs of a healthy directory have different ids, and so have those that a filter, a sort or a
-- limit leaves of them.
use clarityos.Prelude.{
  ℕ, zero, suc, String, ◌≡◌, sym, ap, ◌∙◌, Bool, false, Option, none, some, List, [], ◌∷◌, arith,
  ◌==◌, ==_iff, string_eq, In, All, All-of_In, All-In, inl, inr, Bool-cases, keep_if, take, subst,
}
use clarityos.Prelude.Sort.{insert_sorted, sort_by, In-insert_sorted}
use clarityos.Python.Directory.{files, read}
use clarityos.Python.Files.{IsDirectory, AllFiles, In-files}
use clarityos.Queue.History.{QueueJob}
use clarityos.Queue.Access.{Jobs, cut}
use clarityos.Queue.Healthy.{Fits, IsHealthy, IsHealthy-read}

abbrev pub Differ : QueueJob → QueueJob → Type 0
Differ i j = (i.job_id == j.job_id) ≡ false

abbrev pub AreDistinct : List QueueJob → Type 0
AreDistinct [] = Unit
AreDistinct (j ∷ js) = All (Differ j) js × AreDistinct js

Differ-sym : (i j : QueueJob) → Differ i j → Differ j i
Differ-sym i j h = ground (arith, ==_iff i.job_id j.job_id, ==_iff j.job_id i.job_id)

All-keep_if :
    (j : QueueJob) (p : QueueJob → Bool) (js : List QueueJob)
    → All (Differ j) js
    → All (Differ j) (keep_if p js)
All-keep_if j p [] h = tt
All-keep_if j p (i ∷ js) h = ground (arith, All-keep_if j p js)

pub keep_if-AreDistinct :
    (p : QueueJob → Bool) (js : List QueueJob) → AreDistinct js → AreDistinct (keep_if p js)
keep_if-AreDistinct p [] h = tt
keep_if-AreDistinct p (j ∷ js) h = ground (arith, keep_if-AreDistinct p js, All-keep_if j p js h.0)

All-take :
    (j : QueueJob) (n : ℕ) (js : List QueueJob) → All (Differ j) js → All (Differ j) (take n js)
All-take j zero js h = tt
All-take j (suc n) [] h = tt
All-take j (suc n) (i ∷ js) h = (h.0, All-take j n js h.1)

take-AreDistinct : (n : ℕ) (js : List QueueJob) → AreDistinct js → AreDistinct (take n js)
take-AreDistinct zero js h = tt
take-AreDistinct (suc n) [] h = tt
take-AreDistinct (suc n) (j ∷ js) h = (All-take j n js h.0, take-AreDistinct n js h.1)

pub cut-AreDistinct :
    (limit : Option ℕ) (js : List QueueJob) → AreDistinct js → AreDistinct (cut limit js)
cut-AreDistinct none js h = h
cut-AreDistinct (some n) js h = take-AreDistinct n js h

pub In-take : {A : Type 0} (a : A) (n : ℕ) (xs : List A) → In a (take n xs) → In a xs
In-take a zero xs m = absurd m
In-take a (suc n) [] m = m
In-take a (suc n) (x ∷ xs) (inl e) = inl e
In-take a (suc n) (x ∷ xs) (inr m) = inr (In-take a n xs m)

pub In-cut : {A : Type 0} (a : A) (limit : Option ℕ) (xs : List A) → In a (cut limit xs) → In a xs
In-cut a none xs m = m
In-cut a (some n) xs m = In-take a n xs m

module _ (before : QueueJob → QueueJob → Bool) where
  All-insert :
      (i j : QueueJob) (js : List QueueJob)
      → Differ i j
      → All (Differ i) js
      → All (Differ i) (insert_sorted before j js)
  All-insert i j js h all = All-of_In (insert_sorted before j js) λ a m.
      elim (In-insert_sorted before a j js m) [
        | inl e ↦ subst (Differ i) (sym e) h
        | inr n ↦ All-In (Differ i) js all n
      ]

  insert-AreDistinct :
      (j : QueueJob) (js : List QueueJob)
      → All (Differ j) js
      → AreDistinct js
      → AreDistinct (insert_sorted before j js)
  unfolding insert_sorted
  insert-AreDistinct j [] all h = (tt, tt)
  insert-AreDistinct j (i ∷ js) all h = elim (Bool-cases (before i j)) [
    | inl e ↦ rw e (All-insert i j js (Differ-sym j i all.0) h.0, insert-AreDistinct j js all.1 h.1)
    | inr e ↦ rw e (all, h)
  ]

  All-sort :
      (j : QueueJob) (js : List QueueJob) → All (Differ j) js → All (Differ j) (sort_by before js)
  unfolding sort_by
  All-sort j [] h = tt
  All-sort j (i ∷ js) h = All-insert j i (sort_by before js) h.0 (All-sort j js h.1)

  pub sort_by-AreDistinct : (js : List QueueJob) → AreDistinct js → AreDistinct (sort_by before js)
  unfolding sort_by
  sort_by-AreDistinct [] h = tt
  sort_by-AreDistinct (j ∷ js) h =
      insert-AreDistinct j (sort_by before js) (All-sort j js h.0) (sort_by-AreDistinct js h.1)

absent-Differ :
    (k : String) (j : QueueJob) (d : Jobs)
    → j.job_id ≡ k
    → read k d ≡ none
    → AllFiles Fits d
    → All (Differ j) (files d)
unfolding read
absent-Differ k j [] named e h = tt
absent-Differ k j ((i, v) ∷ d) named e h =
    ground (arith, ==_iff i k, ==_iff j.job_id v.job_id, absent-Differ k j d)

files-distinct : (d : Jobs) → IsDirectory d → AllFiles Fits d → AreDistinct (files d)
files-distinct [] n h = tt
files-distinct ((k, j) ∷ d) n h = (absent-Differ k j d h.0.0 n.0 h.1, files-distinct d n.1 h.1)

pub files-AreDistinct : {d : Jobs} → IsHealthy d → AreDistinct (files d)
files-AreDistinct {d} h = files-distinct d h.names h.jobs

-- A listed job is found under its id.
pub In-files-read :
    {d : Jobs} (j : QueueJob) → IsHealthy d → In j (files d) → read j.job_id d ≡ some j
In-files-read {d} j h m =
    let (k, found) = In-files j d h.names m in
    ap (λ i. read i d) (IsHealthy-read k j h found).0 ∙ found

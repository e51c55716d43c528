-- ===== src/Queue/Rewrites.antt =====
-- Loops that replace some of the jobs of a directory, each by a job of the same id.
use clarityos.Prelude.{
  Bool, String, ◌≡◌, refl, sym, ap, ◌∙◌, subst, true, false, Option, none, some, List, [], ◌∷◌, map,
  arith, ◌==◌, ==_iff, ==_refl, string_eq, if◌then◌else◌, elem, In, All, inl, inr, Bool-cases,
}
use clarityos.Python.Directory.{files, read}
use clarityos.Python.Files.{read-In}
use clarityos.Queue.History.{QueueJob}
use clarityos.Queue.Access.{Jobs}
use clarityos.Queue.Healthy.{IsHealthy, IsHealthy-read}
use clarityos.Queue.Loading.{Replaces}
use clarityos.Queue.Distinct.{Differ}

abbrev pub IsStored : Jobs → QueueJob → Type 0
IsStored d j = read j.job_id d ≡ some j

abbrev pub on_some : {A : Type 0} → (A → A) → Option A → Option A
on_some f none = none
on_some f (some a) = some (f a)

abbrev pub job_ids : List QueueJob → List String
job_ids js = map (λ j. j.job_id) js

-- What is stored under the ids of the other jobs is kept by a replacement.
pub still-IsStored :
    (d d' : Jobs) (j : QueueJob) (js : List QueueJob)
    → ((k : String) → (j.job_id == k) ≡ false → read k d' ≡ read k d)
    → All (Differ j) js
    → All (IsStored d) js
    → All (IsStored d') js
still-IsStored d d' j [] kept differ stored = tt
still-IsStored d d' j (i ∷ js) kept differ stored =
    (kept i.job_id differ.0 ∙ stored.0, still-IsStored d d' j js kept differ.1 stored.1)

pub elem-ids :
    (k : String) (js : List QueueJob)
    → elem k (job_ids js) ≡ true
    → (j : QueueJob) × In j js × (k ≡ j.job_id)
elem-ids k [] e = cc
elem-ids k (j ∷ js) e = elim (Bool-cases (k == j.job_id)) [
  | inl same ↦ (j, inl refl, (==_iff k j.job_id).0 same)
  | inr other ↦ let (i, m, named) = elem-ids k js (rw other at e) in (i, inr m, named)
]

pub In-ids : (j : QueueJob) (js : List QueueJob) → In j js → elem j.job_id (job_ids js) ≡ true
In-ids j [] m = absurd m
In-ids j (i ∷ js) (inl e) =
    let same = (==_iff j.job_id i.job_id).1 (ap (λ (x : QueueJob). x.job_id) e) in ground arith
In-ids j (i ∷ js) (inr m) = ground (arith, In-ids j js m)

absent_id :
    (k : String) (js : List QueueJob)
    → All (λ i. (k == i.job_id) ≡ false) js
    → elem k (job_ids js) ≡ false
absent_id k [] h = refl
absent_id k (j ∷ js) h = rw (h.0, absent_id k js h.1) refl

module _ (f : QueueJob → QueueJob) where
  -- The listed jobs are replaced by their images under `f`, and no other file is touched.
  pub record Rewrites (js : List QueueJob) (d d' : Jobs) : Type 0 where
    pub healthy : IsHealthy d'
    pub reads :
        (k : String) → read k d' ≡ (if elem k (job_ids js) then on_some f (read k d) else read k d)

  pub rewrite_step :
      (j : QueueJob) (js : List QueueJob) {d d₁ d₂ : Jobs}
      → read j.job_id d ≡ some j
      → All (Differ j) js
      → Replaces j.job_id (f j) d d₁
      → Rewrites js d₁ d₂
      → Rewrites (j ∷ js) d d₂
  rewrite_step j js {d} {d₁} {d₂} found differ r p = record {
    healthy = p.healthy;
    reads = λ k. elim (Bool-cases (j.job_id == k)) [
      | inl same ↦
          subst
            (λ i.
              read i d₂ ≡ (if elem i (job_ids (j ∷ js)) then on_some f (read i d) else read i d))
            ((==_iff j.job_id k).0 same) at_id
      | inr other ↦ ground (arith, p.reads k, r.others k, ==_iff k j.job_id, ==_iff j.job_id k)
    ];
  }
    where
      at_id : read j.job_id d₂ ≡ (
          if elem j.job_id (job_ids (j ∷ js)) then on_some f (read j.job_id d) else read j.job_id d)
      at_id = p.reads j.job_id ∙ rw (absent_id j.job_id js differ, ==_refl j.job_id, found) r.stored

  pub rewrite_none : {d : Jobs} → IsHealthy d → Rewrites [] d d
  rewrite_none h = record { healthy = h; reads = λ k. refl }

  -- Two ways to list the same ids read alike.
  on_every :
      (k : String) (js : List QueueJob) {d : Jobs} (h : IsHealthy d)
      → ((j : QueueJob) → In j (files d) → In j js)
      → (o : Option QueueJob) → read k d ≡ o
      → (if elem k (job_ids js) then on_some f o else o) ≡ on_some f o
  on_every k js h all none e = ground arith
  on_every k js {d} h all (some j) e =
      rw
        (subst (λ i. elem i (job_ids js) ≡ true) (IsHealthy-read k j h e).0
          (In-ids j js (all j (read-In k j d e))))
        refl

  -- If every stored job is listed, every stored job is replaced.
  pub reads_all :
      {js : List QueueJob} {d d' : Jobs} (h : IsHealthy d)
      → ((j : QueueJob) → In j (files d) → In j js)
      → Rewrites js d d'
      → (k : String) → read k d' ≡ on_some f (read k d)
  reads_all {js} {d} h all r k = r.reads k ∙ on_every k js h all (read k d) refl

  -- If the listed jobs are the stored ones that pass a test, those are replaced and no others.
  module _ (p : QueueJob → Bool) (js : List QueueJob) {d : Jobs} (h : IsHealthy d)
      (listed : (j : QueueJob) → In j js → IsStored d j × (p j ≡ true))
      (complete : (j : QueueJob) → In j (files d) → p j ≡ true → In j js) where
    passed_elem :
        (k : String) (j : QueueJob) → read k d ≡ some j → p j ≡ true → elem k (job_ids js) ≡ true
    passed_elem k j found pass =
        subst (λ i. elem i (job_ids js) ≡ true) (IsHealthy-read k j h found).0
          (In-ids j js (complete j (read-In k j d found) pass))

    not_passed_elem :
        (k : String) (j : QueueJob) → read k d ≡ some j → p j ≡ false → elem k (job_ids js) ≡ false
    not_passed_elem k j found fails = elim (Bool-cases (elem k (job_ids js))) [
      | inl e ↦
          let (i, m, named) = elem-ids k js e in
          let (there, pass) = listed i m in
          absurd (cc (ap p (same_some (sym found ∙ ap (λ x. read x d) named ∙ there)), pass, fails))
      | inr e ↦ e
    ]
      where
        same_some : {a b : QueueJob} → some a ≡ some b → a ≡ b
        same_some q = cc

    passed_at :
        (k : String) (o : Option QueueJob)
        → read k d ≡ o
        → (if elem k (job_ids js) then on_some f o else o) ≡ on_some (λ j. if p j then f j else j) o
    passed_at k none e = ground arith
    passed_at k (some j) e = elim (Bool-cases (p j)) [
      | inl pass ↦ rw (pass, passed_elem k j e pass) refl
      | inr fails ↦ rw (fails, not_passed_elem k j e fails) refl
    ]

    pub reads_where :
        {d' : Jobs}
        → Rewrites js d d'
        → (k : String) → read k d' ≡ on_some (λ j. if p j then f j else j) (read k d)
    reads_where r k = r.reads k ∙ passed_at k (read k d) refl

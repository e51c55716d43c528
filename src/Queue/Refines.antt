-- ===== src/Queue/Refines.antt =====
-- When a directory of jobs refines a view of their lives (runtime/queue.py).
use clarityos.Prelude.{
  ℕ, ◌+◌, String, ◌≡◌, refl, ◌∙◌, sym, ap, subst, fun_ext, true, false, Bool, Bool-cases, Option,
  none, some, arith, ◌==◌, ==_iff, string_eq, if◌then◌else◌, inl, inr, leb,
}
use clarityos.Python.Errors.{Exception}
use clarityos.Python.Directory.{read}
use clarityos.Python.Exec.{Result, ok, err}
use clarityos.Queue.Job.{is_terminal, status_eq, job_status_for_ready_at}
use clarityos.Queue.History.{QueueJob}
use clarityos.Queue.Access.{Jobs, is_due, apply_changes}
use clarityos.Queue.Lifecycle.{can_reschedule}
use clarityos.Queue.Maintenance.{repaired_as}
use clarityos.Queue.Healthy.{IsHealthy}
use clarityos.Queue.Loading.{Replaces}
use clarityos.Queue.Retries.{IsFailureOf}
use clarityos.Queue.Rewrites.{on_some}
use clarityos.Queue.Promotion.{promoted}
use clarityos.Queue.Repairs.{repaired}
use clarityos.Queue.Lives.{
  Life, cancellation, renewal_at, life, life_of, View, view, on_life, on_key, counted,
}

-- `d'` refines the view `v`.
pub record Refines (d' : Jobs) (v : View) : Type 0 where
  pub healthy : IsHealthy d'
  pub same : view d' ≡ v

module _ (id : String) (g : Life → Life) {d d' : Jobs} where
  pub Replaces-Refines :
      (j j' : QueueJob)
      → read id d ≡ some j
      → Replaces id j' d d'
      → life j' ≡ g (life j)
      → Refines d' (on_key id g (view d))
  unfolding view
  Replaces-Refines j j' found r same = record {
    healthy = r.healthy;
    same = fun_ext λ k. by_key k (id == k) refl;
  }
    where
      by_key : (k : String) (b : Bool) → (id == k) ≡ b → view d' k ≡ on_key id g (view d) k
      by_key k true e =
          let key = (==_iff id k).0 e in
          rw e (
            subst (λ i. life_of (read i d') ≡ on_life g (life_of (read i d))) key
              (rw (r.stored, found) (ap some same)))
      by_key k false e = rw e (ap life_of (r.others k e))

  pub missing-Refines : read id d ≡ none → IsHealthy d → d' ≡ d → Refines d' (on_key id g (view d))
  unfolding view
  missing-Refines missing h same = record {
    healthy = subst IsHealthy (sym same) h;
    same = fun_ext λ k. by_key k (id == k) refl;
  }
    where
      by_key : (k : String) (b : Bool) → (id == k) ≡ b → view d' k ≡ on_key id g (view d) k
      by_key k true e =
          let key = (==_iff id k).0 e in
          rw e (
            subst (λ i. life_of (read i d') ≡ on_life g (life_of (read i d))) key
              (rw (same, missing) refl))
      by_key k false e = rw (e, same) refl

-- What rewrites every job to one of the same life changes nothing in the view.
pub same_lives-Refines :
    (f : QueueJob → QueueJob)
    → ((j : QueueJob) → life (f j) ≡ life j)
    → (d : Jobs) {d' : Jobs} → IsHealthy d'
    → ((k : String) → read k d' ≡ on_some f (read k d))
    → Refines d' (view d)
unfolding view
same_lives-Refines f same d {d'} h reads = record {
  healthy = h;
  same = fun_ext λ k. ap life_of (reads k) ∙ lives (read k d);
}
  where
    lives : (o : Option QueueJob) → life_of (on_some f o) ≡ life_of o
    lives none = refl
    lives (some j) = ap some (same j)

pub promoted-life :
    (now : ℕ) (j : QueueJob) → life (if is_due now j then promoted now j else j) ≡ life j
unfolding promoted apply_changes
promoted-life now j = ground arith

pub repaired-life : (now : ℕ) (j : QueueJob) → life (repaired now j) ≡ life j
unfolding repaired repaired_as apply_changes
repaired-life now j = ground arith

pub counted-life :
    (now : ℕ) (exc : Exception) (j j' : QueueJob)
    → IsFailureOf now exc j j'
    → life j' ≡ counted (life j)
unfolding job_status_for_ready_at
counted-life now exc j j' f = elim (Bool-cases (leb j.max_attempts (j.attempt_count + 1))) [
  | inl last ↦ ground (arith, f.at_end)
  | inr more ↦ ground (arith, f.retried)
]

pub on_key-same : (id : String) (v : View) → on_key id (λ l. l) v ≡ v
on_key-same id v = fun_ext λ k. both k (v k)
  where
    both : (k : String) (o : Option Life) → (if id == k then on_life (λ l. l) o else o) ≡ o
    both k none = ground arith
    both k (some l) = ground arith

pub kept_at_end : (j : QueueJob) → is_terminal j.status ≡ true → cancellation (life j) ≡ life j
kept_at_end j over = ground arith

pub kept_renewal :
    (j : QueueJob)
    → can_reschedule j.status ≡ false
    → (r : Result ℕ) → renewal_at r (life j) ≡ life j
kept_renewal j cannot (ok ready) = ground arith
kept_renewal j cannot (err e) = refl

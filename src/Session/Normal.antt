-- ===== src/Session/Normal.antt =====
-- What the normalization of a loaded session leaves normal (runtime/session.py).
use clarityos.Prelude.{
  String, ◌≡◌, refl, ap, sym, subst, false, Bool-cases, Option, Option-cases, none, some, ◌&&◌, inl,
  inr,
}
use clarityos.Python.Exec.{Result, ok, err, map_result, and_then-eq-ok, traverse}
use clarityos.Python.Text.{strip, is_blank, strip_idem}
use clarityos.Python.Directory.{read}
use clarityos.Session.Checks.{
  is_missing, normalize_memory_scope, normalize_optional_text, normalize_ownership, normalize_text,
  raw_scope,
}
use clarityos.Session.Record.{session_status_eq, Ownership, Session}
use clarityos.Session.Store.{
  Sessions, load_found, load_links, load_message, load_record, load_session,
}

pub map_result-eq-ok {ℓ κ} :
    {A : Type ℓ} {B : Type κ} (f : A → B) (r : Result A) {b : B}
    → map_result f r ≡ ok b
    → (a : A) × (r ≡ ok a) × (f a ≡ b)
map_result-eq-ok f (ok a) h = (a, refl, cc)
map_result-eq-ok f (err e) h = cc

pub normalize_text-eq-ok :
    (value field_name : String) {t : String}
    → normalize_text value field_name ≡ ok t
    → (is_blank value ≡ false) × (strip value ≡ t)
unfolding normalize_text
normalize_text-eq-ok value field_name h = elim (Bool-cases (is_blank value)) [
  | inl blank ↦ cc (rw blank at h)
  | inr fine ↦ (fine, cc (rw fine at h))
]

-- A text that passed a check passes it again, as it is.
pub normalize_text_again :
    (value field_name : String) {t : String}
    → normalize_text value field_name ≡ ok t
    → normalize_text t field_name ≡ ok t
unfolding normalize_text
normalize_text_again value field_name {t} h =
    let (fine, same) = normalize_text-eq-ok value field_name h in
    subst (λ u. normalize_text u field_name ≡ ok u) same (rw (strip_idem value) (rw fine refl))

pub normalize_optional_text_again :
    (value : Option String) (field_name : String) {t : Option String}
    → normalize_optional_text value field_name ≡ ok t
    → normalize_optional_text t field_name ≡ ok t
unfolding normalize_optional_text
normalize_optional_text_again none field_name h =
    subst
      (λ (r : Result (Option String)). elim r [
        | ok u ↦ normalize_optional_text u field_name ≡ ok u
        | err e ↦ ⊥
      ])
      h refl
normalize_optional_text_again (some value) field_name h =
    let (u, fine, same) = map_result-eq-ok some (normalize_text value field_name) h in
    subst (λ o. normalize_optional_text o field_name ≡ ok o) same
      (rw (normalize_text_again value field_name fine) refl)

-- So does an ownership.
pub normalize_ownership_again :
    (o : Ownership) {p : Ownership} → normalize_ownership o ≡ ok p → normalize_ownership p ≡ ok p
unfolding normalize_ownership
normalize_ownership_again o {p} h =
    let (hash, hashed, rest) =
      and_then-eq-ok (normalize_optional_text o.token_hash "ownership.token_hash") _ h in
    elim (Bool-cases (o.auth_required && is_missing hash)) [
      | inl bare ↦ cc (rw bare at rest)
      | inr kept ↦
          let (surface, shown, same) =
            map_result-eq-ok _ (normalize_optional_text o.surface "ownership.surface")
              (rw kept at rest) in
          subst (λ (q : Ownership). normalize_ownership q ≡ ok q) same
            (rw (normalize_optional_text_again o.token_hash _ hashed)
              (rw kept (rw (normalize_optional_text_again o.surface _ shown) refl)))
    ]

-- What the normalization of the links keeps.
load_links-keeps :
    (s : Session) {t : Session}
    → load_links s ≡ ok t
    → (t.ownership ≡ s.ownership)
      × (t.session_id ≡ s.session_id)
      × (t.status ≡ s.status)
      × (t.maintenance ≡ s.maintenance)
unfolding load_links
load_links-keeps s h =
    let (workflow, _, h₁) =
      and_then-eq-ok (normalize_optional_text s.current_workflow_id "current_workflow_id") _ h in
    let (run, _, h₂) = and_then-eq-ok (normalize_optional_text s.last_run_id "last_run_id") _ h₁ in
    let (job, _, h₃) = and_then-eq-ok (normalize_optional_text s.last_job_id "last_job_id") _ h₂ in
    let (messages, _, same) = map_result-eq-ok _ (traverse load_message s.messages) h₃ in
    (
      ap (λ q. q.ownership) (sym same),
      ap (λ q. q.session_id) (sym same),
      ap (λ q. q.status) (sym same),
      ap (λ q. q.maintenance) (sym same),
    )

-- A loaded session has a normal ownership, and the id and the status of its file.
pub load_record-eq-ok :
    (s : Session) {t : Session}
    → load_record s ≡ ok t
    → (normalize_ownership t.ownership ≡ ok t.ownership)
      × (t.session_id ≡ s.session_id)
      × (t.status ≡ s.status)
unfolding load_record
load_record-eq-ok s h =
    let (title, _, h₁) = and_then-eq-ok (normalize_optional_text s.title "title") _ h in
    let (agent, _, h₂) = and_then-eq-ok (normalize_text s.agent "agent") _ h₁ in
    let (ownership, owned, h₃) = and_then-eq-ok (normalize_ownership s.ownership) _ h₂ in
    let (scope, _, h₄) =
      and_then-eq-ok (normalize_memory_scope (some (raw_scope s.memory_scope)) agent) _ h₃ in
    let (same_owner, same_id, same_status, _) = load_links-keeps _ h₄ in
    (
      subst (λ o. normalize_ownership o ≡ ok o) (sym same_owner)
          (normalize_ownership_again s.ownership owned),
      same_id,
      same_status,
    )

-- So is what `load_session` returns.
pub load_session-owned :
    (id : String) (d : Sessions) (s : Session)
    → load_session id d ≡ ok s
    → normalize_ownership s.ownership ≡ ok s.ownership
unfolding load_session load_found
load_session-owned id d s h = elim (Option-cases (read id d)) [
  | inl missing ↦ cc (rw missing at h)
  | inr (raw, there) ↦ (load_record-eq-ok raw (rw there at h)).0
]

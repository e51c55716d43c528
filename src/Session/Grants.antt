-- ===== src/Session/Grants.antt =====
-- Who is let into a session (runtime/session.py): exactly who has the token.
use clarityos.Prelude.{
  String, ◌≡◌, ◌↔◌, refl, false, Bool-cases, Option, none, some, ◌==◌, ==_iff, ==_refl, string_eq,
  ◌⊎◌, inl, inr,
}
use clarityos.Python.Exec.{ok, and_then}
use clarityos.Python.Text.{strip, is_blank}
use clarityos.Session.Access.{candidate_of, verify_candidate, verify_session_access}
use clarityos.Session.Checks.{normalize_optional_text, normalize_text}
use clarityos.Session.Record.{session_status_eq, Session}

module _ (hash : String → String) (session : Session) (header : String) where
  -- The token `t` is the one whose digest is stored.
  pub record Opens (t : String) : Type 0 where
    pub fine : is_blank t ≡ false
    pub digest : String
    pub stored : session.ownership.token_hash ≡ some digest
    pub not_blank : is_blank digest ≡ false
    pub same : hash (strip t) ≡ strip digest

  abbrev pub IsGranted : Option String → Type 0
  IsGranted token =
      (session.ownership.auth_required ≡ false) ⊎ ((t : String) × (token ≡ some t) × Opens t)

  grants-candidate :
      (token : Option String) (digest : String)
      → is_blank digest ≡ false
      → session.ownership.token_hash ≡ some digest
      → verify_candidate hash header session (candidate_of token) (some (strip digest)) ≡ ok tt
      → (t : String) × (token ≡ some t) × Opens t
  unfolding verify_candidate
  grants-candidate none digest fine stored h = cc (rw fine at h)
  grants-candidate (some t) digest fine stored h = elim (Bool-cases (is_blank t)) [
    | inl blank ↦ cc (rw (fine, blank) at h)
    | inr given ↦ elim (Bool-cases (hash (strip t) == strip digest)) [
      | inl same ↦ (
        t,
        refl,
        record {
          fine = given;
          digest = digest;
          stored = stored;
          not_blank = fine;
          same = (==_iff (hash (strip t)) (strip digest)).0 same;
        },
      )
      | inr other ↦ let h₁ = rw (fine, given) at h in cc (rw other at h₁)
    ]
  ]

  granted :
      (o : Option String)
      → session.ownership.token_hash ≡ o
      → (token : Option String)
      → and_then
          (normalize_optional_text o "ownership.token_hash")
          (verify_candidate hash header session (candidate_of token))
        ≡ ok tt
      → (t : String) × (token ≡ some t) × Opens t
  unfolding normalize_optional_text normalize_text
  granted none stored token h = unfold verify_candidate in cc h
  granted (some digest) stored token h = elim (Bool-cases (is_blank digest)) [
    | inl blank ↦ cc (rw blank at h)
    | inr fine ↦ grants-candidate token digest fine stored (rw fine at h)
  ]

  opened_by :
      (t : String)
      → Opens t
      → and_then
          (normalize_optional_text session.ownership.token_hash "ownership.token_hash")
          (verify_candidate hash header session (candidate_of (some t)))
        ≡ ok tt
  unfolding normalize_optional_text normalize_text verify_candidate
  opened_by t o =
      rw o.stored
        (rw o.not_blank (rw (o.not_blank, o.fine) (rw (o.same, ==_refl (strip o.digest)) refl)))

  -- The access to a session is verified without an exception exactly where the session asks for no
  -- token, or a token is given that is not blank, whose stripped text has the stored digest.
  pub verify_session_access_lem :
      (token : Option String)
      → (verify_session_access hash session token header ≡ ok tt) ↔ IsGranted token
  unfolding verify_session_access
  verify_session_access_lem token = (
    λ h. elim (Bool-cases session.ownership.auth_required) [
      | inr free ↦ inl free
      | inl owned ↦ inr (granted session.ownership.token_hash refl token (rw owned at h))
    ],
    λ g. elim g [
      | inl free ↦ rw free refl
      | inr (t, given, o) ↦ elim (Bool-cases session.ownership.auth_required) [
        | inl owned ↦ rw owned (rw given (opened_by t o))
        | inr free ↦ rw free refl
      ]
    ],
  )

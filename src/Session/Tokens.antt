-- ===== src/Session/Tokens.antt =====
-- The token of a new session (runtime/session.py, `create_session`) opens the stored session.
use clarityos.Prelude.{
  ℕ, String, ◌≡◌, ◌↔◌, refl, ◌∙◌, ap, sym, subst, true, false, Option, none, some, string_eq, inl,
  inr,
}
use clarityos.Python.Exec.{ok, and_then-eq-ok, continue, pure}
use clarityos.Python.Directory.{write}
use clarityos.Python.Text.{strip, is_blank}
use clarityos.Session.Access.{verify_session_access}
use clarityos.Session.Appends.{after_write, after_write-keeps, write_session_eq}
use clarityos.Session.Checks.{
  normalize_memory_scope, normalize_metadata, normalize_optional_text, normalize_ownership,
  normalize_text,
}
use clarityos.Session.Grants.{IsGranted, Opens, verify_session_access_lem}
use clarityos.Session.Normal.{map_result-eq-ok, normalize_optional_text_again, normalize_text-eq-ok}
use clarityos.Session.Record.{session_status_eq, Session, opened}
use clarityos.Session.Store.{Sessions, session_snapshot, written}
use clarityos.Session.Upkeep.{SessionRequest, check_session, create_session, new_session}

-- A text that is stripped and not empty.
pub record IsPlain (t : String) : Type 0 where
  pub stripped : strip t ≡ t
  pub not_blank : is_blank t ≡ false

normalize-IsPlain : (t f : String) → IsPlain t → normalize_optional_text (some t) f ≡ ok (some t)
unfolding normalize_optional_text normalize_text
normalize-IsPlain t f p = rw p.not_blank (rw p.stripped refl)

-- What the checks leave of a new session.
record IsNew (id digest : String) (s : Session) : Type 0 where
  same_id : s.session_id ≡ id
  is_open : s.status ≡ opened
  owned : s.ownership.auth_required ≡ true
  stored : s.ownership.token_hash ≡ some digest
  surface : normalize_optional_text s.ownership.surface "ownership.surface" ≡ ok s.ownership.surface

any_field :
    (o : Option String) (f g : String)
    → normalize_optional_text o f ≡ ok o
    → normalize_optional_text o g ≡ ok o
unfolding normalize_optional_text
any_field none f g h = refl
any_field (some t) f g h =
    let (u, passed, same) = map_result-eq-ok some (normalize_text t f) h in
    let (fine, stripped) = normalize_text-eq-ok t f passed in
    normalize-IsPlain t g (record { stripped = cc (stripped, same); not_blank = fine })

check_session-IsNew :
    (now : ℕ) (id digest : String) (r : SessionRequest) {s : Session}
    → check_session now id digest r ≡ ok s
    → IsNew id digest s
unfolding check_session
check_session-IsNew now id digest r h =
    let (agent, _, h₁) = and_then-eq-ok (normalize_text r.agent "agent") _ h in
    let (title, _, h₂) = and_then-eq-ok (normalize_optional_text r.title "title") _ h₁ in
    let (surface, shown, h₃) = and_then-eq-ok (normalize_optional_text r.surface "surface") _ h₂ in
    let (scope, _, h₄) = and_then-eq-ok (normalize_memory_scope r.memory_scope agent) _ h₃ in
    let (metadata, _, same) = map_result-eq-ok _ (normalize_metadata r.metadata) h₄ in
    subst (IsNew id digest) same (
      unfold new_session in
      record {
        same_id = refl;
        is_open = refl;
        owned = refl;
        stored = refl;
        surface =
            any_field surface "surface" _ (normalize_optional_text_again r.surface "surface" shown);
      })

normal_owner :
    (id digest : String) (s : Session)
    → IsPlain digest
    → IsNew id digest s
    → normalize_ownership s.ownership ≡ ok s.ownership
unfolding normalize_ownership
normal_owner id digest s plain new = rw new.stored (
    rw (normalize-IsPlain digest "ownership.token_hash" plain) (rw new.owned (rw new.surface refl)))

module _ (hash : String → String) (now : ℕ) (id token header : String) (r : SessionRequest)
    (plain_token : IsPlain token) (plain_digest : IsPlain (hash token)) where
  stored_owner :
      (s : Session) (d : Sessions) (owned : normalize_ownership s.ownership ≡ ok s.ownership)
      → (after_write now s d owned).ownership ≡ s.ownership
  unfolding after_write written
  stored_owner s d owned = refl

  same_digest :
      (st : Session)
      → st.ownership.token_hash ≡ some (hash token)
      → (t : String) (o : Opens hash st header t) → o.digest ≡ hash token
  same_digest st stored t o = cc (o.stored, stored)

  opens_iff :
      (st : Session)
      → st.ownership.auth_required ≡ true
      → st.ownership.token_hash ≡ some (hash token)
      → (given : Option String)
      → IsGranted hash st header given
        ↔ ((t : String) × (given ≡ some t) × (is_blank t ≡ false) × (hash (strip t) ≡ hash token))
  opens_iff st owned stored given = (
    λ g. elim g [
      | inl free ↦ cc
      | inr (t, is, o) ↦
          (t, is, o.fine, o.same ∙ ap strip (same_digest st stored t o) ∙ plain_digest.stripped)
    ],
    λ (t, is, fine, same). inr (
      t,
      is,
      record {
        fine = fine;
        digest = hash token;
        stored = stored;
        not_blank = plain_digest.not_blank;
        same = same ∙ sym plain_digest.stripped;
      },
    ),
  )

  -- A request that passes the checks, with a drawn token and a digest of it that are stripped and not
  -- empty: `create_session` returns the token and stores an open session under its id, and no other
  -- file changes. The token that was returned opens the stored session, and a given token does
  -- exactly where it is not blank and has, stripped, the same digest.
  pub create_session-grants :
      (s : Session)
      → check_session now id (hash token) r ≡ ok s
      → (d : Sessions)
      → (st : Session) × (create_session hash now id token r d
          ≡ (ok (session_snapshot st, token), write id st d))
        × (st.status ≡ opened)
        × (verify_session_access hash st (some token) header ≡ ok tt)
        × ((given : Option String)
            → (verify_session_access hash st given header ≡ ok tt) ↔ (
                (t : String) × (given ≡ some t)
                × (is_blank t ≡ false)
                × (hash (strip t) ≡ hash token)))
  unfolding create_session
  create_session-grants s checked d =
      let new = check_session-IsNew now id (hash token) r checked in
      let owned = normal_owner id (hash token) s plain_digest new in
      let st = after_write now s d owned in
      let owner = stored_owner s d owned in
      let iff =
        opens_iff st (ap (λ o. o.auth_required) owner ∙ new.owned)
          (ap (λ o. o.token_hash) owner ∙ new.stored) in
      let verified = verify_session_access_lem hash st header in
      let wrote = write_session_eq now s d owned in
      (
        st,
        rw checked (
            ap (λ x. continue x.0 (λ stored. pure (session_snapshot stored, token)) x.1) wrote
            ∙ ap (λ i. (ok (session_snapshot st, token), write i st d)) new.same_id),
        (after_write-keeps now s d owned).1 ∙ new.is_open,
        (verified (some token)).1 (
            (iff (some token)).1
              (token, refl, plain_token.not_blank, ap hash plain_token.stripped)),
        λ given.
            (λ h. (iff given).0 ((verified given).0 h), λ g. (verified given).1 ((iff given).1 g)),
      )

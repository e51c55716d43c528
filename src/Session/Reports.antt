-- ===== src/Session/Reports.antt =====
-- What the pruning of sessions reports, and its limit (runtime/session.py, `prune_sessions`).
use clarityos.Prelude.{
  Bool, elem, ◌||◌, ℕ, zero, suc, String, ◌≡◌, refl, ap, sym, subst, true, false, Bool-cases,
  Option, Option-cases, none, some, List, [], ◌∷◌, arith, ◌==◌, ==_iff, string_eq, inl, inr, In,
}
use clarityos.Python.Exec.{Result, ok, err}
use clarityos.Python.Directory.{read, unlink}
use clarityos.Prelude.Int.{ℤ, pos, negsuc}
use clarityos.Session.Cleanup.{is_used_up, one_less, PrunedSessions, skipped, with_pruned_session}
use clarityos.Session.Pruned.{ok_inj, loads_before}
use clarityos.Session.Record.{session_status_eq, Session}
use clarityos.Session.Store.{Sessions, load_found, load_session}
use clarityos.Session.Upkeep.{positive_limit, stems}

pub skipped-eq-ok :
    (r : Result PrunedSessions × Sessions) {p : PrunedSessions}
    → (skipped r).0 ≡ ok p
    → (q : PrunedSessions) × (r.0 ≡ ok q) × (q.pruned_session_ids ≡ p.pruned_session_ids)
skipped-eq-ok (ok q, d) h = (q, refl, ap (λ (x : PrunedSessions). x.pruned_session_ids) (ok_inj h))
skipped-eq-ok (err e, d) h = cc h

pub pruned-eq-ok :
    (id : String) (r : Result PrunedSessions × Sessions) {p : PrunedSessions}
    → (with_pruned_session id r).0 ≡ ok p
    → (q : PrunedSessions) × (r.0 ≡ ok q) × (id ∷ q.pruned_session_ids ≡ p.pruned_session_ids)
pruned-eq-ok id (ok q, d) h =
    (q, refl, ap (λ (x : PrunedSessions). x.pruned_session_ids) (ok_inj h))
pruned-eq-ok id (err e, d) h = cc h

pub In-stems : (k : String) (s : Session) (d : Sessions) → read k d ≡ some s → In k (stems d)
unfolding read
In-stems k s [] h = cc h
In-stems k s ((j, t) ∷ d) h = elim (Bool-cases (j == k)) [
  | inl same ↦ inl (sym ((==_iff j k).0 same))
  | inr other ↦ inr (In-stems k s d (rw other at h))
]

pub loaded-read :
    (k : String) (d : Sessions) {s : Session}
    → load_session k d ≡ ok s
    → (raw : Session) × (read k d ≡ some raw)
unfolding load_session
loaded-read k d h = elim (Option-cases (read k d)) [
  | inl missing ↦ unfold load_found in cc (rw missing at h)
  | inr found ↦ found
]

pub or_false : (a b : Bool) → (a || b) ≡ false → (a ≡ false) × (b ≡ false)
or_false a b h = ground arith

pub or_false_right : (a : Bool) → (a || false) ≡ true → a ≡ true
or_false_right true h = refl
or_false_right false h = h

pub ==-flip : (a b : String) → (a == b) ≡ false → (b == a) ≡ false
==-flip a b h = ground (arith, ==_iff a b, ==_iff b a)

-- The ids that are reported for the deleted files `gone` of `d`: the files are different, and for each
-- the id of the session that it held is reported, in their order.
abbrev pub Reports : Sessions → (gone ids : List String) → Type 0
Reports d [] ids = ids ≡ []
Reports d (k ∷ gone) ids =
    (s : Session) × (rest : List String) × (load_session k d ≡ ok s)
    × (elem k gone ≡ false)
    × (ids ≡ s.session_id ∷ rest)
    × Reports d gone rest

pub Reports-before :
    (stem : String) (d : Sessions) (gone ids : List String)
    → Reports (unlink stem d) gone ids
    → Reports d gone ids
Reports-before stem d [] ids e = e
Reports-before stem d (k ∷ gone) ids (s, rest, loads, new, e, more) =
    (s, rest, (loads_before 0 [] 0 stem k d loads).1, new, e, Reports-before stem d gone rest more)

-- A limit that `positive_limit` lets through.
abbrev pub IsLimit : Option ℕ → Type 0
IsLimit none = Unit
IsLimit (some zero) = ⊥
IsLimit (some (suc n)) = Unit

pub positive_limit-IsLimit :
    (limit : Option ℤ) (left : Option ℕ) → positive_limit limit ≡ ok left → IsLimit left
unfolding positive_limit
positive_limit-IsLimit none left e = subst IsLimit (ok_inj e) tt
positive_limit-IsLimit (some (pos zero)) left e = cc e
positive_limit-IsLimit (some (pos (suc n))) left e = subst IsLimit (ok_inj e) tt
positive_limit-IsLimit (some (negsuc n)) left e = cc e

pub one_less-IsLimit :
    (left : Option ℕ) → is_used_up (one_less left) ≡ false → IsLimit (one_less left)
one_less-IsLimit none room = tt
one_less-IsLimit (some zero) room = cc room
one_less-IsLimit (some (suc zero)) room = cc room
one_less-IsLimit (some (suc (suc n))) room = tt

pub last_one : (left : Option ℕ) → IsLimit left → is_used_up (one_less left) ≡ true → left ≡ some 1
last_one none limit over = cc over
last_one (some zero) limit over = absurd limit
last_one (some (suc zero)) limit over = refl
last_one (some (suc (suc n))) limit over = cc over

pub one_more : (left : Option ℕ) (m : ℕ) → one_less left ≡ some (suc m) → left ≡ some (suc (suc m))
one_more none m e = cc e
one_more (some zero) m e = cc e
one_more (some (suc n)) m e = ap (λ o. elim o [ none ↦ none | some k ↦ some (suc k) ]) e

pub less_room :
    (left : Option ℕ) (n : ℕ)
    → is_used_up (one_less left) ≡ false
    → left ≡ some (suc n)
    → (m : ℕ) × (n ≡ suc m) × (one_less left ≡ some (suc m))
less_room left zero room e = cc (rw e at room)
less_room left (suc m) room e = (m, refl, rw e refl)

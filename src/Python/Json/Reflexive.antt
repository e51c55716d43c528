-- ===== src/Python/Json/Reflexive.antt =====
-- A value equals itself, where no dictionary in it holds a key twice, as no dictionary of Python does.
use clarityos.Prelude.{
  ℕ, nat_beq, inl, inr, ap, String, ◌≡◌, refl, true, ◌&&◌, none, some, arith, ◌==◌, string_eq,
  ==_iff, ==_refl, Bool-cases,
}
use clarityos.Prelude.Int.{ℤ, ℤ_beq, ℤ_beq_iff}
use clarityos.Python.Json.{
  bool_int, Json, null, bool, int, str, arr, obj, Items, nil, cons, Fields, end, field, get,
  count_fields, eq_json, eq_items, eq_fields, eq_dict,
}

abbrev mutual
  pub IsProper : Json → Type 0
  IsProper (arr xs) = AreProper xs
  IsProper (obj fs) = IsDict fs
  IsProper null = Unit
  IsProper (bool b) = Unit
  IsProper (int n) = Unit
  IsProper (str s) = Unit

  pub AreProper : Items → Type 0
  AreProper nil = Unit
  AreProper (cons x xs) = IsProper x × AreProper xs

  pub IsDict : Fields → Type 0
  IsDict end = Unit
  IsDict (field k v fs) = (get k fs ≡ none) × IsProper v × IsDict fs

still_there :
    (k j : String) (v w : Json) (fs : Fields)
    → get k fs ≡ none
    → get j fs ≡ some w
    → get j (field k v fs) ≡ some w
still_there k j v w fs absent found = elim (Bool-cases (k == j)) [
  | inl e ↦ cc (ap (λ i. get i fs) ((==_iff k j).0 e), absent, found)
  | inr e ↦ rw e found
]

nat_true : (n : ℕ) → (nat_beq n n && true) ≡ true
nat_true n = ground arith

self : (n : ℤ) → ℤ_beq n n ≡ true
self n = (ℤ_beq_iff n n).1 refl

mutual
  unfolding eq_json eq_items eq_fields

  eq_json_refl : (j : Json) → IsProper j → eq_json j j ≡ true
  eq_json_refl null h = refl
  eq_json_refl (bool b) h = self (bool_int b)
  eq_json_refl (int n) h = self n
  eq_json_refl (str s) h = ==_refl s
  eq_json_refl (arr xs) h = eq_items_refl xs h
  eq_json_refl (obj fs) h = rw (eq_fields_refl fs fs h (λ k v e. e)) (nat_true (count_fields fs))

  eq_items_refl : (xs : Items) → AreProper xs → eq_items xs xs ≡ true
  eq_items_refl nil h = refl
  eq_items_refl (cons x xs) h = rw (eq_json_refl x h.0, eq_items_refl xs h.1) refl

  eq_fields_refl :
      (f g : Fields)
      → IsDict f
      → ((k : String) (v : Json) → get k f ≡ some v → get k g ≡ some v)
      → eq_fields f g ≡ true
  eq_fields_refl end g h sub = refl
  eq_fields_refl (field k v f) g h sub = rw (sub k v (rw (==_refl k) refl)) (
      rw
        (
          eq_json_refl v h.1,
          eq_fields_refl f g h.2 (λ j w e. sub j w (still_there k j v w f h.0 e)),
        )
        refl)

-- Every dictionary equals itself.
pub eq_dict_refl : (fs : Fields) → IsDict fs → eq_dict fs fs ≡ true
unfolding eq_json
eq_dict_refl fs h = eq_json_refl (obj fs) h

-- ===== src/Python/Json.antt =====
-- JSON values as Python holds them (without fractions), and Python's `==` on them: a boolean is a
-- number, and a dictionary has no order.
pub mod Reflexive
use clarityos.Prelude.{
  ℕ, suc, String, Bool, true, false, ◌&&◌, Option, none, some, nat_beq, ◌==◌, string_eq,
  if◌then◌else◌,
}
use clarityos.Prelude.Int.{ℤ, pos, ℤ_beq}

mutual
  pub data Json : Type 0 where
    null : Json
    bool : Bool → Json
    int : ℤ → Json
    str : String → Json
    arr : Items → Json
    obj : Fields → Json

  pub data Items : Type 0 where
    nil : Items
    cons : Json → Items → Items

  pub data Fields : Type 0 where
    end : Fields
    field : String → Json → Fields → Fields

abbrev pub get : String → Fields → Option Json
get k end = none
get k (field j v fs) = if j == k then some v else get k fs

-- `d.get(k)`
abbrev pub get_or_null : String → Fields → Json
get_or_null k end = null
get_or_null k (field j v fs) = if j == k then v else get_or_null k fs

abbrev pub count_fields : Fields → ℕ
count_fields end = 0
count_fields (field k v fs) = suc (count_fields fs)

abbrev pub bool_int : Bool → ℤ
bool_int true = pos 1
bool_int false = pos 0

-- `isinstance(v, int)`, with the number: a boolean is one too
abbrev pub as_int : Json → Option ℤ
as_int (bool b) = some (bool_int b)
as_int (int n) = some n
as_int _ = none

unfoldable mutual
  pub eq_json : Json → Json → Bool
  eq_json null null = true
  eq_json (bool a) (bool b) = ℤ_beq (bool_int a) (bool_int b)
  eq_json (bool a) (int b) = ℤ_beq (bool_int a) b
  eq_json (int a) (bool b) = ℤ_beq a (bool_int b)
  eq_json (int a) (int b) = ℤ_beq a b
  eq_json (str a) (str b) = a == b
  eq_json (arr a) (arr b) = eq_items a b
  eq_json (obj a) (obj b) = nat_beq (count_fields a) (count_fields b) && eq_fields a b
  eq_json _ _ = false

  pub eq_items : Items → Items → Bool
  eq_items nil nil = true
  eq_items (cons x xs) (cons y ys) = eq_json x y && eq_items xs ys
  eq_items _ _ = false

  -- every key of the first has an equal value in the second
  pub eq_fields : Fields → Fields → Bool
  eq_fields end g = true
  eq_fields (field k v f) g =
      elim (get k g) [ none ↦ false | some w ↦ eq_json v w ] && eq_fields f g

-- `==` of dictionaries
abbrev pub eq_dict : Fields → Fields → Bool
eq_dict f g = nat_beq (count_fields f) (count_fields g) && eq_fields f g

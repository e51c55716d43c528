-- ===== src/Python/Text.antt =====
-- `str.strip`, and Python's truth of a text.
use Prim.Native.Char.{Char, code}
use Prim.Native.String.{[], ◌∷◌}
use clarityos.Prelude.{
  ℕ, zero, suc, ◌/◌, ◌%◌, ltb, ◌<>◌, String, ◌≡◌, refl, Bool, true, false, ◌&&◌, ◌||◌, Option, none,
  some, arith, leb, nat_beq, if◌then◌else◌, ◌⊎◌, inl, inr, Bool-cases,
}

-- `str.isspace` of one character
is_space : Char → Bool
is_space c =
    let n = code c in
    leb 9 n && leb n 13
    || leb 28 n && leb n 32
    || nat_beq n 0x85
    || nat_beq n 0xa0
    || nat_beq n 0x1680
    || leb 0x2000 n && leb n 0x200a
    || nat_beq n 0x2028
    || nat_beq n 0x2029
    || nat_beq n 0x202f
    || nat_beq n 0x205f
    || nat_beq n 0x3000

abbrev pub is_empty : String → Bool
is_empty [] = true
is_empty (c ∷ s) = false

unfoldable pub lstrip : String → String
unfolding is_space
lstrip [] = []
lstrip (c ∷ s) = if is_space c then lstrip s else c ∷ s

unfoldable pub rstrip : String → String
unfolding is_space
rstrip [] = []
rstrip (c ∷ s) = let rest = rstrip s in if is_empty rest && is_space c then [] else c ∷ rest

unfoldable pub strip : String → String
unfolding lstrip rstrip is_space
strip s = rstrip (lstrip s)

-- `len(s)`
abbrev pub text_length : String → ℕ
text_length [] = 0
text_length (c ∷ s) = suc (text_length s)

-- `s[:n]`, for an n that is not negative
abbrev pub text_take : ℕ → String → String
text_take zero s = []
text_take (suc n) [] = []
text_take (suc n) (c ∷ s) = c ∷ text_take n s

-- `not s.strip()`
abbrev pub is_blank : String → Bool
is_blank s = is_empty (strip s)

-- `a or b`, of texts that may be missing
abbrev pub or_text : Option String → Option String → Option String
or_text none b = b
or_text (some []) b = b
or_text (some (c ∷ s)) b = some (c ∷ s)

rstrip_idem : (s : String) → rstrip (rstrip s) ≡ rstrip s
unfolding rstrip
rstrip_idem [] = refl
rstrip_idem (c ∷ s) = ground (arith, rstrip_idem s)

lstrip_cases :
    (s : String)
    → (lstrip s ≡ []) ⊎ ((c : Char) × (t : String) × (lstrip s ≡ c ∷ t) × (is_space c ≡ false))
unfolding lstrip
lstrip_cases [] = inl refl
lstrip_cases (c ∷ s) = elim (Bool-cases (is_space c)) [
  | inl e ↦ rw e (lstrip_cases s)
  | inr e ↦ rw e (inr (c, s, refl, e))
]

lstrip-rstrip :
    (c : Char) (t : String) → is_space c ≡ false → lstrip (rstrip (c ∷ t)) ≡ rstrip (c ∷ t)
unfolding lstrip rstrip
lstrip-rstrip c t h = ground arith

-- A stripped text has nothing left to strip.
pub strip_idem : (s : String) → strip (strip s) ≡ strip s
unfolding strip
strip_idem s = elim (lstrip_cases s) [
  | inl e ↦ rw e (unfold lstrip rstrip in refl)
  | inr (c, t, e, h) ↦ rw (e, lstrip-rstrip c t h) (rstrip_idem (c ∷ t))
]

digit : ℕ → String
digit n =
    if nat_beq n 0
    then "0"
    else if nat_beq n 1
    then "1"
    else if nat_beq n 2
    then "2"
    else if nat_beq n 3
    then "3"
    else if nat_beq n 4
    then "4"
    else if nat_beq n 5
    then "5"
    else if nat_beq n 6
    then "6"
    else if nat_beq n 7
    then "7"
    else if nat_beq n 8
    then "8"
    else "9"

-- A number has no more digits than its value and one.
digits : (fuel : ℕ) → ℕ → String
unfolding digit
digits zero n = ""
digits (suc fuel) n =
    let front = digits fuel (n / 10) in if ltb n 10 then digit n else front <> digit (n % 10)

-- `str(n)`
unfoldable pub show_nat : ℕ → String
unfolding digits
show_nat n = digits (suc n) n

show_nat-120 : show_nat 120 ≡ "120"
unfolding show_nat
show_nat-120 = refl

-- ===== src/Session/Bounds.antt =====
-- How long the bounded texts of a session are (runtime/session.py).

use Prim.Native.String.append
use native.Mathlib.Nat.{le_trans}
use clarityos.Prelude.{
  ℕ, zero, suc, ◌+◌, ◌-◌, ◌≤◌, String, ◌≡◌, refl, ap, List, [], ◌∷◌, arith, ltb, leb, ◌<>◌, leb→le,
  ltb→lt, false, Bool-cases, inl, inr,
}
use clarityos.Python.Text.{rstrip, text_length, text_take}
use clarityos.Session.Preview.{bounded_lines_text, bounded_rest, but_three, or_else, truncate_text}
use clarityos.Session.Record.{session_status_eq}

text_length-append : (s t : String) → text_length (s <> t) ≡ text_length s + text_length t
text_length-append String.[] t = rw (append.nil t) (omega arith)
text_length-append (String.◌∷◌ c s) t =
    rw (append.cons c s t) (omega (arith, text_length-append s t))

text_length-rstrip : (s : String) → text_length (rstrip s) ≤ text_length s
unfolding rstrip
text_length-rstrip String.[] = omega arith
text_length-rstrip (String.◌∷◌ c s) = ground (arith, text_length-rstrip s)

text_length-take : (n : ℕ) (s : String) → text_length (text_take n s) ≤ n
text_length-take zero s = omega arith
text_length-take (suc n) String.[] = omega arith
text_length-take (suc n) (String.◌∷◌ c s) = omega (arith, text_length-take n s)

-- A truncated text is within its limit, where the limit leaves room for the dots.
pub text_length-truncate_text :
    (limit : ℕ) (s : String) → 3 ≤ limit → text_length (truncate_text limit s) ≤ limit
unfolding truncate_text
text_length-truncate_text limit s room = elim (Bool-cases (leb (text_length s) limit)) [
  | inl short ↦ rw short (leb→le _ _ short)
  | inr long ↦ rw long (
      ground (
        arith,
        text_length-append (rstrip (but_three limit s)) "...",
        text_length-rstrip (but_three limit s),
        text_length-take (limit - 3) s,
      ))
]

not_over : (a b : ℕ) → ltb a b ≡ false → b ≤ a
not_over a b h = ground arith

not_ltb : (a b : ℕ) → b ≤ a → ltb a b ≡ false
not_ltb a b h = ground arith

-- The lines with line breaks between them.
unfoldable pub join_rest : List String → String
join_rest [] = ""
join_rest (line ∷ lines) = ("\n" <> line) <> join_rest lines

unfoldable pub join_lines : List String → String
join_lines [] = ""
join_lines (line ∷ lines) = line <> join_rest lines

bounded_rest-le :
    (max_chars used : ℕ) (lines : List String)
    → used ≤ max_chars
    → used + text_length (bounded_rest max_chars used lines) ≤ max_chars + 4
unfolding bounded_rest
bounded_rest-le max_chars used [] within = omega arith
bounded_rest-le max_chars used (line ∷ lines) within =
    elim (Bool-cases (ltb max_chars (used + text_length ("\n" <> line)))) [
      | inl over ↦ rw over (omega arith)
      | inr fits ↦ rw fits (
          rw (text_length-append ("\n" <> line) _) (
            omega (
              arith,
              not_over max_chars (used + text_length ("\n" <> line)) fits,
              bounded_rest-le max_chars (used + text_length ("\n" <> line)) lines
                  (not_over max_chars (used + text_length ("\n" <> line)) fits),
            )))
    ]

bounded_rest-fits :
    (max_chars used : ℕ) (lines : List String)
    → used + text_length (join_rest lines) ≤ max_chars
    → bounded_rest max_chars used lines ≡ join_rest lines
unfolding bounded_rest join_rest
bounded_rest-fits max_chars used [] fits = refl
bounded_rest-fits max_chars used (line ∷ lines) fits =
    let sum = text_length-append ("\n" <> line) (join_rest lines) in
    rw (not_ltb max_chars (used + text_length ("\n" <> line)) (omega (arith, sum))) (
      ap (λ t. ("\n" <> line) <> t)
        (bounded_rest-fits max_chars (used + text_length ("\n" <> line)) lines
          (omega (arith, sum))))

or_else-le :
    (a b : String) (n : ℕ) → text_length a ≤ n → text_length b ≤ n → text_length (or_else a b) ≤ n
or_else-le String.[] b n ha hb = hb
or_else-le (String.◌∷◌ c a) b n ha hb = ha

-- With a limit of at least three characters: the text of some lines has at most four characters more
-- than the limit. Lines that fit, with line breaks between them, are all kept, and nothing is added.
pub bounded_lines_text_lem :
    (lines : List String) (max_chars : ℕ)
    → 3 ≤ max_chars
    → (text_length (bounded_lines_text lines max_chars) ≤ max_chars + 4)
      × (text_length (join_lines lines) ≤ max_chars
          → bounded_lines_text lines max_chars ≡ join_lines lines)
unfolding bounded_lines_text join_lines
bounded_lines_text_lem [] max_chars room = (omega arith, λ fits. refl)
bounded_lines_text_lem (line ∷ lines) max_chars room =
    elim (Bool-cases (ltb max_chars (text_length line))) [
      | inl over ↦ rw over (
        le_trans
            (or_else-le (truncate_text max_chars line) (text_take max_chars line) max_chars
              (text_length-truncate_text max_chars line room) (text_length-take max_chars line))
            (omega arith),
        λ fits. absurd (omega (arith, ltb→lt _ _ over, text_length-append line (join_rest lines))),
      )
      | inr within ↦ rw within (
        rw (text_length-append line (bounded_rest max_chars (text_length line) lines))
            (bounded_rest-le max_chars (text_length line) lines (not_over _ _ within)),
        λ fits.
            ap (λ t. line <> t)
              (bounded_rest-fits max_chars (text_length line) lines
                (omega (arith, text_length-append line (join_rest lines)))),
      )
    ]

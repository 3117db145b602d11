-- ===== src/Common/Text.antt =====
-- Equality of texts as a decision, and the tests on texts that the program uses.
use Prim.Native.String.{String, [], ◌∷◌}
use Prim.Native.Char.{Char, code}
use Prim.Native.Nat.{ℕ, ◌+◌, compare, Ordering}
use mathlib.Core.Bool.{Bool, true, false, ◌&&◌, ◌||◌}
use mathlib.Core.Path.{◌≡◌}
use mathlib.Core.Logic.{◌↔◌, inl, inr}
use text.Mathlib.Text.{◌==◌ as str_eq}
use text.Mathlib.TextEquality.{eq_iff}
use bookit.Common.Tests.{Bool-cases, leb, ◌==◌, if◌then◌else◌}

unfoldable pub String-discrete : Discrete String
String-discrete s t = elim (Bool-cases (str_eq s t)) [
  | inl e ↦ yes ((eq_iff s t).0 e)
  | inr e ↦ no (λ p. cc (e, (eq_iff s t).1 p))
]

abbrev pub same_text : String → String → Bool
same_text s t = str_eq s t

pub same_text_iff : (s t : String) → (same_text s t ≡ true) ↔ (s ≡ t)
same_text_iff s t = eq_iff s t

-- `char::is_whitespace`: the White_Space property of Unicode.
unfoldable pub is_whitespace : Char → Bool
is_whitespace c =
    let n = code c in
    (leb 9 n && leb n 13)
    || (n == 32)
    || (n == 133)
    || (n == 160)
    || (n == 5760)
    || (leb 8192 n && leb n 8202)
    || (n == 8232)
    || (n == 8233)
    || (n == 8239)
    || (n == 8287)
    || (n == 12288)

-- `trim().is_empty()`
abbrev pub is_blank : String → Bool
is_blank [] = true
is_blank (c ∷ s) = is_whitespace c && is_blank s

-- `starts_with`
abbrev pub starts_with : String → String → Bool
starts_with s [] = true
starts_with [] (d ∷ t) = false
starts_with (c ∷ s) (d ∷ t) = (code c == code d) && starts_with s t

unfoldable pub trim_start : String → String
trim_start [] = []
trim_start (c ∷ s) = let rest = trim_start s in if is_whitespace c then rest else c ∷ s

abbrev unless_both_blank : Bool → Char → String → String
unless_both_blank true c [] = []
unless_both_blank true c (d ∷ s) = c ∷ d ∷ s
unless_both_blank false c s = c ∷ s

unfoldable pub trim_end : String → String
trim_end [] = []
trim_end (c ∷ s) = unless_both_blank (is_whitespace c) c (trim_end s)

-- `str::trim`
abbrev pub trim : String → String
trim s = trim_end (trim_start s)

-- `Ordering::then`
abbrev pub then_with : Ordering → Ordering → Ordering
then_with Ordering.lt o = Ordering.lt
then_with Ordering.eq o = o
then_with Ordering.gt o = Ordering.gt

-- The order of texts by their bytes, which in UTF-8 is that by their characters.
abbrev pub compare_text : String → String → Ordering
compare_text [] [] = Ordering.eq
compare_text [] (d ∷ t) = Ordering.lt
compare_text (c ∷ s) [] = Ordering.gt
compare_text (c ∷ s) (d ∷ t) = then_with (compare (code c) (code d)) (compare_text s t)

-- `to_ascii_lowercase`, of a character's number
abbrev ascii_lower : ℕ → ℕ
ascii_lower n = if leb 65 n && leb n 90 then n + 32 else n

-- `eq_ignore_ascii_case`
abbrev pub same_ignoring_case : String → String → Bool
same_ignoring_case [] [] = true
same_ignoring_case (c ∷ s) (d ∷ t) =
    (ascii_lower (code c) == ascii_lower (code d)) && same_ignoring_case s t
same_ignoring_case [] (d ∷ t) = false
same_ignoring_case (c ∷ s) [] = false

-- `contains('@')`
abbrev pub contains_at : String → Bool
contains_at [] = false
contains_at (c ∷ s) = (code c == 64) || contains_at s

abbrev utf8_width : ℕ → ℕ
utf8_width n = if leb n 127 then 1 else if leb n 2047 then 2 else if leb n 65535 then 3 else 4

-- `str::len`, in bytes
unfoldable pub byte_len : String → ℕ
byte_len [] = 0
byte_len (c ∷ s) = utf8_width (code c) + byte_len s

-- ===== src/Prelude/Text.antt =====
-- Go strings: equality, byte order, `strings.TrimSpace` and membership in a slice.
pub mod Order
pub mod Equal
use Prim.Native.Nat.{ℕ, ◌+◌}
use Prim.Native.Char.{code}
use Prim.Native.String.{String, compare}
use mathlib.Core.Bool.{Bool, true, false, ◌&&◌, ◌||◌}
use mathlib.Core.Option.{Option, none, some}
use mathlib.Core.List.{List, [], ◌∷◌}
use text.Mathlib.Text.{◌==◌ as text_eq, is_le, find?}
use issueq.Prelude.Tests.{leb, ◌==◌, if◌then◌else◌}

abbrev pub str_eq : String → String → Bool
str_eq = text_eq

-- The byte order of texts, in which SQLite sorts and compares.
pub str_leb : String → String → Bool
str_leb s t = is_le (compare s t)

-- `unicode.IsSpace` of a code point.
abbrev pub is_space : ℕ → Bool
is_space c =
    (leb 9 c && leb c 13)
    || c == 32
    || c == 0x85
    || c == 0xa0
    || c == 0x1680
    || (leb 0x2000 c && leb c 0x200a)
    || c == 0x2028
    || c == 0x2029
    || c == 0x202f
    || c == 0x205f
    || c == 0x3000

trim_left : String → String
trim_left String.[] = String.[]
trim_left (String.◌∷◌ c s) =
    let rest = trim_left s in if is_space (code c) then rest else String.◌∷◌ c s

trim_right : String → String
trim_right String.[] = String.[]
trim_right (String.◌∷◌ c s) =
    let rest = trim_right s in
    if is_space (code c) && str_eq rest String.[] then String.[] else String.◌∷◌ c rest

-- `strings.TrimSpace`
unfoldable pub trim_space : String → String
unfolding trim_left trim_right
trim_space s = trim_right (trim_left s)

-- The test `strings.TrimSpace(s) == ""`.
unfoldable pub is_blank : String → Bool
unfolding trim_space
is_blank s = str_eq (trim_space s) ""

-- Membership in a slice of strings, or in the set that `stringSet` makes of it.
abbrev pub contains : List String → String → Bool
contains [] s = false
contains (x ∷ xs) s = str_eq x s || contains xs s

abbrev pub one_if : Bool → ℕ
one_if b = if b then 1 else 0

-- How often a list has a text.
abbrev pub occurrences : List String → String → ℕ
occurrences [] s = 0
occurrences (x ∷ xs) s = one_if (str_eq x s) + occurrences xs s

is_found : Option ℕ → Bool
is_found none = false
is_found (some n) = true

-- `strings.Contains`
unfoldable pub has_part : String → String → Bool
unfolding is_found
has_part part s = is_found (find? s part)

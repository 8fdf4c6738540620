-- ===== src/Prelude/Text/Equal.antt =====
-- What the test for equal strings says.
use Prim.Native.String.{String}
use mathlib.Core.Path.{◌≡◌, refl, sym, ◌∙◌}
use mathlib.Core.Bool.{true, false}
use mathlib.Core.Logic.{inl, inr}
use text.Mathlib.TextEquality.{eq_iff}
use issueq.Prelude.Tests.{Bool-cases}
use issueq.Prelude.Text.{str_eq}

pub same_text : {a b : String} → str_eq a b ≡ true → a ≡ b
same_text {a} {b} h = (eq_iff a b).0 h

pub text_same : {a b : String} → a ≡ b → str_eq a b ≡ true
text_same {a} {b} h = (eq_iff a b).1 h

pub str_eq_self : (a : String) → str_eq a a ≡ true
str_eq_self a = text_same refl

-- Two texts that differ do not both equal a third one.
pub other_text : (a b c : String) → str_eq a b ≡ false → str_eq a c ≡ true → str_eq b c ≡ false
other_text a b c ne h = elim (Bool-cases (str_eq b c)) [
  | inl e ↦ let same = text_same (same_text h ∙ sym (same_text e)) in absurd cc
  | inr e ↦ e
]

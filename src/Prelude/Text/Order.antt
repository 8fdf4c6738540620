-- ===== src/Prelude/Text/Order.antt =====
-- The byte order of texts is a total order.
use Prim.Native.String.{String}
use Prim.Native.String.compare as Clauses
use mathlib.Core.Path.{◌≡◌}
use mathlib.Core.Bool.{true, false}
use native.Mathlib.Omega.{arith}
use issueq.Prelude.Text.{str_leb}

pub str_leb_total : (s t : String) → str_leb s t ≡ false → str_leb t s ≡ true
unfolding str_leb
str_leb_total String.[] String.[] h = ground (arith, Clauses.nil-nil)
str_leb_total String.[] (String.◌∷◌ d t) h = ground (arith, Clauses.nil-cons d t)
str_leb_total (String.◌∷◌ c s) String.[] h = ground (arith, Clauses.nil-cons c s)
str_leb_total (String.◌∷◌ c s) (String.◌∷◌ d t) h =
    ground (arith, Clauses.cons-cons c d s t, Clauses.cons-cons d c t s, str_leb_total s t)

pub str_leb_trans : (s t u : String) → str_leb s t ≡ true → str_leb t u ≡ true → str_leb s u ≡ true
unfolding str_leb
str_leb_trans String.[] t String.[] h k = ground (arith, Clauses.nil-nil)
str_leb_trans String.[] t (String.◌∷◌ e u) h k = ground (arith, Clauses.nil-cons e u)
str_leb_trans (String.◌∷◌ c s) String.[] u h k = ground (arith, Clauses.cons-nil c s)
str_leb_trans (String.◌∷◌ c s) (String.◌∷◌ d t) String.[] h k = ground (arith, Clauses.cons-nil d t)
str_leb_trans (String.◌∷◌ c s) (String.◌∷◌ d t) (String.◌∷◌ e u) h k = ground (
  arith,
  Clauses.cons-cons c d s t,
  Clauses.cons-cons d e t u,
  Clauses.cons-cons c e s u,
  str_leb_trans s t u,
)

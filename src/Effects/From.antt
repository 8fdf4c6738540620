-- ===== src/Effects/From.antt =====
-- What holds of the value that a program returns and of the world after it, if `P` holds before: one
-- rule for each way to build a program from programs that keep `P`.
use issueq.Prelude.{Bool, true, false, if◌then◌else◌}
use issueq.Errors.{CallError, Answer, value, error}
use issueq.Effects.{World, Io, pure, handle, on_answer}
use issueq.Effects.Keeps.{Keeps}
use issueq.Effects.Ends.{OnValue}

pub record From {A : Type 0} (P : World → Type 0) (Q : A → World → Type 0) (m : Io A) : Type 0 where
  pub at : (w : World) → P w → OnValue Q (m w)

module _ {A : Type 0} {P : World → Type 0} {Q : A → World → Type 0} where
  pub From-pure : (a : A) → ((w : World) → Q a w) → From P Q (pure a)
  From-pure a h = record { at = λ w _. h w }

  pub From-if : (b : Bool) (m n : Io A) → From P Q m → From P Q n → From P Q (if b then m else n)
  From-if true m n fm fn = fm
  From-if false m n fm fn = fn

module _ {A B : Type 0} {P : World → Type 0} {Q : B → World → Type 0} where
  pub From-handle :
      (m : Io A) (f : A → Io B) (g : CallError → Io B)
      → Keeps P m
      → ((a : A) → From P Q (f a))
      → ((x : CallError) → From P Q (g x))
      → From P Q (handle m f g)
  From-handle m f g km ff fg = record { at = λ w h. (after (m w).0).at (m w).1 (km.at w h) }
    where
      after : (r : Answer A) → From P Q (on_answer f g r)
      after (value a) = ff a
      after (error x) = fg x

pub ruleset from_rules = (From-if, From-handle)

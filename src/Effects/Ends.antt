-- ===== src/Effects/Ends.antt =====
-- What holds of the value that a program returns and of the world after it: one rule for each way to
-- build a program. Nothing is said of one that ends with an error.
use issueq.Prelude.{Bool, true, false, if◌then◌else◌}
use issueq.Errors.{CallError, Answer, value, error}
use issueq.Effects.Keeps.{Keeps}
use issueq.Effects.{World, Io, pure, raise, ◌>>=◌, resume, handle, on_answer}

abbrev pub OnValue : {A : Type 0} → (A → World → Type 0) → Answer A × World → Type 0
OnValue Q (value a, w) = Q a w
OnValue Q (error x, w) = Unit

pub record Ends {A : Type 0} (Q : A → World → Type 0) (m : Io A) : Type 0 where
  pub at : (w : World) → OnValue Q (m w)

module _ {A : Type 0} {Q : A → World → Type 0} where
  pub Ends-pure : (a : A) → ((w : World) → Q a w) → Ends Q (pure a)
  Ends-pure a h = record { at = h }

  pub Ends-raise : (x : CallError) → Ends Q (raise {A = A} x)
  Ends-raise x = record { at = λ w. tt }

  pub Ends-if : (b : Bool) (m n : Io A) → Ends Q m → Ends Q n → Ends Q (if b then m else n)
  Ends-if true m n em en = em
  Ends-if false m n em en = en

module _ {A B : Type 0} {Q : B → World → Type 0} where
  Ends-resume : (f : A → Io B) → ((a : A) → Ends Q (f a)) → (r : Answer A) → Ends Q (resume f r)
  Ends-resume f ef (value a) = ef a
  Ends-resume f ef (error x) = Ends-raise x

  pub Ends-bind : (m : Io A) (f : A → Io B) → ((a : A) → Ends Q (f a)) → Ends Q (m >>= f)
  Ends-bind m f ef = record { at = λ w. (Ends-resume f ef (m w).0).at (m w).1 }

  pub Ends-handle :
      (m : Io A) (f : A → Io B) (g : CallError → Io B)
      → ((a : A) → Ends Q (f a))
      → ((x : CallError) → Ends Q (g x))
      → Ends Q (handle m f g)
  Ends-handle m f g ef eg = record { at = λ w. (after (m w).0).at (m w).1 }
    where
      after : (r : Answer A) → Ends Q (on_answer f g r)
      after (value a) = ef a
      after (error x) = eg x

  -- A program whose value has a property that what follows needs.
  pub Ends-then :
      {R : A → Type 0} (m : Io A) (f : A → Io B)
      → Ends (λ a _. R a) m
      → ((a : A) → R a → Ends Q (f a))
      → Ends Q (m >>= f)
  Ends-then {R} m f em ef = record { at = λ w. after (m w) (em.at w) }
    where
      after : (out : Answer A × World) → OnValue (λ a _. R a) out → OnValue Q (resume f out.0 out.1)
      after (value a, w) h = (ef a h).at w
      after (error x, w) h = tt

module _ {A B : Type 0} {Q : B → World → Type 0} where
  -- `handle`, where what follows needs a property of the value.
  pub Ends-handle_value :
      {R : A → Type 0} (m : Io A) (f : A → Io B) (g : CallError → Io B)
      → Ends (λ a _. R a) m
      → ((a : A) → R a → Ends Q (f a))
      → ((x : CallError) → Ends Q (g x))
      → Ends Q (handle m f g)
  Ends-handle_value {R} m f g em ef eg = record { at = λ w. after (m w) (em.at w) }
    where
      after :
          (out : Answer A × World)
          → OnValue (λ a _. R a) out
          → OnValue Q (on_answer f g out.0 out.1)
      after (value a, w) h = (ef a h).at w
      after (error x, w) h = (eg x).at w

module _ {A B : Type 0} {P : World → Type 0} where
  -- What holds when a program has returned, and is kept by what follows it.
  pub Ends-kept :
      (m : Io A) (f : A → Io B)
      → Ends (λ _ w. P w) m
      → ((a : A) → Keeps P (f a))
      → Ends (λ _ w. P w) (m >>= f)
  Ends-kept m f em kf = record { at = λ w. after (m w) (em.at w) }
    where
      returned : (out : Answer B × World) → P out.1 → OnValue (λ _ w. P w) out
      returned (value b, w) h = h
      returned (error x, w) h = tt

      after :
          (out : Answer A × World)
          → OnValue (λ _ w. P w) out
          → OnValue (λ _ w. P w) (resume f out.0 out.1)
      after (value a, w) h = returned (f a w) ((kf a).at w h)
      after (error x, w) h = tt

pub OnValue-both :
    {A : Type 0} (Q R : A → World → Type 0) (out : Answer A × World)
    → OnValue Q out
    → OnValue R out
    → OnValue (λ a w. Q a w × R a w) out
OnValue-both Q R (value a, w) h k = (h, k)
OnValue-both Q R (error x, w) h k = tt

pub Ends-both :
    {A : Type 0} {Q R : A → World → Type 0} (m : Io A)
    → Ends Q m
    → Ends R m
    → Ends (λ a w. Q a w × R a w) m
Ends-both m eq er = record { at = λ w. OnValue-both _ _ (m w) (eq.at w) (er.at w) }

pub Ends-weaken :
    {A : Type 0} {R S : A → Type 0} (m : Io A)
    → ((a : A) → R a → S a)
    → Ends (λ a _. R a) m
    → Ends (λ a _. S a) m
Ends-weaken {A} {R} {S} m f em = record { at = λ w. after (m w) (em.at w) }
  where
    after : (out : Answer A × World) → OnValue (λ a _. R a) out → OnValue (λ a _. S a) out
    after (value a, w) h = f a h
    after (error x, w) h = tt

pub ruleset ends_rules = (Ends-raise, Ends-if, Ends-bind, Ends-handle)

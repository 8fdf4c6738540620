-- ===== src/Effects/Keeps.antt =====
-- Invariants of programs: one rule for each way to build one. A program keeps `P` whether it returns
-- or ends with an error, since what it did stays done.
use issueq.Prelude.{ℕ, Bool, true, false, Option, none, some, if◌then◌else◌}
use issueq.Store.{Op}
use issueq.Errors.{CallError, Failure, Answer, value, error}
use issueq.Effects.{
  World, Outside, Io, pure, raise, ◌>>=◌, attempt, ask, next_turn, Reply, request, store_call, call,
  Call, traced, perform, note, noted, resume, handle, on_answer, answered,
}

pub record Keeps {A : Type 0} (P : World → Type 0) (m : Io A) : Type 0 where
  pub at : (w : World) → P w → P (m w).1

module _ {A : Type 0} {P : World → Type 0} where
  pub Keeps-pure : (a : A) → Keeps P (pure a)
  Keeps-pure a = record { at = λ w h. h }

  pub Keeps-raise : (x : CallError) → Keeps P (raise {A = A} x)
  Keeps-raise x = record { at = λ w h. h }

  pub Keeps-answered : (r : Answer A) → Keeps P (answered r)
  Keeps-answered r = record { at = λ w h. h }

  pub Keeps-if : (b : Bool) (m n : Io A) → Keeps P m → Keeps P n → Keeps P (if b then m else n)
  Keeps-if true m n km kn = km
  Keeps-if false m n km kn = kn

  pub Keeps-attempt : (m : Io A) → Keeps P m → Keeps P (attempt m)
  Keeps-attempt m km = record { at = λ w h. km.at w h }

  pub Keeps-ask : (f : ℕ → A) → ((w : World) → P w → P (next_turn w)) → Keeps P (ask f)
  Keeps-ask f turns = record { at = turns }

  pub Keeps-request :
      (f : ℕ → Reply A) → ((w : World) → P w → P (next_turn w)) → Keeps P (request f)
  Keeps-request f turns = record { at = turns }

  pub Keeps-call :
      (o : Outside) (op : Op A)
      → ((w : World) → P w → P (next_turn w))
      → ((w : World) → P w → P (record w { db = (op w.db).1; turn = ℕ.suc w.turn }))
      → Keeps P (call o op)
  unfolding call
  Keeps-call o op turns step = record { at = λ w h. after w h (o.driver w.turn) }
    where
      after : (w : World) → P w → (f : Option Failure) → P (store_call f op w).1
      after w h none = step w h
      after w h (some x) = turns w h

module _ {P : World → Type 0} where
  pub Keeps-perform :
      (f : ℕ → Option Failure) (c : Call)
      → ((w : World) → P w → P (traced c w))
      → Keeps P (perform f c)
  Keeps-perform f c step = record { at = step }

  pub Keeps-note : (c : Call) → ((w : World) → P w → P (noted c w)) → Keeps P (note c)
  Keeps-note c step = record { at = step }

module _ {A B : Type 0} {P : World → Type 0} where
  pub Keeps-resume :
      (f : A → Io B) → ((a : A) → Keeps P (f a)) → (r : Answer A) → Keeps P (resume f r)
  Keeps-resume f kf (value a) = kf a
  Keeps-resume f kf (error x) = Keeps-raise x

  pub Keeps-bind :
      (m : Io A) (f : A → Io B) → Keeps P m → ((a : A) → Keeps P (f a)) → Keeps P (m >>= f)
  Keeps-bind m f km kf = record { at = λ w h. (Keeps-resume f kf (m w).0).at (m w).1 (km.at w h) }

  pub Keeps-handle :
      (m : Io A) (f : A → Io B) (g : CallError → Io B)
      → Keeps P m
      → ((a : A) → Keeps P (f a))
      → ((x : CallError) → Keeps P (g x))
      → Keeps P (handle m f g)
  Keeps-handle m f g km kf kg = record { at = λ w h. (after (m w).0).at (m w).1 (km.at w h) }
    where
      after : (r : Answer A) → Keeps P (on_answer f g r)
      after (value a) = kf a
      after (error x) = kg x

pub ruleset keeps_rules =
    (Keeps-pure, Keeps-raise, Keeps-answered, Keeps-if, Keeps-attempt, Keeps-bind, Keeps-handle)

-- ===== src/Effects.antt =====
-- What the workflow, the dispatcher and the router do to the world: calls of the store, of GitHub, of
-- a supervisor and of the operating system. What lies outside of the repository's code answers from
-- a record of functions, each of which takes the number of calls made before. A program is a function
-- from a world to its answer and the world after it; a Go function that returns early with an error
-- ends with `error`.
pub mod Queue
pub mod Keeps
pub mod Stable
pub mod Ends
pub mod From
use issueq.Prelude.{ℕ, suc, ℤ, String, Bool, Option, none, some, List, ◌∷◌, if◌then◌else◌}
use issueq.Model.{Time, IssueSnapshot}
use issueq.Supervisor.{LaunchSpec, LaunchRecord, Observation}
use issueq.Store.{Db, Result, ok, err, Op}
use issueq.Errors.{CallError, store_error, Failure, outside_error, Answer, value, error, wrapped}
use issueq.Router.Gate.{Encodings}
use issueq.Workflow.Observe.{Printing}
use issueq.Workflow.Finalize.{ResultFiles}
use issueq.Actions.{ResultJson}
use issueq.Runner.{Context, Process}

pub data Reply (A : Type 0) : Type 0 where
  replied : A → Reply A
  refused : Failure → Reply A

-- The calls whose order matters, with the tables at the time of a launch.
pub data Call : Type 0 where
  renewed : String → Call
  removed_labels : ℤ → List String → Call
  added_labels : ℤ → List String → Call
  commented : ℤ → String → Call
  launched : LaunchSpec → Db → Call
  cancelled : LaunchRecord → Call

-- The answers from outside. `driver` is an error of the database driver, with which a call of the
-- store ends before it does anything; a write of GitHub that fails may have had its effect.
pub record Outside : Type 0 where
  pub encodings : Encodings
  pub printing : Printing
  pub lower_case : String → String
  pub clock : ℕ → Time
  pub new_id : ℕ → String
  pub driver : ℕ → Option Failure
  pub files : ℕ → ResultFiles
  pub json : ResultJson
  pub get_issue : ℕ → ℤ → Reply IssueSnapshot
  pub write_github : ℕ → Option Failure
  pub process : Process
  pub join : List String → String
  pub abs : ℕ → String → Reply String
  pub base_name : String → String
  pub mkdir_all : ℕ → String → Option Failure
  pub marshal_context : ℕ → Context → Reply String
  pub write_file : ℕ → String → String → Option Failure
  pub new_token : Option (ℕ → Reply String)
  pub ulid : ℕ → Reply String
  pub start : ℕ → LaunchSpec → Reply LaunchRecord
  pub stop : ℕ → LaunchRecord → Option Failure
  pub inspect : ℕ → LaunchRecord → Reply Observation

-- The tables, the number of calls made, and the calls, the last one first.
pub record World : Type 0 where
  pub db : Db
  pub turn : ℕ
  pub trace : List Call

abbrev pub Io : Type 0 → Type 0
Io A = World → Answer A × World

abbrev pub pure : {A : Type 0} → A → Io A
pure a w = (value a, w)

abbrev pub raise : {A : Type 0} → CallError → Io A
raise x w = (error x, w)

abbrev pub resume : {A B : Type 0} → (A → Io B) → Answer A → Io B
resume f (value a) = f a
resume f (error x) = raise x

infixl 5 ◌>>=◌ ◌>>◌
abbrev pub ◌>>=◌ : {A B : Type 0} → Io A → (A → Io B) → Io B
◌>>=◌ m f w = let (r, w') = m w in resume f r w'

abbrev pub ◌>>◌ : {A B : Type 0} → Io A → Io B → Io B
m >> k = m >>= λ _. k

-- A call whose error the code looks at, or drops.
abbrev pub attempt : {A : Type 0} → Io A → Io (Answer A)
attempt m w = let (r, w') = m w in (value r, w')

-- A call with what follows it, and what follows its error.
abbrev pub on_answer : {A B : Type 0} → (A → Io B) → (CallError → Io B) → Answer A → Io B
on_answer f g (value a) = f a
on_answer f g (error x) = g x

abbrev pub handle : {A B : Type 0} → Io A → (A → Io B) → (CallError → Io B) → Io B
handle m f g w = let (r, w') = m w in on_answer f g r w'

-- The error if there is one, with the text in front of it.
abbrev pub prefixed : {A : Type 0} → String → Answer A → Answer A
prefixed prefix (value a) = value a
prefixed prefix (error x) = error (wrapped prefix x)

abbrev pub or_wrapped : {A : Type 0} → String → Io A → Io A
or_wrapped prefix m w = let (r, w') = m w in (prefixed prefix r, w')

-- An answer that was found without a call.
abbrev pub answered : {A : Type 0} → Answer A → Io A
answered r w = (r, w)

abbrev pub when : Bool → Io (Unit {0}) → Io (Unit {0})
when b m = if b then m else pure tt

abbrev pub next_turn : World → World
next_turn w = record w { turn = suc w.turn }

abbrev pub ask : {A : Type 0} → (ℕ → A) → Io A
ask f w = (value (f w.turn), next_turn w)

abbrev pub answer_of : {A : Type 0} → Reply A → Answer A
answer_of (replied a) = value a
answer_of (refused x) = error (outside_error x)

abbrev pub request : {A : Type 0} → (ℕ → Reply A) → Io A
request f w = (answer_of (f w.turn), next_turn w)

-- A call that is put on the trace, whether it fails or not.
abbrev pub traced : Call → World → World
traced c w = record w { turn = suc w.turn; trace = c ∷ w.trace }

abbrev pub outcome_of : Option Failure → Answer (Unit {0})
outcome_of none = value tt
outcome_of (some x) = error (outside_error x)

abbrev pub perform : (ℕ → Option Failure) → Call → Io (Unit {0})
perform f c w = (outcome_of (f w.turn), traced c w)

-- A call that answers nothing and is not put on the trace.
abbrev pub effect : (ℕ → Option Failure) → Io (Unit {0})
effect f w = (outcome_of (f w.turn), next_turn w)

-- `Launch` and `Cancel` of the supervisor.
abbrev pub start_run : Outside → LaunchSpec → Io LaunchRecord
start_run o spec w = (answer_of (o.start w.turn spec), traced (launched spec w.db) w)

abbrev pub cancel_run : Outside → LaunchRecord → Io (Unit {0})
cancel_run o record' = perform (λ n. o.stop n record') (cancelled record')

abbrev pub result_of : {A : Type 0} → Result A → Answer A
result_of (ok a) = value a
result_of (err x) = error (store_error x)

-- A call of the store.
abbrev pub store_call : {A : Type 0} → Option Failure → Op A → Io A
store_call (some x) op w = (error (outside_error x), next_turn w)
store_call none op w =
    let (r, db') = op w.db in (result_of r, record w { db = db'; turn = suc w.turn })

unfoldable pub call : {A : Type 0} → Outside → Op A → Io A
call o op w = store_call (o.driver w.turn) op w

-- A query of the store.
abbrev pub query : {A : Type 0} → Outside → (Db → Result A) → Io A
query o f = call o (λ db. (f db, db))

-- Puts a renewal on the trace.
abbrev pub noted : Call → World → World
noted c w = record w { trace = c ∷ w.trace }

abbrev pub note : Call → Io (Unit {0})
note c w = (value tt, noted c w)

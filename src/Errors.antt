-- ===== src/Errors.antt =====
-- Go's errors: the text, and the error of this program or of `context` that `errors.Is` finds in it.
-- Wrapping an error with `%w` changes its text only.
use issueq.Prelude.{String, Bool, true, false, append}
use issueq.Store.{StoreError, not_owner, lost_lease, no_rows, constraint, invalid}

-- `scope_blocked` is internal/router's `ErrAttemptScopeBlocked`, `context_done` is
-- `context.Canceled` or `context.DeadlineExceeded`.
pub data ErrorKind : Type 0 where
  owner_lost lease_lost scope_blocked context_done other : ErrorKind

pub record CallError : Type 0 where
  pub kind : ErrorKind
  pub text : String

-- The store's errors. The text of a constraint that fails is SQLite's; the one call that meets it is
-- `InsertJobEvent`, and its callers drop the error.
abbrev pub store_error : StoreError → CallError
store_error not_owner = record {
  kind = ErrorKind.owner_lost;
  text = "job is not owned by runner instance";
}
store_error lost_lease = record {
  kind = ErrorKind.lease_lost;
  text = "job lease is no longer valid";
}
store_error no_rows = record { kind = ErrorKind.other; text = "sql: no rows in result set" }
store_error constraint = record { kind = ErrorKind.other; text = "constraint failed" }
store_error (invalid message) = record { kind = ErrorKind.other; text = message }

abbrev pub plain_error : String → CallError
plain_error message = record { kind = ErrorKind.other; text = message }

-- `fmt.Errorf("prefix: %w", err)`
abbrev pub wrapped : String → CallError → CallError
wrapped prefix x = record x { text = append prefix (append ": " x.text) }

-- `IsOwnershipLoss`
abbrev pub loses_ownership : ErrorKind → Bool
loses_ownership ErrorKind.owner_lost = true
loses_ownership ErrorKind.lease_lost = true
loses_ownership _ = false

-- The error of a code outside of the program: none of the program's own.
pub data Failure : Type 0 where
  ended_context failure : String → Failure

abbrev pub outside_error : Failure → CallError
outside_error (ended_context message) = record { kind = ErrorKind.context_done; text = message }
outside_error (failure message) = record { kind = ErrorKind.other; text = message }

-- What a call answers: a value, or an error.
pub data Answer {ℓ} (A : Type ℓ) : Type ℓ where
  value : A → Answer A
  error : CallError → Answer A

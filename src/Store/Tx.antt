-- ===== src/Store/Tx.antt =====
-- `beginImmediate`, `immediateTx.Commit` and the deferred `immediateTx.Rollback` of sqlite.go: a
-- transaction carries its tables from statement to statement, a return with an error rolls back to
-- the tables before it, and a return after `Commit` keeps what it wrote.
pub mod Keeps
use issueq.Prelude.{Option, none, some}
use issueq.Store.{Db, StoreError, no_rows, Result, ok, err, Op}

abbrev pub Tx : Type 0 → Type 0
Tx A = Db → Result (A × Db)

abbrev pub pure : {A : Type 0} → A → Tx A
pure a db = ok (a, db)

abbrev pub abort : {A : Type 0} → StoreError → Tx A
abort e db = err e

infixl 5 ◌>>=◌ ◌>>◌
abbrev pub ◌>>=◌ : {A B : Type 0} → Tx A → (A → Tx B) → Tx B
◌>>=◌ m f db = elim (m db) [ ok (a, db') ↦ f a db' | err e ↦ err e ]

abbrev pub ◌>>◌ : {B : Type 0} → Tx (Unit {0}) → Tx B → Tx B
m >> k = m >>= λ _. k

-- A statement that writes.
abbrev pub exec : (Db → Db) → Tx (Unit {0})
exec f db = ok (tt, f db)

-- A query, or a computation on the tables read.
abbrev pub query : {A : Type 0} → (Db → A) → Tx A
query f db = ok (f db, db)

-- `QueryRow(…).Scan(…)`
abbrev pub query_row : {A : Type 0} → (Db → Option A) → Tx A
query_row f db = elim (f db) [ none ↦ err no_rows | some a ↦ ok (a, db) ]

-- `beginImmediate`, the body with its deferred `Rollback`, and `Commit`.
abbrev pub transaction : {A : Type 0} → Tx A → Op A
transaction m db = elim (m db) [ ok (a, db') ↦ (ok a, db') | err e ↦ (err e, db) ]

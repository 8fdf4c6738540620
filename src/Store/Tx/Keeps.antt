-- ===== src/Store/Tx/Keeps.antt =====
-- Invariants of transactions: one rule for each way to build one. A transaction that ends with an
-- error leaves the tables as they were, so only a commit has to be looked at.
use issueq.Prelude.{◌≡◌, refl, Bool, true, false, Option, arith, if◌then◌else◌}
use issueq.Store.{Db, StoreError, Result, ok, err}
use issueq.Store.Tx.{Tx, pure, abort, ◌>>=◌, exec, query_row, transaction}

-- What a commit of `m` writes has `P`, if the tables had `P` before.
pub record Keeps {A : Type 0} (P : Db → Type 0) (m : Tx A) : Type 0 where
  pub at : (db db' : Db) (a : A) → m db ≡ ok (a, db') → P db → P db'

module _ {A : Type 0} {P : Db → Type 0} where
  pub Keeps-pure : (a : A) → Keeps P (pure a)
  Keeps-pure a = record { at = λ db db' b e h. let same : db ≡ db' = ground arith in rw (← same) h }

  pub Keeps-abort : (e : StoreError) → Keeps P (abort {A = A} e)
  Keeps-abort e = record { at = λ db db' b q h. absurd (ground arith) }

  -- A query writes nothing.
  pub Keeps-query_row : (f : Db → Option A) → Keeps P (query_row f)
  Keeps-query_row f = record {
    at = λ db db' b e h. let same : db ≡ db' = ground arith in rw (← same) h;
  }

  pub Keeps-if : (b : Bool) (m n : Tx A) → Keeps P m → Keeps P n → Keeps P (if b then m else n)
  Keeps-if true m n km kn = km
  Keeps-if false m n km kn = kn

  -- The tables after a transaction, committed or rolled back.
  pub Keeps-transaction : (m : Tx A) → Keeps P m → (db : Db) → P db → P (transaction m db).1
  Keeps-transaction m k db h = after (m db) refl
    where
      after : (r : Result (A × Db)) → m db ≡ r → P (transaction m db).1
      after (ok (a, db')) e = rw (e, transaction) (k.at db db' a e h)
      after (err x) e = rw (e, transaction) h

module _ {A B : Type 0} {P : Db → Type 0} where
  pub Keeps-bind :
      (m : Tx A) (f : A → Tx B) → Keeps P m → ((a : A) → Keeps P (f a)) → Keeps P (m >>= f)
  Keeps-bind m f km kf = record { at = λ db db' b e h. after db db' b (m db) refl e h }
    where
      after :
          (db db' : Db) (b : B) (r : Result (A × Db))
          → m db ≡ r
          → (m >>= f) db ≡ ok (b, db')
          → P db
          → P db'
      after db db' b (ok (a, mid)) q e h =
          (kf a).at mid db' b (rw (q, ◌>>=◌) at e) (km.at db mid a q h)
      after db db' b (err x) q e h = absurd (ground arith)

pub Keeps-exec : {P : Db → Type 0} (f : Db → Db) → ((db : Db) → P db → P (f db)) → Keeps P (exec f)
Keeps-exec f keep = record {
  at = λ db db' b e h. let same : f db ≡ db' = ground arith in rw (← same) (keep db h);
}

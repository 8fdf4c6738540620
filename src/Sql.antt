-- ===== src/Sql.antt =====
-- The statements that the store hands to SQLite, over a table as the list of its rows: `UPDATE …
-- WHERE`, `DELETE … WHERE`, `SELECT … WHERE … ORDER BY` and `SELECT count(*)`. A comparison with a
-- NULL column is not true, and a text column that holds a time is the number of that time.
pub mod Laws
pub mod Keys
pub mod Order
use issueq.Prelude.{
  ℕ, suc, String, Bool, true, false, Option, none, some, List, [], ◌∷◌, if◌then◌else◌, ltb, leb,
  str_eq,
}

module _ {ℓ} {A : Type ℓ} where
  unfoldable pub update_where : (A → Bool) → (A → A) → List A → List A
  update_where p f [] = []
  update_where p f (r ∷ rs) = (if p r then f r else r) ∷ update_where p f rs

  unfoldable pub delete_where : (A → Bool) → List A → List A
  delete_where p [] = []
  delete_where p (r ∷ rs) = let rest = delete_where p rs in if p r then rest else r ∷ rest

  unfoldable pub select_where : (A → Bool) → List A → List A
  select_where p [] = []
  select_where p (r ∷ rs) = let rest = select_where p rs in if p r then r ∷ rest else rest

  -- `count(*)`, and the rows that a statement with this condition affects.
  unfoldable pub count_where : (A → Bool) → List A → ℕ
  count_where p [] = 0
  count_where p (r ∷ rs) = let rest = count_where p rs in if p r then suc rest else rest

  -- The one row of `QueryRow`; `none` is `sql.ErrNoRows`.
  unfoldable pub first_where : (A → Bool) → List A → Option A
  first_where p [] = none
  first_where p (r ∷ rs) = let rest = first_where p rs in if p r then some r else rest

  -- `ORDER BY`, where `before a b` says that `a` may stand in front of `b`.
  unfoldable pub insert_by : (A → A → Bool) → A → List A → List A
  insert_by before a [] = a ∷ []
  insert_by before a (r ∷ rs) =
      let rest = insert_by before a rs in if before a r then a ∷ r ∷ rs else r ∷ rest

  unfoldable pub order_by : (A → A → Bool) → List A → List A
  order_by before [] = []
  order_by before (r ∷ rs) = insert_by before r (order_by before rs)

-- `column = text`
abbrev pub col_eq : Option String → String → Bool
col_eq none s = false
col_eq (some t) s = str_eq t s

-- `column IS NULL OR column = ''`
abbrev pub is_empty : Option String → Bool
is_empty none = true
is_empty (some t) = str_eq t ""

-- `column < time`, for a column that may be NULL
abbrev pub before_time : Option ℕ → ℕ → Bool
before_time none t = false
before_time (some u) t = ltb u t

-- `COALESCE(NULLIF(value, ''), column)`
abbrev pub keep_if_empty : String → Option String → Option String
keep_if_empty s column = if str_eq s "" then column else some s

-- `COALESCE(first, second)`
abbrev pub coalesce {ℓ} : {A : Type ℓ} → Option A → Option A → Option A
coalesce none b = b
coalesce (some a) b = some a

-- `nullString` and `nullTime`: an empty value is written as NULL.
abbrev pub null_string : String → Option String
null_string s = if str_eq s "" then none else some s

abbrev pub null_time : ℕ → Option ℕ
null_time t = if leb t 0 then none else some t

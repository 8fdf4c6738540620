-- ===== src/Sql/Order.antt =====
-- Laws of `ORDER BY` and of the first row that meets a condition.
use mathlib.Core.Path.{subst}
use issueq.Prelude.{
  ◌≡◌, sym, Bool, true, false, some, List, [], ◌∷◌, arith, All, Bool-cases, inl, inr,
}
use issueq.Sql.Laws.{All-map, first_where-All}
use issueq.Sql.{select_where, first_where, insert_by, order_by}

module _ {ℓ} {A : Type ℓ} where
  -- Every row may stand in front of each row behind it.
  abbrev pub IsOrdered : (A → A → Bool) → List A → Type ℓ
  IsOrdered before [] = Unit
  IsOrdered before (r ∷ rs) = All (λ s. before r s ≡ true) rs × IsOrdered before rs

module _ {ℓ} {A : Type ℓ} where
  All-insert_by {κ} :
      (P : A → Type κ) (before : A → A → Bool) (a : A) (rs : List A)
      → P a
      → All P rs
      → All P (insert_by before a rs)
  unfolding insert_by
  All-insert_by P before a [] h all = (h, tt)
  All-insert_by P before a (r ∷ rs) h all = elim (Bool-cases (before a r)) [
    | inl e ↦ rw e (h, all)
    | inr e ↦ rw e (all.0, All-insert_by P before a rs h all.1)
  ]

  All-of_insert_by {κ} :
      (P : A → Type κ) (before : A → A → Bool) (a : A) (rs : List A)
      → All P (insert_by before a rs)
      → P a × All P rs
  unfolding insert_by
  All-of_insert_by P before a [] all = all
  All-of_insert_by P before a (r ∷ rs) all = elim (Bool-cases (before a r)) [
    | inl e ↦ rw (e, insert_by) at all
    | inr e ↦
        let rest = rw (e, insert_by) at all in
        let (h, others) = All-of_insert_by P before a rs rest.1 in (h, (rest.0, others))
  ]

  pub All-order_by {κ} :
      (P : A → Type κ) (before : A → A → Bool) (rs : List A) → All P rs → All P (order_by before rs)
  unfolding order_by
  All-order_by P before [] all = tt
  All-order_by P before (r ∷ rs) all =
      All-insert_by P before r (order_by before rs) all.0 (All-order_by P before rs all.1)

  pub All-of_order_by {κ} :
      (P : A → Type κ) (before : A → A → Bool) (rs : List A) → All P (order_by before rs) → All P rs
  unfolding order_by
  All-of_order_by P before [] all = tt
  All-of_order_by P before (r ∷ rs) all =
      let (h, rest) = All-of_insert_by P before r (order_by before rs) all in
      (h, All-of_order_by P before rs rest)

  pub All-select_where {κ} :
      (P : A → Type κ) (p : A → Bool) (rs : List A)
      → All (λ r. p r ≡ true → P r) rs
      → All P (select_where p rs)
  unfolding select_where
  All-select_where P p [] all = tt
  All-select_where P p (r ∷ rs) all = elim (Bool-cases (p r)) [
    | inl e ↦ rw e (all.0 e, All-select_where P p rs all.1)
    | inr e ↦ rw e (All-select_where P p rs all.1)
  ]

  pub All-of_select_where {κ} :
      (P : A → Type κ) (p : A → Bool) (rs : List A)
      → All P (select_where p rs)
      → All (λ r. p r ≡ true → P r) rs
  unfolding select_where
  All-of_select_where P p [] all = tt
  All-of_select_where P p (r ∷ rs) all = elim (Bool-cases (p r)) [
    | inl e ↦
        let both = rw (e, select_where) at all in (λ _. both.0, All-of_select_where P p rs both.1)
    | inr e ↦
        let rest = rw (e, select_where) at all in
        (λ h. absurd (ground arith), All-of_select_where P p rs rest)
  ]

  pub All-true : (p : A → Bool) (rs : List A) → ((r : A) → p r ≡ true) → All (λ r. p r ≡ true) rs
  All-true p [] h = tt
  All-true p (r ∷ rs) h = (h r, All-true p rs h)

  -- The row that such a query yields first was selected, and has what every row of the table has.
  pub first_where_selected {κ} :
      (P : A → Type κ) (before : A → A → Bool) (p q : A → Bool) (rows : List A) {r : A}
      → All P rows
      → first_where p (order_by before (select_where q rows)) ≡ some r
      → (q r ≡ true) × P r
  first_where_selected P before p q rows {r} all h =
      first_where-All (λ s. (q s ≡ true) × P s) p (order_by before (select_where q rows)) {r = r}
        (All-order_by (λ s. (q s ≡ true) × P s) before (select_where q rows)
          (All-select_where (λ s. (q s ≡ true) × P s) q rows (All-map (λ s k e. (e, k)) rows all)))
        h

-- An order that is total and transitive.
module _ {ℓ} {A : Type ℓ} (before : A → A → Bool)
    (total : (a b : A) → before a b ≡ false → before b a ≡ true)
    (trans : (a b c : A) → before a b ≡ true → before b c ≡ true → before a c ≡ true) where
  reflexive : (a : A) → before a a ≡ true
  reflexive a = elim (Bool-cases (before a a)) [ inl e ↦ e | inr e ↦ total a a e ]

  insert_by-IsOrdered :
      (a : A) (rs : List A) → IsOrdered before rs → IsOrdered before (insert_by before a rs)
  unfolding insert_by
  insert_by-IsOrdered a [] o = (tt, tt)
  insert_by-IsOrdered a (r ∷ rs) o = elim (Bool-cases (before a r)) [
    | inl e ↦ rw e ((e, All-map (λ s h. trans a r s e h) rs o.0), o)
    | inr e ↦ rw e (
      All-insert_by (λ s. before r s ≡ true) before a rs (total a r e) o.0,
      insert_by-IsOrdered a rs o.1,
    )
  ]

  pub order_by-IsOrdered : (rs : List A) → IsOrdered before (order_by before rs)
  unfolding order_by
  order_by-IsOrdered [] = tt
  order_by-IsOrdered (r ∷ rs) = insert_by-IsOrdered r (order_by before rs) (order_by-IsOrdered rs)

  -- In an ordered list the first row that meets a condition is before each row that does.
  first_where-before :
      (p : A → Bool) (rs : List A) {r : A}
      → IsOrdered before rs
      → first_where p rs ≡ some r
      → All (λ s. p s ≡ true → before r s ≡ true) rs
  unfolding first_where
  first_where-before p [] o h = tt
  first_where-before p (s ∷ rs) {r} o h = elim (Bool-cases (p s)) [
    | inl e ↦
        let same : s ≡ r = ground arith in
        (
          λ _. subst (λ x. before r x ≡ true) (sym same) (reflexive r),
          All-map (λ t b _. subst (λ x. before x t ≡ true) same b) rs o.0,
        )
    | inr e ↦ (λ q. absurd (ground arith), first_where-before p rs o.1 (ground arith))
  ]

  -- The same of `SELECT … WHERE … ORDER BY`, for every row of the table that is selected.
  pub first_where-order_by :
      (p q : A → Bool) (rows : List A) {r : A}
      → first_where p (order_by before (select_where q rows)) ≡ some r
      → All (λ s. q s ≡ true → p s ≡ true → before r s ≡ true) rows
  first_where-order_by p q rows {r} h =
      All-of_select_where (λ s. p s ≡ true → before r s ≡ true) q rows
        (All-of_order_by (λ s. p s ≡ true → before r s ≡ true) before (select_where q rows)
          (first_where-before p _ (order_by-IsOrdered (select_where q rows)) h))

-- ===== src/Sql/Laws.antt =====
-- Laws of the statements: what an update, a deletion and an append do to a row that is looked up,
-- to the number of rows that meet a condition, and to a predicate that holds of every row.
use mathlib.Core.Path.{subst}
use issueq.Prelude.{
  ◌+◌, ◌≡◌, refl, Bool, true, false, Option, none, some, List, [], ◌∷◌, ◌++◌, inl, inr, arith,
  if◌then◌else◌, All, Bool-cases, ◌≤◌, ◌<◌,
}
use issueq.Sql.{update_where, count_where, first_where, delete_where}

module _ {ℓ} {A : Type ℓ} where
  pub All-map {κ μ} :
      {P : A → Type κ} {Q : A → Type μ} (step : (r : A) → P r → Q r) (rs : List A)
      → All P rs
      → All Q rs
  All-map step [] all = tt
  All-map step (r ∷ rs) all = (step r all.0, All-map step rs all.1)

  pub All-map₂ {κ μ ν} :
      {P : A → Type κ} {Q : A → Type μ} {R : A → Type ν} (step : (r : A) → P r → Q r → R r)
      (rs : List A)
      → All P rs
      → All Q rs
      → All R rs
  All-map₂ step [] ps qs = tt
  All-map₂ step (r ∷ rs) ps qs = (step r ps.0 qs.0, All-map₂ step rs ps.1 qs.1)

module _ {ℓ} {A : Type ℓ} where
  -- What an update makes of one row.
  abbrev pub updated : (A → Bool) → (A → A) → Option A → Option A
  updated p f none = none
  updated p f (some r) = if p r then some (f r) else some r

  pub first_where-update :
      (q p : A → Bool) (f : A → A)
      → ((r : A) → p r ≡ true → q (f r) ≡ q r)
      → (rows : List A) → first_where q (update_where p f rows) ≡ updated p f (first_where q rows)
  unfolding first_where update_where
  first_where-update q p f keep [] = refl
  first_where-update q p f keep (r ∷ rows) =
      ground (arith, keep r, first_where-update q p f keep rows)

  pub first_where-append :
      (q : A → Bool) (rows : List A) (r : A)
      → first_where q (rows ++ r ∷ [])
        ≡ elim (first_where q rows) [ none ↦ if q r then some r else none | some s ↦ some s ]
  unfolding first_where
  first_where-append q [] r = ground arith
  first_where-append q (s ∷ rows) r = ground (arith, first_where-append q rows r)

  pub first_where-meets :
      (q : A → Bool) (rows : List A) {r : A} → first_where q rows ≡ some r → q r ≡ true
  unfolding first_where
  first_where-meets q [] h = ground arith
  first_where-meets q (s ∷ rows) {r} h = ground (arith, first_where-meets q rows {r = r})

  pub first_where-All {κ} :
      (P : A → Type κ) (q : A → Bool) (rows : List A) {r : A}
      → All P rows
      → first_where q rows ≡ some r
      → P r
  unfolding first_where
  first_where-All P q [] all h = absurd (ground arith)
  first_where-All P q (s ∷ rows) {r} all h = elim (Bool-cases (q s)) [
    | inl e ↦ let same : s ≡ r = ground arith in subst P same all.0
    | inr e ↦ first_where-All P q rows all.1 (ground arith)
  ]

  pub All-update {κ} :
      (P : A → Type κ) (p : A → Bool) (f : A → A)
      → ((r : A) → p r ≡ true → P r → P (f r))
      → (rows : List A) → All P rows
      → All P (update_where p f rows)
  unfolding update_where
  All-update P p f keep [] all = tt
  All-update P p f keep (r ∷ rows) all = (
    elim (Bool-cases (p r)) [ inl e ↦ rw e (keep r e all.0) | inr e ↦ rw e all.0 ],
    All-update P p f keep rows all.1,
  )

  pub All-append {κ} :
      (P : A → Type κ) (rows : List A) (r : A) → All P rows → P r → All P (rows ++ r ∷ [])
  All-append P [] r all h = (h, tt)
  All-append P (s ∷ rows) r all h = (all.0, All-append P rows r all.1 h)

  pub count_where-append :
      (p : A → Bool) (rows : List A) (r : A)
      → count_where p (rows ++ r ∷ []) ≡ count_where p rows + (if p r then 1 else 0)
  unfolding count_where
  count_where-append p [] r = ground arith
  count_where-append p (s ∷ rows) r = ground (arith, count_where-append p rows r)

  -- An update that keeps a condition on every row keeps its count.
  pub count_where-update_same :
      (q p : A → Bool) (f : A → A)
      → ((r : A) → p r ≡ true → q (f r) ≡ q r)
      → (rows : List A) → count_where q (update_where p f rows) ≡ count_where q rows
  unfolding count_where update_where
  count_where-update_same q p f keep [] = refl
  count_where-update_same q p f keep (r ∷ rows) =
      ground (arith, keep r, count_where-update_same q p f keep rows)

  -- An update that turns the condition on adds the rows it affects.
  pub count_where-update_on :
      (q p : A → Bool) (f : A → A)
      → ((r : A) → p r ≡ true → q r ≡ false)
      → ((r : A) → p r ≡ true → q (f r) ≡ true)
      → (rows : List A)
      → count_where q (update_where p f rows) ≡ count_where q rows + count_where p rows
  unfolding count_where update_where
  count_where-update_on q p f off on [] = refl
  count_where-update_on q p f off on (r ∷ rows) =
      ground (arith, off r, on r, count_where-update_on q p f off on rows)

  -- The rows that an update affects meet a condition that it brings about.
  pub count_where-update_meets :
      (q p : A → Bool) (f : A → A)
      → ((r : A) → p r ≡ true → q (f r) ≡ true)
      → (rows : List A) → count_where p rows ≤ count_where q (update_where p f rows)
  unfolding count_where update_where
  count_where-update_meets q p f meets [] = omega arith
  count_where-update_meets q p f meets (r ∷ rows) =
      ground (arith, meets r, count_where-update_meets q p f meets rows)

  pub update_where-none :
      (p : A → Bool) (f : A → A) (rows : List A)
      → count_where p rows ≡ 0
      → update_where p f rows ≡ rows
  unfolding count_where update_where
  update_where-none p f [] h = refl
  update_where-none p f (r ∷ rows) h = ground (arith, update_where-none p f rows)

  pub count_where-first_none :
      (q : A → Bool) (rows : List A) → first_where q rows ≡ none → count_where q rows ≡ 0
  unfolding first_where count_where
  count_where-first_none q [] h = refl
  count_where-first_none q (r ∷ rows) h = ground (arith, count_where-first_none q rows)

  pub All-of_first_none :
      (q : A → Bool) (rows : List A) → first_where q rows ≡ none → All (λ r. q r ≡ false) rows
  unfolding first_where
  All-of_first_none q [] h = tt
  All-of_first_none q (r ∷ rows) h = (ground arith, All-of_first_none q rows (ground arith))

  pub count_where-delete :
      (q p : A → Bool) (rows : List A)
      → count_where q rows ≡ 0
      → count_where q (delete_where p rows) ≡ 0
  unfolding count_where delete_where
  count_where-delete q p [] h = refl
  count_where-delete q p (r ∷ rows) h = ground (arith, count_where-delete q p rows)

  pub count_where-update_le :
      (q p : A → Bool) (f : A → A) (rows : List A)
      → count_where q (update_where p f rows) ≤ count_where q rows + count_where p rows
  unfolding count_where update_where
  count_where-update_le q p f [] = omega arith
  count_where-update_le q p f (r ∷ rows) = ground (arith, count_where-update_le q p f rows)

  pub All-of_count_zero :
      (q : A → Bool) (rows : List A) → count_where q rows ≡ 0 → All (λ r. q r ≡ false) rows
  unfolding count_where
  All-of_count_zero q [] h = tt
  All-of_count_zero q (r ∷ rows) h = (ground arith, All-of_count_zero q rows (ground arith))

  -- A row counts under a condition that it meets itself.
  pub count_where_self :
      (p : A → A → Bool) (q : A → Bool)
      → ((r : A) → q r ≡ true → p r r ≡ true)
      → (rows : List A) → All (λ r. q r ≡ true → 0 < count_where (p r) rows) rows
  unfolding count_where
  count_where_self p q h [] = tt
  count_where_self p q h (r ∷ rows) = (
    λ e. ground (arith, h r e),
    All-map (λ s k e. ground (arith, k e)) rows (count_where_self p q h rows),
  )

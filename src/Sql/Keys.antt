-- ===== src/Sql/Keys.antt =====
-- Laws of a table with a text key: the key of a row finds it, and the statements keep keys unique.
use issueq.Prelude.{
  String, ◌≡◌, refl, ap, ◌∙◌, Bool, true, false, none, some, List, [], ◌∷◌, ◌++◌, inl, inr, arith,
  if◌then◌else◌, All, Bool-cases, str_eq, eq_iff, eq_refl,
}
use issueq.Sql.{update_where, delete_where, count_where, first_where}
use issueq.Sql.Laws.{
  All-map₂, All-of_count_zero, count_where-append, count_where-update_same, count_where-delete,
}

module _ {ℓ} {A : Type ℓ} (key : A → String) where
  abbrev pub has_key : String → A → Bool
  has_key k r = str_eq (key r) k

  -- No two rows have the same key.
  abbrev pub HasUniqueKeys : List A → Type 0
  HasUniqueKeys [] = Unit
  HasUniqueKeys (r ∷ rows) = (count_where (has_key (key r)) rows ≡ 0) × HasUniqueKeys rows

  pub count_where_zero :
      (p q : A → Bool)
      → ((r : A) → p r ≡ true → q r ≡ true)
      → (rows : List A) → count_where q rows ≡ 0
      → count_where p rows ≡ 0
  unfolding count_where
  count_where_zero p q sub [] h = refl
  count_where_zero p q sub (r ∷ rows) h = ground (arith, sub r, count_where_zero p q sub rows)

  -- A condition that fixes the key is met by at most the one row that has it.
  pub count_where-key :
      (p : A → Bool) (k : String)
      → ((r : A) → p r ≡ true → has_key k r ≡ true)
      → (rows : List A) → HasUniqueKeys rows
      → count_where p rows
        ≡ elim (first_where (has_key k) rows) [ none ↦ 0 | some r ↦ if p r then 1 else 0 ]
  unfolding count_where first_where
  count_where-key p k sub [] u = refl
  count_where-key p k sub (r ∷ rows) u = elim (Bool-cases (has_key k r)) [
    | inl e ↦
        let same : key r ≡ k = (eq_iff (key r) k).0 e in
        let rest : count_where p rows ≡ 0 =
          count_where_zero p (has_key k) sub rows (rw (← same) u.0) in
        ground (arith, e, rest)
    | inr e ↦ ground (arith, e, sub r, count_where-key p k sub rows u.1)
  ]

  key-if :
      (b : Bool) (f : A → A) (r : A)
      → (b ≡ true → key (f r) ≡ key r)
      → key (if b then f r else r) ≡ key r
  key-if true f r h = h refl
  key-if false f r h = refl

  pub HasUniqueKeys-update :
      (p : A → Bool) (f : A → A)
      → ((r : A) → p r ≡ true → key (f r) ≡ key r)
      → (rows : List A) → HasUniqueKeys rows
      → HasUniqueKeys (update_where p f rows)
  unfolding update_where
  HasUniqueKeys-update p f keep [] u = tt
  HasUniqueKeys-update p f keep (r ∷ rows) u = (
    rw (key-if (p r) f r (keep r)) (
        count_where-update_same (has_key (key r)) p f (λ s e. ap (λ k. str_eq k (key r)) (keep s e))
          rows
        ∙ u.0),
    HasUniqueKeys-update p f keep rows u.1,
  )

  pub HasUniqueKeys-append :
      (rows : List A) (r : A)
      → HasUniqueKeys rows
      → count_where (has_key (key r)) rows ≡ 0
      → HasUniqueKeys (rows ++ r ∷ [])
  unfolding count_where
  HasUniqueKeys-append [] r u h = (refl, tt)
  HasUniqueKeys-append (s ∷ rows) r u h = (
    ground (
      arith,
      u.0,
      h,
      count_where-append (has_key (key s)) rows r,
      eq_iff (key s) (key r),
      eq_iff (key r) (key s),
    ),
    HasUniqueKeys-append rows r u.1 (ground (arith, h)),
  )

  pub HasUniqueKeys-delete :
      (p : A → Bool) (rows : List A) → HasUniqueKeys rows → HasUniqueKeys (delete_where p rows)
  unfolding delete_where
  HasUniqueKeys-delete p [] u = tt
  HasUniqueKeys-delete p (r ∷ rows) u = elim (Bool-cases (p r)) [
    | inl e ↦ rw e (HasUniqueKeys-delete p rows u.1)
    | inr e ↦
        rw e (count_where-delete (has_key (key r)) p rows u.0, HasUniqueKeys-delete p rows u.1)
  ]

  -- A row is the one that its key finds.
  pub first_where_self :
      (rows : List A)
      → HasUniqueKeys rows
      → All (λ r. first_where (has_key (key r)) rows ≡ some r) rows
  unfolding first_where
  first_where_self [] u = tt
  first_where_self (r ∷ rows) u = (
    ground (arith, eq_refl (key r)),
    All-map₂
        (λ s off found. ground (arith, off, found, eq_iff (key r) (key s), eq_iff (key s) (key r)))
        rows (All-of_count_zero (has_key (key r)) rows u.0) (first_where_self rows u.1),
  )

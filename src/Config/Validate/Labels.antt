-- ===== src/Config/Validate/Labels.antt =====
-- Which actions pass the validation.
use issueq.Prelude.{
  ◌+◌, ◌≤◌, String, ◌≡◌, refl, ap, ◌↔◌, Bool, true, false, not, List, [], ◌∷◌, ◌++◌, ◌&&◌,
  Bool-cases, inl, inr, one_if, occurrences, str_eq, str_leb, contains, append, arith,
}
use issueq.Prelude.Text.Equal.{same_text, str_eq_self}
use issueq.Sql.{order_by, insert_by}
use issueq.Config.{ActionConfig}
use issueq.Config.Validate.{
  Texts, error_if, duplicate_labels, common_labels, conflict_errors, validate_action,
}

pub none_of_both : {A : Type 0} (xs ys : List A) → xs ++ ys ≡ [] → (xs ≡ []) × (ys ≡ [])
none_of_both [] ys h = (refl, h)
none_of_both (x ∷ xs) ys h = absurd cc

pub both_none : {A : Type 0} {xs ys : List A} → xs ≡ [] → ys ≡ [] → xs ++ ys ≡ []
both_none h k = rw (h, k)

pub no_error : (b : Bool) (message : String) → error_if b message ≡ [] → b ≡ false
no_error false message h = refl
no_error true message h = absurd cc

no_error_if : (b : Bool) (message : String) → b ≡ false → error_if b message ≡ []
no_error_if b message h = rw h

-- No label is in the list more than once, or is in it and among those seen.
abbrev pub AtMostOnce : List String → List String → Type 0
AtMostOnce seen ls = (l : String) → one_if (contains seen l) + occurrences ls l ≤ 1

not_seen :
    (seen : List String) (x l : String)
    → contains seen x ≡ false
    → one_if (contains (x ∷ seen) l) ≡ one_if (str_eq x l) + one_if (contains seen l)
not_seen seen x l h = elim (Bool-cases (str_eq x l)) [
  | inl e ↦
      let at : contains seen x ≡ contains seen l = ap (contains seen) (same_text e) in ground arith
  | inr e ↦ ground arith
]

module _ (t : Texts) where
  duplicates-AtMostOnce :
      (path : String) (seen ls : List String)
      → duplicate_labels t path seen ls ≡ []
      → (l : String) → one_if (contains seen l) + occurrences ls l ≤ 1
  unfolding duplicate_labels
  duplicates-AtMostOnce path seen [] h l = ground arith
  duplicates-AtMostOnce path seen (x ∷ xs) h l =
      let (here, rest) = none_of_both _ _ h in
      let ih = duplicates-AtMostOnce path (x ∷ seen) xs rest l in
      let at = not_seen seen x l (no_error (contains seen x) _ here) in omega arith

  AtMostOnce-duplicates :
      (path : String) (seen ls : List String)
      → AtMostOnce seen ls
      → duplicate_labels t path seen ls ≡ []
  unfolding duplicate_labels
  AtMostOnce-duplicates path seen [] h = refl
  AtMostOnce-duplicates path seen (x ∷ xs) h =
      let own = str_eq_self x in
      let here = h x in
      let fresh : contains seen x ≡ false = ground arith in
      both_none (no_error_if (contains seen x) _ fresh) (
        AtMostOnce-duplicates path (x ∷ seen) xs
          (λ l. let at = h l in let more = not_seen seen x l fresh in omega arith))

  no_conflict :
      (seen ls others : List String)
      → common_labels t seen ls others ≡ []
      → (l : String) → contains seen l ≡ false
      → (contains ls l && contains others l) ≡ false
  unfolding common_labels
  no_conflict seen [] others h l k = refl
  no_conflict seen (x ∷ xs) others h l k =
      elim (Bool-cases (not (contains seen x) && contains others x)) [
        | inl e ↦ let no : x ∷ common_labels t (x ∷ seen) xs others ≡ [] = rw e at h in absurd cc
        | inr e ↦
            let rest : common_labels t (x ∷ seen) xs others ≡ [] = rw e at h in
            elim (Bool-cases (str_eq x l)) [
              | inl same ↦
                  let s : contains seen x ≡ contains seen l = ap (contains seen) (same_text same) in
                  let o : contains others x ≡ contains others l =
                    ap (contains others) (same_text same) in
                  ground arith
              | inr other ↦
                  let ih = no_conflict (x ∷ seen) xs others rest l (ground arith) in ground arith
            ]
      ]

  conflict_free :
      (seen ls others : List String)
      → ((l : String) → (contains ls l && contains others l) ≡ false)
      → common_labels t seen ls others ≡ []
  unfolding common_labels
  conflict_free seen [] others h = refl
  conflict_free seen (x ∷ xs) others h =
      let own = str_eq_self x in
      let here = h x in
      let out : (not (contains seen x) && contains others x) ≡ false = ground arith in
      rw out (conflict_free (x ∷ seen) xs others (λ l. let at = h l in ground arith))

  insert_by_some : (x : String) (xs : List String) → insert_by str_leb x xs ≡ [] → ⊥
  unfolding insert_by
  insert_by_some x [] h = cc
  insert_by_some x (y ∷ ys) h = elim (Bool-cases (str_leb x y)) [
    | inl e ↦ let no : x ∷ y ∷ ys ≡ [] = rw e at h in cc
    | inr e ↦ let no : y ∷ insert_by str_leb x ys ≡ [] = rw e at h in cc
  ]

  sorted_none :
      (prefix : String) (xs : List String)
      → conflict_errors t prefix (order_by str_leb xs) ≡ []
      → xs ≡ []
  unfolding order_by
  sorted_none prefix [] h = refl
  sorted_none prefix (x ∷ xs) h = absurd (some_errors _ h (insert_by_some x (order_by str_leb xs)))
    where
      some_errors : (ys : List String) → conflict_errors t prefix ys ≡ [] → (ys ≡ [] → ⊥) → ⊥
      some_errors [] h k = k refl
      some_errors (y ∷ ys) h k = cc

  -- An action that adds and removes no label twice, and none of which is both added and removed.
  pub record IsClean (a : ActionConfig) : Type 0 where
    pub adds_once : AtMostOnce [] a.labels_add
    pub removes_once : AtMostOnce [] a.labels_remove
    pub disjoint : (l : String) → (contains a.labels_add l && contains a.labels_remove l) ≡ false

  -- The validation of an action finds no error exactly if it adds no label twice, removes none
  -- twice, and adds none that it removes.
  pub validate_action_iff :
      (path : String) (a : ActionConfig) → (validate_action t path a ≡ []) ↔ IsClean a
  unfolding validate_action
  validate_action_iff path a = (forward, backward)
    where
      forward : validate_action t path a ≡ [] → IsClean a
      forward h =
          let adding = duplicate_labels t (append path ".labels_add") [] a.labels_add in
          let removing = duplicate_labels t (append path ".labels_remove") [] a.labels_remove in
          let both = common_labels t [] a.labels_add a.labels_remove in
          let clashes =
            conflict_errors t (append path " adds and removes label ") (order_by str_leb both) in
          let (rest, conflicts) = none_of_both (adding ++ removing) clashes h in
          let (adds, removes) = none_of_both adding removing rest in
          record {
            adds_once = duplicates-AtMostOnce _ [] a.labels_add adds;
            removes_once = duplicates-AtMostOnce _ [] a.labels_remove removes;
            disjoint =
                λ l. no_conflict [] a.labels_add a.labels_remove (sorted_none _ _ conflicts) l refl;
          }

      backward : IsClean a → validate_action t path a ≡ []
      backward clean =
          both_none
            (both_none (AtMostOnce-duplicates _ [] a.labels_add clean.adds_once)
              (AtMostOnce-duplicates _ [] a.labels_remove clean.removes_once))
            (rw (conflict_free [] a.labels_add a.labels_remove clean.disjoint, order_by))

-- ===== src/Actions/Merging.antt =====
-- What merging does to each label.
use issueq.Prelude.{
  String, ◌≡◌, refl, sym, ap, ◌∙◌, Bool, true, false, not, List, [], ◌∷◌, ◌++◌, ◌||◌, ◌&&◌,
  Bool-cases, inl, inr, str_eq, contains, arith,
}
use issueq.Prelude.Text.Equal.{same_text, other_text}
use issueq.Config.{ActionConfig}
use issueq.Actions.{ResultAction, add_all, remove_all, merge}
use issueq.Actions.Labels.{LabelSet, remove_without, add_label, drop_label, add_labels, ordered_set}

contains-snoc :
    (ls : List String) (x l : String) → contains (ls ++ x ∷ []) l ≡ (contains ls l || str_eq x l)
contains-snoc [] x l = ground arith
contains-snoc (y ∷ ys) x l = let ih = contains-snoc ys x l in ground arith

pub contains-remove_without :
    (ls : List String) (x l : String)
    → contains (remove_without ls x) l ≡ (contains ls l && not (str_eq x l))
contains-remove_without [] x l = refl
contains-remove_without (y ∷ ys) x l =
    let ih = contains-remove_without ys x l in
    elim (Bool-cases (str_eq y x)) [
      | inl e ↦
          let at : str_eq y l ≡ str_eq x l = ap (λ z. str_eq z l) (same_text e) in ground arith
      | inr e ↦ elim (Bool-cases (str_eq y l)) [
        | inl k ↦ let other = other_text y x l e k in ground arith
        | inr k ↦ ground arith
      ]
    ]

contains_same :
    (ls : List String) (x l : String)
    → contains ls x ≡ true
    → contains ls l ≡ (contains ls l || str_eq x l)
contains_same ls x l h = elim (Bool-cases (str_eq x l)) [
  | inl e ↦ let at : contains ls x ≡ contains ls l = ap (contains ls) (same_text e) in ground arith
  | inr e ↦ ground arith
]

-- A set that is aligned, and whose labels are those of a test.
pub record Holds (s : LabelSet) (f : String → Bool) : Type 0 where
  pub aligned : (l : String) → contains s.seen l ≡ contains s.values l
  pub labels : (l : String) → contains s.values l ≡ f l

add_label-Holds :
    (x : String) (s : LabelSet) {f : String → Bool}
    → Holds s f
    → Holds (add_label x s) (λ l. f l || str_eq x l)
add_label-Holds x s {f} h = elim (Bool-cases (contains s.seen x)) [
  | inl e ↦ rw e (record {
    aligned = h.aligned;
    labels = λ l.
        contains_same s.values x l (sym (h.aligned x) ∙ e) ∙ ap (λ b. b || str_eq x l) (h.labels l);
  })
  | inr e ↦ rw e (record {
    aligned = λ l. let at = h.aligned l in let snoc = contains-snoc s.values x l in ground arith;
    labels = λ l. contains-snoc s.values x l ∙ ap (λ b. b || str_eq x l) (h.labels l);
  })
]

drop_label-Holds :
    (x : String) (s : LabelSet) {f : String → Bool}
    → Holds s f
    → Holds (drop_label x s) (λ l. f l && not (str_eq x l))
drop_label-Holds x s h = record {
  aligned = λ l.
      contains-remove_without s.seen x l
      ∙ ap (λ b. b && not (str_eq x l)) (h.aligned l)
      ∙ sym (contains-remove_without s.values x l);
  labels = λ l. contains-remove_without s.values x l ∙ ap (λ b. b && not (str_eq x l)) (h.labels l);
}

with_labels :
    {s : LabelSet} {f : String → Bool} (g : String → Bool)
    → ((l : String) → f l ≡ g l)
    → Holds s f
    → Holds s g
with_labels g same h = record { aligned = h.aligned; labels = λ l. h.labels l ∙ same l }

add_labels-Holds :
    (labels : List String) (s : LabelSet) {f : String → Bool}
    → Holds s f
    → Holds (add_labels labels s) (λ l. f l || contains labels l)
add_labels-Holds [] s {f} h = with_labels _ (λ l. ground arith) h
add_labels-Holds (x ∷ xs) s {f} h =
    with_labels _ (λ l. ground arith) (add_labels-Holds xs (add_label x s) (add_label-Holds x s h))

ordered_set-Holds : (labels : List String) → Holds (ordered_set labels) (contains labels)
ordered_set-Holds labels =
    add_labels-Holds labels _ {f = λ l. false} (record { aligned = λ l. refl; labels = λ l. refl })

add_all-Holds :
    (labels : List String) (add remove : LabelSet) {f g : String → Bool}
    → Holds add f
    → Holds remove g
    → Holds (add_all labels add remove).0 (λ l. f l || contains labels l)
      × Holds (add_all labels add remove).1 (λ l. g l && not (contains labels l))
unfolding add_all
add_all-Holds [] add remove h k =
    (with_labels _ (λ l. ground arith) h, with_labels _ (λ l. ground arith) k)
add_all-Holds (x ∷ xs) add remove h k =
    let (a, r) =
      add_all-Holds xs (add_label x add) (drop_label x remove) (add_label-Holds x add h)
        (drop_label-Holds x remove k) in
    (with_labels _ (λ l. ground arith) a, with_labels _ (λ l. ground arith) r)

remove_all-Holds :
    (labels : List String) (add remove : LabelSet) {f g : String → Bool}
    → Holds add f
    → Holds remove g
    → Holds (remove_all labels add remove).0 (λ l. f l && not (contains labels l))
      × Holds (remove_all labels add remove).1 (λ l. g l || contains labels l)
unfolding remove_all
remove_all-Holds [] add remove h k =
    (with_labels _ (λ l. ground arith) h, with_labels _ (λ l. ground arith) k)
remove_all-Holds (x ∷ xs) add remove h k =
    let (a, r) =
      remove_all-Holds xs (drop_label x add) (add_label x remove) (drop_label-Holds x add h)
        (add_label-Holds x remove k) in
    (with_labels _ (λ l. ground arith) a, with_labels _ (λ l. ground arith) r)

-- The merged action adds exactly the labels that the configured action or the result adds and the
-- result does not remove, and removes exactly those that the result removes, or that the
-- configured action removes and the result does not add.
pub merge-labels :
    (base : ActionConfig) (result : ResultAction) (l : String)
    → (contains (merge base result).labels_add l ≡ (
        (contains base.labels_add l || contains result.labels_add l)
        && not (contains result.labels_remove l)))
      × (contains (merge base result).labels_remove l ≡ (
          (contains base.labels_remove l && not (contains result.labels_add l))
          || contains result.labels_remove l))
unfolding merge
merge-labels base result l =
    let (add, remove) =
      add_all-Holds result.labels_add _ _ (ordered_set-Holds base.labels_add)
        (ordered_set-Holds base.labels_remove) in
    let (add', remove') = remove_all-Holds result.labels_remove _ _ add remove in
    (add'.labels l, remove'.labels l)

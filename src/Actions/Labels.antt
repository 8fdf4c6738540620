-- ===== src/Actions/Labels.antt =====
-- actions.go: `labelSet`, `orderedSet`, `add`, `removeWithout`, `sameLabelSet`. A Go map from labels
-- is the list of its keys, or a function that is 0 at a missing key.
use issueq.Prelude.{
  ℕ, ◌+◌, ◌-◌, String, Bool, true, false, not, List, [], ◌∷◌, ◌++◌, ◌==◌, if◌then◌else◌, str_eq,
  contains, length,
}

pub record LabelSet : Type 0 where
  pub seen : List String
  pub values : List String

-- `removeWithout`; also `delete` on the keys.
abbrev pub remove_without : List String → String → List String
remove_without [] label = []
remove_without (l ∷ ls) label =
    let rest = remove_without ls label in if str_eq l label then rest else l ∷ rest

abbrev pub add_label : String → LabelSet → LabelSet
add_label label s =
    if contains s.seen label
    then s
    else record { seen = label ∷ s.seen; values = s.values ++ label ∷ [] }

abbrev pub drop_label : String → LabelSet → LabelSet
drop_label label s = record {
  seen = remove_without s.seen label;
  values = remove_without s.values label;
}

-- The loop of `orderedSet`.
abbrev pub add_labels : List String → LabelSet → LabelSet
add_labels [] s = s
add_labels (label ∷ labels) s = add_labels labels (add_label label s)

abbrev pub ordered_set : List String → LabelSet
ordered_set labels = add_labels labels (record { seen = []; values = [] })

abbrev pub Counts : Type 0
Counts = String → ℕ

abbrev pub set_count : String → ℕ → Counts → Counts
set_count label n counts l = if str_eq label l then n else counts l

unfoldable pub count_labels : List String → Counts → Counts
count_labels [] counts = counts
count_labels (label ∷ labels) counts =
    count_labels labels (set_count label (counts label + 1) counts)

-- A count that would become negative ends the loop.
unfoldable pub uncount_labels : List String → Counts → Bool
uncount_labels [] counts = true
uncount_labels (label ∷ labels) counts =
    let rest = uncount_labels labels (set_count label (counts label - 1) counts) in
    if counts label == 0 then false else rest

unfoldable pub same_label_set : List String → List String → Bool
unfolding count_labels uncount_labels
same_label_set a b =
    if not (length a == length b) then false else uncount_labels b (count_labels a (λ _. 0))

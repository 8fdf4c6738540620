-- ===== src/Actions/Sameness.antt =====
-- When two issues have the same labels.
use issueq.Prelude.{
  ℕ, suc, ◌+◌, ◌-◌, ◌≤◌, String, ◌≡◌, refl, ap, ◌↔◌, true, false, List, [], ◌∷◌, Bool-cases, inl,
  inr, if◌then◌else◌, one_if, occurrences, str_eq, arith, length, ◌==◌,
}
use issueq.Prelude.Text.Equal.{same_text, str_eq_self}
use issueq.Actions.Labels.{Counts, set_count, count_labels, uncount_labels, same_label_set}

set_count_lem :
    (x l : String) (n : ℕ) (c : Counts) → set_count x n c l ≡ (if str_eq x l then n else c l)
set_count_lem x l n c = refl

count_labels_lem :
    (ls : List String) (c : Counts) (l : String) → count_labels ls c l ≡ c l + occurrences ls l
unfolding count_labels
count_labels_lem [] c l = ground arith
count_labels_lem (x ∷ xs) c l =
    let ih = count_labels_lem xs (set_count x (c x + 1) c) l in
    let set = set_count_lem x l (c x + 1) c in
    elim (Bool-cases (str_eq x l)) [
      | inl e ↦ let at : c x ≡ c l = ap c (same_text e) in ground arith
      | inr e ↦ ground arith
    ]

-- The list has no label more often than the counts.
abbrev Within : List String → Counts → Type 0
Within ls c = (l : String) → occurrences ls l ≤ c l

uncount-Within : (ls : List String) (c : Counts) → uncount_labels ls c ≡ true → Within ls c
unfolding uncount_labels
uncount-Within [] c h l = omega arith
uncount-Within (x ∷ xs) c h l = elim (Bool-cases (c x == 0)) [
  | inl e ↦ let no : false ≡ true = rw e at h in absurd cc
  | inr e ↦
      let rest : uncount_labels xs (set_count x (c x - 1) c) ≡ true = rw e at h in
      let ih = uncount-Within xs (set_count x (c x - 1) c) rest l in
      let set = set_count_lem x l (c x - 1) c in
      elim (Bool-cases (str_eq x l)) [
        | inl k ↦ let at : c x ≡ c l = ap c (same_text k) in ground arith
        | inr k ↦ ground arith
      ]
]

Within-uncount : (ls : List String) (c : Counts) → Within ls c → uncount_labels ls c ≡ true
unfolding uncount_labels
Within-uncount [] c h = refl
Within-uncount (x ∷ xs) c h =
    let own : str_eq x x ≡ true = str_eq_self x in
    let at = h x in
    let positive : (c x == 0) ≡ false = ground arith in
    rw positive (
      Within-uncount xs (set_count x (c x - 1) c) (λ l.
        let here = h l in
        let set = set_count_lem x l (c x - 1) c in
        elim (Bool-cases (str_eq x l)) [
          | inl k ↦ let at : c x ≡ c l = ap c (same_text k) in ground arith
          | inr k ↦ ground arith
        ]))

-- A label that a list has can be taken out of it once.
take_out :
    (ls : List String) (x : String)
    → 1 ≤ occurrences ls x
    → (rest : List String) × (length ls ≡ suc (length rest))
      × ((l : String) → occurrences ls l ≡ one_if (str_eq x l) + occurrences rest l)
take_out [] x h = absurd (omega arith)
take_out (y ∷ ys) x h = elim (Bool-cases (str_eq y x)) [
  | inl e ↦ (ys, refl, λ l. ap (λ z. one_if (str_eq z l) + occurrences ys l) (same_text e))
  | inr e ↦
      let (rest, size, counts) = take_out ys x (ground arith) in
      (y ∷ rest, ap suc size, λ l. let at = counts l in omega arith)
]

-- No label more often, and the same length: every label equally often.
Within-same :
    (b a : List String)
    → length a ≡ length b
    → Within b (occurrences a)
    → (l : String) → occurrences a l ≡ occurrences b l
Within-same [] [] e h l = refl
Within-same [] (y ∷ ys) e h l = absurd (omega arith)
Within-same (x ∷ xs) a e h l =
    let own : str_eq x x ≡ true = str_eq_self x in
    let here = h x in
    let (rest, size, counts) = take_out a x (ground arith) in
    let same =
      Within-same xs rest (omega arith) (λ l. let at = h l in let more = counts l in omega arith)
        l in
    let at = counts l in omega arith

same_length :
    (b a : List String) → ((l : String) → occurrences a l ≡ occurrences b l) → length a ≡ length b
same_length [] [] h = refl
same_length [] (y ∷ ys) h =
    let own : str_eq y y ≡ true = str_eq_self y in let at = h y in absurd (ground arith)
same_length (x ∷ xs) a h =
    let own : str_eq x x ≡ true = str_eq_self x in
    let here = h x in
    let (rest, size, counts) = take_out a x (ground arith) in
    let same = same_length xs rest (λ l. let at = h l in let more = counts l in omega arith) in
    omega arith

-- The test for the same set of labels accepts exactly the lists that have each label equally
-- often.
pub same_label_set_iff :
    (a b : List String)
    → (same_label_set a b ≡ true) ↔ ((l : String) → occurrences a l ≡ occurrences b l)
unfolding same_label_set
same_label_set_iff a b = (forward, backward)
  where
    counted : (l : String) → count_labels a (λ _. 0) l ≡ occurrences a l
    counted l = let all = count_labels_lem a (λ _. 0) l in omega arith

    forward : same_label_set a b ≡ true → (l : String) → occurrences a l ≡ occurrences b l
    forward h = elim (Bool-cases (length a == length b)) [
      | inl e ↦
          let test : uncount_labels b (count_labels a (λ _. 0)) ≡ true = rw e at h in
          Within-same b a (ground arith)
            (λ l. let at = uncount-Within b _ test l in let same = counted l in omega arith)
      | inr e ↦ let no : false ≡ true = rw e at h in absurd cc
    ]

    backward : ((l : String) → occurrences a l ≡ occurrences b l) → same_label_set a b ≡ true
    backward h =
        let size = same_length b a h in
        let e : (length a == length b) ≡ true = ground arith in
        rw e (Within-uncount b _ (λ l. let at = h l in let same = counted l in omega arith))

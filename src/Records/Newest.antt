-- ===== src/Records/Newest.antt =====
-- The handoff that a query finds is the newest that it matches.
use issueq.Prelude.Text.Order.{str_leb_total, str_leb_trans}
use issueq.Prelude.{
  ◌≡◌, refl, sym, ◌∙◌, true, false, Option, none, some, List, [], ◌∷◌, arith, All, Bool-cases,
  Option-cases, inl, inr,
}
use issueq.Sql.{select_where, order_by, first_where}
use issueq.Sql.Laws.{All-map, All-of_first_none}
use issueq.Sql.Order.{
  first_where-order_by, first_where_selected, All-of_select_where, All-of_order_by,
}
use issueq.Model.{Handoff, HandoffQuery}
use issueq.Store.{HandoffRow, Db}
use issueq.Store.Scan.{scan_handoff}
use issueq.Store.Handoffs.{
  handoff_before, newest_before, matches_query, first_of_rows, latest_matching_handoff,
}

newest_before-total : (a b : HandoffRow) → newest_before a b ≡ false → newest_before b a ≡ true
unfolding newest_before handoff_before
newest_before-total a b h = ground (arith, str_leb_total b.id a.id)

newest_before_trans :
    (a b c : HandoffRow)
    → newest_before a b ≡ true
    → newest_before b c ≡ true
    → newest_before a c ≡ true
unfolding newest_before handoff_before
newest_before_trans a b c h k = ground (arith, str_leb_trans c.id b.id a.id)

All-unit : (rows : List HandoffRow) → All {0, 0} (λ _. Unit) rows
All-unit [] = tt
All-unit (r ∷ rs) = (tt, All-unit rs)

first_of_rows-eq : (rows : List HandoffRow) → first_of_rows rows ≡ first_where (λ _. true) rows
unfolding first_where
first_of_rows-eq [] = refl
first_of_rows-eq (r ∷ rs) = refl

abbrev matching_rows : HandoffQuery → Db → List HandoffRow
matching_rows q db = order_by newest_before (select_where (matches_query q) db.handoffs)

handoff_of : Option HandoffRow → Option Handoff
handoff_of none = none
handoff_of (some r) = some (scan_handoff r)

latest_lem :
    (q : HandoffQuery) (db : Db)
    → latest_matching_handoff q db ≡ handoff_of (first_of_rows (matching_rows q db))
unfolding latest_matching_handoff handoff_of
latest_lem q db = elim (Option-cases (first_of_rows (matching_rows q db))) [
  | inl e ↦ rw (e, latest_matching_handoff)
  | inr (r, e) ↦ rw (e, latest_matching_handoff)
]

row_of :
    (o : Option HandoffRow) {h : Handoff}
    → handoff_of o ≡ some h
    → (r : HandoffRow) × (o ≡ some r) × (h ≡ scan_handoff r)
unfolding handoff_of
row_of none e = absurd cc
row_of (some r) e = (r, refl, cc)

no_row : (o : Option HandoffRow) → handoff_of o ≡ none → o ≡ none
unfolding handoff_of
no_row none e = refl
no_row (some r) e = absurd cc

-- The handoff that a query finds is of a row that the query matches, and every row that it matches
-- is older, or as old with an id that does not come later.
pub latest_matching_handoff-newest :
    (q : HandoffQuery) (db : Db) {h : Handoff}
    → latest_matching_handoff q db ≡ some h
    → (r : HandoffRow) × (h ≡ scan_handoff r)
      × (matches_query q r ≡ true)
      × All (λ s. matches_query q s ≡ true → newest_before r s ≡ true) db.handoffs
latest_matching_handoff-newest q db e =
    let (r, found, same) =
      row_of (first_of_rows (matching_rows q db)) (sym (latest_lem q db) ∙ e) in
    let first : first_where (λ _. true) (matching_rows q db) ≡ some r =
      sym (first_of_rows-eq (matching_rows q db)) ∙ found in
    let selected =
      first_where_selected (λ _. Unit) newest_before (λ _. true) (matches_query q) db.handoffs
        (All-unit db.handoffs) first in
    (
      r,
      same,
      selected.0,
      All-map (λ s before m. before m refl) db.handoffs
          (first_where-order_by newest_before newest_before-total newest_before_trans (λ _. true)
            (matches_query q) db.handoffs first),
    )

-- A query that finds no handoff matches none.
pub latest_matching_handoff-none :
    (q : HandoffQuery) (db : Db)
    → latest_matching_handoff q db ≡ none
    → All (λ s. matches_query q s ≡ false) db.handoffs
latest_matching_handoff-none q db e =
    let empty = no_row (first_of_rows (matching_rows q db)) (sym (latest_lem q db) ∙ e) in
    let first : first_where (λ _. true) (matching_rows q db) ≡ none =
      sym (first_of_rows-eq (matching_rows q db)) ∙ empty in
    All-map
      (λ s unselected. elim (Bool-cases (matches_query q s)) [
        | inl m ↦ absurd (unselected m)
        | inr n ↦ n
      ])
      db.handoffs
      (All-of_select_where (λ _. ⊥) (matches_query q) db.handoffs
        (All-of_order_by (λ _. ⊥) newest_before (select_where (matches_query q) db.handoffs)
          (All-map (λ s f. cc) _ (All-of_first_none (λ _. true) _ first))))

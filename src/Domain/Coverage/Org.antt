-- ===== src/Domain/Coverage/Org.antt =====
-- lied/src/domain/coverage.rs: the one query of `for_org` gives the reports that `for_collection`
-- gives for each collection.
use mathlib.Core.List.{append-nil, append_assoc}
use lied.Prelude.{
  ℕ, ◌≡◌, ◌≢◌, refl, sym, ◌∙◌, ap, true, false, none, some, List, [], ◌∷◌, ◌++◌, map, All, All-imp,
  Pairs, ◌==◌, ==_of_ne, ==_refl, if◌then◌else◌,
}
use lied.Domain.Coverage.{
  ItemCoverage, CoverageReport, ItemRow, OrgRow, update_last, is_new, push_item, push_rows,
  item_of_row, collection_of, new_report, add_item, push_report, push_reports, with_totals,
  for_collection, for_org,
}

module _ {ℓ} {A : Type ℓ} where
  update_last-snoc :
      (f : A → A) (xs : List A) (x : A) → update_last f (xs ++ x ∷ []) ≡ xs ++ f x ∷ []
  unfolding update_last
  update_last-snoc f [] x = refl
  update_last-snoc f (y ∷ []) x = refl
  update_last-snoc f (y ∷ z ∷ xs) x = ap (λ ys. y ∷ ys) (update_last-snoc f (z ∷ xs) x)

  is_new-snoc :
      (id : A → ℕ) (key : ℕ) (xs : List A) (x : A)
      → is_new id key (xs ++ x ∷ []) ≡ (if id x == key then false else true)
  unfolding is_new
  is_new-snoc id key [] x = refl
  is_new-snoc id key (y ∷ []) x = refl
  is_new-snoc id key (y ∷ z ∷ xs) x = is_new-snoc id key (z ∷ xs) x

-- The row of `for_org` for a row of `for_collection`.
abbrev org_row : ℕ → ItemRow → OrgRow
org_row c row = record {
  collection_id = c;
  item_id = some row.item_id;
  item_index = some row.item_index;
  arrangement_id = some row.arrangement_id;
  arrangement_title = some row.arrangement_title;
  arrangement_slug = some row.arrangement_slug;
  arrangement_removed = some row.arrangement_removed;
  cells = row.cells;
}

-- The row of a collection without live items.
abbrev empty_row : ℕ → OrgRow
empty_row c = record {
  collection_id = c;
  item_id = none;
  item_index = none;
  arrangement_id = none;
  arrangement_title = none;
  arrangement_slug = none;
  arrangement_removed = some false;
  cells = record {
    voice_id = none;
    voice_name = none;
    instrument_id = none;
    assignee_username = none;
    assignee_display_name = none;
    assignment_id = none;
    notified_at = none;
    acknowledged_at = none;
  };
}

abbrev pub block_rows : ℕ → List ItemRow → List OrgRow
block_rows c [] = empty_row c ∷ []
block_rows c (row ∷ rows) = map (org_row c) (row ∷ rows)

-- The rows of `for_org`, from the rows of `for_collection` for each collection in its order.
abbrev pub org_rows : List (ℕ × List ItemRow) → List OrgRow
org_rows [] = []
org_rows ((c, rows) ∷ blocks) = block_rows c rows ++ org_rows blocks

abbrev raw : ℕ → List ItemCoverage → CoverageReport
raw c items = record (new_report c) { items = items }

push_reports-append :
    (xs ys : List OrgRow) (reports : List CoverageReport)
    → push_reports (xs ++ ys) reports ≡ push_reports ys (push_reports xs reports)
unfolding push_reports
push_reports-append [] ys reports = refl
push_reports-append (x ∷ xs) ys reports = push_reports-append xs ys (push_report x reports)

module _ (c : ℕ) (reports : List CoverageReport) where
  push_report_open :
      (row : OrgRow)
      → row.collection_id ≡ c
      → is_new collection_of c reports ≡ true
      → push_report row reports ≡ reports ++ add_item row (new_report c) ∷ []
  unfolding push_report
  push_report_open row e h = rw (e, h) (update_last-snoc (add_item row) reports (new_report c))

  push_report_in :
      (row : ItemRow) (items : List ItemCoverage)
      → push_report (org_row c row) (reports ++ raw c items ∷ [])
        ≡ reports ++ raw c (push_item (item_of_row row) row.cells items) ∷ []
  unfolding push_report add_item
  push_report_in row items =
      let seen = is_new-snoc collection_of c reports (raw c items) in
      rw (seen, ==_refl c) (update_last-snoc (add_item (org_row c row)) reports (raw c items))

  push_reports_in :
      (rows : List ItemRow) (items : List ItemCoverage)
      → push_reports (map (org_row c) rows) (reports ++ raw c items ∷ [])
        ≡ reports ++ raw c (push_rows rows items) ∷ []
  unfolding push_reports push_rows
  push_reports_in [] items = refl
  push_reports_in (row ∷ rows) items =
      ap (push_reports (map (org_row c) rows)) (push_report_in row items)
      ∙ (push_reports_in rows (push_item (item_of_row row) row.cells items))

  push_reports_block :
      (rows : List ItemRow)
      → is_new collection_of c reports ≡ true
      → push_reports (block_rows c rows) reports ≡ reports ++ raw c (push_rows rows []) ∷ []
  unfolding push_reports push_rows add_item
  push_reports_block [] h = push_report_open (empty_row c) refl h
  push_reports_block (row ∷ rows) h =
      ap (push_reports (map (org_row c) rows)) (push_report_open (org_row c row) refl h)
      ∙ (push_reports_in rows (push_item (item_of_row row) row.cells []))

abbrev raw_block : ℕ × List ItemRow → CoverageReport
raw_block (c, rows) = raw c (push_rows rows [])

push_reports-org_rows :
    (blocks : List (ℕ × List ItemRow)) (reports : List CoverageReport)
    → Pairs (λ a b. a.0 ≢ b.0) blocks
    → All (λ b. is_new collection_of b.0 reports ≡ true) blocks
    → push_reports (org_rows blocks) reports ≡ reports ++ map raw_block blocks
unfolding push_reports
push_reports-org_rows [] reports _ _ = sym (append-nil reports)
push_reports-org_rows ((c, rows) ∷ blocks) reports (d, ds) (h, hs) =
    let opened = raw c (push_rows rows []) in
    let fresh =
      All-imp (λ (b : ℕ × List ItemRow). c ≢ b.0)
        (λ b. is_new collection_of b.0 (reports ++ opened ∷ []) ≡ true)
        (λ b n. is_new-snoc collection_of b.0 reports opened ∙ rw (==_of_ne c b.0 n) refl) blocks
        d in
    push_reports-append (block_rows c rows) (org_rows blocks) reports
    ∙ ap (push_reports (org_rows blocks)) (push_reports_block c reports rows h)
    ∙ push_reports-org_rows blocks (reports ++ opened ∷ []) ds fresh
    ∙ append_assoc reports (opened ∷ []) (map raw_block blocks)

abbrev pub report_of : ℕ × List ItemRow → CoverageReport
report_of (c, rows) = for_collection c rows

totals_of_blocks :
    (blocks : List (ℕ × List ItemRow))
    → map with_totals (map raw_block blocks) ≡ map report_of blocks
unfolding for_collection
totals_of_blocks [] = refl
totals_of_blocks (b ∷ blocks) = ap (λ rs. report_of b ∷ rs) (totals_of_blocks blocks)

All-new : (blocks : List (ℕ × List ItemRow)) → All (λ b. is_new collection_of b.0 [] ≡ true) blocks
unfolding is_new
All-new [] = tt
All-new (b ∷ blocks) = (refl, All-new blocks)

-- The dashboard of an organization and the page of a collection cannot disagree: for the rows of
-- any collections with different ids, one collection after the other, `for_org` returns exactly the
-- reports that `for_collection` returns for each, in this order, with an empty report for a
-- collection without rows.
pub for_org-for_collection :
    (blocks : List (ℕ × List ItemRow))
    → Pairs (λ a b. a.0 ≢ b.0) blocks
    → for_org (org_rows blocks) ≡ map report_of blocks
unfolding for_org
for_org-for_collection blocks d =
    ap (map with_totals) (push_reports-org_rows blocks [] d (All-new blocks))
    ∙ totals_of_blocks blocks

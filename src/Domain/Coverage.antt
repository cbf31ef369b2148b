-- ===== src/Domain/Coverage.antt =====
-- lied/src/domain/coverage.rs: from the rows of the two queries to the reports.
pub mod Tally
pub mod Org
mod Examples
use lied.Prelude.{
  ℕ, suc, ◌+◌, Bool, true, false, Option, none, some, List, [], ◌∷◌, ◌++◌, map, ◌==◌, if◌then◌else◌,
}
use lied.Prelude.Int.{ℤ}
use lied.Prelude.Text.{Text}

pub data VoiceState : Type 0 where
  unassigned assigned rehearsed : VoiceState

pub record VoiceCoverage : Type 0 where
  pub voice_id : ℕ
  pub voice_name : Text
  pub instrument_id : ℕ
  pub state : VoiceState
  pub assignee_username : Option Text
  pub assignee_display_name : Option Text
  pub notified_at : Option ℕ
  pub acknowledged_at : Option ℕ

pub record ItemCoverage : Type 0 where
  pub item_id : ℕ
  pub index : ℤ
  pub arrangement_id : ℕ
  pub arrangement_title : Text
  pub arrangement_slug : Text
  pub arrangement_removed : Bool
  pub voices : List VoiceCoverage
  pub required : ℕ
  pub assigned : ℕ
  pub rehearsed : ℕ

pub record CoverageReport : Type 0 where
  pub collection_id : ℕ
  pub items : List ItemCoverage
  pub required : ℕ
  pub assigned : ℕ
  pub rehearsed : ℕ

unfoldable pub is_fully_assigned : CoverageReport → Bool
is_fully_assigned report = report.assigned == report.required

unfoldable pub classify : Option ℕ → Option ℕ → VoiceState
classify none acknowledged_at = unassigned
classify (some id) none = assigned
classify (some id) (some at) = rehearsed

-- The columns from `v`, `u` and `pa` that both queries have.
pub record VoiceCells : Type 0 where
  pub voice_id : Option ℕ
  pub voice_name : Option Text
  pub instrument_id : Option ℕ
  pub assignee_username : Option Text
  pub assignee_display_name : Option Text
  pub assignment_id : Option ℕ
  pub notified_at : Option ℕ
  pub acknowledged_at : Option ℕ

-- A row of the query of `for_collection`.
pub record ItemRow : Type 0 where
  pub item_id : ℕ
  pub item_index : ℤ
  pub arrangement_id : ℕ
  pub arrangement_title : Text
  pub arrangement_slug : Text
  pub arrangement_removed : Bool
  pub cells : VoiceCells

-- A row of the query of `for_org`.
pub record OrgRow : Type 0 where
  pub collection_id : ℕ
  pub item_id : Option ℕ
  pub item_index : Option ℤ
  pub arrangement_id : Option ℕ
  pub arrangement_title : Option Text
  pub arrangement_slug : Option Text
  pub arrangement_removed : Option Bool
  pub cells : VoiceCells

module _ {ℓ} {A : Type ℓ} where
  -- `items.last_mut()`
  unfoldable pub update_last : (A → A) → List A → List A
  update_last f [] = []
  update_last f (x ∷ []) = f x ∷ []
  update_last f (x ∷ y ∷ xs) = x ∷ update_last f (y ∷ xs)

  -- `items.last().map(id) != Some(key)`
  unfoldable pub is_new : (A → ℕ) → ℕ → List A → Bool
  is_new id key [] = true
  is_new id key (x ∷ []) = if id x == key then false else true
  is_new id key (x ∷ y ∷ xs) = is_new id key (y ∷ xs)

-- `item.required += 1` and the match on the state
abbrev pub count_state : VoiceState → ItemCoverage → ItemCoverage
count_state unassigned item = record item { required = suc item.required }
count_state assigned item = record item {
  required = suc item.required;
  assigned = suc item.assigned;
}
count_state rehearsed item = record item {
  required = suc item.required;
  assigned = suc item.assigned;
  rehearsed = suc item.rehearsed;
}

abbrev pub with_voice : VoiceCoverage → ItemCoverage → ItemCoverage
with_voice voice item = record item { voices = item.voices ++ voice ∷ [] }

abbrev pub voice_of : VoiceCells → ℕ → Text → ℕ → VoiceCoverage
voice_of cells id name instrument = record {
  voice_id = id;
  voice_name = name;
  instrument_id = instrument;
  state = classify cells.assignment_id cells.acknowledged_at;
  assignee_username = cells.assignee_username;
  assignee_display_name = cells.assignee_display_name;
  notified_at = cells.notified_at;
  acknowledged_at = cells.acknowledged_at;
}

-- The part of both loops from the `let … else { continue; }` on the voice.
unfoldable pub add_voice : VoiceCells → ItemCoverage → ItemCoverage
unfolding classify
add_voice cells item = elim cells.voice_id [
  | none ↦ item
  | some id ↦ elim cells.voice_name [
    | none ↦ item
    | some name ↦ elim cells.instrument_id [
      | none ↦ item
      | some instrument ↦
          let voice = voice_of cells id name instrument in
          with_voice voice (count_state voice.state item)
    ]
  ]
]

abbrev pub new_item : ℕ → ℤ → ℕ → Text → Text → Bool → ItemCoverage
new_item id index arrangement title slug removed = record {
  item_id = id;
  index = index;
  arrangement_id = arrangement;
  arrangement_title = title;
  arrangement_slug = slug;
  arrangement_removed = removed;
  voices = [];
  required = 0;
  assigned = 0;
  rehearsed = 0;
}

abbrev pub id_of : ItemCoverage → ℕ
id_of item = item.item_id

-- One round of the loop over the items.
unfoldable pub push_item : ItemCoverage → VoiceCells → List ItemCoverage → List ItemCoverage
unfolding update_last is_new add_voice
push_item fresh cells items =
    update_last (add_voice cells)
      (if is_new id_of fresh.item_id items then items ++ fresh ∷ [] else items)

abbrev pub item_of_row : ItemRow → ItemCoverage
item_of_row row =
    new_item row.item_id row.item_index row.arrangement_id row.arrangement_title
      row.arrangement_slug row.arrangement_removed

unfoldable pub push_rows : List ItemRow → List ItemCoverage → List ItemCoverage
unfolding push_item
push_rows [] items = items
push_rows (row ∷ rows) items = push_rows rows (push_item (item_of_row row) row.cells items)

unfoldable pub sum_of : (ItemCoverage → ℕ) → List ItemCoverage → ℕ
sum_of f [] = 0
sum_of f (item ∷ items) = f item + sum_of f items

-- The totals of a report.
abbrev pub totals : ℕ → List ItemCoverage → CoverageReport
totals collection_id items = record {
  collection_id = collection_id;
  items = items;
  required = sum_of (λ i. i.required) items;
  assigned = sum_of (λ i. i.assigned) items;
  rehearsed = sum_of (λ i. i.rehearsed) items;
}

-- `for_collection` behind its query.
unfoldable pub for_collection : ℕ → List ItemRow → CoverageReport
unfolding push_rows sum_of
for_collection collection_id rows = totals collection_id (push_rows rows [])

abbrev pub new_report : ℕ → CoverageReport
new_report id = record { collection_id = id; items = []; required = 0; assigned = 0; rehearsed = 0 }

abbrev pub or_default : Option Text → Text
or_default none = []
or_default (some t) = t

abbrev pub or_false : Option Bool → Bool
or_false none = false
or_false (some b) = b

-- The part of the loop from the `let … else { continue; }` on the item.
unfoldable pub add_item : OrgRow → CoverageReport → CoverageReport
unfolding push_item
add_item row report = elim row.item_id [
  | none ↦ report
  | some id ↦ elim row.item_index [
    | none ↦ report
    | some index ↦ elim row.arrangement_id [
      | none ↦ report
      | some arrangement ↦
          let fresh =
            new_item id index arrangement (or_default row.arrangement_title)
              (or_default row.arrangement_slug) (or_false row.arrangement_removed) in
          record report { items = push_item fresh row.cells report.items }
    ]
  ]
]

abbrev pub collection_of : CoverageReport → ℕ
collection_of report = report.collection_id

unfoldable pub push_report : OrgRow → List CoverageReport → List CoverageReport
unfolding update_last is_new add_item
push_report row reports = update_last (add_item row) (
    if is_new collection_of row.collection_id reports
    then reports ++ new_report row.collection_id ∷ []
    else reports)

unfoldable pub push_reports : List OrgRow → List CoverageReport → List CoverageReport
unfolding push_report
push_reports [] reports = reports
push_reports (row ∷ rows) reports = push_reports rows (push_report row reports)

-- The last loop of `for_org`.
abbrev pub with_totals : CoverageReport → CoverageReport
with_totals report = totals report.collection_id report.items

-- `for_org` behind its query.
unfoldable pub for_org : List OrgRow → List CoverageReport
unfolding push_reports sum_of
for_org rows = map with_totals (push_reports rows [])

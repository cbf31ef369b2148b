-- ===== src/Domain/File.antt =====
-- lied/src/domain/file.rs: the rows of stored files. A table is the list of its rows; an operation
-- returns the table that its transaction commits, and an error stands for the rollback. `now` is
-- the transaction's clock.
pub mod Name
pub mod Slugs
pub mod Slots
pub mod Rollback
pub mod Examples
use lied.Prelude.{
  ℕ, Bool, true, false, not, ◌&&◌, ◌||◌, Option, none, some, List, [], ◌∷◌, map, Result, ok, err,
  ◌>>=◌, ◌>>◌, guard, ◌==◌, leb, ltb, any, find, keep, length, contains, is_none, is_some,
  if◌then◌else◌,
}
use lied.Prelude.Text.{Text, codes, text_eq}
use lied.Sql.{Unique, update, insert, order_by}
use lied.Domain.Entities.{Arrangement}
use lied.Domain.PartAssignment.{page}

pub record File : Type 0 where
  pub id : ℕ
  pub arrangement_id : ℕ
  pub voice_id : Option ℕ
  pub name : Text
  pub format : Text
  pub mime_type : Text
  pub derived_from_file_id : Option ℕ
  pub conversion_quality : Option Text
  pub created_at : ℕ
  pub updated_at : ℕ
  pub created_by : Option ℕ
  pub deleted_at : Option ℕ

pub data FileError : Type 0 where
  database duplicate unsupported_mime replace_target_gone superseded : FileError

abbrev pub Table : Type 0
Table = List File

-- `IS NOT DISTINCT FROM`, which is also `$2 IS NULL AND voice_id IS NULL OR voice_id = $2`
abbrev pub same_voice : Option ℕ → Option ℕ → Bool
same_voice none none = true
same_voice none (some b) = false
same_voice (some a) none = false
same_voice (some a) (some b) = a == b

-- The natural key of a live file.
pub record Slot : Type 0 where
  pub arrangement_id : ℕ
  pub voice_id : Option ℕ
  pub name : Text
  pub format : Text

abbrev pub slot_of : File → Slot
slot_of f = record {
  arrangement_id = f.arrangement_id;
  voice_id = f.voice_id;
  name = f.name;
  format = f.format;
}

unfoldable pub same_slot : Slot → Slot → Bool
same_slot s t =
    s.arrangement_id == t.arrangement_id
    && (same_voice s.voice_id t.voice_id && (text_eq s.name t.name && text_eq s.format t.format))

abbrev pub is_live : File → Bool
is_live f = is_none f.deleted_at

abbrev pub clash : File → File → Bool
clash f g = is_live f && (is_live g && same_slot (slot_of f) (slot_of g))

-- The primary key and the two partial indexes, one for the files of voices and one for scores.
abbrev pub indexes : List (Unique File FileError)
indexes =
    record { meets = λ f g. f.id == g.id; error = database }
    ∷ record { meets = λ f g. is_some f.voice_id && clash f g; error = duplicate }
    ∷ record { meets = λ f g. is_none f.voice_id && clash f g; error = duplicate }
    ∷ []

-- The rows of other tables that the foreign keys of a file may name.
pub record References : Type 0 where
  pub arrangements : List ℕ
  pub voices : List ℕ
  pub users : List ℕ

abbrev names : List ℕ → Option ℕ → Bool
names ids none = true
names ids (some id) = contains id ids

abbrev pub has_references : References → Table → File → Bool
has_references refs rows f =
    contains f.arrangement_id refs.arrangements
    && (names refs.voices f.voice_id
        && (names refs.users f.created_by && names (map (λ r. r.id) rows) f.derived_from_file_id))

-- `CHECK (format IN …)` and `CHECK (conversion_quality IN …)`
abbrev pub is_one_of : List Text → Text → Bool
is_one_of words w = any (text_eq w) words

abbrev is_quality : Option Text → Bool
is_quality none = true
is_quality (some q) = is_one_of (codes "clean" ∷ codes "omr" ∷ codes "manual" ∷ []) q

abbrev formats : List Text
formats = codes "lilypond" ∷ codes "musicxml" ∷ codes "pdf" ∷ codes "image" ∷ []

unfoldable pub passes_checks : File → Bool
unfolding text_eq
passes_checks f = is_one_of formats f.format && is_quality f.conversion_quality

pub record NewFile : Type 0 where
  pub arrangement_id : ℕ
  pub voice_id : Option ℕ
  pub name : Text
  pub format : Text
  pub mime_type : Text
  pub derived_from_file_id : Option ℕ
  pub conversion_quality : Option Text
  pub created_by : Option ℕ

abbrev pub row_of : ℕ → ℕ → NewFile → File
row_of now id new = record {
  id = id;
  arrangement_id = new.arrangement_id;
  voice_id = new.voice_id;
  name = new.name;
  format = new.format;
  mime_type = new.mime_type;
  derived_from_file_id = new.derived_from_file_id;
  conversion_quality = new.conversion_quality;
  created_at = now;
  updated_at = now;
  created_by = new.created_by;
  deleted_at = none;
}

unfoldable pub create : References → ℕ → ℕ → NewFile → Table → Result FileError (File × Table)
unfolding insert passes_checks
create refs now id new rows = do
  let row = row_of now id new
  guard (passes_checks row) database
  rows' ← insert indexes row rows
  guard (has_references refs rows' row) database
  ok (row, rows')

-- The live file of a slot.
abbrev pub is_at : Slot → File → Bool
is_at s f = same_slot (slot_of f) s && is_live f

unfoldable pub find_by_location : Slot → Table → Option File
find_by_location s rows = find (is_at s) rows

abbrev pub is_live_id : ℕ → File → Bool
is_live_id id f = f.id == id && is_live f

unfoldable pub find_by_id : ℕ → Table → Option File
find_by_id id rows = find (is_live_id id) rows

unfoldable pub find_by_id_including_deleted : ℕ → Table → Option File
find_by_id_including_deleted id rows = find (λ f. f.id == id) rows

-- `f.arrangement_id = $1 AND a.deleted_at IS NULL AND (… voice_id …)`
abbrev pub is_below : List Arrangement → ℕ → Option ℕ → File → Bool
is_below arrangements arrangement voice f =
    f.arrangement_id == arrangement
    && (any (λ a. a.id == f.arrangement_id && is_none a.deleted_at) arrangements
        && same_voice voice f.voice_id)

-- `ORDER BY f.created_at DESC, f.id ASC`
abbrev pub newer : File → File → Bool
newer f g = ltb g.created_at f.created_at || (f.created_at == g.created_at && leb f.id g.id)

-- The page and the total.
unfoldable pub list : List Arrangement → ℕ → Option ℕ → ℕ → ℕ → Table → Table × ℕ
unfolding order_by page
list arrangements arrangement voice limit offset rows =
    let live = keep (λ f. is_below arrangements arrangement voice f && is_live f) rows in
    (page limit offset (order_by newer live), length live)

abbrev removed_before : Option ℕ → Option ℕ → Bool → Bool
removed_before none e rest = true
removed_before (some d) none rest = false
removed_before (some d) (some e) rest = ltb d e || (d == e && rest)

-- `ORDER BY f.deleted_at DESC, f.id ASC`
abbrev removed_later : File → File → Bool
removed_later f g = removed_before g.deleted_at f.deleted_at (leb f.id g.id)

unfoldable pub list_deleted : List Arrangement → ℕ → Option ℕ → ℕ → ℕ → Table → Table × ℕ
unfolding order_by page
list_deleted arrangements arrangement voice limit offset rows =
    let gone = keep (λ f. is_below arrangements arrangement voice f && not (is_live f)) rows in
    (page limit offset (order_by removed_later gone), length gone)

-- An `UPDATE` that removes rows meets no index: the two partial ones have live rows only.
abbrev pub removed : ℕ → File → File
removed now f = record f { deleted_at = some now; updated_at = now }

abbrev pub revived : ℕ → File → File
revived now f = record f { deleted_at = none; updated_at = now }

abbrev pub remove_where : ℕ → (File → Bool) → Table → Table
remove_where now p rows = map (λ f. if p f then removed now f else f) rows

unfoldable pub replace : References → ℕ → ℕ → ℕ → NewFile → Table → Result FileError (File × Table)
unfolding create
replace refs now old_id new_id new rows = do
  guard (any (is_live_id old_id) rows) replace_target_gone
  create refs now new_id new (remove_where now (is_live_id old_id) rows)

unfoldable pub soft_delete : ℕ → ℕ → Table → Bool × Table
soft_delete now id rows = (any (is_live_id id) rows, remove_where now (is_live_id id) rows)

-- The file in the slot of `f` that is written later.
abbrev pub takes_slot : File → File → Bool
takes_slot f newer =
    same_slot (slot_of newer) (slot_of f)
    && (not (newer.id == f.id) && ltb f.created_at newer.created_at)

-- The condition of the `UPDATE`; `rows` are those of its snapshot.
abbrev pub is_restorable : ℕ → Table → File → Bool
is_restorable id rows f = f.id == id && (not (is_live f) && not (any (takes_slot f) rows))

-- Why nothing was restored.
abbrev pub refusal : Option File → Table → Result FileError (Bool × Table)
refusal none rows = ok (false, rows)
refusal (some f) rows = if is_live f then ok (false, rows) else err superseded

unfoldable pub undelete : ℕ → ℕ → Table → Result FileError (Bool × Table)
unfolding update find_by_id_including_deleted
undelete now id rows =
    if any (is_restorable id rows) rows
    then (update indexes (is_restorable id rows) (λ f. ok (revived now f)) rows >>= λ rows'.
        ok (true, rows'))
    else refusal (find_by_id_including_deleted id rows) rows

unfoldable pub hard_delete : ℕ → Table → Bool × Table
hard_delete id rows = (any (λ f. f.id == id) rows, keep (λ f. not (f.id == id)) rows)

unfoldable pub restore_replaced : ℕ → ℕ → ℕ → Table → Result FileError Table
unfolding update
restore_replaced now old_id new_id rows =
    update indexes (λ f. f.id == old_id) (λ f. ok (revived now f))
      (remove_where now (λ f. f.id == new_id) rows)

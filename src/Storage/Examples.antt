-- ===== src/Storage/Examples.antt =====
-- Tests of lied/src/storage.rs with parts of two bytes.
use lied.Prelude.{
  Bool, ◌+◌, ◌&&◌, leb, some, inl, if◌then◌else◌, ℕ, ◌≡◌, ◌⊎◌, refl, true, not, none, List, [], ◌∷◌,
  ok, err, ◌==◌, length, arith,
}
use lied.Prelude.Text.{Text, codes}
use lied.Storage.{
  Client, CompletedPart, Chunks, Store, too_large, s3_error, upstream, upload_parts,
  upload_streaming, read_chunks, flush_parts, split_to, put_part, flush_rest,
}
use lied.Prelude.Int.{pos}
use lied.Prelude.Text.{text_eq}
use lied.Storage.Pages.{S3Object, Page, Pages, objects_of, dirs_of, list_pages, list_objects}
use lied.Storage.Pages.Complete.{requests, promised, last, more, list_objects-ends}
use lied.Storage.Parts.{IsHealthy}
use lied.Storage.Upload.{joined, stored, AreParts, upload_streaming_lem, upload_parts-AreParts}

-- S3 completes an upload only when its parts are in the order of their numbers.
abbrev in_order : ℕ → List CompletedPart → Bool
in_order least [] = true
in_order least (part ∷ parts) =
    let rest = in_order (part.part_number + 1) parts in leb least part.part_number && rest

-- A storage that takes everything but the given part.
abbrev pub without_part : ℕ → Client
without_part number = record {
  create_multipart_upload = true;
  upload_part = λ n body. not (n == number);
  complete_multipart_upload = in_order 1;
}

abbrev pub nothing_stored : Store
nothing_stored = λ key. none

abbrev chunks : Chunks
chunks = ok (codes "abc") ∷ ok [] ∷ ok (codes "de") ∷ []

abbrev part : ℕ → Text → CompletedPart
part number body = record { part_number = number; body = body }

abbrev parts : List CompletedPart
parts = part 1 (codes "ab") ∷ part 2 (codes "cd") ∷ part 3 (codes "e") ∷ []

sent_parts :
    (upload_parts (without_part 9) 2 5 chunks ≡ ok (5, parts))
    × (upload_parts (without_part 9) 2 5 [] ≡ ok (0, part 1 [] ∷ []))
    × (upload_parts (without_part 9) 2 4 chunks ≡ err (too_large 4))
    × (upload_parts (without_part 2) 2 5 chunks ≡ err s3_error)
    × (upload_parts (without_part 9) 2 5 (ok (codes "abc") ∷ err upstream ∷ []) ≡ err upstream)
unfolding upload_parts read_chunks flush_parts split_to put_part flush_rest
sent_parts = (refl, refl, refl, refl, refl)

upload_streaming_lem_example :
    (upload_streaming (without_part 2) 2 (codes "k") 5 chunks nothing_stored
      ≡ stored (codes "k") nothing_stored (joined 5 0 chunks))
    ⊎ ((upload_streaming (without_part 2) 2 (codes "k") 5 chunks nothing_stored
          ≡ (err s3_error, nothing_stored))
        × (¬ IsHealthy (without_part 2)))
upload_streaming_lem_example =
    upload_streaming_lem (without_part 2) 2 (codes "k") 5 chunks nothing_stored (omega arith)

upload_parts-AreParts_example :
    (body : Text) × (joined 5 0 chunks ≡ ok body) × (5 ≡ length body) × AreParts 2 body parts
upload_parts-AreParts_example =
    upload_parts-AreParts (without_part 9) 2 5 chunks (omega arith) sent_parts.0

abbrev object_at : Text → S3Object
object_at key = record { key = some key; size = some (pos 3); last_modified = some (pos 2, 5) }

abbrev first_page : Page
first_page = record {
  common_prefixes = some (codes "a/b/") ∷ none ∷ [];
  contents = object_at (codes "a/") ∷ object_at (codes "a/x") ∷ [];
  is_truncated = some true;
  next_continuation_token = some (codes "t");
}

abbrev last_page : Page
last_page = record {
  common_prefixes = [];
  contents = record (object_at (codes "a/y")) { key = none } ∷ object_at (codes "a/z") ∷ [];
  is_truncated = none;
  next_continuation_token = some (codes "u");
}

abbrev two_pages : Pages
two_pages prefix none = ok first_page
two_pages prefix (some token) = ok last_page

listed_pages :
    list_objects two_pages 3 (codes "a/")
    ≡ some (
        ok (record {
          objects =
              record { key = codes "a/x"; size = 3; modified = some 2000005 }
              ∷ record { key = codes "a/z"; size = 3; modified = some 2000005 }
              ∷ [];
          dirs = codes "a/b/" ∷ [];
        }))
unfolding list_objects list_pages objects_of dirs_of text_eq
listed_pages = refl

list_objects-ends_example : list_objects two_pages 3 (codes "a/") ≡ (
    if leb (requests (first_page ∷ last_page ∷ []) true) 3
    then some (promised (codes "a/") (first_page ∷ last_page ∷ []) true)
    else none)
list_objects-ends_example =
    list_objects-ends two_pages (codes "a/") 3 (first_page ∷ last_page ∷ []) true (
      more none first_page (codes "t") (last_page ∷ []) true refl refl refl
        (last (some (codes "t")) last_page refl (inl (λ e. absurd (cc)))))

-- ===== src/WebDav/Access/Examples.antt =====
-- Tests of lied/src/webdav/access.rs on a collection of two pieces, one without its arrangement.
use lied.Prelude.{ℕ, ◌≡◌, refl, true, false, not, none, some, [], ◌∷◌, any, ◌==◌, arith}
use lied.Prelude.Int.{pos}
use lied.Prelude.Text.{codes}
use lied.Domain.CollectionItem.{CollectionItem}
use lied.Domain.PartAssignment.{new_part}
use lied.Domain.User.{User}
use lied.WebDav.Access.{
  Tables, staff, restricted, visible_collection_items, has_assignment_in_collection,
  has_assignment_on_item, has_assignment_on_item_voice,
}
use lied.WebDav.Access.Phantoms.{is_empty, has_assignment_in_collection-visible}
use lied.WebDav.Access.Items.{has_assignment_on_item-visible}
use lied.WebDav.Access.Narrowing.{restricted-within_staff}

abbrev piece : ℕ → ℕ → ℕ → CollectionItem
piece id arrangement index = record {
  id = id;
  collection_id = 7;
  arrangement_id = arrangement;
  index = pos index;
  created_at = 1;
  updated_at = 1;
  created_by = none;
  deleted_at = none;
}

abbrev pub db : Tables
db = record {
  organizations = record { id = 5; slug = codes "acme" } ∷ [];
  memberships = [];
  collections =
      record { id = 7; organization_id = 5; slug = codes "spring"; deleted_at = none } ∷ [];
  items = piece 11 21 2 ∷ piece 12 22 1 ∷ piece 13 23 3 ∷ [];
  arrangements =
      record { id = 21; organization_id = 5; slug = codes "bolero"; deleted_at = none }
      ∷ record { id = 22; organization_id = 5; slug = codes "la-mer"; deleted_at = none }
      ∷ record { id = 23; organization_id = 5; slug = codes "lost"; deleted_at = some 8 }
      ∷ [];
  voices =
      record { id = 41; arrangement_id = 21; slug = codes "voice-1"; deleted_at = none }
      ∷ record { id = 43; arrangement_id = 23; slug = codes "voice-2"; deleted_at = none }
      ∷ [];
  assignments = new_part 2 61 11 41 91 none ∷ new_part 2 62 13 43 92 none ∷ [];
}

listings :
    (visible_collection_items db 7 91 staff
      ≡ record { id = 12; index = pos 1; arrangement_slug = codes "la-mer" }
        ∷ record { id = 11; index = pos 2; arrangement_slug = codes "bolero" }
        ∷ [])
    × (visible_collection_items db 7 91 restricted
        ≡ record { id = 11; index = pos 2; arrangement_slug = codes "bolero" } ∷ [])
    × (has_assignment_in_collection db 7 92 ≡ false)
    × (has_assignment_on_item db 11 91 ≡ true)
    × (has_assignment_on_item db 13 92 ≡ false)
    × (has_assignment_on_item_voice db 13 43 92 ≡ true)
unfolding visible_collection_items has_assignment_in_collection has_assignment_on_item
    has_assignment_on_item_voice
listings = (refl, refl, refl, refl, refl, refl)

has_assignment_in_collection-visible_example :
    has_assignment_in_collection db 7 91
    ≡ not (is_empty (visible_collection_items db 7 91 restricted))
has_assignment_in_collection-visible_example = has_assignment_in_collection-visible db 7 91

has_assignment_on_item-visible_example :
    has_assignment_on_item db 11 91
    ≡ any (λ row. row.id == 11) (visible_collection_items db 7 91 restricted)
has_assignment_on_item-visible_example = has_assignment_on_item-visible db 11 7 91 (ground arith)

restricted-within_staff_example :
    any (λ r. r.id == 11) (visible_collection_items db 7 91 staff) ≡ true
unfolding visible_collection_items
restricted-within_staff_example = restricted-within_staff (λ r. r.id == 11) db 7 91 refl

abbrev first_owner : User
first_owner = record {
  id = 11;
  slug = codes "ann";
  username = codes "ann";
  email = none;
  display_name = codes "Ann";
  is_system_admin = false;
  created_at = 1;
  updated_at = 1;
}

-- ===== src/WebDav/Access/Arrangements.antt =====
-- lied/src/webdav/access.rs: the queries behind the arrangements tree, and the listings by slug.
-- The collation of the database, which orders the slugs, is an argument.
use lied.Prelude.{ℕ, Bool, not, ◌&&◌, ◌||◌, List, [], ◌∷◌, map, any, keep, ◌==◌, is_none}
use lied.Prelude.Text.{Text, text_eq}
use lied.Sql.{order_by}
use lied.Domain.CollectionItem.{CollectionItem}
use lied.Domain.Entities.{Organization, Collection, Arrangement}
use lied.Domain.PartAssignment.{PartAssignment}
use lied.WebDav.Access.{Tables, Visibility, staff, restricted, is_played_by, is_live_item}

-- `JOIN collection_item ci … JOIN collection c … AND ci.deleted_at IS NULL AND c.deleted_at IS NULL`
abbrev pub is_in_live_collection : Tables → CollectionItem → Bool
is_in_live_collection db item =
    is_none item.deleted_at
    && any (λ c. c.id == item.collection_id && is_none c.deleted_at) db.collections

abbrev pub is_on_programme : Tables → PartAssignment → Bool
is_on_programme db pa =
    any (λ item. item.id == pa.collection_item_id && is_in_live_collection db item) db.items

unfoldable pub has_assignment_on_voice : Tables → ℕ → ℕ → Bool
has_assignment_on_voice db voice_id user_id =
    any (λ pa. pa.user_id == user_id && (pa.voice_id == voice_id && is_on_programme db pa))
      db.assignments

unfoldable pub has_assignment_on_arrangement : Tables → ℕ → ℕ → Bool
has_assignment_on_arrangement db arrangement_id user_id =
    any
      (λ pa.
        pa.user_id == user_id
        && (any
              (λ v.
                v.id == pa.voice_id && (v.arrangement_id == arrangement_id && is_none v.deleted_at))
              db.voices
            && is_on_programme db pa))
      db.assignments

-- `DISTINCT`
unfoldable pub distinct : List Text → List Text
unfolding text_eq
distinct [] = []
distinct (s ∷ ss) = s ∷ keep (λ t. not (text_eq s t)) (distinct ss)

abbrev pub is_arrangement_in : ℕ → Arrangement → Bool
is_arrangement_in org_id a = a.organization_id == org_id && is_none a.deleted_at

abbrev pub is_collection_in : ℕ → Collection → Bool
is_collection_in org_id c = c.organization_id == org_id && is_none c.deleted_at

-- The joins behind a collection that a restricted user sees.
abbrev pub has_played_item : Tables → ℕ → Collection → Bool
has_played_item db user_id c =
    any
      (λ item. item.collection_id == c.id && (is_live_item db item && is_played_by db user_id item))
      db.items

-- Whether the user has a membership or an assignment in the organization.
abbrev pub is_known_in : Tables → ℕ → Organization → Bool
is_known_in db user_id o =
    any (λ m. m.organization_id == o.id && m.user_id == user_id) db.memberships
    || any
        (λ pa.
          pa.user_id == user_id
          && (any
                (λ v.
                  v.id == pa.voice_id
                  && any (λ a. a.id == v.arrangement_id && a.organization_id == o.id)
                      db.arrangements)
                db.voices
              && is_on_programme db pa))
        db.assignments

module _ (collate : Text → Text → Bool) where
  -- `SELECT DISTINCT slug … ORDER BY slug`
  abbrev pub sorted_slugs : List Text → List Text
  sorted_slugs slugs = order_by collate (distinct slugs)

  unfoldable pub visible_arrangement_slugs : Tables → ℕ → ℕ → Visibility → List Text
  unfolding order_by has_assignment_on_arrangement distinct
  visible_arrangement_slugs db org_id user_id staff =
      order_by collate (map (λ a. a.slug) (keep (is_arrangement_in org_id) db.arrangements))
  visible_arrangement_slugs db org_id user_id restricted = sorted_slugs (
      map (λ a. a.slug)
        (keep (λ a. is_arrangement_in org_id a && has_assignment_on_arrangement db a.id user_id)
          db.arrangements))

  unfoldable pub visible_collection_slugs : Tables → ℕ → ℕ → Visibility → List Text
  unfolding order_by distinct
  visible_collection_slugs db org_id user_id staff =
      order_by collate (map (λ c. c.slug) (keep (is_collection_in org_id) db.collections))
  visible_collection_slugs db org_id user_id restricted = sorted_slugs (
      map (λ c. c.slug)
        (keep (λ c. is_collection_in org_id c && has_played_item db user_id c) db.collections))

  unfoldable pub visible_org_slugs : Tables → ℕ → List Text
  unfolding order_by
  visible_org_slugs db user_id =
      order_by collate (map (λ o. o.slug) (keep (is_known_in db user_id) db.organizations))

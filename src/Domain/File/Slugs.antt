-- ===== src/Domain/File/Slugs.antt =====
-- `resolve_path_slugs` of lied/src/domain/file.rs: the names on the path of a stored object.
use lied.Prelude.{ℕ, ◌&&◌, Bool, Option, none, some, List, find, ◌==◌, is_none}
use lied.Prelude.Text.{Text}
use lied.Domain.Entities.{Organization, Arrangement, Voice}

-- The tables that the paths are made of.
pub record Tree : Type 0 where
  pub organizations : List Organization
  pub arrangements : List Arrangement
  pub voices : List Voice

pub record PathSlugs : Type 0 where
  pub org_slug : Text
  pub arrangement_slug : Text
  pub voice_slug : Option Text

abbrev is_voice : ℕ → ℕ → Voice → Bool
is_voice id arrangement v = v.id == id && (v.arrangement_id == arrangement && is_none v.deleted_at)

abbrev with_voice : Text → Text → Option Voice → Option PathSlugs
with_voice org arrangement none = none
with_voice org arrangement (some v) =
    some (record { org_slug = org; arrangement_slug = arrangement; voice_slug = some v.slug })

abbrev below : Tree → ℕ → Option ℕ → Text → Text → Option PathSlugs
below tree id none org arrangement =
    some (record { org_slug = org; arrangement_slug = arrangement; voice_slug = none })
below tree id (some voice) org arrangement =
    with_voice org arrangement (find (is_voice voice id) tree.voices)

abbrev in_org : Tree → ℕ → Option ℕ → Arrangement → Option Organization → Option PathSlugs
in_org tree id voice a none = none
in_org tree id voice a (some o) = below tree id voice o.slug a.slug

unfoldable pub resolve_path_slugs : Tree → ℕ → Option ℕ → Option PathSlugs
resolve_path_slugs tree id voice =
    elim (find (λ a. a.id == id && is_none a.deleted_at) tree.arrangements) [
      | none ↦ none
      | some a ↦ in_org tree id voice a (find (λ o. o.id == a.organization_id) tree.organizations)
    ]

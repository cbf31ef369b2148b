-- ===== src/WebDav/Fs/Agreement.antt =====
-- lied/src/webdav/fs.rs: `list` and `stat` agree.
pub mod Slugs
mod Places
mod Voices
use lied.Prelude.{
  ℕ, ◌≡◌, refl, sym, ◌∙◌, ap, Bool, true, false, ◌&&◌, ◌||◌, Option, none, some, List, [], ◌∷◌, map,
  inl, inr, ok, err, ◌>>=◌, any, find, keep, ◌==◌, arith, Bool-cases, Option-cases, Result-cases,
}
use mathlib.Core.Path.{fun_ext}
use lied.Prelude.Int.{ℤ}
use lied.Prelude.Text.{Text, text_eq}
use lied.Sql.{order_by}
use lied.Domain.Entities.{Collection, Arrangement, Voice}
use lied.WebDav.Path.{
  arrangements_root, arrangement, collections_root, collection, voices_dir, voice,
  collection_voices_dir, collection_voice,
}
use lied.WebDav.Access.{
  Tables, Visibility, staff, restricted, is_staff_view, resolve_org_visibility,
  has_assignment_in_collection, has_assignment_on_item_voice, is_live_item, has_voice,
}
use lied.WebDav.Access.Arrangements.{
  visible_arrangement_slugs, visible_collection_slugs, is_arrangement_in, is_collection_in,
  has_assignment_on_arrangement, has_assignment_on_voice, has_played_item,
}
use lied.WebDav.Access.Phantoms.{any-ext, any-and, any-swap, ==_sym}
use lied.WebDav.Access.Narrowing.{any-order_by}
use lied.WebDav.Fs.{
  FsResult, FsError, LiedFs, ok_or, not_found, require_assignment, arr_id_by_slug,
  is_arrangement_at, collection_id_by_slug, is_collection_at, voice_id_by_slug, is_voice_in,
  is_voice_at, is_assigned_voice, is_assigned_on, resolve_arr, resolve_voice, visible_voices,
  visible_item_voices, resolve_collection, resolve_collection_scoped, resolve_collection_item,
  resolve_collection_item_scoped, resolve_collection_voice,
}
use lied.WebDav.Fs.Objects.{Server, LiedDirEntry, dir_entry}
use lied.WebDav.Fs.Nodes.{stat, as_dir}
use lied.WebDav.Fs.Directories.{list, slug_dirs, voice_dirs}
use lied.WebDav.Fs.Listings.{
  has_entry, lists, is_ok, any-map, any-distinct, holds_at, HasUniqueSlugs, any-slugs,
}
use lied.WebDav.Fs.Scopes.{resolve_collection_voice-checked, item-unchecked}
use lied.WebDav.Fs.Agreement.Slugs.{HasSlugs}
use lied.WebDav.Fs.Agreement.Places.{arrangement_agrees, collection_agrees}
use lied.WebDav.Fs.Agreement.Voices.{item_voice_agrees, voice_agrees}

-- A directory that can be entered by a name is the directory that lists it.
pub record ListsAgree (srv : Server) (fs : LiedFs) : Type 0 where
  pub arrangements :
      (o a : Text)
      → lists (list srv fs (arrangements_root o)) a ≡ is_ok (stat srv fs (arrangement o a))
  pub voices :
      (o a v : Text) → lists (list srv fs (voices_dir o a)) v ≡ is_ok (stat srv fs (voice o a v))
  pub collections :
      (o c : Text)
      → lists (list srv fs (collections_root o)) c ≡ is_ok (stat srv fs (collection o c))
  pub item_voices :
      (o c : Text) (i : ℤ) (s v : Text)
      → lists (list srv fs (collection_voices_dir o c i s)) v
        ≡ is_ok (stat srv fs (collection_voice o c i s v))

-- `list` and `stat` agree for every user, whatever the order of slugs, when no two live rows below
-- one parent have the same slug: an arrangement is listed below its organization exactly when its
-- metadata can be read, and so are a collection below its organization, a voice below its
-- arrangement and a voice below an item of a collection. A directory that cannot be listed counts
-- as empty.
pub list-stat : (srv : Server) (fs : LiedFs) → HasSlugs srv.tables → ListsAgree srv fs
list-stat srv fs slugs = record {
  arrangements = arrangement_agrees srv fs slugs;
  voices = voice_agrees srv fs slugs;
  collections = collection_agrees srv fs slugs;
  item_voices = item_voice_agrees srv fs slugs;
}

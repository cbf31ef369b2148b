-- ===== src/WebDav/Fs/Agreement/Slugs.antt =====
-- lied/src/webdav/fs.rs: what `list` and `stat` have in common.
use lied.Prelude.{
  ℕ, ◌≡◌, refl, ap, Bool, true, ◌&&◌, ◌||◌, Option, none, some, List, [], ◌∷◌, map, inl, inr, ok,
  err, ◌>>=◌, any, keep, Bool-cases,
}
use lied.Prelude.Text.{Text, text_eq}
use lied.Domain.Entities.{Collection, Arrangement, Voice}
use lied.WebDav.Access.{Tables, Visibility, is_staff_view}
use lied.WebDav.Access.Arrangements.{is_arrangement_in, is_collection_in}
use lied.WebDav.Fs.{FsResult, FsError, LiedFs, ok_or, not_found, require_assignment, is_voice_in}
use lied.WebDav.Fs.Objects.{Server, LiedDirEntry, dir_entry}
use lied.WebDav.Fs.Nodes.{as_dir}
use lied.WebDav.Fs.Listings.{has_entry, is_ok, any-map, holds_at, HasUniqueSlugs}

-- The partial unique indexes on the slugs of live rows.
pub record HasSlugs (db : Tables) : Type 0 where
  pub arrangements :
      (org_id : ℕ)
      → HasUniqueSlugs (λ (a : Arrangement). a.slug) (is_arrangement_in org_id) db.arrangements
  pub collections :
      (org_id : ℕ)
      → HasUniqueSlugs (λ (c : Collection). c.slug) (is_collection_in org_id) db.collections
  pub voices : (arr_id : ℕ) → HasUniqueSlugs (λ (v : Voice). v.slug) (is_voice_in arr_id) db.voices

pub is_ok-as_dir {ℓ} :
    {A : Type ℓ} (srv : Server) (fs : LiedFs) (r : FsResult A) → is_ok (as_dir srv fs r) ≡ is_ok r
is_ok-as_dir srv fs (ok a) = refl
is_ok-as_dir srv fs (err e) = refl

-- The tail of a resolution: an id by its slug, and the check of the assignments.
pub is_ok-checked {ℓ κ} :
    {R : Type ℓ} {B : Type κ} (vis : Visibility) (found : Option R) (id : R → ℕ)
    (assigned : ℕ → Bool) (f : ℕ → B)
    → is_ok (
        ok_or (elim found [ none ↦ none | some r ↦ some (id r) ]) not_found >>= λ i.
        require_assignment vis (assigned i) >>= λ _. ok (f i))
      ≡ holds_at found (λ r. is_staff_view vis || assigned (id r))
is_ok-checked vis none id assigned f = refl
is_ok-checked vis (some r) id assigned f =
    elim (Bool-cases (is_staff_view vis || assigned (id r))) [
      | inl e ↦ rw e refl
      | inr e ↦ rw e refl
    ]

pub has_entry-slug_dirs :
    (name : Text) (slugs : List Text)
    → has_entry name (map dir_entry slugs) ≡ any (λ t. text_eq t name) slugs
has_entry-slug_dirs name slugs = any-map dir_entry (λ (e : LiedDirEntry). text_eq e.name name) slugs

pub keep-all {ℓ} :
    {A : Type ℓ} (p : A → Bool) (xs : List A) → keep p xs ≡ keep (λ x. p x && true) xs
keep-all p [] = refl
keep-all p (x ∷ xs) = elim (Bool-cases (p x)) [
  | inl e ↦ rw e (ap (λ ys. x ∷ ys) (keep-all p xs))
  | inr e ↦ rw e (keep-all p xs)
]

abbrev pub no_voice : FsError → FsResult (ℕ × ℕ × ℕ × ℕ × Text × ℕ)
no_voice e = err e

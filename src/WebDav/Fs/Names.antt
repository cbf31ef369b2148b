-- ===== src/WebDav/Fs/Names.antt =====
-- lied/src/webdav/fs.rs: a file that a directory lists is found under the name that is shown.
use lied.Prelude.{
  ◌≡◌, refl, sym, ◌∙◌, ap, none, is_none, inl, inr, All, All-imp, All-keep, Bool-cases,
  Option-cases, arith, ℕ, zero, suc, true, false, ◌&&◌, Option, some, List, [], ◌∷◌, ◌++◌, ok, keep,
  find, ◌==◌,
}
use lied.Prelude.Text.{Text, text_eq_refl, text_eq→eq}
use lied.Storage.{is_nil}
use lied.Domain.File
use lied.Domain.File.{File, Slot, find_by_location}
use lied.Domain.File.Name.{format_and_ext_for_mime, webdav_filename}
use lied.WebDav.Fs.{not_found, LiedFs}
use lied.WebDav.Fs.Objects.{LiedDirEntry, Server, slot_named}
use lied.Sql.OrderBy.{All-order_by}
use lied.Domain.PartAssignment.{page}
use lied.Sql.{order_by}
use lied.Domain.File.{
  Table, slot_of, indexes, same_slot, same_voice, is_at, is_live, is_below, newer,
}
use lied.Domain.File.Slots.{IsUnique, same_voice_sym, same_slot_refl, apart_parts}
use lied.Sql.{collides}
use lied.Domain.File.Name.Reverse.{format_and_ext_for_mime-IsExtension, split_filename-last}
use lied.WebDav.Fs.Nodes.{find_row}
use lied.WebDav.Fs.Directories.{entries_of, file_entries}

-- A row as every upload writes it: it has a name, and its format is the one of its media type.
pub record IsNamed (f : File) : Type 0 where
  pub named : is_nil f.name ≡ false
  pub agrees :
      (pair : Text × Text) → format_and_ext_for_mime f.mime_type ≡ some pair → pair.0 ≡ f.format

slot_named-shown :
    (f : File) (arr_id : ℕ) (voice_id : Option ℕ) {filename : Text}
    → IsNamed f
    → webdav_filename f.name f.mime_type ≡ some filename
    → (ext : Text) × (slot_named arr_id voice_id filename not_found
        ≡ ok (
          record { arrangement_id = arr_id; voice_id = voice_id; name = f.name; format = f.format },
          ext,
        ))
unfolding webdav_filename slot_named
slot_named-shown f arr_id voice_id {filename} good e =
    elim (Option-cases (format_and_ext_for_mime f.mime_type)) [
      | inl n ↦ let e' = rw (webdav_filename, n) at e in absurd (cc)
      | inr ((format, ext), n) ↦
          let e' = rw (webdav_filename, n) at e in
          let same : f.name ++ b'.' ∷ ext ≡ filename = cc in
          let is = format_and_ext_for_mime-IsExtension f.mime_type n in
          let agree = good.agrees (format, ext) n in
          (
            ext,
            rw
                (
                  ← same,
                  split_filename-last f.name ext good.named is.not_empty is.no_point,
                  is.mime_of_ext,
                  is.pair_of_mime,
                  agree,
                )
                refl,
          )
    ]

All-page {ℓ κ} :
    {A : Type ℓ} (P : A → Type κ) (limit offset : ℕ) (xs : List A)
    → All P xs
    → All P (page limit offset xs)
unfolding page
All-page P limit offset [] _ = tt
All-page P zero zero (x ∷ xs) _ = tt
All-page P (suc limit) zero (x ∷ xs) (p, ps) = (p, All-page P limit zero xs ps)
All-page P zero (suc offset) (x ∷ xs) (p, ps) = All-page P zero offset xs ps
All-page P (suc limit) (suc offset) (x ∷ xs) (p, ps) = All-page P (suc limit) offset xs ps

All-both {ℓ κ μ} :
    {A : Type ℓ} (P : A → Type κ) (Q : A → Type μ) (xs : List A)
    → All P xs
    → All Q xs
    → All (λ x. P x × Q x) xs
All-both P Q [] _ _ = tt
All-both P Q (x ∷ xs) (p, ps) (q, qs) = ((p, q), All-both P Q xs ps qs)

is_none→eq : {A : Type 0} (o : Option A) → is_none o ≡ true → o ≡ none
is_none→eq none h = refl
is_none→eq (some a) h = absurd (cc)

same_voice→eq : (a b : Option ℕ) → same_voice a b ≡ true → a ≡ b
same_voice→eq none none h = refl
same_voice→eq none (some b) h = absurd (cc)
same_voice→eq (some a) none h = absurd (cc)
same_voice→eq (some a) (some b) h = ap some (ground arith)

same_slot→eq : (s t : Slot) → same_slot s t ≡ true → s ≡ t
unfolding same_slot
same_slot→eq s t h =
    let v = same_voice→eq s.voice_id t.voice_id (ground arith) in
    let n = text_eq→eq s.name t.name (ground arith) in
    let f = text_eq→eq s.format t.format (ground arith) in
    let a : s.arrangement_id ≡ t.arrangement_id = ground arith in
    ap (λ a. record s { arrangement_id = a }) a
    ∙ ap (λ v. record s { arrangement_id = t.arrangement_id; voice_id = v }) v
    ∙ ap (λ n. record t { name = n; format = s.format }) n
    ∙ ap (λ f. record t { format = f }) f

-- Of two rows that stand together, one is in a slot.
one_at :
    (s : Slot) (f g : File) → collides indexes f g ≡ false → is_at s g ≡ true → is_at s f ≡ false
one_at s f g c h = elim (Bool-cases (is_at s f)) [
  | inr n ↦ n
  | inl k ↦
      let (_, n) = apart_parts f g c in
      let e : slot_of f ≡ s = same_slot→eq (slot_of f) s (ground arith) in
      let e' : slot_of g ≡ s = same_slot→eq (slot_of g) s (ground arith) in
      let both : same_slot (slot_of f) (slot_of g) ≡ true = rw (e, e') (same_slot_refl s) in
      absurd (ground arith)
]

-- Each row of a table is the one that is found in its slot.
All-found :
    (rows : Table)
    → IsUnique rows
    → All (λ f. (s : Slot) → is_at s f ≡ true → find (is_at s) rows ≡ some f) rows
All-found [] _ = tt
All-found (f ∷ rows) (apart, unique) = (
  λ s h. rw h refl,
  All-imp _ _ (λ g k s h. let n = one_at s f g k.0 h in rw n (k.1 s h)) rows
      (All-both _ _ rows apart (All-found rows unique)),
)

module _ (srv : Server) (fs : LiedFs) (arr_id : ℕ) (voice_id : Option ℕ) where
  abbrev here : File → Slot
  here f = record { arrangement_id = arr_id; voice_id = voice_id; name = f.name; format = f.format }

  -- A live row of the directory, which is found in its slot.
  record IsListed (f : File) : Type 0 where
    good : IsNamed f
    live : f.deleted_at ≡ none
    arrangement : f.arrangement_id ≡ arr_id
    voice : f.voice_id ≡ voice_id
    there : find (is_at (here f)) srv.files ≡ some f

  -- A name under which a live file of the directory is shown, and the same file is found.
  pub record IsShown (name : Text) : Type 0 where
    pub file : File
    pub shown : webdav_filename file.name file.mime_type ≡ some name
    pub live : file.deleted_at ≡ none
    pub arrangement : file.arrangement_id ≡ arr_id
    pub voice : file.voice_id ≡ voice_id
    pub found : find_row srv fs arr_id voice_id name ≡ ok file

  same_here :
      (f : File)
      → (f.arrangement_id == arr_id) ≡ true
      → same_voice voice_id f.voice_id ≡ true
      → same_slot (slot_of f) (here f) ≡ true
  unfolding same_slot
  same_here f a v =
      rw (text_eq_refl f.name, text_eq_refl f.format, same_voice_sym f.voice_id voice_id, v, a) refl

  found_name :
      (f : File) {filename : Text}
      → IsListed f
      → webdav_filename f.name f.mime_type ≡ some filename
      → IsShown filename
  unfolding find_row find_by_location
  found_name f l e =
      let (ext, s) = slot_named-shown f arr_id voice_id l.good e in
      record {
        file = f;
        shown = e;
        live = l.live;
        arrangement = l.arrangement;
        voice = l.voice;
        found = rw (s, l.there) refl;
      }

  entries_of-found :
      (o a : Text) (voice_slug : Option Text) (files : List File)
      → All IsListed files
      → All (λ (e : LiedDirEntry). IsShown e.name) (entries_of srv fs o a voice_slug files)
  unfolding entries_of
  entries_of-found o a voice_slug [] _ = tt
  entries_of-found o a voice_slug (f ∷ files) (l, ls) =
      elim (Option-cases (webdav_filename f.name f.mime_type)) [
        | inl n ↦ rw (entries_of, n) (entries_of-found o a voice_slug files ls)
        | inr (filename, n) ↦
            rw (entries_of, n) (found_name f l n, entries_of-found o a voice_slug files ls)
      ]

  -- Every name that a directory lists is the one of a live file of that directory, and this file is
  -- the one that is found under it, when the table keeps its unique indexes and all rows are as an
  -- upload writes them: with a name, and with the format of their media type.
  pub file_entries-found :
      (o a : Text) (voice_slug : Option Text)
      → IsUnique srv.files
      → All IsNamed srv.files
      → All
          (λ (e : LiedDirEntry). IsShown e.name)
          (file_entries srv fs o a voice_slug arr_id voice_id)
  unfolding file_entries File.list
  file_entries-found o a voice_slug unique named =
      let below = λ (f : File). is_below srv.tables.arrangements arr_id voice_id f && is_live f in
      entries_of-found o a voice_slug _ (
        All-page IsListed 10000 0 (order_by newer (keep below srv.files)) (
          All-order_by newer IsListed (keep below srv.files) (
            All-keep below
              (λ f. IsNamed f × ((s : Slot) → is_at s f ≡ true → find (is_at s) srv.files ≡ some f))
              IsListed
              (λ f b k. record {
                good = k.0;
                live = is_none→eq f.deleted_at (ground arith);
                arrangement = ground arith;
                voice = sym (same_voice→eq voice_id f.voice_id (ground arith));
                there =
                    k.1 (here f)
                      (let s = same_here f (ground arith) (ground arith) in rw s (ground arith));
              })
              srv.files (All-both _ _ srv.files named (All-found srv.files unique)))))

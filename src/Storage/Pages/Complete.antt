-- ===== src/Storage/Pages/Complete.antt =====
-- `list_objects` of lied/src/storage.rs ends and lists everything.
use lied.Prelude.{
  ℕ, zero, suc, ◌≡◌, ◌≢◌, ◌<◌, ◌≤◌, ◌+◌, ◌⊎◌, refl, sym, ◌∙◌, ap, Bool, true, false, not, Option,
  none, some, List, [], ◌∷◌, ◌++◌, map, keep, Result, ok, err, length, arith, leb, inl, inr,
  Bool-cases, Option-cases, if◌then◌else◌,
}
use mathlib.Core.List.{append_assoc, append-nil}
use lied.Prelude.Int.{ℤ, pos, negsuc, pos_part}
use lied.Prelude.Text.{Text, text_eq}
use lied.Storage.{StorageError, s3_error}
use lied.Storage.Pages.{
  ListedObject, DirListing, S3Object, Page, Pages, size_of, modified_of, objects_of, dirs_of,
  with_page, next_token, list_pages, list_objects, nothing_listed,
}

-- S3 says that no page follows, or gives no token for it.
abbrev pub IsLast : Page → Type 0
IsLast page = (page.is_truncated ≢ some true) ⊎ (page.next_continuation_token ≡ none)

next_token-IsLast : (page : Page) → IsLast page → next_token page ≡ none
next_token-IsLast page last = elim (Option-cases page.is_truncated) [
  | inl e ↦ rw e refl
  | inr (b, e) ↦ elim (Bool-cases b) [
    | inr f ↦ rw (e, f) refl
    | inl f ↦ elim last [ inl other ↦ absurd (other (e ∙ ap some f)) | inr n ↦ rw (e, f, n) refl ]
  ]
]

-- How S3 answers from a token on: pages up to the last, or up to a request that fails.
pub data Answers (pages : Pages) (prefix : Text) : Option Text → List Page → Bool → Type 0 where
  last :
      (token : Option Text) (page : Page)
      → pages prefix token ≡ ok page
      → IsLast page
      → Answers pages prefix token (page ∷ []) true
  fails :
      (token : Option Text) (e : StorageError)
      → pages prefix token ≡ err e
      → Answers pages prefix token [] false
  more :
      (token : Option Text) (page : Page) (t : Text) (rest : List Page) (complete : Bool)
      → pages prefix token ≡ ok page
      → page.is_truncated ≡ some true
      → page.next_continuation_token ≡ some t
      → Answers pages prefix (some t) rest complete
      → Answers pages prefix token (page ∷ rest) complete

-- What stands on the pages, one after the other.
unfoldable pub gather {ℓ} : {A : Type ℓ} → (Page → List A) → List Page → List A
gather f [] = []
gather f (page ∷ rest) = f page ++ gather f rest

abbrev behind : Text → List Page → DirListing → DirListing
behind prefix answers listing = record {
  objects = listing.objects ++ gather (λ page. objects_of prefix page.contents) answers;
  dirs = listing.dirs ++ gather (λ page. dirs_of page.common_prefixes) answers;
}

abbrev outcome : Text → List Page → Bool → DirListing → Result StorageError DirListing
outcome prefix answers true listing = ok (behind prefix answers listing)
outcome prefix answers false listing = err s3_error

behind-with_page :
    (prefix : Text) (page : Page) (rest : List Page) (complete : Bool) (listing : DirListing)
    → outcome prefix rest complete (with_page prefix page listing)
      ≡ outcome prefix (page ∷ rest) complete listing
unfolding gather
behind-with_page prefix page rest false listing = refl
behind-with_page prefix page rest true listing =
    let objects = gather (λ p. objects_of prefix p.contents) rest in
    let dirs = gather (λ p. dirs_of p.common_prefixes) rest in
    let first = objects_of prefix page.contents in
    ap (λ os. ok (record { objects = os; dirs = (with_page prefix page listing).dirs ++ dirs }))
      (append_assoc listing.objects first objects)
    ∙ ap (λ ds. ok (record { objects = listing.objects ++ (first ++ objects); dirs = ds }))
        (append_assoc listing.dirs (dirs_of page.common_prefixes) dirs)

last_page :
    (prefix : Text) (page : Page) (listing : DirListing)
    → ok (with_page prefix page listing) ≡ outcome prefix (page ∷ []) true listing
unfolding gather
last_page prefix page listing =
    let first = objects_of prefix page.contents in
    let dirs = dirs_of page.common_prefixes in
    ap (λ os. ok (record { objects = listing.objects ++ os; dirs = listing.dirs ++ dirs }))
      (sym (append-nil first))
    ∙ ap
        (λ ds.
          ok (record { objects = listing.objects ++ (first ++ []); dirs = listing.dirs ++ ds }))
        (sym (append-nil dirs))

-- The requests that the answers take.
abbrev pub requests : List Page → Bool → ℕ
requests answers complete = length answers + (if complete then 0 else 1)

module _ (pages : Pages) (prefix : Text) where
  enough_fuel :
      (fuel : ℕ) (token : Option Text) (answers : List Page) (complete : Bool)
      (listing : DirListing)
      → Answers pages prefix token answers complete
      → requests answers complete ≤ fuel
      → list_pages pages prefix fuel token listing ≡ some (outcome prefix answers complete listing)
  unfolding list_pages gather
  enough_fuel zero token _ _ listing (last _ page e n) h = absurd (omega arith)
  enough_fuel zero token _ _ listing (fails _ x e) h = absurd (omega arith)
  enough_fuel zero token _ _ listing (more _ page t rest complete e u n a) h = absurd (omega arith)
  enough_fuel (suc fuel) token _ _ listing (last _ page e n) h =
      rw (list_pages, e, next_token-IsLast page n) (ap some (last_page prefix page listing))
  enough_fuel (suc fuel) token _ _ listing (fails _ x e) h = rw (list_pages, e) refl
  enough_fuel (suc fuel) token _ _ listing (more _ page t rest complete e u n a) h =
      rw (list_pages, e, u, n)
        (enough_fuel fuel (some t) rest complete (with_page prefix page listing) a (omega arith)
          ∙ ap some (behind-with_page prefix page rest complete listing))

  short_fuel :
      (fuel : ℕ) (token : Option Text) (answers : List Page) (complete : Bool)
      (listing : DirListing)
      → Answers pages prefix token answers complete
      → fuel < requests answers complete
      → list_pages pages prefix fuel token listing ≡ none
  unfolding list_pages
  short_fuel zero token answers complete listing a h = refl
  short_fuel (suc fuel) token _ _ listing (last _ page e n) h = absurd (omega arith)
  short_fuel (suc fuel) token _ _ listing (fails _ x e) h = absurd (omega arith)
  short_fuel (suc fuel) token _ _ listing (more _ page t rest complete e u n a) h =
      rw (list_pages, e, u, n)
        (short_fuel fuel (some t) rest complete (with_page prefix page listing) a (omega arith))

-- What a listing has to show: the values that are there, and of the objects those that have a key,
-- but not the marker of the directory.
unfoldable pub somes {ℓ} : {A : Type ℓ} → List (Option A) → List A
somes [] = []
somes (none ∷ os) = somes os
somes (some a ∷ os) = a ∷ somes os

abbrev pub size_in : Option ℤ → ℕ
size_in none = 0
size_in (some n) = pos_part n

abbrev pub described : S3Object → Option Text → Option ListedObject
described obj none = none
described obj (some key) =
    some (record { key = key; size = size_in obj.size; modified = modified_of obj.last_modified })

abbrev pub shown : Text → Page → List ListedObject
shown prefix page =
    keep (λ o. not (text_eq o.key prefix))
      (somes (map (λ obj. described obj obj.key) page.contents))

abbrev pub promised : Text → List Page → Bool → Result StorageError DirListing
promised prefix answers true = ok (record {
  objects = gather (shown prefix) answers;
  dirs = gather (λ page. somes page.common_prefixes) answers;
})
promised prefix answers false = err s3_error

dirs_of-somes : (ps : List (Option Text)) → dirs_of ps ≡ somes ps
unfolding dirs_of somes
dirs_of-somes [] = refl
dirs_of-somes (none ∷ ps) = dirs_of-somes ps
dirs_of-somes (some p ∷ ps) = ap (λ qs. p ∷ qs) (dirs_of-somes ps)

size_of-size_in : (n : Option ℤ) → size_of n ≡ size_in n
size_of-size_in none = refl
size_of-size_in (some (pos n)) = refl
size_of-size_in (some (negsuc n)) = refl

objects_of-shown :
    (prefix : Text) (contents : List S3Object)
    → objects_of prefix contents
      ≡ keep (λ o. not (text_eq o.key prefix)) (somes (map (λ obj. described obj obj.key) contents))
unfolding objects_of somes
objects_of-shown prefix [] = refl
objects_of-shown prefix (obj ∷ contents) =
    let rest = objects_of-shown prefix contents in
    elim (Option-cases obj.key) [
      | inl e ↦ rw e rest
      | inr (key, e) ↦ elim (Bool-cases (text_eq key prefix)) [
        | inl m ↦ rw (e, m) rest
        | inr m ↦ rw (e, m, size_of-size_in obj.size, rest) refl
      ]
    ]

gather-ext {ℓ} :
    {A : Type ℓ} (f g : Page → List A) (answers : List Page)
    → ((page : Page) → f page ≡ g page)
    → gather f answers ≡ gather g answers
unfolding gather
gather-ext f g [] same = refl
gather-ext f g (page ∷ rest) same = rw (same page, gather-ext f g rest same) refl

outcome-promised :
    (prefix : Text) (answers : List Page) (complete : Bool)
    → outcome prefix answers complete nothing_listed ≡ promised prefix answers complete
outcome-promised prefix answers false = refl
outcome-promised prefix answers true =
    rw
      (
        gather-ext (λ page. objects_of prefix page.contents) (shown prefix) answers
            (λ page. objects_of-shown prefix page.contents),
        gather-ext (λ page. dirs_of page.common_prefixes) (λ page. somes page.common_prefixes)
            answers (λ page. dirs_of-somes page.common_prefixes),
      )
      refl

-- When S3 answers with finitely many pages, the last of which is not truncated or has no token, or
-- with a failure behind finitely many, `list_objects` makes one request for each page and one for
-- the failure: with fuel for fewer it has not ended, and with fuel for as many or more it has. If a
-- request failed, it gives the error of S3. If not, it gives the objects of all pages that have a
-- key, but the marker of the directory itself, and the directories of all pages, in the order of
-- the pages.
pub list_objects-ends :
    (pages : Pages) (prefix : Text) (fuel : ℕ) (answers : List Page) (complete : Bool)
    → Answers pages prefix none answers complete
    → list_objects pages fuel prefix ≡ (
        if leb (requests answers complete) fuel
        then some (promised prefix answers complete)
        else none)
unfolding list_objects
list_objects-ends pages prefix fuel answers complete a =
    elim (Bool-cases (leb (requests answers complete) fuel)) [
      | inl e ↦ rw e (
          enough_fuel pages prefix fuel none answers complete nothing_listed a (ground arith)
          ∙ ap some (outcome-promised prefix answers complete))
      | inr e ↦
          rw e (short_fuel pages prefix fuel none answers complete nothing_listed a (ground arith))
    ]

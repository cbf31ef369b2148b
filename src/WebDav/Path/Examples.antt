-- ===== src/WebDav/Path/Examples.antt =====
-- The unit tests of lied/src/webdav/path.rs, and segments that its comments leave out.
use lied.Prelude.{◌≡◌, refl, false, true, none, some, [], ◌∷◌, All, arith}
use lied.Prelude.Int.{pos}
use lied.Prelude.Text.{Text, codes, text_eq}
use lied.WebDav.Path.{
  ResolvedPath, root, org, annotations_dir, voice_file, library_entry, collection_voice_file,
  is_collection, is_library, is_unsafe, parse,
}
use lied.WebDav.Path.Item.{split_item_segment, split_dash}
use lied.Prelude.Decimal.{parse_int, parse_digits, decimal}
use lied.WebDav.Path.Decimal.{item_segment}
use lied.WebDav.Path.RoundTrip.{segments, render, IsEntry, parse-render}
use lied.WebDav.Path.Safety.{names, IsSafe, parse-IsSafe}

abbrev solo : ResolvedPath
solo =
    collection_voice_file (codes "acme") (codes "spring") (pos 12) (codes "la-mer")
      (codes "flute-1") (codes "part.pdf")

abbrev solo_path : Text
solo_path = codes "/orgs/acme/collections/spring/12-la-mer/voices/flute-1/part.pdf"

solo_printed : render (segments solo) ≡ solo_path
unfolding render segments item_segment decimal
solo_printed = refl

parse-render_example : parse (render (segments solo)) ≡ some solo
unfolding IsEntry segments item_segment decimal is_unsafe text_eq
parse-render_example = parse-render solo (ground arith) (ground arith)

roots : (parse (codes "/") ≡ some root) × (parse (codes "//orgs/acme/") ≡ some (org (codes "acme")))
unfolding parse text_eq is_unsafe
roots = (refl, refl)

annotations_reserved :
    parse (codes "/orgs/a/arrangements/b/voices/c/annotations")
    ≡ some (annotations_dir (codes "a") (codes "b") (codes "c"))
unfolding parse text_eq is_unsafe
annotations_reserved = refl

voice_child :
    parse (codes "/orgs/a/arrangements/b/voices/c/p.pdf")
    ≡ some (voice_file (codes "a") (codes "b") (codes "c") (codes "p.pdf"))
unfolding parse text_eq is_unsafe
voice_child = refl

no_item :
    (parse (codes "/orgs/a/collections/s/bolero") ≡ none)
    × (parse (codes "/orgs/a/collections/s/1-") ≡ none)
    × (parse (codes "/orgs/a/collections/s/-bolero") ≡ none)
unfolding parse text_eq is_unsafe split_item_segment split_dash parse_int parse_digits
no_item = (refl, refl, refl)

-- The parser of `i32` takes a sign and leading zeros.
loose_item :
    (split_item_segment (codes "+1-bolero") ≡ some (pos 1, codes "bolero"))
    × (split_item_segment (codes "01-bolero") ≡ some (pos 1, codes "bolero"))
    × (split_item_segment (codes "2147483648-bolero") ≡ none)
unfolding split_item_segment split_dash parse_int parse_digits
loose_item = (refl, refl, refl)

no_escape :
    (parse (codes "/users/ann/library/../bob") ≡ none) × (parse (codes "/users/ann/attic") ≡ none)
unfolding parse text_eq is_unsafe
no_escape = (refl, refl)

parse-IsSafe_example :
    All IsSafe (codes "ann" ∷ codes "scores" ∷ codes "bach" ∷ codes "suite.pdf" ∷ [])
unfolding parse text_eq is_unsafe names
parse-IsSafe_example =
    parse-IsSafe (codes "/users/ann/library/scores/bach/suite.pdf")
      (library_entry (codes "ann") (codes "scores" ∷ codes "bach" ∷ codes "suite.pdf" ∷ [])) refl

kinds : (is_collection root ≡ true) × (is_collection solo ≡ false) × (is_library solo ≡ false)
unfolding is_collection is_library
kinds = (refl, refl, refl)

-- ===== src/WebDav/Path/Item.antt =====
-- `split_item_segment` of lied/src/webdav/path.rs, with the standard library's `i32` parser.
use lied.Prelude.{Option, none, some, [], ◌∷◌, ◌==◌, if◌then◌else◌}
use lied.Prelude.Int.{ℤ, i32_max}
use lied.Prelude.Text.{Text}
use lied.Prelude.Decimal.{parse_int}

-- `seg.find('-')` and `seg.split_at(dash)`: the text before the first `-`, and what stands behind.
unfoldable pub split_dash : Text → Option (Text × Text)
split_dash [] = none
split_dash (c ∷ s) =
    let rest = split_dash s in
    if c == b'-' then some ([], s) else elim rest [ none ↦ none | some (a, b) ↦ some (c ∷ a, b) ]

abbrev pub item_of : Option ℤ → Text → Option (ℤ × Text)
item_of none slug = none
item_of (some index) [] = none
item_of (some index) (c ∷ slug) = some (index, c ∷ slug)

unfoldable pub split_item_segment : Text → Option (ℤ × Text)
unfolding parse_int split_dash
split_item_segment seg = elim (split_dash seg) [
  | none ↦ none
  | some (index, slug) ↦ item_of (parse_int i32_max index) slug
]

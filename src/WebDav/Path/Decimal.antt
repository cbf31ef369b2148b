-- ===== src/WebDav/Path/Decimal.antt =====
-- The directory name `<index>-<slug>` of a collection item, as lied/src/webdav/fs.rs formats it,
-- and what `split_item_segment` makes of it.
use lied.Prelude.{ℕ, suc, ◌≤◌, ◌≡◌, ◌≢◌, refl, some, [], ◌∷◌, ◌++◌, arith}
use lied.Prelude.Int.{pos, i32_max}
use lied.Prelude.Text.{Text}
use lied.Prelude.Decimal.{IsDigits, decimal, decimal-IsDigits, parse_int-decimal}
use lied.WebDav.Path.Item.{split_dash, split_item_segment}

-- `format!("{}-{}", item.index, item.arrangement_slug)`, at a non-negative index.
unfoldable pub item_segment : ℕ → Text → Text
unfolding decimal
item_segment index slug = decimal (suc index) index ++ b'-' ∷ slug

split_dash_digits : (s slug : Text) → IsDigits s → split_dash (s ++ b'-' ∷ slug) ≡ some (s, slug)
unfolding split_dash
split_dash_digits [] slug _ = refl
split_dash_digits (c ∷ s) slug (d, ds) = ground (arith, split_dash_digits s slug ds)

-- The file system's directory names are read back: at an index of an `i32` that is not negative and
-- a slug that is not empty, the segment splits into that index and slug.
pub split_item_segment-item_segment :
    (index : ℕ) (slug : Text)
    → index ≤ i32_max
    → slug ≢ []
    → split_item_segment (item_segment index slug) ≡ some (pos index, slug)
unfolding split_item_segment item_segment
split_item_segment-item_segment index [] h ne = absurd (ne refl)
split_item_segment-item_segment index (c ∷ slug) h ne = rw (
  split_item_segment,
  split_dash_digits (decimal (suc index) index) (c ∷ slug) (decimal-IsDigits (suc index) index),
  parse_int-decimal i32_max (omega arith) index h,
)

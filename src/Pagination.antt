-- ===== src/Pagination.antt =====
-- lied/src/pagination.rs: the page that a request asks for.
pub mod Bounds
mod Examples
use lied.Prelude.{ℕ, Bool, true, false, Option, none, some, ltb, min, max, if◌then◌else◌}

pub record PageParams : Type 0 where
  pub limit : Option ℕ
  pub offset : Option ℕ

abbrev pub unwrap_or : Option ℕ → ℕ → ℕ
unwrap_or none default = default
unwrap_or (some n) default = n

-- `Ord::clamp`, which panics when the bounds are in the wrong order.
abbrev pub clamp : ℕ → ℕ → ℕ → Option ℕ
clamp low high n = if ltb high low then none else some (min (max n low) high)

abbrev pub with_offset : Option ℕ → ℕ → Option (ℕ × ℕ)
with_offset none offset = none
with_offset (some limit) offset = some (limit, offset)

-- `None` stands for a panic.
unfoldable pub resolve : PageParams → ℕ → ℕ → Option (ℕ × ℕ)
resolve params default_page_size max_page_size =
    with_offset (clamp 1 max_page_size (unwrap_or params.limit default_page_size))
      (unwrap_or params.offset 0)

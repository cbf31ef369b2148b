-- ===== src/Pagination/Examples.antt =====
-- The unit tests of lied/src/pagination.rs.
use lied.Prelude.{ℕ, ◌≡◌, refl, none, some, arith}
use lied.Pagination.{PageParams, resolve}
use lied.Pagination.Bounds.{IsClamped, resolve_lem}

abbrev first_page : PageParams
first_page = record { limit = none; offset = none }

abbrev huge_page : PageParams
huge_page = record { limit = some 10000; offset = some 5 }

pages :
    (resolve first_page 50 200 ≡ some (50, 0))
    × (resolve huge_page 50 200 ≡ some (200, 5))
    × (resolve (record { limit = some 0; offset = none }) 50 200 ≡ some (1, 0))
    × (resolve first_page 50 0 ≡ none)
unfolding resolve
pages = (refl, refl, refl, refl)

resolve_lem_example :
    (limit : ℕ) × (resolve huge_page 50 200 ≡ some (limit, 5)) × IsClamped 200 10000 limit
resolve_lem_example = resolve_lem huge_page 50 200 (omega arith)

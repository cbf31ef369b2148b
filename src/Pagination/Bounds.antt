-- ===== src/Pagination/Bounds.antt =====
-- lied/src/pagination.rs and the paged listing of lied/src/domain/part_assignment.rs: how long a
-- page can be.
use lied.Prelude.{
  ℕ, zero, suc, ◌≤◌, ◌≡◌, refl, false, some, List, [], ◌∷◌, ltb, min, max, keep, length, inl, inr,
  ◌⊎◌, Bool-cases, arith, ◌==◌,
}
use lied.Sql.{order_by}
use lied.Pagination.{PageParams, unwrap_or, resolve}
use lied.Domain.PartAssignment.{Table, page, newer, list_for_item}

-- The length `limit` is the asked one, `n`, where that is from 1 to `top`, and the nearer bound
-- elsewhere.
pub record IsClamped (top n limit : ℕ) : Type 0 where
  pub positive : 1 ≤ limit
  pub bounded : limit ≤ top
  pub nearest : (limit ≡ n) ⊎ (((n ≡ 0) × (limit ≡ 1)) ⊎ ((top ≤ n) × (limit ≡ top)))

-- With a positive page size, `resolve` does not panic: it gives the offset that was asked for, 0 by
-- default, and a length from 1 to the page size, which is the length asked for, or else the
-- default, if that is in these bounds.
pub resolve_lem :
    (params : PageParams) (default top : ℕ)
    → 1 ≤ top
    → (limit : ℕ) × (resolve params default top ≡ some (limit, unwrap_or params.offset 0))
      × IsClamped top (unwrap_or params.limit default) limit
unfolding resolve
resolve_lem params default top h =
    let n = unwrap_or params.limit default in
    let in_order : ltb top 1 ≡ false = ground arith in
    (
      min (max n 1) top,
      rw in_order refl,
      record { positive = omega arith; bounded = omega arith; nearest = ground arith },
    )

length-page {ℓ} :
    {A : Type ℓ} (limit offset : ℕ) (xs : List A) → length (page limit offset xs) ≤ limit
unfolding page
length-page limit offset [] = omega arith
length-page zero zero (x ∷ xs) = omega arith
length-page (suc limit) zero (x ∷ xs) = omega (arith, length-page limit zero xs)
length-page zero (suc offset) (x ∷ xs) = length-page zero offset xs
length-page (suc limit) (suc offset) (x ∷ xs) = length-page (suc limit) offset xs

-- Whatever a request asks for, the page of a piece's assignments has no more rows than the largest
-- page size.
pub list_for_item-bounded :
    (params : PageParams) (default top item : ℕ) (rows : Table) {limit offset : ℕ}
    → resolve params default top ≡ some (limit, offset)
    → length (list_for_item item limit offset rows).0 ≤ top
unfolding resolve list_for_item
list_for_item-bounded params default top item rows {limit} {offset} e =
    elim (Bool-cases (ltb top 1)) [
      | inl k ↦ let e' = rw k at e in absurd (cc)
      | inr k ↦
          let n = unwrap_or params.limit default in
          let e' = rw k at e in
          let same : min (max n 1) top ≡ limit = cc in
          let mine = keep (λ r. r.collection_item_id == item) rows in
          let short = length-page limit offset (order_by newer mine) in omega (arith, same, short)
    ]

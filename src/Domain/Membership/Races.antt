-- ===== src/Domain/Membership/Races.antt =====
-- Concurrent calls of `delete` of lied/src/domain/membership.rs, whose check and whose statement
-- `DELETE` are two transactions.
use lied.Prelude.{
  ℕ, ◌≡◌, ◌≢◌, ◌∙◌, true, false, not, ◌&&◌, some, List, [], ◌∷◌, inl, inr, any, find, keep, length,
  Bool-cases, if◌then◌else◌, ◌==◌, arith, ok, contains, erase, contains-erase,
}
use lied.Sql.Lookup.{any-keep-not, any_of_zero, any_of_found, holds_of_find}
use lied.Domain.Membership.{Row, Table, has_id, owns, other_owner_count, delete_check, delete_rows}
use lied.Domain.Membership.Owners.{HasOwner, is_sole, delete_check_of_found}

-- The table, and the calls that have made their check and not yet their `DELETE`.
pub record Sessions : Type 0 where
  pub rows : Table
  pub checked : List ℕ

pub data Step : Sessions → Sessions → Type 0 where
  checks :
      {rows : Table} {checked : List ℕ} (id : ℕ)
      → delete_check id rows ≡ ok true
      → Step
          (record { rows = rows; checked = checked })
          (record { rows = rows; checked = id ∷ checked })
  deletes :
      {rows : Table} {checked : List ℕ} (id : ℕ)
      → contains id checked ≡ true
      → Step
          (record { rows = rows; checked = checked })
          (record { rows = (delete_rows id rows).1; checked = erase id checked })

infixr 5 ◌then◌
pub data Run : Sessions → Sessions → Type 0 where
  done : {s : Sessions} → Run s s
  ◌then◌ : {s t u : Sessions} → Step s t → Run t u → Run s u

abbrev pub start : Table → Sessions
start rows = record { rows = rows; checked = [] }

module _ (o x : ℕ) (rows : Table) {a : Row} (found : find (has_id x) rows ≡ some a)
    (owned : owns o a ≡ true) where
  -- An owner beside another one passes the check.
  check_passes : any (λ r. owns o r && not (has_id x r)) rows ≡ true → delete_check x rows ≡ ok true
  unfolding other_owner_count
  check_passes other =
      let same : a.organization_id ≡ o = ground arith in
      let sole : is_sole x a rows ≡ false =
        elim (Bool-cases (length (keep (λ r. owns o r && not (has_id x r)) rows) == 0)) [
          | inl e ↦ let n = any_of_zero (λ r. owns o r && not (has_id x r)) rows e in absurd (cc)
          | inr e ↦ rw (same, e) (ground arith)
        ] in
      rw sole at (delete_check_of_found x rows found)

-- The last-owner rule does not survive concurrency: when an organization has exactly two owners and
-- both memberships are deleted at the same time, each call can make its check before either has
-- deleted, and then the organization has no owner.
pub concurrent_deletes_lose_owner :
    (o x y : ℕ) (rows : Table) {a b : Row}
    → x ≢ y
    → find (has_id x) rows ≡ some a
    → find (has_id y) rows ≡ some b
    → owns o a ≡ true
    → owns o b ≡ true
    → any (λ r. (owns o r && not (has_id y r)) && not (has_id x r)) rows ≡ false
    → (s : Sessions) × Run (start rows) s × HasOwner o rows × (any (owns o) s.rows ≡ false)
unfolding delete_rows
concurrent_deletes_lose_owner o x y rows {a} {b} ne fx fy oa ob rest =
    let ix = holds_of_find (has_id x) rows fx in
    let iy = holds_of_find (has_id y) rows fy in
    let other_than_x =
      any_of_found (has_id y) (λ r. owns o r && not (has_id x r)) rows fy (ground arith) in
    let other_than_y =
      any_of_found (has_id x) (λ r. owns o r && not (has_id y r)) rows fx (ground arith) in
    let without_x = keep (λ r. not (has_id x r)) rows in
    (
      record {
        rows = keep (λ r. not (has_id y r)) without_x;
        checked = erase y (erase x (y ∷ x ∷ []));
      },
      checks x (check_passes o x rows fx oa other_than_x)
          then checks y (check_passes o y rows fy ob other_than_y)
          then deletes x (ground arith)
          then deletes y (contains-erase x y (y ∷ x ∷ []) ne (ground arith))
          then done,
      any_of_found (has_id x) (owns o) rows fx oa,
      any-keep-not (has_id y) (owns o) without_x
          ∙ any-keep-not (has_id x) (λ r. owns o r && not (has_id y r)) rows
          ∙ rest,
    )

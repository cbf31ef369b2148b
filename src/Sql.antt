-- ===== src/Sql.antt =====
-- The statements that the domain layer sends to PostgreSQL, over a table that is a list of rows in
-- whatever order they are stored. A unique index is not deferred: it is checked at each row that an
-- `UPDATE` writes, against all other rows as they stand then, in the order of the indexes.
pub mod Update
pub mod OrderBy
pub mod Lookup
pub mod Kept
use lied.Prelude.{
  ℕ, suc, Bool, true, false, ◌||◌, Option, none, some, List, [], ◌∷◌, ◌++◌, Result, ok, ◌>>=◌, ◌>>◌,
  check, any, keep, if◌then◌else◌,
}

-- A unique index: whether two rows may not stand together, and the error that says so.
pub record Unique {ℓ κ} (R : Type ℓ) (E : Type κ) : Type (ℓ ⊔ κ) where
  pub meets : R → R → Bool
  pub error : E

module _ {ℓ κ} {R : Type ℓ} {E : Type κ} where
  abbrev pub collides : List (Unique R E) → R → R → Bool
  collides [] new r = false
  collides (u ∷ us) new r = u.meets new r || collides us new r

  -- The error of the first index that `new` meets in `rows`.
  abbrev pub violation : List (Unique R E) → R → List R → Option E
  violation [] new rows = none
  violation (u ∷ us) new rows =
      if any (u.meets new) rows then some u.error else violation us new rows

module _ {ℓ κ} {R : Type ℓ} {E : Type κ} (indexes : List (Unique R E)) where
  -- `UPDATE … SET f WHERE p`, row by row: `past` is done, the last list is still to come.
  unfoldable pub update_from : (R → Bool) → (R → Result E R) → List R → List R → Result E (List R)
  update_from p f past [] = ok past
  update_from p f past (r ∷ rows) = elim (p r) [
    | false ↦ update_from p f (past ++ r ∷ []) rows
    | true ↦ do
      new ← f r
      check (violation indexes new (past ++ rows))
      update_from p f (past ++ new ∷ []) rows
  ]

  unfoldable pub update : (R → Bool) → (R → Result E R) → List R → Result E (List R)
  unfolding update_from
  update p f rows = update_from p f [] rows

  -- `INSERT`
  unfoldable pub insert : R → List R → Result E (List R)
  insert new rows = do check (violation indexes new rows); ok (rows ++ new ∷ [])

-- `ORDER BY`: `before` says that one row stands before another.
module _ {ℓ} {R : Type ℓ} (before : R → R → Bool) where
  unfoldable pub insert_sorted : R → List R → List R
  insert_sorted x [] = x ∷ []
  insert_sorted x (y ∷ ys) = if before x y then x ∷ y ∷ ys else y ∷ insert_sorted x ys

  unfoldable pub order_by : List R → List R
  unfolding insert_sorted
  order_by [] = []
  order_by (x ∷ xs) = insert_sorted x (order_by xs)

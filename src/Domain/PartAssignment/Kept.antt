-- ===== src/Domain/PartAssignment/Kept.antt =====
-- lied/src/domain/part_assignment.rs: at most one assignee for each voice of a piece.
use lied.Prelude.{
  ℕ, ◌≡◌, refl, ◌∙◌, subst, Bool, false, not, ◌&&◌, ◌||◌, Option, none, List, [], ◌∷◌, ◌++◌, map,
  inl, inr, find, any, contains, All, Pairs, Pairs-map, Pairs-keep, Pairs-snoc, Pairs-weaken,
  Bool-cases, Option-cases, if◌then◌else◌, ◌==◌, arith, ok,
}
use lied.Domain.PartAssignment.{
  PartAssignment, Table, Programme, is_part, reassigned, replaced, new_part, is_user, can_play,
  write_part, assign, with_state, update_state, delete,
}

-- Two rows of one voice of one item, or with one id.
abbrev pub meet : PartAssignment → PartAssignment → Bool
meet r s =
    r.id == s.id || (r.collection_item_id == s.collection_item_id && r.voice_id == s.voice_id)

-- The primary key and the unique index.
abbrev pub IsUnique : Table → Type 0
IsUnique = Pairs (λ r s. meet r s ≡ false)

not_found :
    (p : PartAssignment → Bool) (rows : Table) → find p rows ≡ none → All (λ r. p r ≡ false) rows
not_found p [] e = tt
not_found p (r ∷ rows) e = elim (Bool-cases (p r)) [
  | inl k ↦ let e' = rw k at e in absurd (cc)
  | inr k ↦ (k, not_found p rows (rw k at e))
]

apart :
    (row : PartAssignment) (rows : Table)
    → All (λ r. is_part row.collection_item_id row.voice_id r ≡ false) rows
    → any (λ r. r.id == row.id) rows ≡ false
    → All (λ r. meet r row ≡ false) rows
apart row [] _ _ = tt
apart row (r ∷ rows) (h, hs) e = (ground arith, apart row rows hs (ground arith))

module _ (f : PartAssignment → PartAssignment)
    (same : (r s : PartAssignment) → meet r s ≡ false → meet (f r) (f s) ≡ false) where
  map-IsUnique : (rows : Table) → IsUnique rows → IsUnique (map f rows)
  map-IsUnique rows h = Pairs-map _ f rows (Pairs-weaken _ _ same rows h)

module _ (p : PartAssignment → Bool) (g : PartAssignment → PartAssignment)
    (keeps : (r s : PartAssignment) → meet (g r) s ≡ meet r s)
    (keeps_right : (r s : PartAssignment) → meet r (g s) ≡ meet r s) where
  written-meet :
      (r s : PartAssignment)
      → meet r s ≡ false
      → meet (if p r then g r else r) (if p s then g s else s) ≡ false
  written-meet r s h = elim (Bool-cases (p r)) [
    | inl e ↦ elim (Bool-cases (p s)) [
      | inl k ↦ rw (e, k) (keeps r (g s) ∙ keeps_right r s ∙ h)
      | inr k ↦ rw (e, k) (keeps r s ∙ h)
    ]
    | inr e ↦ elim (Bool-cases (p s)) [
      | inl k ↦ rw (e, k) (keeps_right r s ∙ h)
      | inr k ↦ rw (e, k) h
    ]
  ]

  written-IsUnique :
      (rows : Table) → IsUnique rows → IsUnique (map (λ r. if p r then g r else r) rows)
  written-IsUnique rows h = map-IsUnique (λ r. if p r then g r else r) written-meet rows h

write_part-IsUnique :
    (users : List ℕ) (now : ℕ) (row : PartAssignment) (rows : Table)
    {answer : (PartAssignment × Bool) × Table}
    → IsUnique rows
    → write_part users now row rows ≡ ok answer
    → IsUnique answer.1
unfolding write_part
write_part-IsUnique users now row rows {answer} unique h =
    let item = row.collection_item_id in
    let voice = row.voice_id in
    elim (Option-cases (find (is_part item voice) rows)) [
      | inr (old, e) ↦ elim (Bool-cases (contains row.user_id users)) [
        | inl u ↦
            let h' = rw (write_part, e, u) at h in
            let same : replaced now item voice row.user_id rows ≡ answer.1 = cc in
            subst IsUnique same (
              written-IsUnique (is_part item voice) (reassigned now row.user_id) (λ r s. refl)
                (λ r s. refl) rows unique)
        | inr u ↦ let h' = rw (write_part, e, u) at h in absurd (cc)
      ]
      | inl e ↦ elim (Bool-cases (any (λ r. r.id == row.id) rows)) [
        | inl k ↦ let h' = rw (write_part, e, k) at h in absurd (cc)
        | inr k ↦ elim (Bool-cases (contains row.user_id users && is_user users row.created_by)) [
          | inl u ↦
              let h' = rw (write_part, e, k, u) at h in
              let same : rows ++ row ∷ [] ≡ answer.1 = cc in
              subst IsUnique same (
                Pairs-snoc _ rows row unique
                  (apart row rows (not_found (is_part item voice) rows e) k))
          | inr u ↦ let h' = rw (write_part, e, k, u) at h in absurd (cc)
        ]
      ]
    ]

-- A voice of a piece never gets two assignees: when `assign` succeeds on a table in which neither
-- the ids nor the pairs of an item and a voice repeat, they do not repeat in the new table.
pub assign-IsUnique :
    (programme : Programme) (now id item voice user : ℕ) (created_by : Option ℕ) (rows : Table)
    {answer : (PartAssignment × Bool) × Table}
    → IsUnique rows
    → assign programme now id item voice user created_by rows ≡ ok answer
    → IsUnique answer.1
unfolding assign
assign-IsUnique programme now id item voice user created_by rows unique h =
    elim (Bool-cases (can_play programme item voice)) [
      | inr k ↦ let h' = rw k at h in absurd (cc)
      | inl k ↦
          write_part-IsUnique programme.users now (new_part now id item voice user created_by) rows
            unique (rw k at h)
    ]

-- Neither the update of the state of an assignment nor its deletion makes an id or a pair of an
-- item and a voice repeat.
pub changes-IsUnique :
    (now id : ℕ) (notified_at acknowledged_at : Option ℕ) (rows : Table)
    → IsUnique rows
    → IsUnique (update_state now id notified_at acknowledged_at rows).1
      × IsUnique (delete id rows).1
unfolding update_state delete
changes-IsUnique now id notified_at acknowledged_at rows unique = (
  written-IsUnique (λ r. r.id == id) (with_state now notified_at acknowledged_at) (λ r s. refl)
      (λ r s. refl) rows unique,
  Pairs-keep (λ r. not (r.id == id)) _ _ (λ _ _ _ _ k. k) rows unique,
)

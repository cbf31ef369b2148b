-- ===== src/Domain/File/Slots.antt =====
-- lied/src/domain/file.rs: files that stand together in a table that keeps its unique indexes.
use lied.Prelude.{
  ℕ, ◌≡◌, refl, subst, Bool, true, false, Option, none, some, inl, inr, ok, any, is_some, Pairs,
  Pairs-map, Pairs-weaken, Bool-cases, Result-cases, if◌then◌else◌, ◌==◌, arith,
}
use lied.Prelude.Text.{text_eq_refl, text_eq_sym}
use lied.Sql.{collides, insert, update}
use lied.Sql.Kept.{update-Pairs, insert-Pairs}
use lied.Domain.File.{
  File, Table, Slot, slot_of, same_voice, same_slot, is_live, is_live_id, clash, indexes,
  References, has_references, passes_checks, NewFile, row_of, create, removed, revived,
  remove_where, replace, is_restorable, refusal, undelete, find_by_id_including_deleted,
}

-- The primary key and the two partial indexes.
abbrev pub IsUnique : Table → Type 0
IsUnique = Pairs (λ f g. collides indexes f g ≡ false)

pub same_voice_sym : (a b : Option ℕ) → same_voice a b ≡ same_voice b a
same_voice_sym none none = refl
same_voice_sym none (some b) = refl
same_voice_sym (some a) none = refl
same_voice_sym (some a) (some b) = ground arith

pub same_slot_sym : (s t : Slot) → same_slot s t ≡ same_slot t s
unfolding same_slot
same_slot_sym s t = ground (
  arith,
  same_voice_sym s.voice_id t.voice_id,
  text_eq_sym s.name t.name,
  text_eq_sym s.format t.format,
)

-- Two files that stand together: other ids, and not two live ones in one slot.
pub apart_parts :
    (f g : File) → collides indexes f g ≡ false → ((f.id == g.id) ≡ false) × (clash f g ≡ false)
apart_parts f g h = elim (Bool-cases (is_some f.voice_id)) [
  | inl e ↦ ground arith
  | inr e ↦ ground arith
]

pub apart_of :
    (f g : File) → (f.id == g.id) ≡ false → clash f g ≡ false → collides indexes f g ≡ false
apart_of f g i c = rw (i, c) (ground arith)

pub flip : (f g : File) → collides indexes f g ≡ false → collides indexes g f ≡ false
flip f g h =
    let (i, c) = apart_parts f g h in
    apart_of g f (ground arith) (ground (arith, same_slot_sym (slot_of f) (slot_of g)))

removed-clash :
    (now : ℕ) (p : File → Bool) (f g : File)
    → clash f g ≡ false
    → clash (if p f then removed now f else f) (if p g then removed now g else g) ≡ false
removed-clash now p f g c = elim (Bool-cases (p f)) [
  | inl e ↦ rw e refl
  | inr e ↦ elim (Bool-cases (p g)) [ inl k ↦ rw (e, k) (ground arith) | inr k ↦ rw (e, k) c ]
]

pub removed-id :
    (now : ℕ) (p : File → Bool) (f : File) → (if p f then removed now f else f).id ≡ f.id
removed-id now p f = elim (Bool-cases (p f)) [ inl e ↦ rw e refl | inr e ↦ rw e refl ]

pub remove_where-IsUnique :
    (now : ℕ) (p : File → Bool) (rows : Table) → IsUnique rows → IsUnique (remove_where now p rows)
remove_where-IsUnique now p rows h =
    let write = λ (f : File). if p f then removed now f else f in
    Pairs-map _ write rows (
      Pairs-weaken _ _
        (λ f g k.
          let (i, c) = apart_parts f g k in
          apart_of (write f) (write g) (rw (removed-id now p f, removed-id now p g) i)
            (removed-clash now p f g c))
        rows h)

module _ (refs : References) (now id : ℕ) (new : NewFile) (rows : Table) where
  -- What `create` does when it succeeds.
  pub create_lem :
      {f : File} {rows' : Table}
      → create refs now id new rows ≡ ok (f, rows')
      → (f ≡ row_of now id new) × (insert indexes (row_of now id new) rows ≡ ok rows')
  unfolding create
  create_lem {f} {rows'} h = elim (Bool-cases (passes_checks (row_of now id new))) [
    | inr k ↦ let h' = rw (create, k) at h in absurd (cc)
    | inl k ↦ elim (Result-cases (insert indexes (row_of now id new) rows)) [
      | inr (x, q) ↦ let h' = rw (create, k, q) at h in absurd (cc)
      | inl (out, q) ↦ elim (Bool-cases (has_references refs out (row_of now id new))) [
        | inr r ↦ let h' = rw (create, k, q, r) at h in absurd (cc)
        | inl r ↦
            let h' = rw (create, k, q, r) at h in
            let same : out ≡ rows' = cc in
            (cc, subst (λ o. insert indexes (row_of now id new) rows ≡ ok o) same q)
      ]
    ]
  ]

  pub create-IsUnique :
      {f : File} {rows' : Table}
      → IsUnique rows
      → create refs now id new rows ≡ ok (f, rows')
      → IsUnique rows'
  create-IsUnique u h = (insert-Pairs indexes flip (row_of now id new) rows u (create_lem h).1).0

  pub replace_lem :
      (old : ℕ) {f : File} {rows' : Table}
      → replace refs now old id new rows ≡ ok (f, rows')
      → (any (is_live_id old) rows ≡ true)
        × (create refs now id new (remove_where now (is_live_id old) rows) ≡ ok (f, rows'))
  unfolding replace
  replace_lem old h = elim (Bool-cases (any (is_live_id old) rows)) [
    | inr k ↦ let h' = rw k at h in absurd (cc)
    | inl k ↦ (k, rw k at h)
  ]

pub undelete-IsUnique :
    (now id : ℕ) (rows : Table) {done : Bool} {rows' : Table}
    → IsUnique rows
    → undelete now id rows ≡ ok (done, rows')
    → IsUnique rows'
unfolding undelete
undelete-IsUnique now id rows {done} {rows'} u h =
    elim (Bool-cases (any (is_restorable id rows) rows)) [
      | inl k ↦
          elim (Result-cases
            (update indexes (is_restorable id rows) (λ f. ok (revived now f)) rows)) [
              | inr (x, q) ↦ let h' = rw (undelete, k, q) at h in absurd (cc)
              | inl (out, q) ↦
                  let h' = rw (undelete, k, q) at h in
                  let same : out ≡ rows' = cc in
                  subst IsUnique same (
                    update-Pairs indexes flip (is_restorable id rows) (λ f. ok (revived now f)) rows
                      u q)
            ]
      | inr k ↦ refusal-IsUnique (find_by_id_including_deleted id rows) (rw k at h)
    ]
  where
    refusal-IsUnique : (o : Option File) → refusal o rows ≡ ok (done, rows') → IsUnique rows'
    refusal-IsUnique none e = let same : rows ≡ rows' = cc in subst IsUnique same u
    refusal-IsUnique (some f) e = elim (Bool-cases (is_live f)) [
      | inl l ↦ let e' = rw l at e in let same : rows ≡ rows' = cc in subst IsUnique same u
      | inr l ↦ let e' = rw l at e in absurd (cc)
    ]

same_voice_refl : (a : Option ℕ) → same_voice a a ≡ true
same_voice_refl none = refl
same_voice_refl (some a) = ground arith

pub same_slot_refl : (s : Slot) → same_slot s s ≡ true
unfolding same_slot
same_slot_refl s =
    rw (same_voice_refl s.voice_id, text_eq_refl s.name, text_eq_refl s.format) (ground arith)

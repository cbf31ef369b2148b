-- ===== src/Domain/File/Rollback.antt =====
-- `restore_replaced` of lied/src/domain/file.rs undoes `replace`.
use mathlib.Core.List.{map-append, map-map}
use lied.Prelude.{
  ℕ, ◌≡◌, refl, sym, ◌∙◌, ap, subst, true, false, [], ◌∷◌, ◌++◌, map, inl, inr, ok, any, keep, All,
  All-imp, All-map, Pairs, Pairs-imp, Pairs-map, Pairs-snoc, All-intro, All-unmap, Bool-cases,
  if◌then◌else◌, ◌==◌, arith,
}
use lied.Sql.{collides}
use lied.Sql.Kept.{insert-Pairs}
use lied.Sql.Update.{Apart, update-eq-map}
use lied.Domain.File.{
  File, Table, is_live, is_live_id, indexes, References, NewFile, row_of, removed, revived,
  remove_where, replace, restore_replaced,
}
use lied.Domain.File.Slots.{
  IsUnique, apart_parts, apart_of, flip, create_lem, replace_lem, remove_where-IsUnique, removed-id,
}

-- A row without the time of its last change.
abbrev pub untimed : File → File
untimed f = record f { updated_at = 0 }

-- What a request can see: the live rows, in the order in which they are stored.
abbrev pub live_rows : Table → Table
live_rows rows = map untimed (keep is_live rows)

module _ (old : ℕ) where
  absent_of_apart :
      (f : File) (rows : Table)
      → All (λ g. collides indexes f g ≡ false) rows
      → any (is_live_id old) rows ≡ true
      → (f.id == old) ≡ false
  absent_of_apart f [] _ e = absurd (cc)
  absent_of_apart f (g ∷ rows) (h, hs) e = elim (Bool-cases (is_live_id old g)) [
    | inl k ↦ let (i, c) = apart_parts f g h in ground arith
    | inr k ↦ absent_of_apart f rows hs (ground arith)
  ]

  abbrev IsLiveAt : File → Type 0
  IsLiveAt f = (f.id == old) ≡ true → is_live f ≡ true

  all_live : (rows : Table) → IsUnique rows → any (is_live_id old) rows ≡ true → All IsLiveAt rows
  all_live [] _ e = tt
  all_live (f ∷ rows) (h, hs) e = elim (Bool-cases (is_live_id old f)) [
    | inl k ↦ (
      λ _. ground arith,
      All-imp (λ g. collides indexes f g ≡ false) IsLiveAt
          (λ g c q. absurd (let (i, _) = apart_parts f g c in ground arith)) rows h,
    )
    | inr k ↦
        let rest : any (is_live_id old) rows ≡ true = ground arith in
        (λ q. absurd (let n = absent_of_apart f rows h rest in cc), all_live rows hs rest)
  ]

module _ (now later old : ℕ) where
  abbrev pub gone : File → File
  gone f = if is_live_id old f then removed now f else f

  abbrev back : File → File
  back f = if f.id == old then revived later f else f

  abbrev Able : File → File → Type 0
  Able = Apart indexes (λ f. f.id == old) (λ f. ok (revived later f)) (revived later)

  gone-Apart :
      (f g : File)
      → IsLiveAt old f
      → IsLiveAt old g
      → collides indexes f g ≡ false
      → Able (gone f) (gone g)
  gone-Apart f g lf lg h =
      let (i, c) = apart_parts f g h in
      elim (Bool-cases (f.id == old)) [
        | inl e ↦
            let live = lf e in
            let other : (g.id == old) ≡ false = ground arith in
            let free = apart_of (revived later (removed now f)) g i (ground arith) in
            rw (e, live, other) (λ _. free, λ q. absurd (cc))
        | inr e ↦ elim (Bool-cases (g.id == old)) [
          | inr d ↦ rw (e, d) (λ q. absurd (cc), λ q. absurd (cc))
          | inl d ↦
              let live = lg d in
              let free =
                flip f (revived later (removed now g))
                  (apart_of f (revived later (removed now g)) i (ground arith)) in
              rw (e, d, live, e) (λ q. absurd (cc), λ _. free)
        ]
      ]

  -- A row that is there again is as it was.
  untimed-revived :
      (f : File) → is_live f ≡ true → untimed (revived later (removed now f)) ≡ untimed f
  untimed-revived f l = ground arith

  live_rows-back :
      (rows : Table)
      → All (IsLiveAt old) rows
      → live_rows (map (λ f. back (gone f)) rows) ≡ live_rows rows
  live_rows-back [] _ = refl
  live_rows-back (f ∷ rows) (l, ls) = elim (Bool-cases (f.id == old)) [
    | inl e ↦
        let live = l e in rw (e, live, e) (cc (untimed-revived f live, live_rows-back rows ls))
    | inr e ↦ elim (Bool-cases (is_live f)) [
      | inl k ↦ rw (e, e, k) (ap (λ rs. untimed f ∷ rs) (live_rows-back rows ls))
      | inr k ↦ rw (e, e, k) (live_rows-back rows ls)
    ]
  ]

pub map-same : (f : File → File) (rows : Table) → All (λ r. f r ≡ r) rows → map f rows ≡ rows
map-same f [] _ = refl
map-same f (r ∷ rows) (e, es) = cc (e, map-same f rows es)

pub live_rows-snoc :
    (rows : Table) (x : File) → is_live x ≡ false → live_rows (rows ++ x ∷ []) ≡ live_rows rows
live_rows-snoc [] x e = rw e refl
live_rows-snoc (r ∷ rows) x e = elim (Bool-cases (is_live r)) [
  | inl k ↦ rw k (ap (λ rs. untimed r ∷ rs) (live_rows-snoc rows x e))
  | inr k ↦ rw k (live_rows-snoc rows x e)
]

module _ (now later old : ℕ) (x : File) where
  abbrev pub Beside : File → Type 0
  Beside f = collides indexes x (gone now later old f) ≡ false

  other_id : (f : File) → Beside f → (x.id == f.id) ≡ false
  other_id f h =
      let (i, _) = apart_parts x (gone now later old f) h in
      rw (sym (removed-id now (is_live_id old) f)) i

  pub id-ne-old :
      (rows : Table) → All Beside rows → any (is_live_id old) rows ≡ true → (x.id == old) ≡ false
  id-ne-old [] _ e = absurd (cc)
  id-ne-old (f ∷ rows) (h, hs) e = elim (Bool-cases (is_live_id old f)) [
    | inl k ↦ let i = other_id f h in ground arith
    | inr k ↦ id-ne-old rows hs (ground arith)
  ]

  Able-dead :
      (f : File)
      → (x.id == old) ≡ false
      → Beside f
      → Able now later old (gone now later old f) (removed later x)
  Able-dead f n h =
      let i = other_id f h in
      (
        λ _.
            apart_of (revived later (gone now later old f)) (removed later x)
              (rw (removed-id now (is_live_id old) f) (ground arith)) refl,
        λ q. absurd (cc),
      )

module _ (refs : References) (now later old id : ℕ) (new : NewFile) (rows : Table) where
  abbrev inserted : File
  inserted = row_of now id new

  abbrev restored : Table
  restored =
      map (λ f. back now later old (gone now later old f)) rows ++ removed later inserted ∷ []

  module _ (u : IsUnique rows) (there : any (is_live_id old) rows ≡ true)
      (free : All (Beside now later old inserted) rows) where
    abbrev hidden : Table
    hidden = map (gone now later old) rows ++ removed later inserted ∷ []

    hidden_lem :
        remove_where later (λ f. f.id == id) (map (gone now later old) rows ++ inserted ∷ [])
        ≡ hidden
    hidden_lem =
        let write = λ (f : File). if f.id == id then removed later f else f in
        map-append write (map (gone now later old) rows) (inserted ∷ [])
        ∙ rw
            (map-same write (map (gone now later old) rows) (
              All-map (λ f. write f ≡ f) (gone now later old) rows
                (All-imp _ _
                  (λ f h.
                    let i = other_id now later old inserted f h in
                    let n : ((gone now later old f).id == id) ≡ false =
                      rw (removed-id now (is_live_id old) f) (ground arith) in
                    rw n refl)
                  rows free)))
            (let same : (id == id) ≡ true = ground arith in rw same refl)

    hidden-Able : Pairs (Able now later old) hidden
    hidden-Able =
        let n = id-ne-old now later old inserted rows free there in
        Pairs-snoc (Able now later old) (map (gone now later old) rows) (removed later inserted)
          (Pairs-map (Able now later old) (gone now later old) rows (
            Pairs-imp (IsLiveAt old) _ _ (gone-Apart now later old) rows (all_live old rows u there)
              u))
          (All-map (λ f. Able now later old f (removed later inserted)) (gone now later old) rows
            (All-imp _ _ (λ f h. Able-dead now later old inserted f n h) rows free))

    restore_replaced-hidden :
        restore_replaced later old id (map (gone now later old) rows ++ inserted ∷ []) ≡ ok restored
    unfolding restore_replaced
    restore_replaced-hidden =
        let n = id-ne-old now later old inserted rows free there in
        rw hidden_lem (
          update-eq-map indexes (λ f. f.id == old) (λ f. ok (revived later f)) (revived later)
            hidden (All-intro _ (λ f _. refl) hidden) hidden-Able
          ∙ ap ok (
              map-append (back now later old) (map (gone now later old) rows)
                (removed later inserted ∷ [])
              ∙ rw (map-map (back now later old) (gone now later old) rows, n) refl))

    live_rows-restored : live_rows restored ≡ live_rows rows
    live_rows-restored =
        live_rows-snoc (map (λ f. back now later old (gone now later old f)) rows)
          (removed later inserted) refl
        ∙ live_rows-back now later old rows (all_live old rows u there)

-- When a file has been replaced and its bytes are not stored, `restore_replaced` does not fail, and
-- the live rows are those from before the replacement, apart from the time of their last change:
-- for every table that keeps its unique indexes.
pub replace-restored :
    (refs : References) (now later old id : ℕ) (new : NewFile) (rows : Table) {f : File}
    {rows' : Table}
    → IsUnique rows
    → replace refs now old id new rows ≡ ok (f, rows')
    → (out : Table) × (restore_replaced later old id rows' ≡ ok out)
      × (live_rows out ≡ live_rows rows)
replace-restored refs now later old id new rows {f} {rows'} u h =
    let (there, made) = replace_lem refs now id new rows old h in
    let gone_rows = remove_where now (is_live_id old) rows in
    let (_, put) = create_lem refs now id new gone_rows made in
    let (_, shape, free) =
      insert-Pairs indexes flip (row_of now id new) gone_rows
        (remove_where-IsUnique now (is_live_id old) rows u) put in
    let beside = All-unmap _ (gone now later old) rows free in
    (
      restored refs now later old id new rows,
      subst (λ t. restore_replaced later old id t ≡ ok (restored refs now later old id new rows))
          shape (restore_replaced-hidden refs now later old id new rows u there beside),
      live_rows-restored refs now later old id new rows u there beside,
    )

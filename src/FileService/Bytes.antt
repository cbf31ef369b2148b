-- ===== src/FileService/Bytes.antt =====
-- lied/src/domain/file.rs with lied/src/file_service.rs: whose bytes stand at the key of a slot. The
-- bytes of a slot are those of the upload that was stored last; a replacement whose upload fails is
-- left out, as its row stays in the table.
use lied.Prelude.{
  ℕ, ◌≡◌, ◌<◌, ◌⊎◌, refl, sym, ◌∙◌, subst, Bool, true, false, Option, none, some, [], ◌∷◌, ◌++◌,
  All, All-imp, All-append, inl, inr, ok, map, any, Bool-cases, Result-cases, Option-cases,
  if◌then◌else◌, arith,
}
use mathlib.Core.List.{append_assoc, append-nil}
use lied.Sql.{collides, update, update_from, violation}
use lied.Sql.Kept.{insert-Pairs}
use lied.Domain.File.{
  File, Table, Slot, slot_of, same_slot, is_live, is_live_id, indexes, References, NewFile, row_of,
  create, removed, revived, remove_where, replace, soft_delete, takes_slot, is_restorable, refusal,
  undelete, hard_delete, find_by_id_including_deleted,
}
use lied.Domain.File.Slots.{
  IsUnique, flip, create_lem, create-IsUnique, replace_lem, remove_where-IsUnique,
  undelete-IsUnique, apart_parts, same_slot_refl, same_slot_sym,
}
use lied.FileService.Atomic.{keep-inserted}

-- The table, and for each slot the file whose bytes were stored last.
pub record Archive : Type 0 where
  pub rows : Table
  pub writer : Slot → Option ℕ

abbrev pub written_by : NewFile → ℕ → (Slot → Option ℕ) → Slot → Option ℕ
written_by new id writer s =
    let before = writer s in if same_slot s (slot_of (row_of 0 id new)) then some id else before

-- The clock is behind the creation of every row.
abbrev pub IsLater : ℕ → Table → Type 0
IsLater now = All (λ f. f.created_at < now)

pub data Step : Archive → Archive → Type 0 where
  uploaded :
      (refs : References) (now id : ℕ) (new : NewFile) (f : File) {w : Archive} {rows' : Table}
      → IsLater now w.rows
      → create refs now id new w.rows ≡ ok (f, rows')
      → Step w (record { rows = rows'; writer = written_by new id w.writer })
  upload_failed :
      (refs : References) (now id : ℕ) (new : NewFile) (f : File) {w : Archive} {rows' : Table}
      → create refs now id new w.rows ≡ ok (f, rows')
      → Step w (record w { rows = (hard_delete id rows').1 })
  replaced :
      (refs : References) (now old id : ℕ) (new : NewFile) (f : File) {w : Archive} {rows' : Table}
      → IsLater now w.rows
      → replace refs now old id new w.rows ≡ ok (f, rows')
      → Step w (record { rows = rows'; writer = written_by new id w.writer })
  deleted : (now id : ℕ) {w : Archive} → Step w (record w { rows = (soft_delete now id w.rows).1 })
  restored :
      (now id : ℕ) (done : Bool) {w : Archive} {rows' : Table}
      → undelete now id w.rows ≡ ok (done, rows')
      → Step w (record w { rows = rows' })

pub data Reach : Archive → Type 0 where
  empty : (writer : Slot → Option ℕ) → Reach (record { rows = []; writer = writer })
  next : {w w' : Archive} → Reach w → Step w w' → Reach w'

-- The bytes of the slot are those of the row, or it is deleted and a later row took its slot.
abbrev IsHeld : Table → (Slot → Option ℕ) → File → Type 0
IsHeld rows writer f =
    (writer (slot_of f) ≡ some f.id) ⊎ ((any (takes_slot f) rows ≡ true) × (is_live f ≡ false))

record IsGood (rows : Table) (writer : Slot → Option ℕ) : Type 0 where
  unique : IsUnique rows
  held : All (IsHeld rows writer) rows

any-left : (p : File → Bool) (xs ys : Table) → any p xs ≡ true → any p (xs ++ ys) ≡ true
any-left p [] ys h = absurd (cc)
any-left p (x ∷ xs) ys h = elim (Bool-cases (p x)) [
  | inl e ↦ rw e refl
  | inr e ↦ rw e (any-left p xs ys (rw e at h))
]

any-last : (p : File → Bool) (xs : Table) (y : File) → p y ≡ true → any p (xs ++ y ∷ []) ≡ true
any-last p [] y h = rw h refl
any-last p (x ∷ xs) y h = let rest = any-last p xs y h in rw rest (ground arith)

any-written :
    (p q : File → Bool) (write : File → File) (xs : Table)
    → ((g : File) → q (write g) ≡ p g)
    → any q (map write xs) ≡ any p xs
any-written p q write [] same = refl
any-written p q write (x ∷ xs) same = rw (same x, any-written p q write xs same) refl

All-written {ℓ κ} :
    (P : File → Type ℓ) (Q : File → Type κ) (write : File → File) (xs : Table)
    → ((g : File) → P g → Q (write g))
    → All P xs
    → All Q (map write xs)
All-written P Q write [] h _ = tt
All-written P Q write (x ∷ xs) h (p, ps) = (h x p, All-written P Q write xs h ps)

All-three {ℓ κ μ} :
    (P : File → Type ℓ) (Q : File → Type κ) (R : File → Type μ) (xs : Table)
    → All P xs
    → All Q xs
    → All R xs
    → All (λ f. P f × Q f × R f) xs
All-three P Q R [] _ _ _ = tt
All-three P Q R (x ∷ xs) (p, ps) (q, qs) (r, rs) = ((p, q, r), All-three P Q R xs ps qs rs)

-- A write that leaves the id, the slot and the creation of each row, and makes none live that a
-- later row took the slot of.
module _ (p : File → Bool) (g : File → File) where
  abbrev write : File → File
  write f = if p f then g f else f

  written-IsHeld :
      (rows : Table) (writer : Slot → Option ℕ)
      → ((f : File)
          → (slot_of (g f) ≡ slot_of f) × ((g f).id ≡ f.id) × ((g f).created_at ≡ f.created_at))
      → ((f : File)
          → any (takes_slot f) rows ≡ true
          → is_live f ≡ false
          → is_live (write f) ≡ false)
      → All (IsHeld rows writer) rows
      → All (IsHeld (map write rows) writer) (map write rows)
  written-IsHeld rows writer keeps dead = All-written _ _ write rows (λ f h. elim h [
    | inl e ↦ inl (rw (slots f, ids f) e)
    | inr (a, n) ↦
        inr (any-written (takes_slot f) (takes_slot (write f)) write rows (same f) ∙ a, dead f a n)
  ])
    where
      slots : (f : File) → slot_of (write f) ≡ slot_of f
      slots f = elim (Bool-cases (p f)) [ inl e ↦ rw e (keeps f).0 | inr e ↦ rw e refl ]

      ids : (f : File) → (write f).id ≡ f.id
      ids f = elim (Bool-cases (p f)) [ inl e ↦ rw e (keeps f).1 | inr e ↦ rw e refl ]

      times : (f : File) → (write f).created_at ≡ f.created_at
      times f = elim (Bool-cases (p f)) [ inl e ↦ rw e (keeps f).2 | inr e ↦ rw e refl ]

      same : (f h : File) → takes_slot (write f) (write h) ≡ takes_slot f h
      same f h = rw (slots f, slots h, ids f, ids h, times f, times h) refl

remove_where-IsGood :
    (now : ℕ) (p : File → Bool) (rows : Table) (writer : Slot → Option ℕ)
    → IsGood rows writer
    → IsGood (remove_where now p rows) writer
remove_where-IsGood now p rows writer good = record {
  unique = remove_where-IsUnique now p rows good.unique;
  held =
      written-IsHeld p (removed now) rows writer (λ f. (refl, refl, refl))
        (λ f a n. elim (Bool-cases (p f)) [ inl e ↦ rw e refl | inr e ↦ rw e n ]) good.held;
}

update_from-written :
    (p : File → Bool) (g : File → File) (past rows : Table) {out : Table}
    → update_from indexes p (λ f. ok (g f)) past rows ≡ ok out
    → past ++ map (write p g) rows ≡ out
unfolding update_from
update_from-written p g past [] e = append-nil past ∙ cc
update_from-written p g past (f ∷ rows) e = elim (Bool-cases (p f)) [
  | inr n ↦
      let e' = rw (update_from, n) at e in
      rw n (
        sym (append_assoc past (f ∷ []) (map (write p g) rows))
        ∙ update_from-written p g (past ++ f ∷ []) rows e')
  | inl k ↦ elim (Option-cases (violation indexes (g f) (past ++ rows))) [
    | inr (x, v) ↦ let e' = rw (update_from, k, v) at e in absurd (cc)
    | inl v ↦
        let e' = rw (update_from, k, v) at e in
        rw k (
          sym (append_assoc past (g f ∷ []) (map (write p g) rows))
          ∙ update_from-written p g (past ++ g f ∷ []) rows e')
  ]
]

refusal-same :
    (o : Option File) (rows : Table) {done : Bool} {rows' : Table}
    → refusal o rows ≡ ok (done, rows')
    → rows ≡ rows'
refusal-same none rows e = cc
refusal-same (some f) rows e = elim (Bool-cases (is_live f)) [
  | inl l ↦ let e' = rw l at e in cc
  | inr l ↦ let e' = rw l at e in absurd (cc)
]

undelete-IsGood :
    (now id : ℕ) (rows : Table) (writer : Slot → Option ℕ) {done : Bool} {rows' : Table}
    → IsGood rows writer
    → undelete now id rows ≡ ok (done, rows')
    → IsGood rows' writer
unfolding undelete update
undelete-IsGood now id rows writer {done} {rows'} good e = record {
  unique = undelete-IsUnique now id rows good.unique e;
  held = elim (Bool-cases (any (is_restorable id rows) rows)) [
    | inr n ↦
        let same =
          refusal-same (find_by_id_including_deleted id rows) rows (rw (undelete, n) at e) in
        subst (λ rs. All (IsHeld rs writer) rs) same good.held
    | inl k ↦
        elim (Result-cases
          (update indexes (is_restorable id rows) (λ f. ok (revived now f)) rows)) [
            | inr (x, q) ↦ let e' = rw (undelete, k, q) at e in absurd (cc)
            | inl (out, q) ↦
                let e' = rw (undelete, k, q) at e in
                let same : out ≡ rows' = cc in
                let shape = update_from-written (is_restorable id rows) (revived now) [] rows q in
                subst (λ rs. All (IsHeld rs writer) rs) (shape ∙ same)
                  (written-IsHeld (is_restorable id rows) (revived now) rows writer
                    (λ f. (refl, refl, refl))
                    (λ f a n.
                      let stays : is_restorable id rows f ≡ false = ground arith in rw stays n)
                    good.held)
          ]
  ];
}

written_by-other :
    (new : NewFile) (now id : ℕ) (writer : Slot → Option ℕ) (s : Slot)
    → same_slot s (slot_of (row_of now id new)) ≡ false
    → written_by new id writer s ≡ writer s
written_by-other new now id writer s n = rw n refl

create-IsGood :
    (refs : References) (now id : ℕ) (new : NewFile) (rows : Table) (writer : Slot → Option ℕ)
    {f : File} {rows' : Table}
    → IsLater now rows
    → IsGood rows writer
    → create refs now id new rows ≡ ok (f, rows')
    → IsGood rows' (written_by new id writer)
create-IsGood refs now id new rows writer {f} {rows'} later good e =
    let row = row_of now id new in
    let (_, put_row) = create_lem refs now id new rows e in
    let (_, shape, free) = insert-Pairs indexes flip row rows good.unique put_row in
    record {
      unique = create-IsUnique refs now id new rows good.unique e;
      held =
          subst (λ rs. All (IsHeld rs (written_by new id writer)) rs) shape
            (All-append _ rows (row ∷ [])
              (All-imp _ _ (λ f h. old f h.0 h.1 h.2) rows
                (All-three _ _ _ rows later free good.held))
              (inl (rw (same_slot_refl (slot_of row)) refl), tt));
    }
  where
    old :
        (f : File)
        → f.created_at < now
        → collides indexes (row_of now id new) f ≡ false
        → IsHeld rows writer f
        → IsHeld (rows ++ row_of now id new ∷ []) (written_by new id writer) f
    old f before free h =
        let row = row_of now id new in
        let (i, c) = apart_parts row f free in
        let turn = same_slot_sym (slot_of f) (slot_of row) in
        elim (Bool-cases (same_slot (slot_of f) (slot_of row))) [
          | inl k ↦
              let taken : takes_slot f row ≡ true = ground arith in
              let dead : is_live f ≡ false = ground arith in
              inr (any-last (takes_slot f) rows row taken, dead)
          | inr k ↦ elim h [
            | inl e ↦ inl (written_by-other new now id writer (slot_of f) k ∙ e)
            | inr (a, n) ↦ inr (any-left (takes_slot f) rows (row ∷ []) a, n)
          ]
        ]

Step-IsGood : {w w' : Archive} → Step w w' → IsGood w.rows w.writer → IsGood w'.rows w'.writer
unfolding soft_delete hard_delete
Step-IsGood {w} (uploaded refs now id new f later e) good =
    create-IsGood refs now id new w.rows w.writer later good e
Step-IsGood {w} (upload_failed refs now id new f {rows' = rows'} e) good =
    let (_, put_row) = create_lem refs now id new w.rows e in
    let (_, shape, free) =
      insert-Pairs indexes flip (row_of now id new) w.rows good.unique put_row in
    subst (λ rs. IsGood (hard_delete id rs).1 w.writer) shape
      (rw (keep-inserted now id new w.rows free) good)
Step-IsGood {w} (replaced refs now old id new f later e) good =
    create-IsGood refs now id new (remove_where now (is_live_id old) w.rows) w.writer
      (All-written _ _ _ w.rows
        (λ f b. elim (Bool-cases (is_live_id old f)) [ inl k ↦ rw k b | inr k ↦ rw k b ]) later)
      (remove_where-IsGood now (is_live_id old) w.rows w.writer good)
      (replace_lem refs now id new w.rows old e).1
Step-IsGood {w} (deleted now id) good = remove_where-IsGood now (is_live_id id) w.rows w.writer good
Step-IsGood {w} (restored now id done e) good = undelete-IsGood now id w.rows w.writer good e

Reach-IsGood : {w : Archive} → Reach w → IsGood w.rows w.writer
Reach-IsGood (empty writer) = record { unique = tt; held = tt }
Reach-IsGood (next r s) = Step-IsGood s (Reach-IsGood r)

-- From the empty table on, after any deletions, restorations, uploads and replacements that were
-- stored at a time later than the creation of every row, and uploads that failed and were taken
-- back, the bytes of the slot of each live file are those that were stored with this file.
pub Reach-IsCurrent :
    {w : Archive} → Reach w → All (λ f. is_live f ≡ true → w.writer (slot_of f) ≡ some f.id) w.rows
Reach-IsCurrent {w} r =
    All-imp _ _ (λ f h l. elim h [ inl e ↦ e | inr (a, n) ↦ absurd (cc) ]) w.rows
      (Reach-IsGood r).held

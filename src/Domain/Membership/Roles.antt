-- ===== src/Domain/Membership/Roles.antt =====
-- `Role` of lied/src/domain/membership.rs: its text in the database and the permission matrix.
use lied.Prelude.{
  ◌⊎◌, subst, ◌≡◌, refl, sym, Bool, true, false, Option, none, some, if◌then◌else◌, Bool-cases, inl,
  inr, ◌↔◌, arith,
}
use lied.Prelude.Text.{Text, codes, text_eq, text_eq→eq}

pub data Role : Type 0 where
  owner archivist conductor musician : Role

unfoldable pub as_str : Role → Text
as_str owner = codes "owner"
as_str archivist = codes "archivist"
as_str conductor = codes "conductor"
as_str musician = codes "musician"

unfoldable pub parse_role : Text → Option Role
unfolding text_eq
parse_role input =
    if text_eq input (codes "owner")
    then some owner
    else if text_eq input (codes "archivist")
    then some archivist
    else if text_eq input (codes "conductor")
    then some conductor
    else if text_eq input (codes "musician")
    then some musician
    else none

unfoldable pub is_staff : Role → Bool
is_staff owner = true
is_staff archivist = true
is_staff conductor = true
is_staff musician = false

unfoldable pub can_edit_arrangements : Role → Bool
can_edit_arrangements owner = true
can_edit_arrangements archivist = true
can_edit_arrangements conductor = false
can_edit_arrangements musician = false

unfoldable pub can_build_collections : Role → Bool
unfolding is_staff
can_build_collections r = is_staff r

unfoldable pub can_manage_members : Role → Bool
can_manage_members owner = true
can_manage_members archivist = false
can_manage_members conductor = false
can_manage_members musician = false

unfoldable pub can_author_global_annotations : Role → Bool
can_author_global_annotations owner = true
can_author_global_annotations archivist = false
can_author_global_annotations conductor = true
can_author_global_annotations musician = false

-- `*self == Role::Owner`
abbrev pub is_owner : Role → Bool
is_owner owner = true
is_owner archivist = false
is_owner conductor = false
is_owner musician = false

pub parse_role-as_str : (r : Role) → parse_role (as_str r) ≡ some r
unfolding parse_role as_str
parse_role-as_str owner = refl
parse_role-as_str archivist = refl
parse_role-as_str conductor = refl
parse_role-as_str musician = refl

arm :
    (b : Bool) {x r : Role} {m : Option Role}
    → (if b then some x else m) ≡ some r
    → ((b ≡ true) × (x ≡ r)) ⊎ (m ≡ some r)
arm true e = inl (refl, cc)
arm false e = inr e

-- A text of the column and the role that it stands for.
abbrev matched : (s : Text) {x r : Role} → (text_eq s (as_str x) ≡ true) × (x ≡ r) → s ≡ as_str r
matched s {x} (k, p) = subst (λ y. s ≡ as_str y) p (text_eq→eq s (as_str x) k)

-- The roles are exactly the four texts of the column: a text is parsed to a role if and only if it
-- is the text that is written for this role.
pub parse_role_iff : (s : Text) (r : Role) → (parse_role s ≡ some r) ↔ (s ≡ as_str r)
unfolding parse_role as_str
parse_role_iff s r = (
  λ e. elim (arm (text_eq s (codes "owner")) e) [
    | inl h ↦ matched s h
    | inr e ↦ elim (arm (text_eq s (codes "archivist")) e) [
      | inl h ↦ matched s h
      | inr e ↦ elim (arm (text_eq s (codes "conductor")) e) [
        | inl h ↦ matched s h
        | inr e ↦ elim (arm (text_eq s (codes "musician")) e) [
          | inl h ↦ matched s h
          | inr e ↦ absurd (cc)
        ]
      ]
    ]
  ],
  λ e. subst (λ t. parse_role t ≡ some r) (sym e) (parse_role-as_str r),
)

-- The test that SQL makes on the column and the one that the code makes on the parsed role.
pub is_owner-eq :
    (s : Text)
    → is_owner (elim (parse_role s) [ none ↦ musician | some r ↦ r ]) ≡ text_eq s (codes "owner")
unfolding parse_role
is_owner-eq s = elim (Bool-cases (text_eq s (codes "owner"))) [
  | inl e ↦ rw e
  | inr e ↦ rw e (ground arith)
]

pub as_str-eq : (r : Role) → text_eq (as_str r) (codes "owner") ≡ is_owner r
unfolding as_str text_eq
as_str-eq owner = refl
as_str-eq archivist = refl
as_str-eq conductor = refl
as_str-eq musician = refl

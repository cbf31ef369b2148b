-- ===== src/Domain/Membership/Examples.antt =====
-- Tests of lied/src/domain/membership.rs on an orchestra with two owners and a musician.
use lied.Prelude.{
  ℕ, ◌≡◌, ◌↔◌, refl, true, false, none, some, List, [], ◌∷◌, ◌++◌, ok, err, any, arith, Distinct,
  Within,
}
use lied.Prelude.Text.{codes, text_eq}
use lied.Sql.{insert}
use lied.Domain.Membership.{
  Row, MembershipFields, Table, References, owns, create, update, delete, last_owner, duplicate,
  validate_instrument_ids, find_by_id, into_membership,
}
use lied.Domain.Membership.Roles.{
  Role, owner, archivist, conductor, musician, as_str, parse_role, parse_role_iff,
}
use lied.Domain.Membership.Owners.{HasOwner, without, delete_refuses}
use lied.Domain.Membership.Validation.{validate_instrument_ids_iff}
use lied.Domain.Membership.Invariant.{IsConsistent, IsValid}
use lied.Domain.Membership.Reachable.{
  here, next, create_step, update_step, delete_step, Reach-IsConsistent,
}
use lied.Domain.Membership.Races.{Run, start, Sessions, concurrent_deletes_lose_owner}

abbrev pub member : ℕ → ℕ → Role → Row
member id user role = record {
  id = id;
  user_id = user;
  organization_id = 5;
  role = as_str role;
  instrument_ids = 31 ∷ 32 ∷ [];
  is_principal = false;
  principal_instrument_ids = 32 ∷ [];
  created_at = 1;
  updated_at = 1;
  created_by = none;
}

abbrev pub instruments : List ℕ
instruments = 32 ∷ 33 ∷ 31 ∷ []

abbrev pub orchestra : Table
orchestra = member 1 11 owner ∷ member 2 12 musician ∷ member 3 13 owner ∷ []

abbrev quartet : Table
quartet = member 1 11 owner ∷ member 2 12 musician ∷ []

abbrev fields : Role → MembershipFields
fields role = record {
  role = role;
  instrument_ids = 33 ∷ 31 ∷ 33 ∷ [];
  is_principal = true;
  principal_instrument_ids = 33 ∷ [];
}

member-IsValid : (id user : ℕ) (role : Role) → IsValid instruments (member id user role)
unfolding as_str
member-IsValid id user role = record {
  known_role = (role, (parse_role_iff (as_str role) role).1 refl);
  known_instruments = ground arith;
  subset = ground arith;
}

pub orchestra-IsConsistent : IsConsistent instruments orchestra
orchestra-IsConsistent = record {
  unique = ground arith;
  valid =
      (member-IsValid 1 11 owner, (member-IsValid 2 12 musician, (member-IsValid 3 13 owner, tt)));
}

instruments-Distinct : Distinct instruments
instruments-Distinct = ground arith

roles : (parse_role (codes "conductor") ≡ some conductor) × (parse_role (codes "superadmin") ≡ none)
unfolding parse_role
roles = (refl, refl)

sole_owner : delete 1 quartet ≡ err last_owner
unfolding delete as_str parse_role
sole_owner = refl

sole_owner_steps_down : update instruments 9 1 (fields archivist) quartet ≡ err last_owner
unfolding update as_str parse_role text_eq
sole_owner_steps_down = refl

delete_refuses_example :
    (delete 1 quartet ≡ err last_owner)
    ↔ (HasOwner 5 quartet × (any (owns 5) (without 1 quartet) ≡ false))
unfolding as_str
delete_refuses_example = delete_refuses 1 quartet (ground arith) refl

abbrev changed : Row → Row
changed r = record r {
  role = as_str archivist;
  instrument_ids = 33 ∷ 31 ∷ 33 ∷ [];
  is_principal = true;
  principal_instrument_ids = 33 ∷ [];
  updated_at = 9;
}

abbrev orchestra_changed : Table
orchestra_changed = changed (member 1 11 owner) ∷ member 2 12 musician ∷ member 3 13 owner ∷ []

orchestra-HasOwner : HasOwner 5 orchestra
unfolding as_str text_eq
orchestra-HasOwner = refl

abbrev refs : References
refs = record { users = 14 ∷ 11 ∷ []; organizations = 5 ∷ [] }

abbrev guest : Row
guest = record (changed (member 4 14 archivist)) { created_at = 9 }

abbrev orchestra_hired : Table
orchestra_hired = orchestra ++ guest ∷ []

hired :
    create refs instruments 9 4 14 5 (fields archivist) none orchestra
    ≡ ok (into_membership guest, orchestra_hired)
unfolding create insert
hired = refl

abbrev orchestra_moved : Table
orchestra_moved = orchestra_changed ++ guest ∷ []

stepped_down :
    update instruments 9 1 (fields archivist) orchestra_hired
    ≡ ok (find_by_id 1 orchestra_moved, orchestra_moved)
unfolding update as_str parse_role text_eq
stepped_down = refl

left : delete 2 orchestra_moved ≡ ok (true, without 2 orchestra_moved)
unfolding delete as_str parse_role
left = refl

Reach-IsConsistent_example :
    IsConsistent instruments (without 2 orchestra_moved) × HasOwner 5 (without 2 orchestra_moved)
Reach-IsConsistent_example =
    Reach-IsConsistent instruments 5 orchestra instruments-Distinct orchestra-IsConsistent
      orchestra-HasOwner
      (next
        (next
          (next here
            (create_step refs 9 4 14 5 (fields archivist) none (into_membership guest) hired))
          (update_step 9 1 (fields archivist) (find_by_id 1 orchestra_moved) stepped_down))
        (delete_step 2 true left))

twice : create refs instruments 9 4 11 5 (fields archivist) none quartet ≡ err duplicate
unfolding create insert
twice = refl

validate_instrument_ids_iff_example :
    (validate_instrument_ids instruments (33 ∷ 31 ∷ 33 ∷ []) ≡ true)
    ↔ Within (33 ∷ 31 ∷ 33 ∷ []) instruments
validate_instrument_ids_iff_example =
    validate_instrument_ids_iff instruments (33 ∷ 31 ∷ 33 ∷ []) instruments-Distinct

concurrent_deletes_lose_owner_example :
    (s : Sessions) × Run (start orchestra) s × HasOwner 5 orchestra × (any (owns 5) s.rows ≡ false)
unfolding as_str text_eq
concurrent_deletes_lose_owner_example =
    concurrent_deletes_lose_owner 5 1 3 orchestra (ground arith) refl refl refl refl refl

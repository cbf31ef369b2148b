-- ===== src/Domain/Membership/Validation.antt =====
-- `validate_instrument_ids` and `validate_fields` of lied/src/domain/membership.rs.
use lied.Prelude.{
  ℕ, ◌≡◌, ◌≢◌, refl, sym, ◌∙◌, subst, ap, Bool, true, List, [], ◌∷◌, map, inl, inr, keep, length,
  contains, All-imp, All-keep, Pairs, Pairs-keep, Bool-cases, ◌==◌, leb, ◌↔◌, arith, Distinct,
  Within, length-le_of_Within, perm_of_Within, contains_perm, contains_of_Within, ==_iff,
  not_contains_of_All, Within-refl, All-of_not_contains,
}
use lied.Sql.{order_by}
use lied.Sql.OrderBy.{contains-order_by, order_by-IsSorted, Before}
use lied.Domain.Membership.{dedup, validate_instrument_ids}

map_id : (xs : List ℕ) → map (λ x. x) xs ≡ xs
map_id [] = refl
map_id (x ∷ xs) = ap (λ ys. x ∷ ys) (map_id xs)

sort-contains : (a : ℕ) (xs : List ℕ) → contains a (order_by leb xs) ≡ contains a xs
sort-contains a xs =
    subst (λ ys. contains a ys ≡ contains a xs) (map_id (order_by leb xs))
      (subst (λ ys. contains a (map (λ x. x) (order_by leb xs)) ≡ contains a ys) (map_id xs)
        (contains-order_by leb (λ x. x) a xs))

contains-dedup : (a : ℕ) (xs : List ℕ) → contains a (dedup xs) ≡ contains a xs
unfolding dedup
contains-dedup a [] = refl
contains-dedup a (x ∷ []) = refl
contains-dedup a (x ∷ y ∷ xs) = ground (arith, contains-dedup a (y ∷ xs))

-- In a sorted list equal elements are neighbours.
dedup-Distinct : (xs : List ℕ) → Pairs (Before leb) xs → Pairs (λ x y. x ≢ y) (dedup xs)
unfolding dedup
dedup-Distinct [] _ = tt
dedup-Distinct (x ∷ []) _ = (tt, tt)
dedup-Distinct (x ∷ y ∷ xs) ((h, hs), ks) = elim (Bool-cases (x == y)) [
  | inl e ↦ rw e (dedup-Distinct (y ∷ xs) ks)
  | inr e ↦
      let above =
        All-imp (Before leb y) (λ z. x ≢ z) (λ z (k : Before leb y z). ground arith) xs ks.0 in
      let missing = not_contains_of_All x (y ∷ xs) (ground arith, above) in
      rw e (
        All-of_not_contains x (dedup (y ∷ xs)) (contains-dedup x (y ∷ xs) ∙ missing),
        dedup-Distinct (y ∷ xs) ks,
      )
]

contains-keep :
    (p : ℕ → Bool) (a : ℕ) (xs : List ℕ)
    → p a ≡ true
    → contains a xs ≡ true
    → contains a (keep p xs) ≡ true
contains-keep p a [] k h = h
contains-keep p a (x ∷ xs) k h = elim (Bool-cases (x == a)) [
  | inl e ↦
      let same : p x ≡ true = subst (λ y. p y ≡ true) (sym ((==_iff x a).0 e)) k in
      rw same (ground arith)
  | inr e ↦
      let ih = contains-keep p a xs k (ground arith) in
      elim (Bool-cases (p x)) [ inl g ↦ rw g (ground arith) | inr g ↦ rw g ih ]
]

module _ (instruments ids : List ℕ) where
  -- The instruments that the query counts.
  abbrev present : List ℕ
  present = keep (λ i. contains i ids) instruments

  abbrev distinct : List ℕ
  distinct = dedup (order_by leb ids)

  distinct-Distinct : Distinct distinct
  distinct-Distinct =
      dedup-Distinct (order_by leb ids)
        (order_by-IsSorted leb (λ x y h. ground arith) (λ x y z h k. ground arith) ids)

  contains-distinct : (a : ℕ) → contains a distinct ≡ contains a ids
  contains-distinct a = contains-dedup a (order_by leb ids) ∙ sort-contains a ids

  present-Distinct : Distinct instruments → Distinct present
  present-Distinct = Pairs-keep _ _ _ (λ x y _ _ k. k) instruments

  present-Within : Within present instruments
  present-Within =
      All-keep (λ i. contains i ids) (λ i. contains i instruments ≡ true) _ (λ x _ k. k) instruments
        (Within-refl instruments)

  present-Within-distinct : Within present distinct
  present-Within-distinct =
      All-keep (λ i. contains i ids) (λ i. contains i instruments ≡ true) _
        (λ x e _. contains-distinct x ∙ e) instruments (Within-refl instruments)

  distinct-Within-present : Within ids instruments → Within distinct present
  distinct-Within-present w =
      All-imp (λ a. contains a distinct ≡ true) _
        (λ a k.
          let listed = sym (contains-distinct a) ∙ k in
          contains-keep (λ i. contains i ids) a instruments listed
            (contains_of_Within ids instruments a w listed))
        distinct (Within-refl distinct)

  Within-of_length :
      Distinct instruments → (length present == length distinct) ≡ true → Within ids instruments
  Within-of_length d e =
      let perm =
        perm_of_Within present distinct (present-Distinct d) present-Within-distinct
          (omega (arith, (==_iff (length present) (length distinct)).0 e)) in
      All-imp (λ a. contains a ids ≡ true) _
        (λ a k.
          contains_of_Within present instruments a present-Within
            (contains_perm a perm ∙ contains-distinct a ∙ k))
        ids (Within-refl ids)

  length_of_Within :
      Distinct instruments → Within ids instruments → (length present == length distinct) ≡ true
  length_of_Within d w =
      let up = length-le_of_Within present distinct (present-Distinct d) present-Within-distinct in
      let down =
        length-le_of_Within distinct present distinct-Distinct (distinct-Within-present w) in
      ground arith

-- Counting stands for looking up: over instruments with unique ids, `validate_instrument_ids` holds
-- exactly when each of the given ids, which may repeat, is the id of an instrument.
pub validate_instrument_ids_iff :
    (instruments ids : List ℕ)
    → Distinct instruments
    → (validate_instrument_ids instruments ids ≡ true) ↔ Within ids instruments
unfolding validate_instrument_ids
validate_instrument_ids_iff instruments [] d = (λ _. tt, λ _. refl)
validate_instrument_ids_iff instruments (id ∷ ids) d =
    (Within-of_length instruments (id ∷ ids) d, length_of_Within instruments (id ∷ ids) d)

-- ===== src/Domain/Coverage/Tally.antt =====
-- lied/src/domain/coverage.rs: the numbers of a report are those of its voices.
use lied.Prelude.{
  ℕ, suc, ◌≤◌, ◌≡◌, refl, sym, ◌∙◌, ap, Bool, true, false, List, [], ◌∷◌, ◌++◌, All, All-append,
  keep, length, length-append, ==_iff, arith, Bool-cases, Option-cases, inl, inr, ◌↔◌,
}
use lied.Domain.Coverage.{
  VoiceState, unassigned, assigned, rehearsed, VoiceCoverage, ItemCoverage, VoiceCells, ItemRow,
  update_last, is_new, add_voice, count_state, with_voice, voice_of, push_item, push_rows,
  item_of_row, id_of, sum_of, for_collection, is_fully_assigned,
}

abbrev pub assigned_state : VoiceState → Bool
assigned_state unassigned = false
assigned_state assigned = true
assigned_state rehearsed = true

abbrev pub rehearsed_state : VoiceState → Bool
rehearsed_state unassigned = false
rehearsed_state assigned = false
rehearsed_state rehearsed = true

abbrev pub is_assigned : VoiceCoverage → Bool
is_assigned v = assigned_state v.state

abbrev pub is_rehearsed : VoiceCoverage → Bool
is_rehearsed v = rehearsed_state v.state

-- The numbers of an item are those of its voices.
pub record IsTallied (item : ItemCoverage) : Type 0 where
  pub required : item.required ≡ length item.voices
  pub assigned : item.assigned ≡ length (keep is_assigned item.voices)
  pub rehearsed : item.rehearsed ≡ length (keep is_rehearsed item.voices)

module _ (p : VoiceCoverage → Bool) (v : VoiceCoverage) where
  keep_selected :
      (vs : List VoiceCoverage)
      → p v ≡ true
      → length (keep p (vs ++ v ∷ [])) ≡ suc (length (keep p vs))
  keep_selected [] h = rw h refl
  keep_selected (w ∷ vs) h = elim (Bool-cases (p w)) [
    | inl e ↦ rw e (ap suc (keep_selected vs h))
    | inr e ↦ rw e (keep_selected vs h)
  ]

  keep_other :
      (vs : List VoiceCoverage) → p v ≡ false → length (keep p (vs ++ v ∷ [])) ≡ length (keep p vs)
  keep_other [] h = rw h refl
  keep_other (w ∷ vs) h = elim (Bool-cases (p w)) [
    | inl e ↦ rw e (ap suc (keep_other vs h))
    | inr e ↦ rw e (keep_other vs h)
  ]

module _ (v : VoiceCoverage) (item : ItemCoverage) (h : IsTallied item) where
  grown : length (item.voices ++ v ∷ []) ≡ suc (length item.voices)
  grown = omega (arith, length-append item.voices (v ∷ []))

  with_voice-IsTallied :
      (s : VoiceState) → v.state ≡ s → IsTallied (with_voice v (count_state s item))
  with_voice-IsTallied unassigned e = record {
    required = ap suc h.required ∙ sym grown;
    assigned = h.assigned ∙ sym (keep_other is_assigned v item.voices (ap assigned_state e));
    rehearsed = h.rehearsed ∙ sym (keep_other is_rehearsed v item.voices (ap rehearsed_state e));
  }
  with_voice-IsTallied assigned e = record {
    required = ap suc h.required ∙ sym grown;
    assigned =
        ap suc h.assigned ∙ sym (keep_selected is_assigned v item.voices (ap assigned_state e));
    rehearsed = h.rehearsed ∙ sym (keep_other is_rehearsed v item.voices (ap rehearsed_state e));
  }
  with_voice-IsTallied rehearsed e = record {
    required = ap suc h.required ∙ sym grown;
    assigned =
        ap suc h.assigned ∙ sym (keep_selected is_assigned v item.voices (ap assigned_state e));
    rehearsed =
        ap suc h.rehearsed ∙ sym (keep_selected is_rehearsed v item.voices (ap rehearsed_state e));
  }

add_voice-IsTallied :
    (cells : VoiceCells) (item : ItemCoverage) → IsTallied item → IsTallied (add_voice cells item)
unfolding add_voice
add_voice-IsTallied cells item h = elim (Option-cases cells.voice_id) [
  | inl e ↦ rw (add_voice, e) h
  | inr (id, e) ↦ elim (Option-cases cells.voice_name) [
    | inl f ↦ rw (add_voice, e, f) h
    | inr (name, f) ↦ elim (Option-cases cells.instrument_id) [
      | inl g ↦ rw (add_voice, e, f, g) h
      | inr (instrument, g) ↦
          let v = voice_of cells id name instrument in
          rw (add_voice, e, f, g) (with_voice-IsTallied v item h v.state refl)
    ]
  ]
]

All-update_last {ℓ κ} :
    {A : Type ℓ} (P : A → Type κ) (f : A → A)
    → ((a : A) → P a → P (f a))
    → (xs : List A) → All P xs
    → All P (update_last f xs)
unfolding update_last
All-update_last P f k [] _ = tt
All-update_last P f k (x ∷ []) (h, _) = (k x h, tt)
All-update_last P f k (x ∷ y ∷ xs) (h, hs) = (h, All-update_last P f k (y ∷ xs) hs)

push_item-IsTallied :
    (fresh : ItemCoverage) (cells : VoiceCells) (items : List ItemCoverage)
    → IsTallied fresh
    → All IsTallied items
    → All IsTallied (push_item fresh cells items)
unfolding push_item
push_item-IsTallied fresh cells items f h =
    let grow = All-update_last IsTallied (add_voice cells) (add_voice-IsTallied cells) in
    elim (Bool-cases (is_new id_of fresh.item_id items)) [
      | inl e ↦
          rw e (grow (items ++ fresh ∷ []) (All-append IsTallied items (fresh ∷ []) h (f, tt)))
      | inr e ↦ rw e (grow items h)
    ]

push_rows-IsTallied :
    (rows : List ItemRow) (items : List ItemCoverage)
    → All IsTallied items
    → All IsTallied (push_rows rows items)
unfolding push_rows
push_rows-IsTallied [] items h = h
push_rows-IsTallied (row ∷ rows) items h =
    push_rows-IsTallied rows (push_item (item_of_row row) row.cells items) (
      push_item-IsTallied (item_of_row row) row.cells items
        (record { required = refl; assigned = refl; rehearsed = refl }) h)

length-keep_le :
    (p : VoiceCoverage → Bool) (vs : List VoiceCoverage) → length (keep p vs) ≤ length vs
length-keep_le p [] = omega arith
length-keep_le p (v ∷ vs) = ground (arith, length-keep_le p vs)

-- Nobody is missing in the item.
abbrev pub IsCovered : ItemCoverage → Type 0
IsCovered item = All (λ v. is_assigned v ≡ true) item.voices

All-of_length :
    (p : VoiceCoverage → Bool) (vs : List VoiceCoverage)
    → length (keep p vs) ≡ length vs
    → All (λ v. p v ≡ true) vs
All-of_length p [] _ = tt
All-of_length p (v ∷ vs) e = elim (Bool-cases (p v)) [
  | inl k ↦ let e' = rw k at e in (k, All-of_length p vs (omega arith))
  | inr k ↦ let e' = rw k at e in absurd (omega (arith, length-keep_le p vs))
]

length_of_All :
    (p : VoiceCoverage → Bool) (vs : List VoiceCoverage)
    → All (λ v. p v ≡ true) vs
    → length (keep p vs) ≡ length vs
length_of_All p [] _ = refl
length_of_All p (v ∷ vs) (h, hs) = rw h (ap suc (length_of_All p vs hs))

abbrev required_of : ItemCoverage → ℕ
required_of item = item.required

abbrev assigned_of : ItemCoverage → ℕ
assigned_of item = item.assigned

assigned_le :
    (items : List ItemCoverage)
    → All IsTallied items
    → sum_of assigned_of items ≤ sum_of required_of items
unfolding sum_of
assigned_le [] _ = omega arith
assigned_le (item ∷ items) (h, hs) =
    omega
      (arith, assigned_le items hs, h.required, h.assigned, length-keep_le is_assigned item.voices)

IsCovered-of_sum :
    (items : List ItemCoverage)
    → All IsTallied items
    → sum_of assigned_of items ≡ sum_of required_of items
    → All IsCovered items
unfolding sum_of
IsCovered-of_sum [] _ _ = tt
IsCovered-of_sum (item ∷ items) (h, hs) e =
    let short = length-keep_le is_assigned item.voices in
    let rest = assigned_le items hs in
    (
      All-of_length is_assigned item.voices (omega (arith, e, short, rest, h.required, h.assigned)),
      IsCovered-of_sum items hs (omega (arith, e, short, rest, h.required, h.assigned)),
    )

sum_of_covered :
    (items : List ItemCoverage)
    → All IsTallied items
    → All IsCovered items
    → sum_of assigned_of items ≡ sum_of required_of items
unfolding sum_of
sum_of_covered [] _ _ = refl
sum_of_covered (item ∷ items) (h, hs) (k, ks) = omega (
  arith,
  sum_of_covered items hs ks,
  h.required,
  h.assigned,
  length_of_All is_assigned item.voices k,
)

-- In the report of `for_collection`, whatever the rows, the numbers of each item are those of its
-- voices: all of them, the ones that are assigned or rehearsed, and the ones that are rehearsed.
pub for_collection-IsTallied :
    (c : ℕ) (rows : List ItemRow) → All IsTallied (for_collection c rows).items
unfolding for_collection
for_collection-IsTallied c rows = push_rows-IsTallied rows [] tt

-- The report of `for_collection`, whatever the rows, is fully assigned exactly when in every item
-- every voice is assigned or rehearsed.
pub is_fully_assigned_iff :
    (c : ℕ) (rows : List ItemRow)
    → (is_fully_assigned (for_collection c rows) ≡ true)
      ↔ All IsCovered (for_collection c rows).items
unfolding for_collection is_fully_assigned
is_fully_assigned_iff c rows =
    let items = push_rows rows [] in
    let tallied = push_rows-IsTallied rows [] tt in
    (
      λ e. IsCovered-of_sum items tallied ((==_iff _ _).0 e),
      λ k. (==_iff _ _).1 (sum_of_covered items tallied k),
    )

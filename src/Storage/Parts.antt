-- ===== src/Storage/Parts.antt =====
-- The loops of lied/src/storage.rs that cut a body into parts.
use mathlib.Core.List.{append_assoc, map-append}
use lied.Prelude.{
  ℕ, zero, suc, ◌≤◌, ◌<◌, ◌≡◌, ◌+◌, refl, ◌∙◌, ap, true, List, [], ◌∷◌, ◌++◌, inl, inr, Result, ok,
  err, leb, length, length-append, All, All-append, Bool-cases, arith,
}
use lied.Prelude.Text.{Text, concat, concat-snoc}
use lied.Storage.{
  StorageError, s3_error, CompletedPart, Client, split_to, put_part, Progress, sent, flush_parts,
  bodies,
}

-- The parts are numbered one after the other, from `n` on.
abbrev pub IsNumbered : ℕ → List CompletedPart → Type 0
IsNumbered n [] = Unit {0}
IsNumbered n (part ∷ parts) = (part.part_number ≡ n) × IsNumbered (suc n) parts

pub IsNumbered-snoc :
    (n : ℕ) (parts : List CompletedPart) (part : CompletedPart)
    → IsNumbered n parts
    → part.part_number ≡ n + length parts
    → IsNumbered n (parts ++ part ∷ [])
IsNumbered-snoc n [] part _ e = (omega arith, tt)
IsNumbered-snoc n (p ∷ parts) part (h, hs) e =
    (h, IsNumbered-snoc (suc n) parts part hs (omega arith))

pub concat-bodies :
    (parts : List CompletedPart) (part : CompletedPart)
    → concat (bodies (parts ++ part ∷ [])) ≡ concat (bodies parts) ++ part.body
concat-bodies parts part =
    ap concat (map-append (λ (part : CompletedPart). part.body) parts (part ∷ []))
    ∙ concat-snoc (bodies parts) part.body

-- The storage refuses no start and no part, and completes an upload whose parts are in the order
-- of their numbers.
pub record IsHealthy (client : Client) : Type 0 where
  pub starts : client.create_multipart_upload ≡ true
  pub takes : (number : ℕ) (body : Text) → client.upload_part number body ≡ true
  pub completes :
      (parts : List CompletedPart)
      → IsNumbered 1 parts
      → client.complete_multipart_upload parts ≡ true

split_to-append : (n : ℕ) (s : Text) → (split_to n s).0 ++ (split_to n s).1 ≡ s
unfolding split_to
split_to-append zero s = refl
split_to-append (suc n) [] = refl
split_to-append (suc n) (c ∷ s) = ap (λ r. c ∷ r) (split_to-append n s)

length-split_to : (n : ℕ) (s : Text) → n ≤ length s → length (split_to n s).0 ≡ n
unfolding split_to
length-split_to zero s h = refl
length-split_to (suc n) [] h = absurd (omega arith)
length-split_to (suc n) (c ∷ s) h = ap suc (length-split_to n s (omega arith))

-- The bytes that are sent or kept so far.
abbrev pub taken : Progress → Text
taken p = concat (bodies p.parts) ++ p.buf

abbrev pub HasSize : ℕ → CompletedPart → Type 0
HasSize size part = length part.body ≡ size

-- The parts so far are full and numbered, and the next number is known.
pub record IsCut (size : ℕ) (p : Progress) : Type 0 where
  pub sized : All (HasSize size) p.parts
  pub numbered : IsNumbered 1 p.parts
  pub next_number : p.part_number ≡ 1 + length p.parts

sent-IsCut :
    {size : ℕ} (p : Progress) (part : CompletedPart) (rest : Text)
    → IsCut size p
    → part.part_number ≡ p.part_number
    → length part.body ≡ size
    → IsCut size (sent part rest p)
sent-IsCut {size} p part rest cut number full =
    let next = cut.next_number in
    record {
      sized = All-append (HasSize size) p.parts (part ∷ []) cut.sized (full, tt);
      numbered = IsNumbered-snoc 1 p.parts part cut.numbered (number ∙ next);
      next_number = omega (arith, length-append p.parts (part ∷ []));
    }

-- What `flush_parts` makes of a state: all full parts are sent, or a part was refused.
pub data Flushed (client : Client) (size : ℕ) (p : Progress)
    : Result StorageError Progress → Type 0 where
  flushed :
      (q : Progress)
      → taken q ≡ taken p
      → length q.buf < size
      → IsCut size q
      → Flushed client size p (ok q)
  refused : (¬ IsHealthy client) → Flushed client size p (err s3_error)

Flushed-weaken :
    {client : Client} {size : ℕ} (p q : Progress) {r : Result StorageError Progress}
    → taken q ≡ taken p
    → Flushed client size q r
    → Flushed client size p r
Flushed-weaken p q e (flushed t k l h) = flushed t (k ∙ e) l h
Flushed-weaken p q e (refused n) = refused n

pub flush_parts_lem :
    (client : Client) (size fuel : ℕ) (p : Progress)
    → 0 < size
    → length p.buf ≤ fuel
    → IsCut size p
    → Flushed client size p (flush_parts client size fuel p)
unfolding flush_parts put_part
flush_parts_lem client size zero p pos small sized = flushed p refl (omega arith) sized
flush_parts_lem client size (suc fuel) p pos small sized =
    elim (Bool-cases (leb size (length p.buf))) [
      | inr e ↦ rw (flush_parts, e) (flushed p refl (ground arith) sized)
      | inl e ↦
          let part = (split_to size p.buf).0 in
          let rest = (split_to size p.buf).1 in
          let done : CompletedPart = record { part_number = p.part_number; body = part } in
          let both = split_to-append size p.buf in
          let enough : size ≤ length p.buf = ground arith in
          let cut = length-split_to size p.buf enough in
          elim (Bool-cases (client.upload_part p.part_number part)) [
            | inr n ↦
                rw (flush_parts, e, put_part, n)
                  (refused (λ healthy. absurd (let y = healthy.takes p.part_number part in cc)))
            | inl y ↦
                let shorter : length rest ≤ fuel =
                  omega (arith, ap length both, length-append part rest) in
                let next =
                  flush_parts_lem client size fuel (sent done rest p) pos shorter
                    (sent-IsCut p done rest sized refl cut) in
                let before = concat (bodies p.parts) in
                let same : taken (sent done rest p) ≡ taken p =
                  rw (concat-bodies p.parts done)
                    (append_assoc before part rest ∙ ap (λ s. before ++ s) both) in
                rw (flush_parts, e, put_part, y) (Flushed-weaken p (sent done rest p) same next)
          ]
    ]

-- ===== src/Storage/Upload.antt =====
-- `upload_streaming` of lied/src/storage.rs against what it promises: a body is stored whole or not
-- at all.
use mathlib.Core.List.{append-nil, append_assoc}
use lied.Prelude.{
  ℕ, ◌+◌, ◌≤◌, ◌<◌, ◌≡◌, ◌⊎◌, refl, sym, ◌∙◌, subst, Bool, true, false, not, ◌||◌, List, [], ◌∷◌,
  ◌++◌, inl, inr, Result, ok, err, ◌>>=◌, ◌>>◌, guard, leb, length, length-append, All, Bool-cases,
  arith,
}
use lied.Prelude.Text.{Text, concat}
use lied.Storage.{
  StorageError, too_large, s3_error, CompletedPart, bodies, Client, Chunks, Store, put, Progress,
  received, started, read_chunks, flush_rest, put_part, is_nil, upload_parts, outcome,
  upload_streaming,
}
use lied.Storage.Parts.{
  IsNumbered, IsNumbered-snoc, IsCut, concat-bodies, IsHealthy, HasSize, taken, Flushed, flushed,
  refused, flush_parts_lem,
}

-- What an upload promises: the chunks are joined, until one cannot be read or they are too many
-- bytes. The number is the bytes before.
unfoldable pub joined : ℕ → ℕ → Chunks → Result StorageError Text
joined max before [] = ok []
joined max before (err e ∷ source) = err e
joined max before (ok chunk ∷ source) = do
  guard (leb (before + length chunk) max) (too_large max)
  rest ← joined max (before + length chunk) source
  ok (chunk ++ rest)

-- The promise, for the store.
abbrev pub stored : Text → Store → Result StorageError Text → Result StorageError ℕ × Store
stored key store (err e) = (err e, store)
stored key store (ok body) = (ok (length body), put key body store)

-- What the loop makes of its state.
data Read (client : Client) (size max : ℕ) (source : Chunks) (total : ℕ) (p : Progress)
    : Result StorageError (ℕ × Progress) → Type 0 where
  done :
      (rest : Text) (q : Progress)
      → joined max total source ≡ ok rest
      → taken q ≡ taken p ++ rest
      → length q.buf < size
      → IsCut size q
      → Read client size max source total p (ok (total + length rest, q))
  failed :
      (e : StorageError)
      → joined max total source ≡ err e
      → Read client size max source total p (err e)
  not_taken : (¬ IsHealthy client) → Read client size max source total p (err s3_error)

module _ (client : Client) (size max : ℕ) (source : Chunks) (total : ℕ) (chunk : Text)
    (p : Progress) (fits : leb (total + length chunk) max ≡ true) where
  Read-step :
      (q : Progress) {r : Result StorageError (ℕ × Progress)}
      → taken q ≡ taken p ++ chunk
      → Read client size max source (total + length chunk) q r
      → Read client size max (ok chunk ∷ source) total p r
  unfolding joined
  Read-step q e (done rest t j k l h) =
      let count : total + length chunk + length rest ≡ total + length (chunk ++ rest) =
        omega (arith, length-append chunk rest) in
      subst (λ n. Read client size max (ok chunk ∷ source) total p (ok (n, t))) (sym count)
        (done (chunk ++ rest) t (rw (fits, j) refl) (k ∙ rw e (append_assoc (taken p) chunk rest)) l
          h)
  Read-step q e (failed x j) = failed x (rw (fits, j) refl)
  Read-step q e (not_taken n) = not_taken n

  Read-flushed :
      (next : (q : Progress)
        → length q.buf < size
        → IsCut size q
        → Read client size max source
            (total + length chunk)
            q
            (read_chunks client size max source (total + length chunk) q))
      {r : Result StorageError Progress}
      → Flushed client size (received chunk p) r
      → Read client size max
          (ok chunk ∷ source)
          total
          p
          (r >>= read_chunks client size max source (total + length chunk))
  Read-flushed next (flushed q e k s) =
      Read-step q (e ∙ sym (append_assoc (concat (bodies p.parts)) p.buf chunk)) (next q k s)
  Read-flushed next (refused n) = not_taken n

read_chunks_lem :
    (client : Client) (size max : ℕ) (source : Chunks) (total : ℕ) (p : Progress)
    → length p.buf < size
    → IsCut size p
    → Read client size max source total p (read_chunks client size max source total p)
unfolding read_chunks joined
read_chunks_lem client size max [] total p l h =
    subst (λ n. Read client size max [] total p (ok (n, p))) (omega arith)
      (done [] p refl (sym (append-nil (taken p))) l h)
read_chunks_lem client size max (err e ∷ source) total p l h = failed e refl
read_chunks_lem client size max (ok chunk ∷ source) total p l h =
    let next = read_chunks_lem client size max source (total + length chunk) in
    let sent =
      flush_parts_lem client size (length (p.buf ++ chunk)) (received chunk p) (omega arith)
        (omega arith)
        (record { sized = h.sized; numbered = h.numbered; next_number = h.next_number }) in
    elim (Bool-cases (leb (total + length chunk) max)) [
      | inr n ↦ rw (read_chunks, n) (failed (too_large max) (rw n refl))
      | inl fits ↦
          rw (read_chunks, fits) (Read-flushed client size max source total chunk p fits next sent)
    ]

-- The parts of a body: full ones, and at most one shorter at the end, numbered from 1 on.
pub record AreParts (size : ℕ) (body : Text) (parts : List CompletedPart) : Type 0 where
  pub whole : concat (bodies parts) ≡ body
  pub full : List CompletedPart
  pub last : CompletedPart
  pub short : length last.body ≤ size
  pub shape : (parts ≡ full) ⊎ (parts ≡ full ++ last ∷ [])
  pub full_sized : All (HasSize size) full
  pub numbered : IsNumbered 1 parts

module _ (client : Client) (size : ℕ) (p : Progress) (small : length p.buf < size)
    (cut : IsCut size p) where
  flush_rest_lem :
      ((parts : List CompletedPart) × (flush_rest client p ≡ ok parts)
        × AreParts size (taken p) parts)
      ⊎ ((flush_rest client p ≡ err s3_error) × (¬ IsHealthy client))
  unfolding flush_rest put_part
  flush_rest_lem = elim (Bool-cases (not (is_nil p.buf) || is_nil p.parts)) [
    | inl e ↦ elim (Bool-cases (client.upload_part p.part_number p.buf)) [
      | inl y ↦ inl (
        p.parts ++ end ∷ [],
        rw (flush_rest, e, put_part, y) refl,
        record {
          whole = concat-bodies p.parts end;
          full = p.parts;
          last = end;
          short = omega arith;
          shape = inr refl;
          full_sized = cut.sized;
          numbered = IsNumbered-snoc 1 p.parts end cut.numbered cut.next_number;
        },
      )
      | inr n ↦ inr (
        rw (flush_rest, e, put_part, n) refl,
        λ healthy. absurd (let y = healthy.takes p.part_number p.buf in cc),
      )
    ]
    | inr e ↦ inl (
      p.parts,
      rw (flush_rest, e) refl,
      record {
        whole = empty_rest p.buf e;
        full = p.parts;
        last = record { part_number = 0; body = [] };
        short = omega arith;
        shape = inl refl;
        full_sized = cut.sized;
        numbered = cut.numbered;
      },
    )
  ]
    where
      end : CompletedPart
      end = record { part_number = p.part_number; body = p.buf }

      empty_rest :
          (buf : Text)
          → (not (is_nil buf) || is_nil p.parts) ≡ false
          → concat (bodies p.parts) ≡ concat (bodies p.parts) ++ buf
      empty_rest [] e = sym (append-nil (concat (bodies p.parts)))
      empty_rest (c ∷ buf) e = absurd (cc)

-- How `upload_parts` ends.
pub data Ended (client : Client) (size max : ℕ) (source : Chunks)
    : Result StorageError (ℕ × List CompletedPart) → Type 0 where
  whole :
      (total : ℕ) (body : Text) (parts : List CompletedPart)
      → joined max 0 source ≡ ok body
      → total ≡ length body
      → AreParts size body parts
      → Ended client size max source (ok (total, parts))
  broken : (e : StorageError) → joined max 0 source ≡ err e → Ended client size max source (err e)
  turned_down : (¬ IsHealthy client) → Ended client size max source (err s3_error)

module _ (client : Client) (size max : ℕ) (source : Chunks) where
  Ended-Read :
      {r : Result StorageError (ℕ × Progress)}
      → Read client size max source 0 started r
      → Ended client size max source (
          r >>= λ t. flush_rest client t.1 >>= λ parts.
          guard (client.complete_multipart_upload parts) s3_error >> ok (t.0, parts))
  unfolding concat
  Ended-Read (failed e j) = broken e j
  Ended-Read (not_taken n) = turned_down n
  Ended-Read (done rest q j k l h) = elim (flush_rest_lem client size q l h) [
    | inr (e, n) ↦ rw e (turned_down n)
    | inl (parts, e, are) ↦
        let are' : AreParts size rest parts = subst (λ s. AreParts size s parts) k are in
        elim (Bool-cases (client.complete_multipart_upload parts)) [
          | inl y ↦ rw (e, y) (whole (0 + length rest) rest parts j (omega arith) are')
          | inr n ↦
              rw (e, n)
                (turned_down
                  (λ healthy. absurd (let y = healthy.completes parts are.numbered in cc)))
        ]
  ]

  upload_parts_lem : 0 < size → Ended client size max source (upload_parts client size max source)
  unfolding upload_parts
  upload_parts_lem pos = Ended-Read (
      read_chunks_lem client size max source 0 started (omega arith)
        (record { sized = tt; numbered = tt; next_number = refl }))

-- `upload_streaming` does what it promises, whatever the part size and the chunks: if the storage
-- refuses no start and no part, and completes an upload whose parts are in the order of their
-- numbers, it gives the first error of the chunks and leaves the store, or it puts the joined chunks
-- at the key and gives their length. If the storage refuses more, it does that, or it
-- fails with the error of the storage and leaves the store.
pub upload_streaming_lem :
    (client : Client) (size : ℕ) (key : Text) (max : ℕ) (source : Chunks) (store : Store)
    → 0 < size
    → (upload_streaming client size key max source store ≡ stored key store (joined max 0 source))
      ⊎ ((upload_streaming client size key max source store ≡ (err s3_error, store))
          × (¬ IsHealthy client))
unfolding upload_streaming
upload_streaming_lem client size key max source store pos =
    begun client.create_multipart_upload (λ healthy. healthy.starts)
      (upload_parts_lem client size max source pos)
  where
    ended :
        {r : Result StorageError (ℕ × List CompletedPart)}
        → Ended client size max source r
        → (outcome key store r ≡ stored key store (joined max 0 source))
          ⊎ ((outcome key store r ≡ (err s3_error, store)) × (¬ IsHealthy client))
    ended (whole total body parts j n are) = inl (rw (j, n, are.whole) refl)
    ended (broken e j) = inl (rw j refl)
    ended (turned_down n) = inr (refl, n)

    begun :
        (b : Bool)
        → (IsHealthy client → b ≡ true)
        → {r : Result StorageError (ℕ × List CompletedPart)} → Ended client size max source r
        → (outcome key store (guard b s3_error >> r) ≡ stored key store (joined max 0 source))
          ⊎ ((outcome key store (guard b s3_error >> r) ≡ (err s3_error, store))
              × (¬ IsHealthy client))
    begun true h e = ended e
    begun false h e = inr (refl, λ healthy. absurd (let y = h healthy in cc))

-- When `upload_parts` succeeds, the parts that are completed are those of the joined chunks: all of
-- them full, except that one at the end may be shorter, and numbered 1, 2, 3 and so on in the order
-- of the body; and the number that is returned is the length of the body.
pub upload_parts-AreParts :
    (client : Client) (size max : ℕ) (source : Chunks) {total : ℕ} {parts : List CompletedPart}
    → 0 < size
    → upload_parts client size max source ≡ ok (total, parts)
    → (body : Text) × (joined max 0 source ≡ ok body)
      × (total ≡ length body)
      × AreParts size body parts
upload_parts-AreParts client size max source {total} {parts} pos e =
    ended (upload_parts_lem client size max source pos) e
  where
    ended :
        {r : Result StorageError (ℕ × List CompletedPart)}
        → Ended client size max source r
        → r ≡ ok (total, parts)
        → (body : Text) × (joined max 0 source ≡ ok body)
          × (total ≡ length body)
          × AreParts size body parts
    ended (whole total' body parts' j n are) e' =
        let same : parts' ≡ parts = cc in
        let count : total ≡ length body = cc in
        (body, j, count, subst (AreParts size body) same are)
    ended (broken x j) e' = absurd (cc)
    ended (turned_down n) e' = absurd (cc)

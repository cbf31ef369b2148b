-- ===== src/Storage.antt =====
-- lied/src/storage.rs: how a body is sent to the object storage in parts. The storage itself is a
-- parameter: it takes each request or refuses it, and a multipart upload that is completed puts the
-- joined parts at its key. A byte count stays far below the range of its u64.
pub mod Parts
pub mod Upload
pub mod Pages
pub mod Examples
use lied.Prelude.{
  ℕ, zero, suc, ◌+◌, ◌*◌, Bool, true, false, not, ◌&&◌, ◌||◌, Option, none, some, List, [], ◌∷◌,
  ◌++◌, Result, ok, err, ◌>>=◌, ◌>>◌, guard, leb, length, map, if◌then◌else◌,
}
use lied.Prelude.Text.{Text, text_eq, concat}

abbrev pub part_size : ℕ
part_size = 8 * 1024 * 1024

pub data StorageError : Type 0 where
  too_large : ℕ → StorageError
  upstream not_found invalid_range s3_error : StorageError

-- A part that is uploaded; the tag that the storage gives it is left out.
pub record CompletedPart : Type 0 where
  pub part_number : ℕ
  pub body : Text

-- Whether the storage takes the start, a numbered part and the end of an upload.
pub record Client : Type 0 where
  pub create_multipart_upload : Bool
  pub upload_part : ℕ → Text → Bool
  pub complete_multipart_upload : List CompletedPart → Bool

-- What `next_chunk` gives, one call after the other, up to the end.
abbrev pub Chunks : Type 0
Chunks = List (Result StorageError Text)

abbrev pub Store : Type 0
Store = Text → Option Text

abbrev pub put : Text → Text → Store → Store
put key body store = λ k. if text_eq k key then some body else store k

-- `buf.split_to(n)`
unfoldable pub split_to : ℕ → Text → Text × Text
split_to zero s = ([], s)
split_to (suc n) [] = ([], [])
split_to (suc n) (c ∷ s) = let (part, rest) = split_to n s in (c ∷ part, rest)

unfoldable pub put_part : Client → ℕ → Text → Result StorageError CompletedPart
put_part client number body =
    if client.upload_part number body
    then ok (record { part_number = number; body = body })
    else err s3_error

-- What is not yet sent, the next part's number and the parts that are sent.
pub record Progress : Type 0 where
  pub buf : Text
  pub part_number : ℕ
  pub parts : List CompletedPart

abbrev pub sent : CompletedPart → Text → Progress → Progress
sent part rest p = record {
  buf = rest;
  part_number = p.part_number + 1;
  parts = p.parts ++ part ∷ [];
}

-- `while buf.len() >= PART_SIZE`, with fuel for the rounds.
unfoldable pub flush_parts : Client → ℕ → ℕ → Progress → Result StorageError Progress
unfolding split_to put_part
flush_parts client size zero p = ok p
flush_parts client size (suc fuel) p = elim (leb size (length p.buf)) [
  | false ↦ ok p
  | true ↦ do
    let (part, rest) = split_to size p.buf
    completed ← put_part client p.part_number part
    flush_parts client size fuel (sent completed rest p)
]

abbrev pub received : Text → Progress → Progress
received chunk p = record p { buf = p.buf ++ chunk }

-- `while let Some(chunk) = source.next_chunk()`
unfoldable pub read_chunks :
    Client → ℕ → ℕ → Chunks → ℕ → Progress → Result StorageError (ℕ × Progress)
unfolding flush_parts
read_chunks client size max [] total p = ok (total, p)
read_chunks client size max (err e ∷ source) total p = err e
read_chunks client size max (ok chunk ∷ source) total p = do
  guard (leb (total + length chunk) max) (too_large max)
  p' ← flush_parts client size (length (p.buf ++ chunk)) (received chunk p)
  read_chunks client size max source (total + length chunk) p'

abbrev pub is_nil {ℓ} : {A : Type ℓ} → List A → Bool
is_nil [] = true
is_nil (x ∷ xs) = false

-- The trailing part; an empty body has one, too.
unfoldable pub flush_rest : Client → Progress → Result StorageError (List CompletedPart)
unfolding put_part
flush_rest client p =
    if not (is_nil p.buf) || is_nil p.parts
    then (put_part client p.part_number p.buf >>= λ part. ok (p.parts ++ part ∷ []))
    else ok p.parts

abbrev pub started : Progress
started = record { buf = []; part_number = 1; parts = [] }

unfoldable pub upload_parts : Client → ℕ → ℕ → Chunks → Result StorageError (ℕ × List CompletedPart)
unfolding read_chunks flush_rest
upload_parts client size max source = do
  (total, p) ← read_chunks client size max source 0 started
  parts ← flush_rest client p
  guard (client.complete_multipart_upload parts) s3_error
  ok (total, parts)

abbrev pub bodies : List CompletedPart → List Text
bodies = map (λ part. part.body)

-- An upload that fails is aborted, and leaves the storage as it is.
abbrev pub outcome :
    Text → Store → Result StorageError (ℕ × List CompletedPart) → Result StorageError ℕ × Store
outcome key store (err e) = (err e, store)
outcome key store (ok (total, parts)) = (ok total, put key (concat (bodies parts)) store)

unfoldable pub upload_streaming :
    Client → ℕ → Text → ℕ → Chunks → Store → Result StorageError ℕ × Store
unfolding upload_parts concat
upload_streaming client size key max source store =
    outcome key store
      do guard client.create_multipart_upload s3_error; upload_parts client size max source

unfoldable pub upload_bytes : Client → Text → ℕ → Text → Store → Result StorageError ℕ × Store
unfolding upload_streaming
upload_bytes client key max bytes store =
    upload_streaming client part_size key max (ok bytes ∷ []) store

-- ===== src/WebDav/Fs/Buffer/Session.antt =====
-- lied/src/webdav/fs.rs: a body that is written piece by piece is committed as a whole, once.
use mathlib.Core.List.{append_assoc, append-nil}
use lied.Prelude.{
  ℕ, ◌+◌, ◌≡◌, ◌≤◌, ◌<◌, refl, sym, ◌∙◌, ap, true, false, List, [], ◌∷◌, ◌++◌, inl, inr, ok, err,
  leb, length, length-append, Bool-cases, arith, if◌then◌else◌,
}
use lied.Prelude.Text.{Text, concat}
use lied.WebDav.Fs.{FsResult, LiedFs, too_large}
use lied.WebDav.Fs.Objects.{Server}
use lied.WebDav.Fs.Write.{WriteTarget, Backend, Disk, commit_write}
use lied.WebDav.Fs.Buffer.{LiedFile, writing, open_file, append, write_buf, flush}

-- The writes of one request, up to the first that fails.
abbrev continue :
    FsResult (Unit {0}) × LiedFile
    → (LiedFile → FsResult (Unit {0}) × LiedFile)
    → FsResult (Unit {0}) × LiedFile
continue (ok u, file) rest = rest file
continue (err e, file) rest = (err e, file)

unfoldable pub write_all : List (List Text) → LiedFile → FsResult (Unit {0}) × LiedFile
unfolding write_buf
write_all [] file = (ok tt, file)
write_all (pieces ∷ writes) file = continue (write_buf pieces file) (write_all writes)

abbrev pub body : List (List Text) → Text
body [] = []
body (pieces ∷ writes) = concat pieces ++ body writes

module _ (target : WriteTarget) (max : ℕ) where
  abbrev pub buffered : Text → LiedFile
  buffered buf = writing (record { target = target; buf = buf; max = max; committed = false })

  write_all-small :
      (writes : List (List Text)) (buf : Text)
      → length buf + length (body writes) ≤ max
      → write_all writes (buffered buf) ≡ (ok tt, buffered (buf ++ body writes))
  unfolding write_all append
  write_all-small [] buf h = ap (λ s. (ok tt, buffered s)) (sym (append-nil buf))
  write_all-small (pieces ∷ writes) buf h =
      let piece = concat pieces in
      let count = length-append piece (body writes) in
      let count' = length-append buf piece in
      let fits : leb (length buf + length piece) max ≡ true = ground arith in
      rw fits (
        write_all-small writes (buf ++ piece) (omega arith)
        ∙ ap (λ s. (ok tt, buffered s)) (append_assoc buf piece (body writes)))

  write_all-large :
      (writes : List (List Text)) (buf : Text)
      → length buf ≤ max
      → max < length buf + length (body writes)
      → (write_all writes (buffered buf)).0 ≡ err too_large
  unfolding write_all append
  write_all-large [] buf h k = absurd (omega arith)
  write_all-large (pieces ∷ writes) buf h k =
      let piece = concat pieces in
      let count = length-append piece (body writes) in
      let count' = length-append buf piece in
      elim (Bool-cases (leb (length buf + length piece) max)) [
        | inl fits ↦ rw fits (write_all-large writes (buf ++ piece) (ground arith) (omega arith))
        | inr large ↦ rw large refl
      ]

module _ (srv : Server) (fs : LiedFs) (be : Backend) (now later id : ℕ) where
  -- The second flush comes at another time.
  abbrev flush_twice : LiedFile → Disk → FsResult (Unit {0}) × FsResult (Unit {0}) × Disk
  flush_twice file disk =
      let (r, file', disk') = flush srv fs be now later id file disk in
      let (s, file'', disk'') = flush srv fs be (now + 1) (later + 1) (id + 1) file' disk' in
      (r, s, disk'')

  abbrev finish :
      Disk → FsResult (Unit {0}) × LiedFile → FsResult (Unit {0}) × FsResult (Unit {0}) × Disk
  finish disk (ok u, file) = flush_twice file disk
  finish disk (err e, file) = (err e, err e, disk)

  -- A request as its handler makes it: the writes, and two flushes if none failed.
  unfoldable pub session :
      WriteTarget → ℕ → List (List Text) → Disk → FsResult (Unit {0}) × FsResult (Unit {0}) × Disk
  unfolding open_file write_all flush
  session target max writes disk = finish disk (write_all writes (open_file max target))

  abbrev pub once : WriteTarget → Text → Disk → FsResult (Unit {0}) × FsResult (Unit {0}) × Disk
  once target bytes disk =
      let (r, disk') = commit_write srv fs be now later id target bytes disk in (r, ok tt, disk')

  finish-large :
      (disk : Disk) (w : FsResult (Unit {0}) × LiedFile)
      → w.0 ≡ err too_large
      → finish disk w ≡ (err too_large, err too_large, disk)
  finish-large disk (ok u, file) e = absurd (cc)
  finish-large disk (err x, file) e = let same : x ≡ too_large = cc in rw same refl

  -- However the body is cut into writes and the writes into pieces, a request whose body is within
  -- the limit does what one commit of the whole body does, and the second flush does nothing; a
  -- request with a larger body fails with TooLarge, and nothing is committed.
  pub session_lem :
      (target : WriteTarget) (max : ℕ) (writes : List (List Text)) (disk : Disk)
      → session target max writes disk ≡ (
          if leb (length (body writes)) max
          then once target (body writes) disk
          else (err too_large, err too_large, disk))
  unfolding session open_file flush
  session_lem target max writes disk = elim (Bool-cases (leb (length (body writes)) max)) [
    | inl fits ↦ rw fits (ap (finish disk) (write_all-small target max writes [] (ground arith)))
    | inr large ↦
        rw large
          (finish-large disk _ (write_all-large target max writes [] (omega arith) (ground arith)))
  ]

-- ===== src/WebDav/Fs/Buffer.antt =====
-- lied/src/webdav/fs.rs: an open file, read from memory or written to memory up to the first flush.
pub mod Session
use lied.Prelude.{
  ℕ, zero, suc, ◌+◌, ◌-◌, ◌^◌, Bool, true, false, List, [], ◌∷◌, ◌++◌, Result, ok, err, ◌==◌, leb,
  ltb, length, min, if◌then◌else◌,
}
use lied.Prelude.Int.{ℤ, pos, negsuc, add_ℕ}
use lied.Prelude.Text.{Text, concat}
use lied.WebDav.Fs.{FsError, too_large, forbidden, general_failure, LiedFs, FsResult}
use lied.WebDav.Fs.Objects.{Server, LiedMeta, file_meta}
use lied.WebDav.Fs.Write.{WriteTarget, noop, Backend, Disk, commit_write}
use mathlib.Core.Option.{Option, none}

pub record ReadFile : Type 0 where
  pub bytes : Text
  pub pos : ℕ
  pub meta : LiedMeta

pub record WriteFile : Type 0 where
  pub target : WriteTarget
  pub buf : Text
  pub max : ℕ
  pub committed : Bool

pub data LiedFile : Type 0 where
  reading : ReadFile → LiedFile
  writing : WriteFile → LiedFile

-- `open_write`
unfoldable pub open_file : ℕ → WriteTarget → LiedFile
open_file max target = writing (record { target = target; buf = []; max = max; committed = false })

abbrev pub opened_read : Text → LiedMeta → LiedFile
opened_read bytes meta = reading (record { bytes = bytes; pos = 0; meta = meta })

unfoldable pub metadata : LiedFile → LiedMeta
metadata (reading f) = f.meta
metadata (writing f) = file_meta (length f.buf) none

unfoldable pub append : Text → LiedFile → FsResult (Unit {0}) × LiedFile
append bytes (reading f) = (err forbidden, reading f)
append bytes (writing f) =
    if leb (length f.buf + length bytes) f.max
    then (ok tt, writing (record f { buf = f.buf ++ bytes }))
    else (err too_large, writing f)

unfoldable pub write_bytes : Text → LiedFile → FsResult (Unit {0}) × LiedFile
unfolding append
write_bytes bytes file = append bytes file

-- The pieces of the buffer are collected first.
unfoldable pub write_buf : List Text → LiedFile → FsResult (Unit {0}) × LiedFile
unfolding append concat
write_buf pieces file = append (concat pieces) file

unfoldable pub drop : ℕ → Text → Text
drop zero s = s
drop (suc n) [] = []
drop (suc n) (c ∷ s) = drop n s

unfoldable pub take : ℕ → Text → Text
take zero s = []
take (suc n) [] = []
take (suc n) (c ∷ s) = c ∷ take n s

abbrev pub usize_max : ℕ
usize_max = 2 ^ 64 - 1

-- `data.slice(start..end)`
unfoldable pub read_bytes : ℕ → LiedFile → FsResult Text × LiedFile
unfolding drop take
read_bytes count (writing f) = (err forbidden, writing f)
read_bytes count (reading f) =
    let start = min f.pos (length f.bytes) in
    let end = min (min (start + count) usize_max) (length f.bytes) in
    (ok (take (end - start) (drop start f.bytes)), reading (record f { pos = end }))

pub data SeekFrom : Type 0 where
  start : ℕ → SeekFrom
  from_end current : ℤ → SeekFrom

-- A result that an i64 does not hold wraps around.
abbrev pub as_i64 : ℤ → ℤ
as_i64 (pos n) = if ltb n (2 ^ 63) then pos n else negsuc (2 ^ 64 - n - 1)
as_i64 (negsuc n) = negsuc n

abbrev target_of : SeekFrom → ReadFile → ℤ
target_of (start n) f = as_i64 (pos n)
target_of (from_end n) f = as_i64 (add_ℕ n (length f.bytes))
target_of (current n) f = as_i64 (add_ℕ n f.pos)

abbrev moved : ReadFile → ℤ → FsResult ℕ × LiedFile
moved f (negsuc n) = (err general_failure, reading f)
moved f (pos n) = let p = min n (length f.bytes) in (ok p, reading (record f { pos = p }))

-- Writes are appended: only a seek to the end is taken.
abbrev at_end : WriteFile → SeekFrom → FsResult ℕ
at_end f (start n) = if n == length f.buf then ok n else err general_failure
at_end f (from_end n) = err general_failure
at_end f (current (pos zero)) = ok (length f.buf)
at_end f (current (pos (suc n))) = err general_failure
at_end f (current (negsuc n)) = err general_failure

unfoldable pub seek : SeekFrom → LiedFile → FsResult ℕ × LiedFile
seek whence (reading f) = moved f (target_of whence f)
seek whence (writing f) = (at_end f whence, writing f)

module _ (srv : Server) (fs : LiedFs) (be : Backend) where
  abbrev pub flushed : WriteFile → LiedFile
  flushed f = writing (record f { target = noop; buf = []; committed = true })

  -- The first flush commits what was written.
  unfoldable pub flush : ℕ → ℕ → ℕ → LiedFile → Disk → FsResult (Unit {0}) × LiedFile × Disk
  unfolding commit_write
  flush now later id (reading f) disk = (ok tt, reading f, disk)
  flush now later id (writing f) disk = elim f.committed [
    | true ↦ (ok tt, writing f, disk)
    | false ↦
        let (r, disk') = commit_write srv fs be now later id f.target f.buf disk in
        (r, flushed f, disk')
  ]

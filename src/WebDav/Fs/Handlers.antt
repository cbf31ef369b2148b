-- ===== src/WebDav/Fs/Handlers.antt =====
-- lied/src/webdav/fs.rs: what dav-server calls, from the bytes of a request path on. dav-server has
-- decoded the percent signs.
pub mod Keys
use lied.Prelude.{
  ℕ, Bool, true, false, ◌&&◌, ◌||◌, Option, none, some, List, [], ◌∷◌, Result, ok, err, ◌>>=◌, leb,
  ltb, if◌then◌else◌,
}
use lied.Prelude.Text.{Text}
use lied.Prelude.Utf8.{is_utf8}
use lied.Storage.{StorageError}
use lied.WebDav.Path.{ResolvedPath, parse}
use lied.WebDav.Fs.{LiedFs, FsResult, ok_or, not_found}
use lied.WebDav.Fs.Objects.{Server, LiedMeta, LiedDirEntry}
use lied.WebDav.Fs.Nodes.{stat}
use lied.WebDav.Fs.Directories.{list}
use lied.WebDav.Fs.Reads.{open_read}
use lied.WebDav.Fs.Write.{WriteTarget, Backend, Disk, resolve_write_target, remove, create_dir}
use lied.WebDav.Fs.Buffer.{LiedFile, open_file, opened_read}

unfoldable pub parse_path : Text → FsResult ResolvedPath
unfolding is_utf8 parse
parse_path path = ok_or (if is_utf8 path then parse path else none) not_found

-- The options of `open` that are looked at.
pub record OpenOptions : Type 0 where
  pub write : Bool
  pub append : Bool
  pub truncate : Bool
  pub create : Bool

abbrev pub is_write : OpenOptions → Bool
is_write options = options.write || (options.append || (options.truncate || options.create))

module _ (srv : Server) (fs : LiedFs) where
  unfoldable pub metadata : Text → FsResult LiedMeta
  unfolding parse_path stat
  metadata path = parse_path path >>= stat srv fs

  unfoldable pub read_dir : Text → FsResult (List LiedDirEntry)
  unfolding parse_path list
  read_dir path = parse_path path >>= list srv fs

  unfoldable pub open_write : ResolvedPath → FsResult LiedFile
  unfolding resolve_write_target open_file
  open_write p =
      resolve_write_target srv fs p >>= λ target. ok (open_file fs.max_upload_bytes target)

  abbrev pub open_at :
      (Text → Result StorageError Text) → OpenOptions → ResolvedPath → FsResult LiedFile
  open_at get_object options p =
      if is_write options
      then open_write p
      else (open_read srv fs get_object p >>= λ answer. ok (opened_read answer.0 answer.1))

  unfoldable pub dav_open :
      (Text → Result StorageError Text) → OpenOptions → Text → FsResult LiedFile
  unfolding parse_path open_write open_read
  dav_open get_object options path = parse_path path >>= open_at get_object options

  unfoldable pub remove_file : Backend → ℕ → Text → Disk → FsResult Disk
  unfolding parse_path remove
  remove_file be now path disk = parse_path path >>= λ p. remove srv fs be now p disk

  abbrev made : Backend → FsResult ResolvedPath → Disk → FsResult (Unit {0}) × Disk
  made be (err e) disk = (err e, disk)
  made be (ok p) disk = create_dir srv fs be p disk

  unfoldable pub make_dir : Backend → Text → Disk → FsResult (Unit {0}) × Disk
  unfolding parse_path create_dir
  make_dir be path disk = made be (parse_path path) disk

-- ===== src/Files/Archive.antt =====
-- Archives: IsArchive, Zip, Unzip. The readers of package archive/zip, archive/tar and
-- compress/gzip are a parameter: what they hand over is arbitrary.
pub mod Extract
pub mod Bound
pub mod Pack
use Prim.Native.Nat.{bit_or}
use aura_cp.Prelude.{
  ◌&&◌, ◌%◌, ℕ, zero, suc, ◌+◌, ◌^◌, Bool, true, false, ◌||◌, not, List, [], ◌∷◌, ◌++◌, Option,
  none, some, Bytes, codes, any, ltb, ◌==◌, nat_eq, bytes_eq, if◌then◌else◌, Result, ok, err,
  fail_if,
}
use aura_cp.Prelude
use aura_cp.Prelude.Text.{has_prefix, has_suffix, contains, trim_prefix}
use aura_cp.Errors.{
  Error, no_sources, invalid_filename, is_docroot, already_exists, archive_too_large, is_directory,
  unsafe_entry, entry_escapes_dir, entry_escapes_root, unsupported_archive, not_gzip,
  tar_read_failed, os_error,
}
use aura_cp.Filepath.{slash, dot, dot_dot, clean, join_path, base, dir}
use aura_cp.Os.{
  mkdir_all, create, open_read, open_trunc, write, close, remove, zip_entry, Info, Kernel, Exec,
  pure, raise, lift, asks, need, guard, on_error, ignored, each, ◌>>=◌, ◌>>◌, perform, attempt,
}
use aura_cp.Files.Resolve.{escapes, resolve}
use aura_cp.Files.Manage.{is_some, perm_bits, chown_to_user}

abbrev pub zip_max_bytes : ℕ
zip_max_bytes = 2 ^ 31

abbrev is_nil : List Bytes → Bool
is_nil [] = true
is_nil (w ∷ ws) = false

abbrev pub bad_archive_name : Bytes → Bool
bad_archive_name name =
    name == [] || name == dot || name == dot_dot || any (λ b. b == slash || b == 92) name

-- An entry of a zip archive; `opens` says whether its data can be opened.
pub record ZipItem : Type 0 where
  pub name : Bytes
  pub is_dir : Bool
  pub mode : ℕ
  pub opens : Bool

pub data TarKind : Type 0 where
  dir_kind regular_kind other_kind : TarKind

-- What tar.Reader.Next returns, up to io.EOF.
pub data TarItem : Type 0 where
  header : (name : Bytes) (mode : ℕ) → TarKind → TarItem
  broken : TarItem

pub record Reader (W : Type 0) : Type 0 where
  pub zip_items : Bytes → W → Option (List ZipItem)
  pub is_gzip : Bytes → W → Bool
  pub tar_items : Bytes → Bool → W → List TarItem

-- IsArchive, over the lower-cased name
unfoldable pub is_archive : Bytes → Bool
is_archive low =
    has_suffix (codes ".zip") low
    || has_suffix (codes ".tar.gz") low
    || has_suffix (codes ".tgz") low
    || has_suffix (codes ".tar") low

-- The checks on the name of an entry, and where it lands.
unfoldable pub place : Bytes → Bytes → Bytes → Result Error Bytes
place parent root name =
    let target = clean (join_path (parent ∷ name ∷ [])) in
    if has_prefix (slash ∷ []) name || contains (codes "..") name
    then err unsafe_entry
    else if escapes parent target
    then err entry_escapes_dir
    else if escapes root target
    then err entry_escapes_root
    else ok target

-- `mode.Perm()`, or 0644 where it is 0
abbrev pub file_mode : ℕ → ℕ
file_mode mode = if perm_bits mode == 0 then 0o644 else perm_bits mode

module _ {W : Type 0} (k : Kernel W) where
  zip_file_entry : Bytes → Bytes → ZipItem → Exec W (Unit {0})
  zip_file_entry user target f = do
    perform k (mkdir_all (dir target) 0o755)
    perform k (open_trunc target (file_mode f.mode))
    guard (not f.opens) os_error
    perform k (write target)
    ignored (chown_to_user k target user)

  zip_dir_entry : Bytes → Bytes → Exec W (Unit {0})
  zip_dir_entry user target = do
    perform k (mkdir_all target 0o755)
    ignored (chown_to_user k target user)

  -- One round of the loop of unzipZip.
  unfoldable pub extract_zip : Bytes → Bytes → Bytes → ZipItem → Exec W (Unit {0})
  unfolding zip_file_entry zip_dir_entry
  extract_zip user root parent f = do
    target ← lift (place parent root f.name)
    if f.is_dir then zip_dir_entry user target else zip_file_entry user target f

  tar_entry : Bytes → Bytes → ℕ → TarKind → Exec W (Unit {0})
  tar_entry user target mode dir_kind = do
    perform k (mkdir_all target (bit_or mode 0o100))
    ignored (chown_to_user k target user)
  tar_entry user target mode regular_kind = do
    perform k (mkdir_all (dir target) 0o755)
    perform k (open_trunc target mode)
    perform k (write target)
    ignored (chown_to_user k target user)
  tar_entry user target mode other_kind = pure tt

  -- One round of the loop of unzipTar: links and devices are skipped.
  unfoldable pub extract_tar : Bytes → Bytes → Bytes → TarItem → Exec W (Unit {0})
  unfolding tar_entry
  extract_tar user root parent broken = raise tar_read_failed
  extract_tar user root parent (header name mode kind) = do
    target ← lift (place parent root name)
    tar_entry user target (file_mode mode) kind

  unfoldable pub unzip_zip : Reader W → Bytes → Bytes → Bytes → Exec W (Unit {0})
  unzip_zip reader user root target = do
    found ← asks (reader.zip_items target)
    items ← need found
    each (extract_zip user root (dir target)) items

  unfoldable pub unzip_tar : Reader W → Bytes → Bytes → Bytes → Bool → Exec W (Unit {0})
  unzip_tar reader user root target gzipped = do
    perform k (open_read target)
    good ← asks (reader.is_gzip target)
    guard (if gzipped then not good else false) not_gzip
    items ← asks (reader.tar_items target gzipped)
    each (extract_tar user root (dir target)) items

  -- The switch of Unzip, on the lower-cased target.
  by_suffix : Reader W → Bytes → Bytes → Bytes → Bytes → Exec W (Unit {0})
  by_suffix reader user root target low =
      if has_suffix (codes ".zip") low
      then unzip_zip reader user root target
      else if has_suffix (codes ".tar.gz") low || has_suffix (codes ".tgz") low
      then unzip_tar reader user root target true
      else if has_suffix (codes ".tar") low
      then unzip_tar reader user root target false
      else raise unsupported_archive

  pub unzip : Reader W → Bytes → Bytes → Bytes → Exec W (Unit {0})
  unzip reader user domain sub = do
    (root, target) ← lift (resolve user domain sub)
    found ← asks (k.stat target)
    info ← need found
    guard info.is_dir is_directory
    by_suffix reader user root target (k.to_lower target)

  -- The total is an int64: a number from 2 ^ 63 on stands for itself less 2 ^ 64.
  abbrev pub add_size : (total size : ℕ) → ℕ
  add_size total size = (total + size) % 2 ^ 64

  abbrev pub is_too_large : ℕ → Bool
  is_too_large total = ltb zip_max_bytes total && ltb total (2 ^ 63)

  -- A file of the walk goes into the archive, if the total stays within the bound.
  unfoldable pub add_file : Bytes → Bytes → Bytes → ℕ → Exec W ℕ
  add_file dest path name total = do
    guard (is_too_large total) archive_too_large
    perform k (zip_entry dest name)
    perform k (open_read path)
    perform k (write dest)
    pure total

  unfoldable pub add_dir : Bytes → Bytes → ℕ → Exec W ℕ
  add_dir dest name total = do perform k (zip_entry dest (name ++ slash ∷ [])); pure total

  -- The function that Walk calls, with the running total.
  unfoldable pub visit : Bytes → Bytes → Bytes → ℕ → Bytes × Option Info → Exec W ℕ
  unfolding add_file add_dir
  visit dest abs rel total (path, none) = raise os_error
  visit dest abs rel total (path, some info) =
      let inner = join_path (rel ∷ trim_prefix (abs ++ slash ∷ []) path ∷ []) in
      let name = if path == abs then rel else inner in
      if path == dest || info.is_symlink
      then pure total
      else if info.is_dir
      then add_dir dest name total
      else add_file dest path name (add_size total info.size)

  unfoldable pub visit_all : Bytes → Bytes → Bytes → ℕ → List (Bytes × Option Info) → Exec W ℕ
  unfolding visit
  visit_all dest abs rel total [] = pure total
  visit_all dest abs rel total (item ∷ items) = do
    total' ← visit dest abs rel total item
    visit_all dest abs rel total' items

  -- The loop over the sources.
  unfoldable pub add_sources : Bytes → ℕ → List Bytes → Exec W ℕ
  add_sources dest total [] = pure total
  add_sources dest total (abs ∷ sources) = do
    items ← asks (k.walk_tree abs)
    total' ← visit_all dest abs (base abs) total items
    add_sources dest total' sources

  -- Every source has to resolve below the root.
  unfoldable pub sources_of : Bytes → Bytes → List Bytes → Result Error (List Bytes)
  sources_of user domain [] = ok []
  sources_of user domain (sub ∷ subs) = Prelude.◌>>=◌ (resolve user domain sub) λ p.
      if p.1 == p.0
      then err is_docroot
      else Prelude.◌>>=◌ (sources_of user domain subs) λ rest. ok (p.1 ∷ rest)

  unfoldable pub zip : Bytes → Bytes → List Bytes → Bytes → Exec W (Unit {0})
  zip user domain subs dest_sub = do
    guard (is_nil subs) no_sources
    let name = base (clean dest_sub)
    guard (bad_archive_name name) invalid_filename
    let file = if has_suffix (codes ".zip") (k.to_lower name) then name else name ++ codes ".zip"
    (root, _) ← lift (resolve user domain [])
    sources ← lift (sources_of user domain subs)
    let dest = join_path (root ∷ file ∷ [])
    there ← asks (k.lstat dest)
    guard (is_some there) already_exists
    perform k (create dest)
    on_error (add_sources dest 0 sources)
        (attempt k (write dest) >> attempt k (close dest) >> attempt k (remove dest))
    on_error (perform k (write dest)) (attempt k (close dest) >> attempt k (remove dest))
    on_error (perform k (close dest)) (attempt k (remove dest))
    chown_to_user k dest user

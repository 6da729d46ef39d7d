-- ===== src/Storage.antt =====
-- The storage of environments on the local disk, aenv/src/cli/extends/storage/storage_manager.py:
-- `StorageContext`, `LocalStorage` and `load_storage`. What is printed is left out.
pub mod Paths
pub mod Laws
pub mod Pack
pub mod Remote
pub mod Archives
pub mod Tests
use aenvironment.Common.{
  Bool, true, false, not, ◌||◌, Option, none, some, List, [], ◌∷◌, ◌++◌, any, if◌then◌else◌,
}
use aenvironment.Common.Text.{Str, lit, str_eq}
use aenvironment.Common.Dict.{Dict, lookup}
use aenvironment.Common.Json.{Json, null, text, object, Fields, end, field?}
use aenvironment.Effect.{Result, ok, err, Eff, pure, raise, ◌>>=◌, ◌>>◌}
use aenvironment.Effect.Exceptions.{Exn}
use aenvironment.Config.{Manager}
use Paths.{path_name, suffix, parent}

-- A context. `StorageContext` has no `dest_url`, which the class of another context could have.
pub record StorageContext : Type 0 where
  pub src_url : Str
  pub infos : Dict Str
  pub dest_url : Option Str

pub record StorageStatus : Type 0 where
  pub state : Bool
  pub dest_url : Str

-- The files, as `pathlib`, `shutil`, `zipfile` and `tarfile` work on them: what a path is, and the
-- operations, each with the exceptions that it raises. `compress` makes an archive of a directory
-- in a format under a name of its own and gives its path, `extract` unpacks one into a new directory
-- and gives the names of what was in it, `is_folder` says which of these are directories, and `move`
-- moves such a part.
pub record Files (W : Type 0) : Type 0 where
  pub exists : Str → W → Bool
  pub is_dir : Str → W → Bool
  pub is_file : Str → W → Bool
  pub make_dirs : Str → Eff W (Unit {0})
  pub copy : Str → Str → Eff W (Unit {0})
  pub unlink : Str → Eff W (Unit {0})
  pub remove_tree : Str → Eff W (Unit {0})
  pub compress : Str → Str → Str → Eff W Str
  pub extract : Str → Str → Eff W (List Str)
  pub is_folder : Str → W → Bool
  pub move : Str → Str → Eff W (Unit {0})

-- `d.get(key, default)` of a dictionary
abbrev pub get_of : Str → Json → Json → Result Json
unfolding field?
get_of key default (object fs) = ok (elim (field? key fs) [ none ↦ default | some v ↦ v ])
get_of key default _ = err Exn.attribute_error

abbrev pub prefix_in : Json → Result Json → Result Json
prefix_in default (err e) = err e
prefix_in default (ok custom) = get_of (lit "prefix") default custom

-- `config.get("custom", {})` and `custom.get("prefix", default)`
unfoldable pub prefix_of : Json → Json → Result Json
unfolding field?
prefix_of default config = prefix_in default (get_of (lit "custom") (object end) config)

-- `infos.get(key)` in an f-string
unfoldable pub info : Str → Dict Str → Str
unfolding lookup
info key infos = elim (lookup key infos) [ none ↦ lit "None" | some s ↦ s ]

-- Where `upload` puts an environment; the prefix is a text.
unfoldable pub full_path : Str → Dict Str → Str
unfolding info
full_path prefix infos =
    prefix
    ++ lit "/"
    ++ info (lit "name") infos
    ++ lit "_"
    ++ info (lit "version") infos
    ++ lit ".zip"

unfoldable pub is_format : Str → Bool
unfolding str_eq
is_format format = any (str_eq format) (lit "zip" ∷ lit "tar" ∷ lit "tar.gz" ∷ [])

abbrev pub or_archive : Str → Str
or_archive [] = lit "archive"
or_archive (c ∷ s) = c ∷ s

abbrev pub archive_filename : Str → Str → Str
unfolding path_name
archive_filename format src = or_archive (path_name src) ++ lit "." ++ format

-- what an archive holds that is taken apart: a zip file, a tar file, a compressed tar file
pub data Kind : Type 0 where
  zip : Kind
  tar : Kind
  gzipped : Kind

-- the kind of an archive, by the last suffix of its name
unfoldable pub kind_of : Str → Option Kind
unfolding suffix str_eq
kind_of src =
    if str_eq (suffix src) (lit ".zip")
    then some zip
    else if str_eq (suffix src) (lit ".tar")
    then some tar
    else if str_eq (suffix src) (lit ".tar.gz") || str_eq (suffix src) (lit ".tgz")
    then some gzipped
    else none

abbrev mode_of : Kind → Str
mode_of zip = lit "zip"
mode_of tar = lit "r"
mode_of gzipped = lit "r:gz"

module _ {W : Type 0} (files : Files W) (shown : Json → Str) where
  -- a destination that is a directory takes the file under a name of its own
  abbrev pub inside : Str → Str → W → Str
  inside dest name w = if files.is_dir dest w then dest ++ lit "/" ++ name else dest

  unfoldable pub upload_directory_compressed : Str → Str → Str → Eff W Bool
  unfolding ◌>>=◌ ◌>>◌ pure raise is_format archive_filename
  upload_directory_compressed format src dest =
      if is_format format
      then (files.compress format src (archive_filename format src) >>= λ archive w.
          (files.copy archive (inside dest (archive_filename format src) w) >> pure true) w)
      else raise Exn.value_error

  -- `_upload_file_direct`, and `_download_file_direct`, which is the same
  unfoldable pub copy_direct : Str → Str → Eff W Bool
  unfolding ◌>>◌ pure path_name
  copy_direct src dest w = (files.copy src (inside dest (path_name src) w) >> pure true) w

  abbrev pub stored_as : Str → Result Bool × W → Result StorageStatus × W
  stored_as path (ok b, w) = (ok record { state = b; dest_url = path }, w)
  stored_as path (err e, w) = (err e, w)

  -- the part of `upload` that knows the full path
  unfoldable pub upload_to : Str → Str → Str → Eff W StorageStatus
  unfolding ◌>>=◌ ◌>>◌ raise upload_directory_compressed copy_direct parent
  upload_to format src path w =
      if files.exists src w
      then stored_as path (
          (files.make_dirs (parent path) >> λ v.
          (if files.is_dir src v
            then upload_directory_compressed format src path v
            else copy_direct src path v))
            w)
      else (err Exn.file_not_found_error, w)

  abbrev pub upload_within : Str → StorageContext → Result Json → Eff W StorageStatus
  unfolding full_path upload_to
  upload_within format context (err e) w = (err e, w)
  upload_within format context (ok prefix) w =
      upload_to format context.src_url (full_path (shown prefix) context.infos) w

  unfoldable pub upload : Str → Manager → StorageContext → Eff W StorageStatus
  unfolding prefix_of upload_within
  upload format manager context =
      upload_within format context
        (prefix_of (text (lit "/home/aenvs")) manager.config.storage_config)

  abbrev move_all : Str → List Str → Eff W (Unit {0})
  unfolding ◌>>◌ pure
  move_all dest [] = pure tt
  move_all dest (item ∷ items) = files.move item (dest ++ lit "/" ++ item) >> move_all dest items

  -- A directory that is all that was in the archive is moved to the destination.
  unfoldable pub place : Str → List Str → Eff W (Unit {0})
  unfolding move_all
  place dest (item ∷ []) w =
      if files.is_folder item w then files.move item dest w else move_all dest (item ∷ []) w
  place dest items w = move_all dest items w

  unfoldable pub download_archive_extracted : Kind → Str → Str → Eff W Bool
  unfolding ◌>>=◌ ◌>>◌ pure place
  download_archive_extracted kind src dest =
      (files.extract (mode_of kind) src >>= place dest) >> pure true

  abbrev pub fetch : Option Kind → Str → Str → Eff W Bool
  unfolding download_archive_extracted copy_direct
  fetch (some kind) src dest = download_archive_extracted kind src dest
  fetch none src dest = copy_direct src dest

  unfoldable pub download_to : Str → Str → Eff W Bool
  unfolding ◌>>◌ fetch kind_of
  download_to src dest w =
      if files.exists src w
      then (files.make_dirs dest >> fetch (kind_of src) src dest) w
      else (err Exn.file_not_found_error, w)

  abbrev pub download_with : Str → Option Str → Eff W Bool
  unfolding download_to
  download_with src none w = (err Exn.attribute_error, w)
  download_with src (some dest) w = download_to src dest w

  -- `download`, which reads `context.dest_url`
  unfoldable pub download : StorageContext → Eff W Bool
  unfolding download_with
  download context = download_with context.src_url context.dest_url

  unfoldable pub exists : StorageContext → W → Bool
  exists context w = files.exists context.src_url w

  unfoldable pub delete : StorageContext → Eff W Bool
  unfolding ◌>>◌ pure
  delete context w =
      if files.exists context.src_url w
      then ((if files.is_file context.src_url w
              then files.unlink context.src_url
              else files.remove_tree context.src_url)
            >> pure true)
          w
      else (err Exn.file_not_found_error, w)

-- What `load_storage` gives.
pub data Storage : Type 0 where
  local_storage : Str → Storage
  hub_storage : Storage

abbrev storage_of : Json → Result Storage
unfolding str_eq
storage_of (text s) =
    if str_eq s (lit "local")
    then ok (local_storage (lit "zip"))
    else if str_eq s (lit "aenv_hub")
    then ok hub_storage
    else err Exn.value_error
storage_of _ = err Exn.value_error

abbrev storage_in : Result Json → Result Storage
unfolding storage_of
storage_in (ok j) = storage_of j
storage_in (err e) = err e

unfoldable pub load_storage : Manager → Result Storage
unfolding storage_in get_of
load_storage manager =
    storage_in (get_of (lit "type") (text (lit "local")) manager.config.storage_config)

-- ===== src/Storage/Pack.antt =====
-- `ArchiveTool.pack_directory` of aenv/src/cli/utils/archive_tool.py as the storage calls it: with the
-- compression "gz", no path for the archive and nothing to exclude.
use aenvironment.Common.{ℕ, Bool, not, List, ◌∷◌, ◌++◌, select, if◌then◌else◌}
use aenvironment.Common.Text.{Str, lit, str_eq}
use aenvironment.Common.Ints.{decimal}
use aenvironment.Effect.{Result, ok, err, Eff}
use aenvironment.Effect.Exceptions.{Exn}
use aenvironment.Storage.Paths.{path_name}

-- What packing asks of the system: whether a path exists, the directory for temporary files (without
-- a slash at its end), the time in seconds, `tarfile.open` of a path for writing, which makes the
-- file, and the walk that adds the files of a directory to it. A path that cannot be opened is
-- not made.
pub record Packing : Type 0 where
  pub is_there : Str → Bool
  pub temp_dir : Str
  pub time : ℕ
  pub open_tar : Str → Result (Unit {0})
  pub add_files : Str → Str → Result (Unit {0})

abbrev pub without : Str → List Str → List Str
without archive archives = select (λ a. not (str_eq archive a)) archives

-- the archives on the disk, when one has been made
abbrev pub made : Str → List Str → List Str
made archive archives = archive ∷ without archive archives

module _ (packing : Packing) where
  unfoldable pub archive_path : Str → Str
  unfolding path_name decimal
  archive_path source_dir =
      packing.temp_dir
      ++ lit "/"
      ++ path_name source_dir
      ++ lit "_"
      ++ decimal packing.time
      ++ lit ".tar.gz"

  abbrev pub packed : Str → Result (Unit {0}) → Result Str
  packed archive (ok _) = ok archive
  packed archive (err e) = err e

  -- An exception while files are added closes the archive and leaves it on the disk.
  abbrev pub write_tar : Str → Str → Result (Unit {0}) → Eff (List Str) Str
  write_tar source_dir archive (err e) archives = (err e, archives)
  write_tar source_dir archive (ok _) archives =
      (packed archive (packing.add_files source_dir archive), made archive archives)

  unfoldable pub pack_directory : Str → Eff (List Str) Str
  unfolding archive_path
  pack_directory source_dir archives =
      let archive = archive_path source_dir in
      if packing.is_there source_dir
      then write_tar source_dir archive (packing.open_tar archive) archives
      else (err Exn.file_not_found_error, archives)

-- ===== src/Vfs/Tools.antt =====
-- The tools on files of aenv/examples/mini-program/environment/src/mini_program_tools.py:
-- `read_file`, `write_file` and `list_files`, here with `_tool` in their names.
use aenvironment.Common.{ℕ, ◌≡◌, Bool, not, ◌&&◌, List, [], length, arith, if◌then◌else◌}
use aenvironment.Common.Text.{Str, lit, str_eq, contains}
use aenvironment.Common.Words.{split_at, lstrip_of, last_of}
use aenvironment.Common.Dict.{lookup-insert}
use aenvironment.Effect.{Result, ok, err}
use aenvironment.Vfs.{VirtualFileSystem, list_files, read_file, write_file, sorted}

-- `file_path.lstrip("/").split("/")[-1]`
unfoldable pub normalized : Str → Str
unfolding lstrip_of split_at
normalized file_path = last_of [] (split_at b'/' (lstrip_of b'/' file_path))

-- the dictionary that `read_file` returns, without the text of its error
pub data ReadOutcome : Type 0 where
  content : (content file_path : Str) (size : ℕ) → ReadOutcome
  not_read : (file_path : Str) → ReadOutcome

abbrev pub read_outcome : Str → Result Str → ReadOutcome
read_outcome file_path (ok c) = content c (normalized file_path) (length c)
read_outcome file_path (err e) = not_read file_path

unfoldable pub read_file_tool : Str → VirtualFileSystem → ReadOutcome
unfolding read_file normalized
read_file_tool file_path vfs = read_outcome file_path (read_file (normalized file_path) vfs)

-- the dictionary that `write_file` returns; `warning` says that the HTML may be incomplete
pub record WriteOutcome : Type 0 where
  pub file_path : Str
  pub size : ℕ
  pub warning : Bool

abbrev pub lacks_html : Str → Str → Bool
lacks_html file_path c =
    str_eq file_path (lit "index.html")
    && (not (contains (lit "<!DOCTYPE html>") c) && not (contains (lit "<html") c))

abbrev pub write_outcome : Str → Str → Bool × VirtualFileSystem → WriteOutcome × VirtualFileSystem
write_outcome path c (done, vfs) =
    (record { file_path = path; size = length c; warning = lacks_html path c }, vfs)

unfoldable pub write_file_tool : Str → Str → VirtualFileSystem → WriteOutcome × VirtualFileSystem
unfolding write_file normalized contains
write_file_tool file_path c vfs =
    write_outcome (normalized file_path) c (write_file (normalized file_path) c vfs)

pub record ListOutcome : Type 0 where
  pub files : List Str
  pub directory : Str
  pub count : ℕ

unfoldable pub list_files_tool : Str → VirtualFileSystem → ListOutcome
unfolding list_files sorted
list_files_tool directory vfs = record {
  files = sorted (list_files directory vfs);
  directory = directory;
  count = length (list_files directory vfs);
}

-- After the tool `write_file` wrote a content to a path, the tool `read_file` returns it for every
-- path with the same last part, and for any other path what it returned before.
pub read_after_write :
    (p q c : Str) (vfs : VirtualFileSystem)
    → read_file_tool q (write_file_tool p c vfs).1 ≡ (
        if str_eq (normalized p) (normalized q)
        then content c (normalized q) (length c)
        else read_file_tool q vfs)
unfolding read_file_tool write_file_tool read_file write_file
read_after_write p q c vfs = ground (arith, lookup-insert (normalized p) (normalized q) c vfs.files)

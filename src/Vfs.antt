-- ===== src/Vfs.antt =====
-- The virtual file system of aenv/examples/mini-program/environment/src/vfs.py: the class
-- `VirtualFileSystem`, whose methods keep their names. Its directory on the disk, which no method
-- reads, is left out.
pub mod Refinement
pub mod Listing
pub mod Tools
pub mod Tests
use aenvironment.Common.{
  ℕ, Bool, true, false, not, ◌&&◌, ◌||◌, Option, none, some, is_some, List, [], ◌∷◌, ◌++◌, each,
  select, ltb, ◌==◌, if◌then◌else◌,
}
use aenvironment.Common.Text.{Str, lit, str_eq, starts_with}
use aenvironment.Common.Words.{split_at, rstrip_of}
use aenvironment.Common.Dict.{Dict, lookup, insert, erase, keys}
use aenvironment.Common.Json.{Json, text, object, Fields, end, field}
use aenvironment.Common.Paths.{set_at}
use aenvironment.Effect.{Result, ok, err}
use aenvironment.Effect.Exceptions.{Exn}

pub record VirtualFileSystem : Type 0 where
  pub files : Dict Str

abbrev pub empty_vfs : VirtualFileSystem
empty_vfs = record { files = [] }

-- whether `list_files` of a directory other than "/" has a path
abbrev pub is_below : Str → Str → Bool
is_below directory path = starts_with (directory ++ lit "/") path || str_eq path directory

unfoldable pub list_files : Str → VirtualFileSystem → List Str
unfolding str_eq starts_with rstrip_of
list_files directory vfs =
    if str_eq directory (lit "/")
    then keys vfs.files
    else select (is_below (rstrip_of b'/' directory)) (keys vfs.files)

unfoldable pub read_file : Str → VirtualFileSystem → Result Str
unfolding lookup
read_file file_path vfs = elim (lookup file_path vfs.files) [
  | none ↦ err Exn.file_not_found_error
  | some content ↦ ok content
]

unfoldable pub write_file : Str → Str → VirtualFileSystem → Bool × VirtualFileSystem
unfolding insert
write_file file_path content vfs = (true, record { files = insert file_path content vfs.files })

unfoldable pub delete_file : Str → VirtualFileSystem → Bool × VirtualFileSystem
unfolding lookup erase
delete_file file_path vfs =
    if is_some (lookup file_path vfs.files)
    then (true, record { files = erase file_path vfs.files })
    else (false, vfs)

-- the order of `sorted` on texts
abbrev pub text_below : Str → Str → Bool
text_below [] t = true
text_below (c ∷ s) [] = false
text_below (c ∷ s) (d ∷ t) = ltb c d || (c == d && text_below s t)

abbrev pub insert_sorted : Str → List Str → List Str
insert_sorted s [] = s ∷ []
insert_sorted s (t ∷ ts) =
    let rest = insert_sorted s ts in if text_below s t then s ∷ t ∷ ts else t ∷ rest

-- `sorted(...)`
unfoldable pub sorted : List Str → List Str
sorted [] = []
sorted (s ∷ ss) = insert_sorted s (sorted ss)

abbrev leaf : Str → Json
leaf file_path =
    object (field (lit "type") (text (lit "file")) (field (lit "path") (text file_path) end))

abbrev tree_of : List Str → Option Json → Option Json
tree_of [] t = t
tree_of (p ∷ ps) none = none
tree_of (p ∷ ps) (some t) = tree_of ps (set_at (split_at b'/' p) (leaf p) t)

-- The nested dictionary; none stands for the `TypeError` where a part of a path names the text
-- under "type" or "path" of another file.
unfoldable pub get_file_tree : VirtualFileSystem → Option Json
unfolding sorted split_at set_at
get_file_tree vfs = tree_of (sorted (keys vfs.files)) (some (object end))

-- ===== src/Vfs/Tests.antt =====
-- Tests of the virtual file system and of its tools.
use aenvironment.Common.{◌≡◌, refl, none, List, [], ◌∷◌, length, if◌then◌else◌}
use aenvironment.Common.Text.{lit, str_eq}
use aenvironment.Vfs.{VirtualFileSystem, get_file_tree}
use aenvironment.Vfs.Refinement.{
  Command, read, write, delete, run_all, spec_all, view, run_all_refines,
}
use aenvironment.Vfs.Tools.{content, normalized, read_file_tool, write_file_tool, read_after_write}

abbrev vfs : VirtualFileSystem
vfs = record { files = (lit "a/b", lit "1") ∷ (lit "c", lit "2") ∷ [] }

abbrev commands : List Command
commands = write (lit "d") (lit "3") ∷ delete (lit "c") ∷ read (lit "c") ∷ delete (lit "c") ∷ []

run_all_refines_example : run_all commands vfs ≡ spec_all commands (view vfs)
run_all_refines_example = run_all_refines commands vfs

read_after_write_example :
    read_file_tool (lit "x/c") (write_file_tool (lit "/y/c") (lit "new") vfs).1 ≡ (
      if str_eq (normalized (lit "/y/c")) (normalized (lit "x/c"))
      then content (lit "new") (normalized (lit "x/c")) (length (lit "new"))
      else read_file_tool (lit "x/c") vfs)
read_after_write_example = read_after_write (lit "/y/c") (lit "x/c") (lit "new") vfs

-- A path through the dictionary of a file whose part is the name of its entry is a TypeError.
broken_tree : get_file_tree (record { files = (lit "a", []) ∷ (lit "a/type/b", []) ∷ [] }) ≡ none
unfolding get_file_tree str_eq
broken_tree = refl

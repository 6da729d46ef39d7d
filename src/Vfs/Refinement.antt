-- ===== src/Vfs/Refinement.antt =====
-- The virtual file system as a map from paths to contents.
use aenvironment.Common.{
  ◌≡◌, refl, ap, ◌∙◌, Bool, true, Option, none, some, is_some, List, [], ◌∷◌, arith, if◌then◌else◌,
}
use mathlib.Core.Path.{fun_ext}
use aenvironment.Common.Text.{Str, str_eq, str_eq_iff}
use aenvironment.Common.Dict.{lookup, lookup-insert, lookup-erase}
use aenvironment.Effect.{Result, ok, err}
use aenvironment.Effect.Exceptions.{Exn}
use aenvironment.Vfs.{VirtualFileSystem, read_file, write_file, delete_file}

pub data Command : Type 0 where
  read : Str → Command
  write : Str → Str → Command
  delete : Str → Command

pub data Answer : Type 0 where
  contents : Result Str → Answer
  changed : Bool → Answer

abbrev answered : Bool × VirtualFileSystem → Answer × VirtualFileSystem
answered (b, vfs) = (changed b, vfs)

-- a command by the methods
unfoldable pub run : Command → VirtualFileSystem → Answer × VirtualFileSystem
unfolding read_file write_file delete_file
run (read p) vfs = (contents (read_file p vfs), vfs)
run (write p c) vfs = answered (write_file p c vfs)
run (delete p) vfs = answered (delete_file p vfs)

-- The specification: a function that gives the content of each path.
abbrev pub Contents : Type 0
Contents = Str → Option Str

abbrev pub found : Option Str → Result Str
found none = err Exn.file_not_found_error
found (some c) = ok c

abbrev pub spec : Command → Contents → Answer × Contents
spec (read p) f = (contents (found (f p)), f)
spec (write p c) f = (changed true, λ q. if str_eq p q then some c else f q)
spec (delete p) f = (changed (is_some (f p)), λ q. if str_eq p q then none else f q)

-- what the file system holds
abbrev pub view : VirtualFileSystem → Contents
view vfs p = lookup p vfs.files

-- the answers to a sequence of commands, and what is held after it
abbrev pub run_all : List Command → VirtualFileSystem → List Answer × Contents
run_all [] vfs = ([], view vfs)
run_all (c ∷ cs) vfs =
    let (a, vfs1) = run c vfs in let (answers, held) = run_all cs vfs1 in (a ∷ answers, held)

abbrev pub spec_all : List Command → Contents → List Answer × Contents
spec_all [] f = ([], f)
spec_all (c ∷ cs) f =
    let (a, g) = spec c f in let (answers, held) = spec_all cs g in (a ∷ answers, held)

read_found : (p : Str) (vfs : VirtualFileSystem) → read_file p vfs ≡ found (view vfs p)
unfolding read_file
read_found p vfs = ground arith

view-write :
    (p c : Str) (vfs : VirtualFileSystem)
    → view (write_file p c vfs).1 ≡ (λ q. if str_eq p q then some c else view vfs q)
unfolding write_file
view-write p c vfs = fun_ext λ q. lookup-insert p q c vfs.files

view-delete :
    (p : Str) (vfs : VirtualFileSystem)
    → view (delete_file p vfs).1 ≡ (λ q. if str_eq p q then none else view vfs q)
unfolding delete_file
view-delete p vfs = fun_ext λ q. ground (arith, lookup-erase p q vfs.files, str_eq_iff p q)

delete_answer : (p : Str) (vfs : VirtualFileSystem) → (delete_file p vfs).0 ≡ is_some (view vfs p)
unfolding delete_file
delete_answer p vfs = ground arith

-- One command answers as the specification does, and leaves what the specification says.
step-Refines :
    (c : Command) (vfs : VirtualFileSystem)
    → ((run c vfs).0 ≡ (spec c (view vfs)).0) × (view (run c vfs).1 ≡ (spec c (view vfs)).1)
unfolding run
step-Refines (read p) vfs = (ap contents (read_found p vfs), refl)
step-Refines (write p c) vfs = (refl, view-write p c vfs)
step-Refines (delete p) vfs = (ap changed (delete_answer p vfs), view-delete p vfs)

-- Any sequence of reads, writes and deletions of a virtual file system gives the answers that it
-- gives on a map from paths to contents, a read of a missing path being a FileNotFoundError, and
-- leaves what it leaves there.
pub run_all_refines :
    (cs : List Command) (vfs : VirtualFileSystem) → run_all cs vfs ≡ spec_all cs (view vfs)
run_all_refines [] vfs = refl
run_all_refines (c ∷ cs) vfs =
    let (same_answer, same_view) = step-Refines c vfs in
    let rest : run_all cs (run c vfs).1 ≡ spec_all cs (spec c (view vfs)).1 =
      run_all_refines cs (run c vfs).1 ∙ ap (spec_all cs) same_view in
    rw (same_answer, rest) refl

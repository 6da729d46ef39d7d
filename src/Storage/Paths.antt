-- ===== src/Storage/Paths.antt =====
-- The parts of a path that the storage reads, as `pathlib.Path` gives them for a path without a
-- slash at its end.
use aenvironment.Common.{Option, none, some, [], ◌∷◌, ◌==◌, if◌then◌else◌}
use aenvironment.Common.Text.{Str, lit}
use aenvironment.Common.Words.{split_at, last_of, before_last}

-- `Path(path).name`
unfoldable pub path_name : Str → Str
unfolding split_at
path_name path = last_of path (split_at b'/' path)

-- the text from the last full stop on
unfoldable pub last_stop : Str → Option Str
last_stop [] = none
last_stop (c ∷ s) =
    let here = if c == b'.' then some (c ∷ s) else none in
    elim (last_stop s) [ none ↦ here | some t ↦ some t ]

-- the text from a last full stop on that neither begins nor ends the name
abbrev pub after_stop : Option Str → Str
after_stop (some (c ∷ d ∷ t)) = c ∷ d ∷ t
after_stop _ = []

unfoldable pub name_suffix : Str → Str
unfolding last_stop
name_suffix [] = []
name_suffix (c ∷ name) = after_stop (last_stop name)

-- `Path(path).suffix`
unfoldable pub suffix : Str → Str
unfolding path_name name_suffix
suffix path = name_suffix (path_name path)

-- `Path(path).parent` of a path with a slash
unfoldable pub parent : Str → Str
parent path = before_last (lit "/") path

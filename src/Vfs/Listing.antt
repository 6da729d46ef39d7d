-- ===== src/Vfs/Listing.antt =====
-- What `list_files` of vfs.py lists.
use aenvironment.Common.{
  ◌≡◌, refl, ap, Bool, ◌&&◌, ◌||◌, is_some, List, [], ◌∷◌, any, select, arith, Bool-cases, inl, inr,
}
use aenvironment.Common.Text.{Str, lit, str_eq, str_eq_iff}
use aenvironment.Common.Words.{rstrip_of}
use aenvironment.Common.Dict.{Dict, lookup, keys}
use aenvironment.Vfs.{VirtualFileSystem, list_files, is_below}
use aenvironment.Vfs.Refinement.{view}

any-keys : (p : Str) (d : Dict Str) → any (λ q. str_eq q p) (keys d) ≡ is_some (lookup p d)
unfolding lookup
any-keys p [] = refl
any-keys p ((q, c) ∷ d) = ground (arith, any-keys p d)

any-select :
    (p : Str) (t : Str → Bool) (ps : List Str)
    → any (λ q. str_eq q p) (select t ps) ≡ (any (λ q. str_eq q p) ps && t p)
any-select p t [] = refl
any-select p t (q ∷ ps) = elim (Bool-cases (str_eq q p)) [
  | inl h ↦ let e : t q ≡ t p = ap t ((str_eq_iff q p).0 h) in ground (arith, any-select p t ps)
  | inr h ↦ ground (arith, any-select p t ps)
]

-- whether a listing of a directory should have a path
abbrev pub is_listed : Str → Str → Bool
is_listed directory p = str_eq directory (lit "/") || is_below (rstrip_of b'/' directory) p

-- `list_files` lists exactly the paths that are held and that are below the directory,
-- closing slashes aside, or are the directory itself; "/" is above every path.
pub list_files-lists :
    (directory p : Str) (vfs : VirtualFileSystem)
    → any (λ q. str_eq q p) (list_files directory vfs)
      ≡ (is_some (view vfs p) && is_listed directory p)
unfolding list_files
list_files-lists directory p vfs = ground (
  arith,
  any-keys p vfs.files,
  any-select p (is_below (rstrip_of b'/' directory)) (keys vfs.files),
)

-- ===== src/Common/Text.antt =====
-- Python's `str` as its list of code points, and the methods of `str` that the program calls.
use Prim.Native.Nat.{ℕ}
use Prim.Native.Char.{code}
use Prim.Native.String.{String}
use mathlib.Core.Path.{◌≡◌, refl}
use mathlib.Core.Logic.{◌↔◌}
use mathlib.Core.List.{List, [], ◌∷◌}
use mathlib.Core.Option.{Option, none, some}
use mathlib.Core.Option
use mathlib.Core.Bool.{Bool, true, false, ◌&&◌}
use native.Mathlib.Omega.{arith}
use aenvironment.Common.Tests.{if◌then◌else◌, ◌==◌, is_some}
use aenvironment.Common.Lists.{length, drop}

abbrev pub Str : Type 0
Str = List ℕ

-- A literal of the source.
abbrev pub lit : String → Str
lit String.[] = []
lit (String.◌∷◌ c s) = code c ∷ lit s

unfoldable pub str_eq : Str → Str → Bool
str_eq [] [] = true
str_eq [] (d ∷ t) = false
str_eq (c ∷ s) [] = false
str_eq (c ∷ s) (d ∷ t) = c == d && str_eq s t

pub str_eq_iff : (s t : Str) → (str_eq s t ≡ true) ↔ (s ≡ t)
unfolding str_eq
str_eq_iff [] [] = ground arith
str_eq_iff [] (d ∷ t) = ground arith
str_eq_iff (c ∷ s) [] = ground arith
str_eq_iff (c ∷ s) (d ∷ t) = ground (arith, str_eq_iff s t)

pub str_eq_refl : (s : Str) → str_eq s s ≡ true
str_eq_refl s = (str_eq_iff s s).1 refl

-- `s.startswith(p)`
unfoldable pub starts_with : Str → Str → Bool
starts_with [] s = true
starts_with (c ∷ p) [] = false
starts_with (c ∷ p) (d ∷ s) = c == d && starts_with p s

-- The text before and after the first occurrence of `p`, as `s.split(p, 1)` finds it.
unfoldable pub cut_at : Str → Str → Option (Str × Str)
unfolding starts_with
cut_at p [] = if starts_with p [] then some ([], []) else none
cut_at p (c ∷ s) =
    let rest = Option.map (λ (r : Str × Str). let (a, b) = r in (c ∷ a, b)) (cut_at p s) in
    if starts_with p (c ∷ s) then some ([], drop (length p) (c ∷ s)) else rest

-- `p in s`
unfoldable pub contains : Str → Str → Bool
unfolding cut_at
contains p s = is_some (cut_at p s)

-- ===== src/Common/Words.antt =====
-- The methods of `str` that take a text apart: `split`, `strip`, `replace`, `endswith`, `rsplit`.
use Prim.Native.Nat.{ℕ, zero, suc}
use mathlib.Core.List.{List, [], ◌∷◌, ◌++◌}
use mathlib.Core.Option.{Option, none, some}
use mathlib.Core.Bool.{Bool, true, false, not, ◌&&◌, ◌||◌}
use aenvironment.Common.Tests.{if◌then◌else◌, ◌==◌, leb}
use aenvironment.Common.Lists.{length}
use aenvironment.Common.Text.{Str, str_eq, starts_with, cut_at}

-- The white space that `s.split()` and `s.strip()` know.
abbrev pub is_space : ℕ → Bool
is_space c =
    leb 9 c && leb c 13
    || (leb 28 c && leb c 32
        || (leb 8192 c && leb c 8202
            || (leb 8232 c && leb c 8233
                || (c == 133
                    || (c == 160 || (c == 5760 || (c == 8239 || (c == 8287 || c == 12288))))))))

-- whether a text begins with a character of a word
abbrev pub starts_word : Str → Bool
starts_word [] = false
starts_word (c ∷ s) = not (is_space c)

abbrev pub cons_head : ℕ → List Str → List Str
cons_head c [] = (c ∷ []) ∷ []
cons_head c (w ∷ ws) = (c ∷ w) ∷ ws

-- `s.split()`
unfoldable pub words : Str → List Str
words [] = []
words (c ∷ s) =
    let rest = words s in
    if is_space c then rest else if starts_word s then cons_head c rest else (c ∷ []) ∷ rest

-- `s.split(c)` for a separator of one character
unfoldable pub split_at : ℕ → Str → List Str
split_at c [] = [] ∷ []
split_at c (d ∷ s) = let rest = split_at c s in if d == c then [] ∷ rest else cons_head d rest

-- `s.lstrip()`
unfoldable pub lstrip : Str → Str
lstrip [] = []
lstrip (c ∷ s) = let rest = lstrip s in if is_space c then rest else c ∷ s

unfoldable pub rstrip : Str → Str
rstrip [] = []
rstrip (c ∷ s) = elim (rstrip s) [ [] ↦ if is_space c then [] else c ∷ [] | d ∷ t ↦ c ∷ d ∷ t ]

-- `s.strip()`
unfoldable pub strip : Str → Str
unfolding lstrip rstrip
strip s = lstrip (rstrip s)

-- `s.lstrip(c)` and `s.rstrip(c)` for one character
unfoldable pub lstrip_of : ℕ → Str → Str
lstrip_of c [] = []
lstrip_of c (d ∷ s) = let rest = lstrip_of c s in if d == c then rest else d ∷ s

unfoldable pub rstrip_of : ℕ → Str → Str
rstrip_of c [] = []
rstrip_of c (d ∷ s) = elim (rstrip_of c s) [
  | [] ↦ if d == c then [] else d ∷ []
  | e ∷ t ↦ d ∷ e ∷ t
]

-- `s.endswith(p)`
unfoldable pub ends_with : Str → Str → Bool
ends_with p [] = str_eq p []
ends_with p (c ∷ s) = str_eq p (c ∷ s) || ends_with p s

-- the text before the last occurrence of `p`
unfoldable pub cut_last : Str → Str → Option Str
cut_last p [] = if starts_with p [] then some [] else none
cut_last p (c ∷ s) = elim (cut_last p s) [
  | none ↦ if starts_with p (c ∷ s) then some [] else none
  | some a ↦ some (c ∷ a)
]

-- `s.split(p)[0]`
abbrev pub before : Str → Str → Str
before p s = elim (cut_at p s) [ none ↦ s | some (a, b) ↦ a ]

-- `s.split(p, 1)[-1]`
abbrev pub after : Str → Str → Str
after p s = elim (cut_at p s) [ none ↦ s | some (a, b) ↦ b ]

-- `s.rsplit(p, 1)[0]`
abbrev pub before_last : Str → Str → Str
before_last p s = elim (cut_last p s) [ none ↦ s | some a ↦ a ]

abbrev pub last_of : Str → List Str → Str
last_of w [] = w
last_of w (v ∷ ws) = last_of v ws

-- the characters of an occurrence that are still to be passed over
abbrev pub pred : ℕ → ℕ
pred zero = zero
pred (suc n) = n

-- `s.replace(c ∷ p, q)`: the first argument counts the characters of an occurrence still to pass.
unfoldable pub replace_from : ℕ → Str → Str → Str → Str
replace_from zero p q [] = []
replace_from (suc k) p q [] = []
replace_from (suc k) p q (c ∷ s) = replace_from k p q s
replace_from zero p q (c ∷ s) = elim (starts_with p (c ∷ s)) [
  | true ↦ q ++ replace_from (pred (length p)) p q s
  | false ↦ c ∷ replace_from zero p q s
]

abbrev pub replace : Str → Str → Str → Str
replace p q s = replace_from zero p q s

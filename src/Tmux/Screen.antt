-- ===== src/Tmux/Screen.antt =====
-- Which part of a screen counts as new.
use aenvironment.Common.{
  ◌≡◌, refl, ap, ℕ, Bool, true, false, Option, none, some, [], ◌∷◌, ◌++◌, length, drop, arith,
  if◌then◌else◌,
}
use aenvironment.Common.Text.{Str, starts_with}
use aenvironment.Common.Words.{strip, cut_last}
use aenvironment.Tmux.Session.{find_new_content}

starts_with-append : (p s : Str) → starts_with p s ≡ true → s ≡ p ++ drop (length p) s
unfolding starts_with
starts_with-append [] s h = refl
starts_with-append (c ∷ p) [] h = absurd (cc)
starts_with-append (c ∷ p) (d ∷ s) h =
    let same : d ≡ c = ground arith in
    let rest : starts_with p s ≡ true = ground arith in
    rw same (ap (λ (t : Str). c ∷ t) (starts_with-append p s rest))

-- A text, where there is one, stands before an occurrence of `p`.
abbrev Cut : Str → Str → Option Str → Type 0
Cut p s none = Unit
Cut p s (some a) = s ≡ a ++ (p ++ drop (length p) (drop (length a) s))

next-Cut :
    (p : Str) (c : ℕ) (s : Str) (b : Bool) (o : Option Str)
    → starts_with p (c ∷ s) ≡ b
    → Cut p s o
    → Cut p (c ∷ s) (elim o [ none ↦ if b then some [] else none | some a ↦ some (c ∷ a) ])
next-Cut p c s true none e h = starts_with-append p (c ∷ s) e
next-Cut p c s false none e h = tt
next-Cut p c s b (some a) e h = ap (λ (t : Str). c ∷ t) h

end-Cut : (p : Str) (b : Bool) → starts_with p [] ≡ b → Cut p [] (if b then some [] else none)
end-Cut p true e = starts_with-append p [] e
end-Cut p false e = tt

cut_last-Cut : (p s : Str) → Cut p s (cut_last p s)
unfolding cut_last
cut_last-Cut p [] = end-Cut p (starts_with p []) refl
cut_last-Cut p (c ∷ s) =
    next-Cut p c s (starts_with p (c ∷ s)) (cut_last p s) refl (cut_last-Cut p s)

-- Where some part of a screen counts as new, the screen is some text, the screen before without the
-- white space around it, and then the new part.
abbrev pub Follows : Str → Str → Option Str → Type 0
Follows previous current none = Unit
Follows previous current (some new) = (a : Str) × (current ≡ a ++ (strip previous ++ new))

new_part :
    (previous current : Str) (o : Option Str)
    → Cut (strip previous) current o
    → Follows previous current (elim o [
      | none ↦ none
      | some a ↦ some (drop (length (strip previous)) (drop (length a) current))
    ])
new_part previous current none h = tt
new_part previous current (some a) h = (a, h)

find_new_content-Follows :
    (previous current : Str) → Follows previous current (find_new_content previous current)
unfolding find_new_content
find_new_content-Follows previous current =
    new_part previous current (cut_last (strip previous) current)
      (cut_last-Cut (strip previous) current)

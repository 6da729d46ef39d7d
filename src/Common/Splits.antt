-- ===== src/Common/Splits.antt =====
-- Lemmas on texts that are taken apart into words and lines, and on replacing a part.
use Prim.Native.Nat.{ℕ, zero}
use mathlib.Core.Path.{◌≡◌, refl, ap, ◌∙◌}
use mathlib.Core.List.{[], ◌∷◌, ◌++◌}
use mathlib.Core.Option.{some}
use mathlib.Core.Bool.{Bool, true, false, ◌||◌}
use native.Mathlib.Omega.{arith}
use aenvironment.Common.Tests.{◌==◌}
use aenvironment.Common.Lists.{All, length}
use aenvironment.Common.Text.{Str, starts_with, cut_at, contains}
use aenvironment.Common.Words.{
  is_space, starts_word, cons_head, words, split_at, replace_from, replace, pred,
}

-- No character of a text is white space; no character of it is `c`.
abbrev pub NoSpace : Str → Type 0
NoSpace s = All (λ c. is_space c ≡ false) s

abbrev pub Without : ℕ → Str → Type 0
Without c s = All (λ d. (d == c) ≡ false) s

words-next :
    (c d : ℕ) (s : Str)
    → is_space c ≡ false
    → is_space d ≡ false
    → words (c ∷ d ∷ s) ≡ cons_head c (words (d ∷ s))
unfolding words
words-next c d s h k = rw (h, k) refl

-- A word at the front of a text is its first word.
pub words_word :
    (c : ℕ) (w s : Str)
    → NoSpace (c ∷ w)
    → starts_word s ≡ false
    → words (c ∷ (w ++ s)) ≡ (c ∷ w) ∷ words s
unfolding words
words_word c [] s (h, _) e = rw (h, e) refl
words_word c (d ∷ w) s (h, k) e =
    words-next c d (w ++ s) h k.0 ∙ ap (cons_head c) (words_word d w s k e)

-- The text up to a separator is the first part.
pub split_line : (c : ℕ) (l s : Str) → Without c l → split_at c (l ++ c ∷ s) ≡ l ∷ split_at c s
unfolding split_at
split_line c [] s _ = let e : (c == c) ≡ true = ground arith in rw e refl
split_line c (d ∷ l) s (h, k) = rw (h, split_line c l s k) refl

pub contains-rest : (p : Str) (c : ℕ) (s : Str) → contains p (c ∷ s) ≡ false → contains p s ≡ false
unfolding contains cut_at
contains-rest p c s h = ground arith

pub contains-front :
    (p : Str) (c : ℕ) (s : Str) → contains p (c ∷ s) ≡ false → starts_with p (c ∷ s) ≡ false
unfolding contains cut_at
contains-front p c s h = ground arith

pub replace-next :
    (p q : Str) (c : ℕ) (s : Str)
    → starts_with p (c ∷ s) ≡ false
    → replace p q (c ∷ s) ≡ c ∷ replace p q s
unfolding replace_from
replace-next p q c s h =
    ap
      (λ (b : Bool). elim b [
        | true ↦ q ++ replace_from (pred (length p)) p q s
        | false ↦ c ∷ replace_from zero p q s
      ])
      h

pub contains_cons :
    (p : Str) (c : ℕ) (s : Str) → contains p (c ∷ s) ≡ (starts_with p (c ∷ s) || contains p s)
unfolding contains cut_at
contains_cons p c s = ground arith

pub contains-end : (p s : Str) → contains p s ≡ false → contains p [] ≡ false
contains-end p [] h = h
contains-end p (c ∷ s) h = contains-end p s (contains-rest p c s h)

-- Replacing a part that does not occur changes nothing.
pub replace_none : (p q s : Str) → contains p s ≡ false → replace p q s ≡ s
unfolding replace_from
replace_none p q [] h = refl
replace_none p q (c ∷ s) h =
    replace-next p q c s (contains-front p c s h)
    ∙ ap (λ t. c ∷ t) (replace_none p q s (contains-rest p c s h))

-- A part that begins with a blank does not begin inside a word.
pub replace_word :
    (p q w s : Str) → NoSpace w → replace (b' ' ∷ p) q (w ++ s) ≡ w ++ replace (b' ' ∷ p) q s
unfolding replace_from starts_with
replace_word p q [] s _ = refl
replace_word p q (c ∷ w) s (h, k) =
    let e : starts_with (b' ' ∷ p) (c ∷ (w ++ s)) ≡ false = ground arith in
    replace-next (b' ' ∷ p) q c (w ++ s) e ∙ ap (λ t. c ∷ t) (replace_word p q w s k)

-- The first occurrence of a character that the text in front lacks.
pub cut_first : (c : ℕ) (k v : Str) → Without c k → cut_at (c ∷ []) (k ++ c ∷ v) ≡ some (k, v)
unfolding cut_at starts_with
cut_first c [] v _ = let e : (c == c) ≡ true = ground arith in rw e refl
cut_first c (d ∷ k) v (h, hs) =
    let e : (c == d) ≡ false = ground arith in rw (e, cut_first c k v hs) refl

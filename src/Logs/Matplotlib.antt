-- ===== src/Logs/Matplotlib.antt =====
-- When `parse_log_matplotlib` reads a log as `parse_log_pytest` does.
use aenvironment.Common.{
  ℕ, ◌≡◌, refl, sym, ap, ◌∙◌, true, false, ◌&&◌, List, [], ◌∷◌, each, All, arith, ◌==◌, Bool-cases,
  inl, inr,
}
use aenvironment.Common.Text.{Str, lit, starts_with, contains}
use aenvironment.Common.Words.{split_at, cons_head, replace}
use aenvironment.Common.Splits.{
  contains-rest, contains-front, contains-end, contains_cons, replace_none,
}
use aenvironment.Common.Dict.{Dict}
use aenvironment.Logs.{pytest_line, matplotlib_line, parse_log_pytest, parse_log_matplotlib}

-- the first part of a split
abbrev head_of : List Str → Str
head_of [] = []
head_of (l ∷ ls) = l

head-cons_head : (c : ℕ) (ls : List Str) → head_of (cons_head c ls) ≡ c ∷ head_of ls
head-cons_head c [] = refl
head-cons_head c (l ∷ ls) = refl

head_end : (c d : ℕ) (s : Str) → (d == c) ≡ true → head_of (split_at c (d ∷ s)) ≡ []
unfolding split_at
head_end c d s h = rw h refl

head_next :
    (c d : ℕ) (s : Str)
    → (d == c) ≡ false
    → head_of (split_at c (d ∷ s)) ≡ d ∷ head_of (split_at c s)
unfolding split_at
head_next c d s h = rw h (head-cons_head d (split_at c s))

-- What the first line begins with, the text begins with.
head_front :
    (c : ℕ) (p s : Str) → starts_with p (head_of (split_at c s)) ≡ true → starts_with p s ≡ true
unfolding split_at starts_with
head_front c [] s h = refl
head_front c (d ∷ p) [] h = h
head_front c (d ∷ p) (e ∷ s) h = elim (Bool-cases (e == c)) [
  | inl k ↦
      absurd (let f : false ≡ true = ap (starts_with (d ∷ p)) (sym (head_end c e s k)) ∙ h in cc)
  | inr k ↦
      let f : (d == e && starts_with p (head_of (split_at c s))) ≡ true =
        ap (starts_with (d ∷ p)) (sym (head_next c e s k)) ∙ h in
      ground (arith, head_front c p s)
]

module _ (c : ℕ) (p : Str) where
  head_lacks : (s : Str) → contains p s ≡ false → contains p (head_of (split_at c s)) ≡ false
  unfolding split_at
  head_lacks [] h = h
  head_lacks (e ∷ s) h = elim (Bool-cases (e == c)) [
    | inl k ↦ ap (contains p) (head_end c e s k) ∙ contains-end p (e ∷ s) h
    | inr k ↦
        let front : starts_with p (e ∷ head_of (split_at c s)) ≡ true
            → starts_with p (e ∷ s) ≡ true =
          λ f. head_front c p (e ∷ s) (ap (starts_with p) (head_next c e s k) ∙ f) in
        let r = head_lacks s (contains-rest p e s h) in
        ap (contains p) (head_next c e s k)
        ∙ contains_cons p e (head_of (split_at c s))
        ∙ ground (arith, front, contains-front p e s h, r)
  ]

  cons_head-All :
      (Q : Str → Type 0) (e : ℕ) (ls : List Str)
      → Q (e ∷ head_of ls)
      → All Q ls
      → All Q (cons_head e ls)
  cons_head-All Q e [] h k = (h, tt)
  cons_head-All Q e (l ∷ ls) h k = (h, k.1)

  -- A part that a text lacks is in none of its lines.
  lines_lack : (s : Str) → contains p s ≡ false → All (λ l. contains p l ≡ false) (split_at c s)
  unfolding split_at
  lines_lack [] h = (h, tt)
  lines_lack (e ∷ s) h =
      let rest = lines_lack s (contains-rest p e s h) in
      elim (Bool-cases (e == c)) [
        | inl k ↦ rw k (contains-end p (e ∷ s) h, rest)
        | inr k ↦
            let front : contains p (e ∷ head_of (split_at c s)) ≡ false =
              ap (contains p) (sym (head_next c e s k)) ∙ head_lacks (e ∷ s) h in
            rw k (cons_head-All (λ l. contains p l ≡ false) e (split_at c s) front rest)
      ]

abbrev pub left : Str
left = lit "MouseButton.LEFT"

abbrev pub right : Str
right = lit "MouseButton.RIGHT"

same_line :
    (l : Str) (sm : Dict Str)
    → contains left l ≡ false
    → contains right l ≡ false
    → matplotlib_line l sm ≡ pytest_line l sm
unfolding matplotlib_line
same_line l sm h k =
    ap (λ t. pytest_line (replace right (lit "3") t) sm) (replace_none left (lit "1") l h)
    ∙ ap (λ t. pytest_line t sm) (replace_none right (lit "3") l k)

same_lines :
    (ls : List Str) (sm : Dict Str)
    → All (λ l. contains left l ≡ false) ls
    → All (λ l. contains right l ≡ false) ls
    → each matplotlib_line ls sm ≡ each pytest_line ls sm
same_lines [] sm h k = refl
same_lines (l ∷ ls) sm (h, hs) (k, ks) =
    same_lines ls (matplotlib_line l sm) hs ks ∙ ap (each pytest_line ls) (same_line l sm h k)

-- `parse_log_matplotlib` reads a log that has neither "MouseButton.LEFT" nor "MouseButton.RIGHT"
-- in it as `parse_log_pytest` does.
pub matplotlib_as_pytest :
    (log : Str)
    → contains left log ≡ false
    → contains right log ≡ false
    → parse_log_matplotlib log ≡ parse_log_pytest log
unfolding parse_log_matplotlib parse_log_pytest
matplotlib_as_pytest log h k =
    same_lines (split_at b'\n' log) [] (lines_lack b'\n' left log h) (lines_lack b'\n' right log k)

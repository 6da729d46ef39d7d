-- ===== src/Effect/Triple.antt =====
-- What holds after an action that returns: `Triple P m Q` says that from a state with `P`, every
-- run of `m` that returns ends in a state with `Q`. What a raise leaves is not said.
use aenvironment.Common.{◌≡◌, refl, Bool, true, false}
use aenvironment.Effect.{
  Result, ok, err, Eff, gets, modify, ◌>>=◌, ◌>>◌, follow, resume, finally, when,
}
use aenvironment.Effect.Keeps.{Keeps}

module _ {S : Type 0} where
  abbrev pub Good : (S → Type 0) → {A : Type 0} → Result A × S → Type 0
  Good Q (ok a, t) = Q t
  Good Q (err e, t) = Unit

  pub record Triple {A : Type 0} (P : S → Type 0) (m : Eff S A) (Q : S → Type 0) : Type 0 where
    pub at : (s : S) → P s → Good Q (m s)

  -- the relation that keeps a predicate
  abbrev pub Along : (S → Type 0) → S → S → Type 0
  Along P s t = P s → P t

module _ {S : Type 0} (Q : S → Type 0) where
  follow-Good :
      {A B : Type 0} (R : S → Type 0) (p : Result A × S) (f : A → Eff S B)
      → Good Q p
      → ((a : A) → Triple Q (f a) R)
      → Good R (follow p.0 f p.1)
  follow-Good R (ok a, t) f g k = (k a).at t g
  follow-Good R (err e, t) f g k = tt

  Good-along : {A : Type 0} (p : Result A × S) → Q p.1 → Good Q p
  Good-along (ok a, t) q = q
  Good-along (err e, t) q = tt

  pub good_returned : {A : Type 0} (p : Result A × S) (a : A) → Good Q p → p.0 ≡ ok a → Q p.1
  good_returned (ok b, t) a g h = g
  good_returned (err e, t) a g h = absurd (let f : err e ≡ ok a = h in cc)

  resume-Good :
      {A : Type 0} (r : Result A) (p : Result (Unit {0}) × S) → Good Q p → Good Q (resume r p)
  resume-Good (ok a) (ok _, t) g = g
  resume-Good (err e) (ok _, t) g = tt
  resume-Good r (err e, t) g = tt

module _ {S : Type 0} {P Q R : S → Type 0} where
  pub Triple-bind :
      {A B : Type 0} (m : Eff S A) (f : A → Eff S B)
      → Triple P m Q
      → ((a : A) → Triple Q (f a) R)
      → Triple P (m >>= f) R
  unfolding ◌>>=◌
  Triple-bind m f g k = record { at = λ s p. follow-Good Q R (m s) f (g.at s p) k }

  pub Triple-then :
      {A B : Type 0} (m : Eff S A) (n : Eff S B) → Triple P m Q → Triple Q n R → Triple P (m >> n) R
  unfolding ◌>>◌
  Triple-then m n g k = Triple-bind m (λ _. n) g (λ _. k)

module _ {S : Type 0} {P Q : S → Type 0} where
  -- a read, whose value is known from then on
  pub Triple-gets :
      {A B : Type 0} (f : S → A) (k : A → Eff S B)
      → ((a : A) → Triple (λ s. P s × (f s ≡ a)) (k a) Q)
      → Triple P (gets f >>= k) Q
  unfolding gets ◌>>=◌
  Triple-gets f k h = record { at = λ s p. (h (f s)).at s (p, refl) }

  pub Triple-modify : (f : S → S) → ((s : S) → P s → Q (f s)) → Triple P (modify f) Q
  unfolding modify
  Triple-modify f h = record { at = h }

  pub Triple-when :
      (b : Bool) (m : Eff S (Unit {0}))
      → (b ≡ true → Triple P m Q)
      → (b ≡ false → (s : S) → P s → Q s)
      → Triple P (when b m) Q
  unfolding when
  Triple-when true m h k = record { at = (h refl).at }
  Triple-when false m h k = record { at = k refl }

  pub Triple-along :
      {A : Type 0} (m : Eff S A) → Keeps (Along P) m → ((s : S) → P s → Q s) → Triple P m Q
  Triple-along m k h = record { at = λ s p. Good-along Q (m s) (h (m s).1 (k.at s p)) }

  -- what the action does besides is lost, but for what it keeps
  pub Triple-finally :
      {A : Type 0} (m : Eff S A) (after : Eff S (Unit {0}))
      → Keeps (Along P) m
      → Triple P after Q
      → Triple P (finally m after) Q
  unfolding finally
  Triple-finally m after k h = record {
    at = λ s p. let (r, t) = m s in resume-Good Q r (after t) (h.at t (k.at s p));
  }

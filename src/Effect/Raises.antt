-- ===== src/Effect/Raises.antt =====
-- What an action may raise: `Raises P m` says that every exception that leaves `m` satisfies `P`.
use aenvironment.Common.{◌≡◌, inl, inr, Bool, true, false, Bool-cases}
use aenvironment.Effect.Exceptions.{Exn}
use aenvironment.Effect.{
  Result, ok, err, Eff, pure, raise, gets, modify, ◌>>=◌, ◌>>◌, follow, resume, finally, raise_if,
  when, try_except, handle,
}

abbrev pub Fails : (Exn → Type 0) → {A : Type 0} → Result A → Type 0
Fails P (ok a) = Unit
Fails P (err e) = P e

pub record Raises {S A : Type 0} (P : Exn → Type 0) (m : Eff S A) : Type 0 where
  pub at : (s : S) → Fails P (m s).0

module _ {S : Type 0} (P : Exn → Type 0) where
  follow-Fails :
      {A B : Type 0} (p : Result A × S) (f : A → Eff S B)
      → Fails P p.0
      → ((a : A) → Raises P (f a))
      → Fails P (follow p.0 f p.1).0
  follow-Fails (ok a, t) f g k = (k a).at t
  follow-Fails (err e, t) f g k = g

  resume-Fails :
      {A : Type 0} (r : Result A) (p : Result (Unit {0}) × S)
      → Fails P r
      → Fails P p.0
      → Fails P (resume r p).0
  resume-Fails r (ok _, t) g h = g
  resume-Fails r (err e, t) g h = h

  handle-Fails :
      {A : Type 0} (caught : Exn → Bool) (r : Result A) (h : Exn → Eff S A)
      → ((e : Exn) → caught e ≡ false → P e)
      → ((e : Exn) → Raises P (h e))
      → (s : S) → Fails P (handle caught r h s).0
  handle-Fails caught (ok a) h p k s = tt
  handle-Fails caught (err e) h p k s = elim (Bool-cases (caught e)) [
    | inl c ↦ rw c ((k e).at s)
    | inr c ↦ rw c (p e c)
  ]

module _ {S : Type 0} {P : Exn → Type 0} where
  pub Raises-pure : {A : Type 0} (a : A) → Raises P (pure {S = S} a)
  unfolding pure
  Raises-pure a = record { at = λ s. tt }

  pub Raises-raise : {A : Type 0} (e : Exn) → P e → Raises P (raise {S = S} {A = A} e)
  unfolding raise
  Raises-raise e p = record { at = λ s. p }

  pub Raises-raise_if : (b : Bool) (e : Exn) → P e → Raises P (raise_if {S = S} b e)
  unfolding raise_if
  Raises-raise_if true e p = record { at = λ s. p }
  Raises-raise_if false e p = record { at = λ s. tt }

  pub Raises-gets : {A : Type 0} (f : S → A) → Raises P (gets f)
  unfolding gets
  Raises-gets f = record { at = λ s. tt }

  pub Raises-modify : (f : S → S) → Raises P (modify f)
  unfolding modify
  Raises-modify f = record { at = λ s. tt }

  pub Raises-bind :
      {A B : Type 0} (m : Eff S A) (f : A → Eff S B)
      → Raises P m
      → ((a : A) → Raises P (f a))
      → Raises P (m >>= f)
  unfolding ◌>>=◌
  Raises-bind m f g k = record { at = λ s. follow-Fails P (m s) f (g.at s) k }

  pub Raises-then :
      {A B : Type 0} (m : Eff S A) (n : Eff S B) → Raises P m → Raises P n → Raises P (m >> n)
  unfolding ◌>>◌
  Raises-then m n g k = Raises-bind m (λ _. n) g (λ _. k)

  pub Raises-when : (b : Bool) (m : Eff S (Unit {0})) → Raises P m → Raises P (when b m)
  unfolding when
  Raises-when true m k = record { at = k.at }
  Raises-when false m k = record { at = λ s. tt }

  -- whatever is raised in it is handled, or satisfies `P`
  pub Raises-try_except :
      {A : Type 0} (m : Eff S A) (caught : Exn → Bool) (h : Exn → Eff S A)
      → ((e : Exn) → caught e ≡ false → P e)
      → ((e : Exn) → Raises P (h e))
      → Raises P (try_except m caught h)
  unfolding try_except
  Raises-try_except m caught h p k = record {
    at = λ s. let (r, t) = m s in handle-Fails P caught r h p k t;
  }

  pub Raises-finally :
      {A : Type 0} (m : Eff S A) (after : Eff S (Unit {0}))
      → Raises P m
      → Raises P after
      → Raises P (finally m after)
  unfolding finally
  Raises-finally m after g k = record {
    at = λ s. let (r, t) = m s in resume-Fails P r (after t) (g.at s) (k.at t);
  }

pub ruleset raises_rules = (
  Raises-pure, Raises-gets, Raises-bind, Raises-then, Raises-when, Raises-try_except,
  Raises-finally,
)

-- ===== src/Effect/Keeps.antt =====
-- What an action keeps: `Keeps R m` says that every run of `m`, whether it returns or raises,
-- relates the state before to the state after by `R`. One rule for each way to build an action.
use aenvironment.Common.{◌≡◌, refl, inl, inr, Bool, true, false, Bool-cases, if◌then◌else◌}
use aenvironment.Effect.Exceptions.{Exn}
use aenvironment.Effect.{
  Result, ok, err, Eff, pure, raise, gets, lift, modify, ◌>>=◌, ◌>>◌, follow, try_except, handle,
  resume, finally, raise_if, when,
}

pub record IsPreorder {ℓ} {S : Type ℓ} (R : S → S → Type ℓ) : Type ℓ where
  pub same : (s : S) → R s s
  pub chain : (s t u : S) → R s t → R t u → R s u

pub record Keeps {ℓ} {S A : Type ℓ} (R : S → S → Type ℓ) (m : Eff S A) : Type ℓ where
  pub at : (s : S) → R s (m s).1

resume_state {ℓ} : {S A : Type ℓ} (r : Result A) (p : Result (Unit {ℓ}) × S) → (resume r p).1 ≡ p.1
resume_state r (ok _, s) = refl
resume_state r (err e, s) = refl

module _ {ℓ} {S A : Type ℓ} {R : S → S → Type ℓ} where
  pub Keeps-pure : IsPreorder R → (a : A) → Keeps R (pure a)
  unfolding pure
  Keeps-pure o a = record { at = λ s. o.same s }

  pub Keeps-raise : IsPreorder R → (e : Exn) → Keeps R (raise {A = A} e)
  unfolding raise
  Keeps-raise o e = record { at = λ s. o.same s }

  pub Keeps-gets : IsPreorder R → (f : S → A) → Keeps R (gets f)
  unfolding gets
  Keeps-gets o f = record { at = λ s. o.same s }

  pub Keeps-lift : IsPreorder R → (r : Result A) → Keeps R (lift r)
  unfolding lift
  Keeps-lift o r = record { at = λ s. o.same s }

  pub Keeps-if :
      (b : Bool) (m n : Eff S A)
      → (b ≡ true → Keeps R m)
      → (b ≡ false → Keeps R n)
      → Keeps R (if b then m else n)
  Keeps-if true m n km kn = km refl
  Keeps-if false m n km kn = kn refl

  handle_keeps :
      IsPreorder R
      → (caught : Exn → Bool) (r : Result A) (h : Exn → Eff S A)
      → ((e : Exn) → caught e ≡ true → Keeps R (h e))
      → (s : S) → R s (handle caught r h s).1
  handle_keeps o caught (ok a) h kh s = o.same s
  handle_keeps o caught (err e) h kh s = elim (Bool-cases (caught e)) [
    | inl named ↦ rw named ((kh e named).at s)
    | inr passed ↦ rw passed (o.same s)
  ]

  pub Keeps-try_except :
      IsPreorder R
      → (m : Eff S A) (caught : Exn → Bool) (h : Exn → Eff S A) → Keeps R m
      → ((e : Exn) → caught e ≡ true → Keeps R (h e))
      → Keeps R (try_except m caught h)
  unfolding try_except
  Keeps-try_except o m caught h km kh = record {
    at = λ s.
        let (r, t) = m s in
        o.chain s t (handle caught r h t).1 (km.at s) (handle_keeps o caught r h kh t);
  }

  pub Keeps-finally :
      IsPreorder R
      → (m : Eff S A) (after : Eff S (Unit {ℓ})) → Keeps R m
      → Keeps R after
      → Keeps R (finally m after)
  unfolding finally
  Keeps-finally o m after km ka = record {
    at = λ s. let (r, t) = m s in rw resume_state (o.chain s t (after t).1 (km.at s) (ka.at t));
  }

module _ {ℓ} {S : Type ℓ} {R : S → S → Type ℓ} where
  pub Keeps-modify : (f : S → S) → ((s : S) → R s (f s)) → Keeps R (modify f)
  unfolding modify
  Keeps-modify f h = record { at = h }

  pub Keeps-raise_if : IsPreorder R → (b : Bool) (e : Exn) → Keeps R (raise_if b e)
  unfolding raise_if
  Keeps-raise_if o b e = record { at = λ s. o.same s }

  pub Keeps-when :
      IsPreorder R → (b : Bool) (m : Eff S (Unit {ℓ})) → (b ≡ true → Keeps R m) → Keeps R (when b m)
  unfolding when
  Keeps-when o true m km = record { at = (km refl).at }
  Keeps-when o false m km = record { at = λ s. o.same s }

module _ {ℓ} {S A B : Type ℓ} {R : S → S → Type ℓ} where
  follow_keeps :
      IsPreorder R
      → (r : Result A) (f : A → Eff S B) → ((a : A) → Keeps R (f a))
      → (s : S) → R s (follow r f s).1
  follow_keeps o (ok a) f kf s = (kf a).at s
  follow_keeps o (err e) f kf s = o.same s

  pub Keeps-bind :
      IsPreorder R
      → (m : Eff S A) (f : A → Eff S B) → Keeps R m
      → ((a : A) → Keeps R (f a))
      → Keeps R (m >>= f)
  unfolding ◌>>=◌
  Keeps-bind o m f km kf = record {
    at = λ s. let (r, t) = m s in o.chain s t (follow r f t).1 (km.at s) (follow_keeps o r f kf t);
  }

  pub Keeps-then :
      IsPreorder R → (m : Eff S A) (n : Eff S B) → Keeps R m → Keeps R n → Keeps R (m >> n)
  unfolding ◌>>◌
  Keeps-then o m n km kn = Keeps-bind o m (λ _. n) km (λ _. kn)

pub ruleset keeps_rules = (
  Keeps-pure, Keeps-raise, Keeps-gets, Keeps-lift, Keeps-if, Keeps-try_except, Keeps-finally,
  Keeps-modify, Keeps-raise_if, Keeps-when, Keeps-bind, Keeps-then,
)

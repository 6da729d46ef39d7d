-- ===== src/Effect.antt =====
-- The effects of the Python code: exceptions, mutation, and calls to the world outside. A method
-- is an action: it takes the state before, and gives its outcome and the state after, also when
-- it raises, since what was written before a `raise` stays written.
pub mod Exceptions
pub mod Keeps
pub mod Poll
pub mod Triple
pub mod Raises
use aenvironment.Common.{ℕ, Bool, true, false, if◌then◌else◌}
use Exceptions.{Exn, is_exception}

pub data Result {ℓ} (A : Type ℓ) : Type ℓ where
  ok : A → Result A
  err : Exn → Result A

abbrev pub Eff {ℓ} : Type ℓ → Type ℓ → Type ℓ
Eff S A = S → Result A × S

module _ {ℓ} {S A : Type ℓ} where
  unfoldable pub pure : A → Eff S A
  pure a s = (ok a, s)

  unfoldable pub raise : Exn → Eff S A
  raise e s = (err e, s)

  unfoldable pub gets : (S → A) → Eff S A
  gets f s = (ok (f s), s)

  unfoldable pub lift : Result A → Eff S A
  lift r s = (r, s)

module _ {ℓ} {S : Type ℓ} where
  unfoldable pub modify : (S → S) → Eff S (Unit {ℓ})
  modify f s = (ok tt, f s)

  -- `if b: raise e`
  unfoldable pub raise_if : Bool → Exn → Eff S (Unit {ℓ})
  raise_if b e s = (if b then err e else ok tt, s)

module _ {ℓ} {S A B : Type ℓ} where
  abbrev pub follow : Result A → (A → Eff S B) → Eff S B
  follow (ok a) f s = f a s
  follow (err e) f s = (err e, s)

  infixl 10 ◌>>=◌ ◌>>◌
  unfoldable pub ◌>>=◌ : Eff S A → (A → Eff S B) → Eff S B
  unfolding pure raise gets lift modify
  ◌>>=◌ m f s = let (r, t) = m s in follow r f t

  unfoldable pub ◌>>◌ : Eff S A → Eff S B → Eff S B
  unfolding ◌>>=◌
  ◌>>◌ m n = m >>= λ _. n

module _ {ℓ} {S A : Type ℓ} where
  abbrev pub handle : (Exn → Bool) → Result A → (Exn → Eff S A) → Eff S A
  handle caught (ok a) h s = (ok a, s)
  handle caught (err e) h s = let handled = h e s in if caught e then handled else (err e, s)

  -- `try: m` with `except`: an exception that the clause does not name goes on upwards.
  unfoldable pub try_except : Eff S A → (Exn → Bool) → (Exn → Eff S A) → Eff S A
  try_except m caught h s = let (r, t) = m s in handle caught r h t

  abbrev pub resume : Result A → Result (Unit {ℓ}) × S → Result A × S
  resume r (ok _, s) = (r, s)
  resume r (err e, s) = (err e, s)

  -- `try: m` with `finally: after`: an exception of `after` takes the place of the outcome of `m`.
  unfoldable pub finally : Eff S A → Eff S (Unit {ℓ}) → Eff S A
  finally m after s = let (r, t) = m s in resume r (after t)

-- `if b: m`
unfoldable pub when {ℓ} : {S : Type ℓ} → Bool → Eff S (Unit {ℓ}) → Eff S (Unit {ℓ})
when true m s = m s
when false m s = (ok tt, s)

-- A part of the state, read and written by an action of its own.
unfoldable pub within {ℓ} : {S T A : Type ℓ} → (S → T) → (S → T → S) → Eff T A → Eff S A
within get put m s = let (r, t) = m (get s) in (r, put s t)

-- ===== src/Exec/Monad.antt =====
-- Results, and actions that return the world beside the result, also where they fail.
use team_flow.Prelude.{Bool, true, false, List, [], ◌∷◌}
use team_flow.Httpx.Errors.{Error}

pub data Result {ℓ} (A : Type ℓ) : Type ℓ where
  ok : A → Result A
  err : Error → Result A

abbrev pub Exec {ℓ} : Type ℓ → Type ℓ → Type ℓ
Exec W A = W → Result A × W

abbrev pub on_err {ℓ} : {A : Type ℓ} → (Error → Error) → Result A → Result A
on_err f (ok a) = ok a
on_err f (err e) = err (f e)

module _ {ℓ} {W A : Type ℓ} where
  abbrev pub pure : A → Exec W A
  pure a w = (ok a, w)

  abbrev pub fail : Error → Exec W A
  fail e w = (err e, w)

  abbrev pub lift : Result A → Exec W A
  lift r w = (r, w)

  -- `if err != nil { return f(err) }`
  unfoldable pub or_fail : (Error → Error) → Exec W A → Exec W A
  or_fail f m w = let (r, w') = m w in (on_err f r, w')

module _ {ℓ} {W A B : Type ℓ} where
  abbrev pub continue : Result A → (A → Exec W B) → Exec W B
  continue (ok a) f w = f a w
  continue (err e) f w = (err e, w)

  infixl 10 ◌>>=◌ ◌>>◌
  unfoldable pub ◌>>=◌ : Exec W A → (A → Exec W B) → Exec W B
  ◌>>=◌ m f w = let (r, w') = m w in continue r f w'

  abbrev pub ◌>>◌ : Exec W A → Exec W B → Exec W B
  m >> n = m >>= λ _. n

  -- `a, err := m()`, where the error is looked at before the function returns.
  unfoldable pub inspect : Exec W A → (Result A → Exec W B) → Exec W B
  inspect m k w = let (r, w') = m w in k r w'

module _ {W : Type 0} where
  -- `if !ok { return err }`
  abbrev pub require : Bool → Error → Exec W (Unit {0})
  require true e = pure tt
  require false e = fail e

  -- `for _, x := range xs { if err := f(x); err != nil { return err } }`
  unfoldable pub for_each : {A : Type 0} → (A → Exec W (Unit {0})) → List A → Exec W (Unit {0})
  for_each f [] = pure tt
  for_each f (x ∷ xs) = f x >>= λ _. for_each f xs

-- ===== src/Exec.antt =====
-- Methods that change a state and may throw. What was changed before a throw stays changed, so the
-- state comes back beside an error too.
use janosh.Common.{Bool, true, false, ◌≡◌, refl, ◌⊎◌, inl, inr, if◌then◌else◌}
use janosh.Result.{Error, Result, ok, err}

abbrev pub Exec : Type 0 → Type 0 → Type 0
Exec S A = S → Result A × S

module _ {S A : Type 0} where
  abbrev pub pure : A → Exec S A
  pure a s = (ok a, s)

  abbrev pub throw : Error → Exec S A
  throw e s = (err e, s)

  abbrev pub lift : Result A → Exec S A
  lift r s = (r, s)

module _ {S A B : Type 0} where
  -- What follows a method that has ended, as it ended.
  abbrev pub continue : Result A × S → (A → Exec S B) → Result B × S
  continue (ok a, s) f = f a s
  continue (err e, s) f = (err e, s)

  infixl 5 ◌>>=◌ ◌>>◌
  abbrev pub ◌>>=◌ : Exec S A → (A → Exec S B) → Exec S B
  ◌>>=◌ m f s = continue (m s) f

  abbrev pub ◌>>◌ : Exec S A → Exec S B → Exec S B
  ◌>>◌ m n s = continue (m s) (λ _. n)

abbrev pub guard : {S : Type 0} → Bool → Error → Exec S (Unit {0})
guard true e = pure tt
guard false e = throw e

-- Where both parts of a method returned, this is what they returned.
pub continue_returns :
    {S A B : Type 0} (r : Result A × S) (f : A → Exec S B) {b : B} {t : S}
    → continue r f ≡ (ok b, t)
    → (a : A) × (s : S) × (r ≡ (ok a, s)) × (f a s ≡ (ok b, t))
continue_returns (ok a, s) f e = (a, s, refl, e)
continue_returns (err x, s) f e = cc

-- A method that returned did so in one of the branches.
pub branch_returns :
    {S A : Type 0} (b : Bool) (m n : Exec S A) (s : S) {r : Result A × S}
    → (if b then m else n) s ≡ r
    → (m s ≡ r) ⊎ (n s ≡ r)
branch_returns true m n s e = inl e
branch_returns false m n s e = inr e

pub pure_returns : {S A : Type 0} {a b : A} {s t : S} → pure a s ≡ (ok b, t) → a ≡ b
pure_returns e = cc

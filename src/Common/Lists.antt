-- ===== src/Common/Lists.antt =====
-- Lists measured by native numbers, and predicates on all their members.
use Prim.Native.Nat.{ℕ, zero, suc, ◌+◌}
use mathlib.Core.Path.{◌≡◌, refl}
use mathlib.Core.List.{List, [], ◌∷◌, ◌++◌}
use mathlib.Core.Option.{Option, none, some}
use native.Mathlib.Omega.{arith}

module _ {ℓ} {A : Type ℓ} where
  abbrev pub length : List A → ℕ
  length [] = 0
  length (x ∷ xs) = suc (length xs)

  pub length-append : (xs ys : List A) → length (xs ++ ys) ≡ length xs + length ys
  length-append [] ys = omega arith
  length-append (x ∷ xs) ys = omega (arith, length-append xs ys)

  abbrev pub take : ℕ → List A → List A
  take zero xs = []
  take (suc n) [] = []
  take (suc n) (x ∷ xs) = x ∷ take n xs

  -- `v.back()`, if there is one
  abbrev pub last? : List A → Option A
  last? [] = none
  last? (x ∷ []) = some x
  last? (x ∷ y ∷ ys) = last? (y ∷ ys)

  -- all but `v.back()`
  abbrev pub init : List A → List A
  init [] = []
  init (x ∷ []) = []
  init (x ∷ y ∷ ys) = x ∷ init (y ∷ ys)

  pub last?-concat : (xs : List A) (x : A) → last? (xs ++ x ∷ []) ≡ some x
  last?-concat [] x = refl
  last?-concat (a ∷ []) x = refl
  last?-concat (a ∷ b ∷ xs) x = last?-concat (b ∷ xs) x

  pub init-concat : (xs : List A) (x : A) → init (xs ++ x ∷ []) ≡ xs
  init-concat [] x = refl
  init-concat (a ∷ []) x = refl
  init-concat (a ∷ b ∷ xs) x = λ i. a ∷ init-concat (b ∷ xs) x i

module _ {ℓ κ} {A : Type ℓ} (P : A → Type κ) where
  abbrev pub All : List A → Type κ
  All [] = Unit
  All (x ∷ xs) = P x × All xs

  pub All-append : (xs ys : List A) → All xs → All ys → All (xs ++ ys)
  All-append [] ys _ hy = hy
  All-append (x ∷ xs) ys (px, hx) hy = (px, All-append xs ys hx hy)

  pub All-init : (xs : List A) → All xs → All (init xs)
  All-init [] h = tt
  All-init (x ∷ []) h = tt
  All-init (x ∷ y ∷ ys) (px, hs) = (px, All-init (y ∷ ys) hs)

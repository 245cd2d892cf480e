-- ===== src/Common/Maps.antt =====
-- `std::map` as a function from keys, over keys with a Boolean equality.
use Prim.Native.Nat.{ℕ}
use mathlib.Core.Path.{◌≡◌}
use mathlib.Core.Logic.{◌↔◌}
use mathlib.Core.Bool.{Bool, true, false}
use mathlib.Core.Option.{Option, none, some}
use janosh.Common.Tests.{◌==◌, ==_iff, if◌then◌else◌}
use janosh.Common.Text.{Bytes, bytes_eq, bytes_eq_iff}

pub record Eq {ℓ} (K : Type ℓ) : Type ℓ where
  pub same : K → K → Bool
  pub same_iff : (a b : K) → (same a b ≡ true) ↔ (a ≡ b)

instance abbrev pub number_eq : Eq ℕ
number_eq = record { same = ◌==◌; same_iff = ==_iff }

instance abbrev pub text_eq : Eq Bytes
text_eq = record { same = bytes_eq; same_iff = bytes_eq_iff }

abbrev pub Map {ℓ κ} : Type ℓ → Type κ → Type (ℓ ⊔ κ)
Map K V = K → Option V

module _ {ℓ κ} {K : Type ℓ} {V : Type κ} where
  abbrev pub no_entries : Map K V
  no_entries k = none

  -- `m[k] = v`
  abbrev pub put : ⦃e : Eq K⦄ → K → V → Map K V → Map K V
  put ⦃e⦄ k v m j = if e.same j k then some v else m j

  -- `m.erase(k)`
  abbrev pub erase : ⦃e : Eq K⦄ → K → Map K V → Map K V
  erase ⦃e⦄ k m j = if e.same j k then none else m j

module _ {ℓ} {V : Type ℓ} where
  -- `m.find(k) != m.end()`
  abbrev pub is_some : Option V → Bool
  is_some none = false
  is_some (some v) = true

  -- The value that `m[k]` reads, where it stands for a missing key too.
  abbrev pub or_default : V → Option V → V
  or_default v none = v
  or_default v (some w) = w

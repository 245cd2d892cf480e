-- ===== src/Common/Text.antt =====
-- `std::string` as a list of bytes: equality, the order of `operator<`, and literals.
use Prim.Native.Nat.{ℕ}
use Prim.Native.Char.{code}
use Prim.Native.String.{String}
use mathlib.Core.Path.{◌≡◌, refl}
use mathlib.Core.Logic.{◌↔◌, ◌≢◌}
use mathlib.Core.Bool.{Bool, true, false, ◌&&◌, ◌||◌}
use mathlib.Core.List.{List, [], ◌∷◌, ◌++◌}
use native.Mathlib.Omega.{arith}
use janosh.Common.Tests.{◌==◌, ltb}
use janosh.Common.Lists.{All}

abbrev pub Bytes : Type 0
Bytes = List ℕ

-- The bytes of a literal, which is ASCII.
abbrev pub codes : String → Bytes
codes String.[] = []
codes (String.◌∷◌ c s) = code c ∷ codes s

-- `a == b`
unfoldable pub bytes_eq : Bytes → Bytes → Bool
bytes_eq [] [] = true
bytes_eq [] (b ∷ t) = false
bytes_eq (a ∷ s) [] = false
bytes_eq (a ∷ s) (b ∷ t) = (a == b) && bytes_eq s t

-- `a < b`
unfoldable pub bytes_lt : Bytes → Bytes → Bool
bytes_lt s [] = false
bytes_lt [] (b ∷ t) = true
bytes_lt (a ∷ s) (b ∷ t) = ltb a b || ((a == b) && bytes_lt s t)

-- `s.find(c) != npos`
unfoldable pub contains : ℕ → Bytes → Bool
contains c [] = false
contains c (b ∷ s) = (b == c) || contains c s

abbrev pub Lacks : ℕ → Bytes → Type 0
Lacks c = All (λ b. b ≢ c)

pub bytes_eq_iff : (s t : Bytes) → (bytes_eq s t ≡ true) ↔ (s ≡ t)
unfolding bytes_eq
bytes_eq_iff [] [] = (λ _. refl, λ _. refl)
bytes_eq_iff [] (b ∷ t) = (λ h. cc, λ h. cc)
bytes_eq_iff (a ∷ s) [] = (λ h. cc, λ h. cc)
bytes_eq_iff (a ∷ s) (b ∷ t) = ground (arith, bytes_eq_iff s t)

pub bytes_eq_refl : (s : Bytes) → bytes_eq s s ≡ true
bytes_eq_refl s = (bytes_eq_iff s s).1 refl

pub bytes_lt_prefix : (r s t : Bytes) → bytes_lt (r ++ s) (r ++ t) ≡ bytes_lt s t
unfolding bytes_lt
bytes_lt_prefix [] s t = refl
bytes_lt_prefix (a ∷ r) s t = ground (arith, bytes_lt_prefix r s t)

pub contains_iff : (c : ℕ) (s : Bytes) → (contains c s ≡ false) ↔ Lacks c s
unfolding contains
contains_iff c [] = (λ _. tt, λ _. refl)
contains_iff c (b ∷ s) = (
  λ h. (ground arith, (contains_iff c s).0 (ground arith)),
  λ h. ground (arith, (contains_iff c s).1 h.1, h.0),
)

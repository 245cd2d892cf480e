-- ===== src/Common/Lines.antt =====
-- `std::getline` with a delimiter, until the text ends.
use Prim.Native.Nat.{ℕ}
use mathlib.Core.Path.{◌≡◌, refl}
use mathlib.Core.Logic.{◌≢◌}
use mathlib.Core.Bool.{true, false}
use mathlib.Core.List.{List, [], ◌∷◌, ◌++◌, append-nil, append_assoc}
use native.Mathlib.Omega.{arith}
use janosh.Common.Tests.{◌==◌, ==_refl}
use janosh.Common.Text.{Bytes, Lacks}

-- The lines that `std::getline` gives: the last may lack its end, and is none if it is empty.
unfoldable pub getlines : ℕ → Bytes → Bytes → List Bytes
getlines delimiter [] [] = []
getlines delimiter (c ∷ line) [] = (c ∷ line) ∷ []
getlines delimiter line (c ∷ s) = elim (c == delimiter) [
  | true ↦ line ∷ getlines delimiter [] s
  | false ↦ getlines delimiter (line ++ c ∷ []) s
]

-- A line that ends, and one that goes on.
pub getlines_end :
    (d c : ℕ) (cur s : Bytes) → (c == d) ≡ true → getlines d cur (c ∷ s) ≡ cur ∷ getlines d [] s
unfolding getlines
getlines_end d c [] s e = ground arith
getlines_end d c (x ∷ cur) s e = ground arith

pub getlines_next :
    (d c : ℕ) (cur s : Bytes)
    → (c == d) ≡ false
    → getlines d cur (c ∷ s) ≡ getlines d (cur ++ c ∷ []) s
unfolding getlines
getlines_next d c [] s e = ground arith
getlines_next d c (x ∷ cur) s e = ground arith

pub getlines-delimiter :
    (d : ℕ) (line cur rest : Bytes)
    → Lacks d line
    → getlines d cur (line ++ d ∷ rest) ≡ (cur ++ line) ∷ getlines d [] rest
unfolding getlines
getlines-delimiter d [] [] rest lacks = ground (arith, ==_refl d)
getlines-delimiter d [] (x ∷ cur) rest lacks = ground (arith, ==_refl d, append-nil (x ∷ cur))
getlines-delimiter d (c ∷ line) [] rest lacks =
    ground (arith, getlines-delimiter d line (c ∷ []) rest lacks.1, lacks.0)
getlines-delimiter d (c ∷ line) (x ∷ cur) rest lacks = ground (
  arith,
  getlines-delimiter d line ((x ∷ cur) ++ c ∷ []) rest lacks.1,
  lacks.0,
  append_assoc (x ∷ cur) (c ∷ []) line,
)

pub getlines_last :
    (d : ℕ) (line cur : Bytes)
    → Lacks d line
    → cur ++ line ≢ []
    → getlines d cur line ≡ (cur ++ line) ∷ []
unfolding getlines
getlines_last d [] [] lacks some_text = absurd (some_text refl)
getlines_last d [] (x ∷ cur) lacks some_text = rw (append-nil (x ∷ cur)) refl
getlines_last d (c ∷ line) [] lacks some_text =
    ground (arith, getlines_last d line (c ∷ []) lacks.1, lacks.0)
getlines_last d (c ∷ line) (x ∷ cur) lacks some_text = ground (
  arith,
  getlines_last d line ((x ∷ cur) ++ c ∷ []) lacks.1,
  lacks.0,
  append_assoc (x ∷ cur) (c ∷ []) line,
)

-- What follows a line's end is read by itself.
pub getlines-append :
    (d : ℕ) (text cur rest : Bytes)
    → getlines d cur ((text ++ d ∷ []) ++ rest)
      ≡ getlines d cur (text ++ d ∷ []) ++ getlines d [] rest
unfolding getlines
getlines-append d [] [] rest = ground (arith, ==_refl d)
getlines-append d [] (x ∷ cur) rest = ground (arith, ==_refl d)
getlines-append d (c ∷ text) [] rest =
    ground (arith, getlines-append d text (c ∷ []) rest, getlines-append d text [] rest)
getlines-append d (c ∷ text) (x ∷ cur) rest =
    ground
      (arith, getlines-append d text ((x ∷ cur) ++ c ∷ []) rest, getlines-append d text [] rest)

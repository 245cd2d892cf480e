-- ===== src/Main/Macros.antt =====
-- The loop of `main` over the options `define`, each with a name and a value for Lua.
use janosh.Common.{◌≡◌, refl, ◌∷◌, ◌++◌, List, [], Option, none, some, Bytes, codes, Lacks}
use janosh.Path.Tokens.{tokenize, tokenize-pair}

-- A macro without a value is "1"; a text with several signs is logged, and skipped.
unfoldable pub macro_of : List Bytes → Option (Bytes × Bytes)
macro_of (name ∷ []) = some (name, codes "1")
macro_of (name ∷ value ∷ []) = some (name, value)
macro_of _ = none

abbrev with_macro : Option (Bytes × Bytes) → List (Bytes × Bytes) → List (Bytes × Bytes)
with_macro none ms = ms
with_macro (some m) ms = m ∷ ms

-- The tokenizer of Boost with `keep_empty_tokens` gives the texts between the signs, as `tokenize`
-- does.
unfoldable pub macros_of : List Bytes → List (Bytes × Bytes)
unfolding macro_of
macros_of [] = []
macros_of (s ∷ rest) = with_macro (macro_of (tokenize s b'=')) (macros_of rest)

-- A macro
pub macros_of-define :
    (name value : Bytes) (rest : List Bytes)
    → Lacks b'=' name
    → Lacks b'=' value
    → macros_of ((name ++ b'=' ∷ value) ∷ rest) ≡ (name, value) ∷ macros_of rest
unfolding macros_of
macros_of-define name value rest l m = rw (tokenize-pair b'=' name value l m) refl

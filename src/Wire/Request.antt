-- ===== src/Wire/Request.antt =====
-- request.hpp, and how the arguments of the command line and of Lua calls become values (the end of
-- `main` in janosh.cpp, and `make_request` of lua_script.cpp).
use janosh.Common.{
  ℕ, ◌-◌, ◌%◌, ◌^◌, ◌+◌, Bool, true, false, List, [], ◌∷◌, ◌++◌, Bytes, codes, ◌==◌, ◌&&◌, ◌||◌,
  leb, length, take, bytes_eq, if◌then◌else◌,
}
use janosh.Result.{Result, ok, ◌>>=◌}
use janosh.Component.{LexicalCast}
use janosh.Value
use janosh.Value.{Value, string, number, boolean}
use janosh.Print.Visitors.{Format, bash, json, raw}

pub record Request : Type 0 where
  pub format : Format
  pub command : Bytes
  pub args : List Value
  pub triggers : Bool
  pub verbose : Bool
  pub info : Bytes

abbrev pub is_digit : ℕ → Bool
is_digit c = leb b'0' c && leb c b'9'

-- `is_number` of janosh.cpp, for the command line.
unfoldable pub all_digits : Bytes → Bool
all_digits [] = true
all_digits (c ∷ s) = is_digit c && all_digits s

unfoldable pub is_digits : Bytes → Bool
unfolding all_digits
is_digits [] = false
is_digits (c ∷ s) = all_digits (c ∷ s)

-- `is_number` of lua_script.cpp, which allows dots.
unfoldable pub all_number : Bytes → Bool
all_number [] = true
all_number (c ∷ s) = ((c == b'.') || is_digit c) && all_number s

unfoldable pub is_number : Bytes → Bool
unfolding all_number
is_number [] = false
is_number (c ∷ s) = all_number (c ∷ s)

module _ ⦃cast : LexicalCast⦄ (numeric : Bytes → Bool) where
  -- The type of an argument; one that begins with a quote loses it and its last character.
  unfoldable pub typed : Bytes → Result Value
  typed [] = Value.of_type [] string
  typed (c ∷ s) =
      if c == b'"'
      then Value.of_type (take ((length (c ∷ s) + 2 ^ 64 - 2) % 2 ^ 64) s) string
      else if numeric (c ∷ s)
      then Value.of_type (c ∷ s) number
      else if bytes_eq (c ∷ s) (codes "true") || bytes_eq (c ∷ s) (codes "false")
      then Value.of_type (c ∷ s) boolean
      else Value.of_type (c ∷ s) string

  unfoldable pub typed_all : List Bytes → Result (List Value)
  unfolding typed
  typed_all [] = ok []
  typed_all (s ∷ rest) = do v ← typed s; vs ← typed_all rest; ok (v ∷ vs)

-- The loop over arguments in `reconstructCommandLine`.
unfoldable pub quoted_args : Bool → List Value → Result Bytes
quoted_args first [] = ok []
quoted_args first (v ∷ rest) = do
  s ← Value.str v
  more ← quoted_args false rest
  ok ((if first then [] else codes " ") ++ b'"' ∷ (s ++ b'"' ∷ more))

abbrev pub format_flag : Format → Bytes
format_flag bash = codes "-b "
format_flag json = codes "-j "
format_flag raw = codes "-r "

abbrev pub end_of_args : List Value → Bytes
end_of_args [] = []
end_of_args (v ∷ rest) = codes " "

-- `reconstructCommandLine`
unfoldable pub command_line : Request → Result Bytes
unfolding quoted_args
command_line r = do
  args ← quoted_args true r.args
  ok (
      codes "janosh "
      ++ (if r.verbose then codes "-v " else [])
      ++ format_flag r.format
      ++ (if r.triggers then codes "-t " else [])
      ++ r.command
      ++ codes " "
      ++ args
      ++ end_of_args r.args)

-- ===== src/Print/Visitors.antt =====
-- print_visitor.hpp, json.cpp, bash.cpp and raw.cpp: what each visitor prints for an event of a walk.
use janosh.Common.{ℕ, Bool, true, false, List, [], ◌∷◌, ◌++◌, Bytes, codes, ◌==◌, if◌then◌else◌}
use janosh.Result.{Result, ok, ◌>>=◌}
use janosh.Path
use janosh.Path.{KeyPath}
use janosh.Value
use janosh.Value.{Value, ValueType, number, boolean}
use janosh.Print.Escape.{escape_json}

-- `enum Format`
pub data Format : Type 0 where
  bash json raw : Format

-- The calls of a visitor: the path, whether the container around is an array, and whether it is the
-- first there. The ends take a path too, which no visitor reads.
pub data Event : Type 0 where
  begin_array begin_object : KeyPath → Bool → Bool → Event
  end_array end_object : Event
  record_value : KeyPath → Value → Bool → Bool → Event

-- `std::replace`
unfoldable pub replace_char : ℕ → ℕ → Bytes → Bytes
replace_char old new [] = []
replace_char old new (c ∷ s) = (if c == old then new else c) ∷ replace_char old new s

-- `boost::algorithm::replace_all` of one character
unfoldable pub replace_all : ℕ → Bytes → Bytes → Bytes
replace_all old new [] = []
replace_all old new (c ∷ s) = (if c == old then new else c ∷ []) ++ replace_all old new s

abbrev pub newline : Bytes
newline = 10 ∷ []

abbrev pub quoted : Bytes → Bytes
quoted s = b'"' ∷ (s ++ b'"' ∷ [])

abbrev pub comma : Bool → Bytes
comma first = if first then [] else codes "," ++ newline

abbrev pub is_bare : ValueType → Bool
is_bare number = true
is_bare boolean = true
is_bare _ = false

abbrev pub json_name : KeyPath → Result Bytes
json_name p = escape_json (Path.name p).pretty

-- `beginArray` and `beginObject` of the JSON visitor, with their bracket.
abbrev pub json_begin : Bytes → KeyPath → Bool → Bool → Result Bytes
json_begin bracket p parent_is_array first = do
  name ← json_name p
  ok (
      comma first
      ++ ((if parent_is_array then bracket else quoted name ++ codes ": " ++ bracket)
          ++ codes " "
          ++ newline))

abbrev pub json_value : Value → Bytes → Bytes
json_value v text = if is_bare v.type then text else quoted text

unfoldable pub json_visit : Event → Result Bytes
json_visit (begin_array p parent_is_array first) = json_begin (codes "[") p parent_is_array first
json_visit (begin_object p parent_is_array first) = json_begin (codes "{") p parent_is_array first
json_visit end_array = ok (codes " ] " ++ newline)
json_visit end_object = ok (codes " } " ++ newline)
json_visit (record_value p v parent_is_array first) = do
  name ← json_name p
  s ← Value.str v
  escaped ← escape_json s
  let text = json_value v escaped
  ok (comma first ++ (if parent_is_array then text else quoted name ++ codes ":" ++ text))

-- What the Bash visitor makes of a value.
unfoldable pub bash_text : Bytes → Bytes
unfolding replace_char replace_all
bash_text s =
    replace_all b'\'' (codes "&#39;") (replace_all b'&' (codes "&#38;") (replace_char 10 b' ' s))

unfoldable pub bash_visit : Event → Result Bytes
unfolding bash_text
bash_visit (record_value p v array first) = do
  s ← Value.str v
  ok (b'[' ∷ (p.pretty_str ++ codes "]='" ++ bash_text s ++ codes "' "))
bash_visit event = ok []

unfoldable pub raw_visit : Event → Result Bytes
unfolding replace_char
raw_visit (record_value p v array first) = do
  s ← Value.str v
  ok (replace_char 10 b' ' s ++ newline)
raw_visit event = ok []

unfoldable pub visit : Format → Event → Result Bytes
visit bash = bash_visit
visit json = json_visit
visit raw = raw_visit

-- `begin` and `close`
unfoldable pub opening : Format → Bytes
opening bash = codes "( "
opening json = []
opening raw = []

unfoldable pub closing : Format → Bytes
closing bash = codes ")" ++ newline
closing json = []
closing raw = []

unfoldable pub visit_all : Format → List Event → Result Bytes
visit_all f [] = ok []
visit_all f (e ∷ es) = do s ← visit f e; t ← visit_all f es; ok (s ++ t)

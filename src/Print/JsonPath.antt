-- ===== src/Print/JsonPath.antt =====
-- `JsonPathVisitor` of jsoncons.cpp, which builds a document of the events of a walk.
use janosh.Common.{
  ℕ, zero, suc, Bool, List, [], ◌∷◌, ◌++◌, Option, none, some, Bytes, codes, bytes_eq,
  if◌then◌else◌,
}
use janosh.Result.{Result, ok, err, undefined_behaviour, ◌>>=◌}
use janosh.Path
use janosh.Path.{KeyPath}
use janosh.Value
use janosh.Value.{Value, ValueType, string, number, boolean}
use janosh.Print.Escape.{escape}
use janosh.Print.Visitors.{
  Event, begin_array, begin_object, end_array, end_object, record_value, newline,
}

-- What is put into a document.
pub data Item : Type 0 where
  empty_array empty_object : Item
  integer : ℕ → Item
  truth : Bool → Item
  text : Bytes → Item

-- What is called of jsoncons: a document, pointers to its parts, and `json_query`, whose results are
-- what `as<string>` makes of them. `std::stol` gives the word of a `long`.
pub record Jsoncons : Type 1 where
  pub Doc : Type 0
  pub Ref : Type 0
  pub new : Doc
  pub root : Ref
  pub is_array : Ref → Doc → Bool
  -- `push_back(item)`, `[name] = item`
  pub push_back : Ref → Item → Doc → Result Doc
  pub assign : Ref → Bytes → Item → Doc → Result Doc
  -- the last element, `at(name)`
  pub last : Ref → Doc → Ref
  pub at : Ref → Bytes → Doc → Result Ref
  pub json_query : Doc → Bytes → Result (List (Result Bytes))
  pub stol : Bytes → Result ℕ

module _ ⦃lib : Jsoncons⦄ where
  -- The document and what is open, the innermost first.
  pub record Visitor : Type 0 where
    pub doc : lib.Doc
    pub hierarchy : List lib.Ref

  -- `JsonPathVisitor(out)`
  abbrev pub new_visitor : Visitor
  new_visitor = record { doc = lib.new; hierarchy = lib.root ∷ [] }

  -- `hierachy_.top()`
  unfoldable pub top : Visitor → Result lib.Ref
  top v = elim v.hierarchy [ [] ↦ err undefined_behaviour | r ∷ rest ↦ ok r ]

  -- `beginArray` and `beginObject`, with the empty container.
  unfoldable pub begin : Item → KeyPath → Visitor → Result Visitor
  unfolding top
  begin item p v = do
    r ← top v
    let name = escape (Path.name p).pretty
    if lib.is_array r v.doc
        then (do
          doc ← lib.push_back r item v.doc
          ok (record { doc = doc; hierarchy = lib.last r doc ∷ v.hierarchy }))
        else (do
          doc ← lib.assign r name item v.doc
          inner ← lib.at r name doc
          ok (record { doc = doc; hierarchy = inner ∷ v.hierarchy }))

  -- `hierachy_.pop()`
  unfoldable pub end_container : Visitor → Result Visitor
  end_container v = elim v.hierarchy [
    | [] ↦ err undefined_behaviour
    | r ∷ rest ↦ ok (record v { hierarchy = rest })
  ]

  -- The item of a value; values of other types are left out.
  unfoldable pub item_of : ValueType → Bytes → Result (Option Item)
  item_of number s = do n ← lib.stol s; ok (some (integer n))
  item_of boolean s = ok (some (truth (bytes_eq s (codes "true"))))
  item_of string s = ok (some (text s))
  item_of _ s = ok none

  unfoldable pub put_item : Bool → Bytes → Option Item → Visitor → Result Visitor
  unfolding top
  put_item parent_is_array name none v = ok v
  put_item parent_is_array name (some item) v = do
    r ← top v
    doc ← (if parent_is_array then lib.push_back r item v.doc else lib.assign r name item v.doc)
    ok (record v { doc = doc })

  unfoldable pub visit_path : Event → Visitor → Result Visitor
  unfolding begin end_container item_of put_item
  visit_path (begin_array p parent_is_array first) v = begin empty_array p v
  visit_path (begin_object p parent_is_array first) v = begin empty_object p v
  visit_path end_array v = end_container v
  visit_path end_object v = end_container v
  visit_path (record_value p value parent_is_array first) v = do
    s ← Value.str value
    item ← item_of value.type (escape s)
    put_item parent_is_array (escape (Path.name p).pretty) item v

  unfoldable pub visit_path_all : List Event → Visitor → Result Visitor
  unfolding visit_path
  visit_path_all [] v = ok v
  visit_path_all (e ∷ es) v = do w ← visit_path e v; visit_path_all es w

  -- The lines of results, each of which may be no text.
  unfoldable pub result_lines : List (Result Bytes) → Result Bytes
  result_lines [] = ok []
  result_lines (r ∷ rest) = do s ← r; more ← result_lines rest; ok (s ++ newline ++ more)

  unfoldable pub result_at : ℕ → List (Result Bytes) → Result Bytes
  result_at i [] = err undefined_behaviour
  result_at zero (r ∷ rest) = r
  result_at (suc i) (r ∷ rest) = result_at i rest

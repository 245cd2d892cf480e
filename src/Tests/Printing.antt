-- ===== src/Tests/Printing.antt =====
-- Printed trees.
use janosh.Common.{
  ◌≡◌, refl, true, false, List, [], ◌∷◌, none, some, codes, contains, bytes_eq, Bytes, arith, inl,
  inr,
}
use janosh.Result.{ok, err, undefined_behaviour}
use janosh.Component.{LexicalCast}
use janosh.Component
use janosh.Path
use janosh.Decimal.RoundTrip.{decimal}
use janosh.Value
use janosh.Value.{Value}
use janosh.Value.Stored.{of_stored}
use janosh.Tracker
use janosh.Remote.{RemoteDb, World, announce}
use janosh.Record
use janosh.Record.{Record}
use janosh.Record.Methods
use janosh.Print.Escape.{
  escape_json, escape_char, escape, stream_char, read_string, plain, read_string-escape_json,
}
use janosh.Print.JsonPath.{
  Jsoncons, Item, Visitor, visit_path, visit_path_all, put_item, item_of, top,
}
use janosh.Print.Filter.{build, build_each}
use janosh.Print.Document.{build-root}
use janosh.Print.Visitors.{json, Event, record_value}
use janosh.Print.Walk
use janosh.Print.Walk.{recurse}
use janosh.Print.Balance.{after_events}
use janosh.Print.Recurse.{recurse-Balanced}

read_string-escape_json_example :
    (t : Bytes) × (escape_json (codes "a\"\n") ≡ ok t)
    × (escape (codes "a\"\n") ≡ t)
    × (read_string plain t ≡ some (codes "a\"\n"))
read_string-escape_json_example =
    read_string-escape_json (codes "a\"\n")
      (inl (omega arith), (inl (omega arith), (inr (inr (inr (inl refl))), tt)))

-- The code of another control character does not fit into the buffer.
escape_bell : escape_json (7 ∷ []) ≡ err undefined_behaviour
unfolding escape_json escape_char
escape_bell = refl

escape_quote : escape_json (codes "a\"\n") ≡ ok (codes "a\\\"\\n")
unfolding escape_json escape_char
escape_quote = refl

-- A server whose cursors all stand at the last of its records, the value x at "/a".
abbrev single : RemoteDb
single = record {
  Db = Unit {0};
  cursor = λ db. (0, db);
  jump = λ c k db. (true, db);
  step = λ c db. (false, db);
  step_back = λ c db. (false, db);
  jump_back = λ c k db. (true, db);
  jump_first = λ c db. (true, db);
  get_key = λ c db. some (codes "/a");
  get_value = λ c db. some (codes "sx");
  get = λ c db. some (codes "/a", codes "sx");
  get_step = λ c db. (none, db);
  set_value = λ c v db. (true, db);
  remove = λ c db. (true, db);
  add = λ k v db. (true, db);
  replace = λ k v db. (true, db);
  set = λ k v db. (true, db);
  clear = λ db. (true, db);
}

instance abbrev cast : LexicalCast
cast = decimal

instance abbrev remote : RemoteDb
remote = single

abbrev world : World
world = record { db = tt; tracker = Tracker.new; sent = [] }

abbrev start : Record
start = record {
  cursor = some 0;
  path = record Path.empty { directory = true };
  value = Value.uninitialized;
  does_exist = true;
}

abbrev single_path : Path.KeyPath
single_path = record {
  key_str = codes "/a";
  pretty_str = codes "/a";
  components = record { key = codes "a"; pretty = codes "a" } ∷ [];
  directory = false;
  wildcard = false;
}

abbrev printed : List Event
printed =
    record_value single_path
      (record { str_obj = codes "x"; type = Value.string; size = 1; initialized = true }) false true
    ∷ []

run_single : recurse 2 start false world ≡ (ok printed, world)
unfolding recurse Methods.read_record Path.update contains Path.update_tokens Path.tokenize
    Component.of_string of_stored Component.is_directory Component.is_wildcard Record.value_of
    Record.get_type Path.parent Path.base_path Path.is_empty Path.pop_only Path.push_member bytes_eq
    Component.equals Path.equals Path.from_end Path.name Path.read_components Path.rebuild
    Path.rebuild_from Walk.begin_visited Walk.directory_walk Walk.end_all Walk.end_left
    Walk.recurse_directory Walk.visit_record Walk.visited Methods.step Methods.take_value
    Tracker.update Value.initialize Value.of_type announce
run_single = refl

recurse-Balanced_example : after_events printed [] ≡ some []
recurse-Balanced_example = recurse-Balanced 2 start false world run_single

-- A document as the list of the items that were put into it.
abbrev items : Jsoncons
items = record {
  Doc = List Item;
  Ref = Unit {0};
  new = [];
  root = tt;
  is_array = λ r d. false;
  push_back = λ r i d. ok (i ∷ d);
  assign = λ r n i d. ok (i ∷ d);
  last = λ r d. tt;
  at = λ r n d. ok tt;
  json_query = λ d e. ok [];
  stol = λ s. ok 0;
}

instance abbrev lib : Jsoncons
lib = items

abbrev read_before : Record
read_before = record start {
  value = record { str_obj = codes "O1"; type = Value.object; size = 1; initialized = true };
}

abbrev document : Visitor
document = record { doc = Item.text (codes "x") ∷ []; hierarchy = tt ∷ [] }

build_single : build 2 json (read_before ∷ []) world ≡ (ok (document, []), world)
unfolding build build_each recurse Methods.read_record Path.update contains Path.update_tokens
    Path.tokenize Component.of_string of_stored Component.is_directory Component.is_wildcard
    Record.value_of Record.get_type Path.parent Path.base_path Path.is_empty Path.pop_only
    Path.push_member bytes_eq Component.equals Path.equals Path.from_end Path.name
    Path.read_components Path.rebuild Path.rebuild_from Walk.begin_visited Walk.directory_walk
    Walk.end_all Walk.end_left Walk.recurse_directory Walk.visit_record Walk.visited Methods.step
    Methods.take_value Tracker.update Value.initialize Value.of_type announce Methods.fetch
    Record.has_data visit_path_all visit_path put_item item_of escape stream_char top Value.str
build_single = refl

build-root_example : document.hierarchy ≡ tt ∷ []
build-root_example = build-root 2 json (read_before ∷ []) world build_single

-- A value is put into the document in its escaped form.
escaped_item : item_of Value.string (escape (codes "\"")) ≡ ok (some (Item.text (codes "\\\"")))
unfolding item_of escape stream_char
escaped_item = refl

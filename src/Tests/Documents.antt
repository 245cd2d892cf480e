-- ===== src/Tests/Documents.antt =====
-- Loading the document {"a": ["x", true]} into an empty database.
use janosh.Common.{◌%◌, ◌^◌, List, [], ◌∷◌, true, refl, Bytes, codes, arith}
use janosh.Decimal.RoundTrip.{decimal}
use janosh.Component.{LexicalCast, of_string}
use janosh.Component.Order.{index}
use janosh.Path.Compile.{compiled}
use janosh.Path.Algebra.{dot}
use janosh.Value.{array, object, string, boolean}
use janosh.Value.Stored.{descriptor}
use janosh.Tracker
use janosh.Json
use janosh.Json.{Json, JsonSpirit}
use janosh.Remote.{RemoteDb, World}
use janosh.Record.Outcome.{Ends}
use janosh.Database.Load.{load_json}
use janosh.Database.Load.Flat.{
  value, write_all, visits_of, Flat, scalar, whole_array, whole_object, no_item, an_item, no_field,
  a_field,
}
use janosh.Database.Load.Writes.{load_json-Ends}
use janosh.Tests.Server.{lookup, listed, listed-IsMap, view-listed}
use janosh.Tests.Samples.{a}

instance abbrev cast : LexicalCast
cast = decimal

instance abbrev remote : RemoteDb
remote = listed

instance abbrev spirit : JsonSpirit
spirit = record { get_int = λ i. i % 2 ^ 32 }

abbrev document : Json
document = Json.object (
    Json.field (codes "a")
      (Json.array (Json.item (Json.text (codes "x")) (Json.item (Json.boolean true) Json.no_items)))
      Json.no_fields)

abbrev document_records : List (Bytes × Bytes)
document_records =
    ((compiled (dot ∷ [])).key_str, descriptor object 1)
    ∷ ((compiled (a ∷ dot ∷ [])).key_str, descriptor array 2)
    ∷ ((compiled (a ∷ index 0 ∷ [])).key_str, codes "sx")
    ∷ ((compiled (a ∷ index 1 ∷ [])).key_str, codes "b1")
    ∷ []

document-Flat : Flat [] (value document) document_records
unfolding of_string
document-Flat = whole_object (omega arith) (
    a_field a refl (omega arith, tt)
      (whole_array (omega arith) (
        an_item (omega arith) (scalar (Json.text (codes "x")) string (codes "x") refl)
          (an_item (omega arith) (scalar (Json.boolean true) boolean (codes "1") refl) no_item)))
      no_field)

abbrev bare : World
bare = record { db = record { records = []; places = [] }; tracker = Tracker.new; sent = [] }

load_json-Ends_example :
    Ends listed-IsMap
      (load_json document)
      bare
      (visits_of document % 2 ^ 64)
      (write_all (lookup []) document_records)
load_json-Ends_example =
    load_json-Ends listed-IsMap document document_records bare (lookup []) (view-listed bare.db)
      document-Flat

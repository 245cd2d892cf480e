-- ===== src/Tests/Records.antt =====
-- The theorems on records and containers for an array of one member.
use janosh.Common.{List, ◌+◌, ◌∷◌, [], codes, arith, length}
use janosh.Decimal.RoundTrip.{decimal}
use janosh.Component.{LexicalCast}
use janosh.Value.{array}
use janosh.Value.Stored.{descriptor}
use janosh.Remote.{RemoteDb, update}
use janosh.Record.Fetch.{opened}
use janosh.Record.Outcome.{Ends}
use janosh.Database.{append_values}
use janosh.Database.Appends.{done, one, append_values-Ends}
use janosh.Tests.Server.{lookup, listed, listed-IsMap, view-listed}
use janosh.Tests.Samples.{array_dir, slot, with_index-slot}
use janosh.Record.{Record}
use janosh.Record.Walks.{get_parents}
use janosh.Record.Parents.{get_parents-Ends}
use janosh.Tests.Samples.{slot-IsPlain}
use janosh.Tests.Array.{before, world, one_member, text_y, text_y_stored, slot_1_free}

instance abbrev cast : LexicalCast
cast = decimal

instance abbrev remote : RemoteDb
remote = listed

append_values-Ends_example :
    Ends listed-IsMap
      (append_values (text_y ∷ []) (opened 0 array_dir))
      (world before)
      (length (text_y ∷ []))
      (update
        (update (lookup before) (slot 1).key_str (codes "sy"))
        array_dir.key_str
        (descriptor array (1 + length (text_y ∷ []))))
append_values-Ends_example =
    append_values-Ends listed-IsMap 0 array_dir 1 (text_y ∷ []) (world before) (lookup before)
      (update (lookup before) (slot 1).key_str (codes "sy")) (view-listed (world before).db)
      one_member (omega arith)
      (one (slot 1) (codes "sy") (with_index-slot 1 (omega arith)) text_y_stored slot_1_free done)

get_parents-Ends_example :
    (rs : List Record) × Ends listed-IsMap
      (get_parents 3 (opened 0 (slot 1)))
      (world before)
      rs
      (lookup before)
get_parents-Ends_example =
    get_parents-Ends listed-IsMap 3 0 (slot 1) (world before) (lookup before)
      (view-listed (world before).db) (slot-IsPlain 1 (omega arith)) (omega arith)

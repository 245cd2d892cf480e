-- ===== src/Tests/Values.antt =====
-- The theorems on `add`, `replace` and `set` for an array of one member.
use janosh.Common.{◌+◌, ◌%◌, ◌^◌, refl, codes, arith}
use janosh.Decimal.RoundTrip.{decimal}
use janosh.Component
use janosh.Component.{LexicalCast}
use janosh.Value.{array}
use janosh.Value.Stored.{descriptor}
use janosh.Remote.{RemoteDb, update}
use janosh.Record.Fetch.{opened}
use janosh.Record.Outcome.{Ends}
use janosh.Database.{add, replace, set}
use janosh.Database.Values.{add_new, add_old}
use janosh.Database.Replaces.{replace_old}
use janosh.Database.Sets.{set_new, set_old}
use janosh.Tests.Server.{lookup, listed, listed-IsMap, view-listed}
use janosh.Tests.Samples.{array_dir, slot}
use janosh.Tests.Array.{
  before, before-IsReadable, world, text_y, text_x, text_y_stored, text_x_read, slot-IsPlace,
  slot_1_free, slot_0_there,
}

instance abbrev cast : LexicalCast
cast = decimal

instance abbrev remote : RemoteDb
remote = listed

add_new_example : Ends listed-IsMap (add (opened 0 (slot 1)) text_y) (world before) 1 (
    update
      (update (lookup before) (slot 1).key_str (codes "sy"))
      array_dir.key_str
      (descriptor array ((1 + 1) % 2 ^ 64)))
add_new_example =
    add_new listed-IsMap 0 (slot 1) array_dir array 1 text_y (codes "sy") (world before)
      (lookup before) (view-listed (world before).db) (slot-IsPlace 1 (omega arith))
      before-IsReadable slot_1_free text_y_stored

set_new_example : Ends listed-IsMap (set (opened 0 (slot 1)) text_y) (world before) 1 (
    update
      (update (lookup before) (slot 1).key_str (codes "sy"))
      array_dir.key_str
      (descriptor array ((1 + 1) % 2 ^ 64)))
set_new_example =
    set_new listed-IsMap 0 (slot 1) array_dir array 1 text_y (codes "sy") (world before)
      (lookup before) (view-listed (world before).db) (slot-IsPlace 1 (omega arith))
      before-IsReadable slot_1_free text_y_stored

add_old_example :
    Ends listed-IsMap (add (opened 0 (slot 0)) text_y) (world before) 0 (lookup before)
unfolding Component.is_directory Component.is_wildcard
add_old_example =
    add_old listed-IsMap 0 (slot 0) array_dir array 1 text_y text_x (codes "sy") (codes "sx")
      (world before) (lookup before) (view-listed (world before).db) (slot-IsPlace 0 (omega arith))
      slot_0_there text_x_read text_y_stored

replace_old_example :
    Ends listed-IsMap
      (replace (opened 0 (slot 0)) text_y)
      (world before)
      1
      (update (lookup before) (slot 0).key_str (codes "sy"))
unfolding Component.is_directory Component.is_wildcard
replace_old_example =
    replace_old listed-IsMap 0 (slot 0) array_dir array 1 text_y text_x (codes "sy") (codes "sx")
      (world before) (lookup before) (view-listed (world before).db) (slot-IsPlace 0 (omega arith))
      slot_0_there text_x_read refl text_y_stored

set_old_example :
    Ends listed-IsMap
      (set (opened 0 (slot 0)) text_y)
      (world before)
      1
      (update (lookup before) (slot 0).key_str (codes "sy"))
unfolding Component.is_directory Component.is_wildcard
set_old_example =
    set_old listed-IsMap 0 (slot 0) array_dir array 1 text_y text_x (codes "sy") (codes "sx")
      (world before) (lookup before) (view-listed (world before).db) (slot-IsPlace 0 (omega arith))
      slot_0_there text_x_read refl text_y_stored

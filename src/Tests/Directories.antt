-- ===== src/Tests/Directories.antt =====
-- The theorems on new containers for an array of one member.
use janosh.Common.{◌+◌, ◌%◌, ◌^◌, ◌∷◌, [], ◌≡◌, refl, none, bytes_eq, codes, arith}
use janosh.Result.{ok}
use janosh.Decimal.RoundTrip.{decimal}
use janosh.Component
use janosh.Component.{LexicalCast}
use janosh.Value.{array}
use janosh.Value.Stored.{descriptor}
use janosh.Remote.{RemoteDb, update}
use janosh.Record.Fetch.{opened}
use janosh.Record.Outcome.{Ends}
use janosh.Tests.Server.{lookup, listed, listed-IsMap, view-listed}
use janosh.Tests.Samples.{array_dir, slot}
use janosh.Tests.Array.{before, before-IsReadable, world, slot_1_free}
use janosh.Path.Algebra.{dot, base_path-compiled, compiled-IsPlain, IsPlain}
use janosh.Path.Compile.{compiled}
use janosh.Path.Family.{parent-compiled, dot-HasKey, dot-IsCanonical, index-HasKey}
use janosh.Component.Order.{index, of_string-index_key}
use janosh.Component
use janosh.Component.Bits.{key_encode_index}
use janosh.Value.{object}
use janosh.Path
use janosh.Path.{KeyPath}
use janosh.Record.Fetch.{IsSingle}
use janosh.Database.{make_directory, truncate}
use janosh.Database.Directories.{IsFree, make_array-new, truncate-Ends}
use janosh.Database.Containers.{in_array}
use janosh.Tests.Samples.{a, a-HasKey, a-IsCanonical, slot-IsPlain}
use janosh.Tests.Array.{slot-IsSingle, slot_1_free, one_member}

instance abbrev cast : LexicalCast
cast = decimal

instance abbrev remote : RemoteDb
remote = listed

-- The directory at the index 1.
abbrev slot_dir : KeyPath
slot_dir = compiled (a ∷ index 1 ∷ dot ∷ [])

slot_dir-IsPlain : IsPlain slot_dir
slot_dir-IsPlain =
    compiled-IsPlain (a ∷ index 1 ∷ dot ∷ [])
      (a-HasKey, (index-HasKey 1 (omega arith), (dot-HasKey, tt)))
      (a-IsCanonical, (of_string-index_key 1 (omega arith), (dot-IsCanonical, tt)))

slot_dir-IsSingle : IsSingle slot_dir
unfolding Path.is_root Path.is_empty Component.is_wildcard
slot_dir-IsSingle = record {
  plain = slot_dir-IsPlain;
  no_wildcard = refl;
  root_key = λ h. cc;
  no_empty = refl;
}

slot_dir_base : Path.base_path slot_dir ≡ ok (slot 1)
unfolding Component.is_directory Component.is_wildcard
slot_dir_base = base_path-compiled slot_dir slot_dir-IsPlain.well_formed

slot_dir-parent : Path.parent slot_dir ≡ ok array_dir
unfolding Component.is_directory Component.is_wildcard
slot_dir-parent = parent-compiled slot_dir slot_dir-IsPlain

slot_dir_index : Path.parse_index slot_dir ≡ ok 1
unfolding Path.parse_index Path.name Path.from_end decimal Component.is_directory
slot_dir_index = refl

slot_dir-IsFree : IsFree slot_dir (slot 1) array_dir array 1 (lookup before)
unfolding Path.is_root Component.is_directory key_encode_index bytes_eq
slot_dir-IsFree = record {
  single = slot_dir-IsSingle;
  is_directory = refl;
  no_root = refl;
  gone = refl;
  base = slot_dir_base;
  base_single = slot-IsSingle 1 (slot-IsPlain 1 (omega arith));
  base_no_root = refl;
  base_gone = slot_1_free;
  up = slot_dir-parent;
  has_container = one_member;
  has_room = in_array 1 slot_dir_index (omega arith);
  apart = λ e. cc;
}

make_array-new_example :
    Ends listed-IsMap (make_directory (opened 0 slot_dir) array 0) (world before) 1 (
      update
        (update (lookup before) array_dir.key_str (descriptor array ((1 + 1) % 2 ^ 64)))
        slot_dir.key_str
        (descriptor array 0))
make_array-new_example =
    make_array-new listed-IsMap 0 slot_dir (slot 1) array_dir array 1 0 (world before)
      (lookup before) (view-listed (world before).db) slot_dir-IsFree before-IsReadable

truncate-Ends_example :
    Ends listed-IsMap truncate
      (world before)
      1
      (update (λ k. none) (codes "/!") (descriptor object 0))
truncate-Ends_example = truncate-Ends listed-IsMap (world before)

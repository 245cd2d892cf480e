-- ===== src/Tests/Removes.antt =====
-- `remove` of the one member of an object.
use janosh.Common.{◌∷◌, [], ◌≡◌, true, refl, bytes_eq, codes, arith}
use janosh.Result.{ok}
use janosh.Decimal.RoundTrip.{decimal}
use janosh.Component
use janosh.Component.{LexicalCast}
use janosh.Path
use janosh.Path.{KeyPath}
use janosh.Remote.{RemoteDb, update}
use janosh.Record.Fetch.{opened, IsSingle, IsReadable}
use janosh.Record.Outcome.{Ends}
use janosh.Tests.Server.{Records, lookup, listed, listed-IsMap, view-listed}
use janosh.Tests.Samples.{array_dir, member, member-IsPlain, parent-member, array_dir-IsPlain}
use janosh.Tests.Array.{
  lookup-IsReadable, root, root-IsPlain, reads_back, world, array_dir-IsSingle,
}
use janosh.Value.{string, object}
use janosh.Value
use janosh.Value.Stored.{descriptor}
use janosh.Remote.{forget}
use janosh.Record.{Record}
use janosh.Database.Removal.{remove}
use janosh.Database.Removes.{remove-member}
use janosh.Database.Containers.{HasContainer}
use janosh.Tests.Array.{text_x, text_x_read, array_dir-IsSingle}

instance abbrev cast : LexicalCast
cast = decimal

instance abbrev remote : RemoteDb
remote = listed

abbrev kept : Records
kept =
    (array_dir.key_str, codes "O1") ∷ (member.key_str, codes "sx") ∷ (root.key_str, codes "O1") ∷ []

kept-IsReadable : IsReadable (lookup kept)
kept-IsReadable = lookup-IsReadable kept (
  (array_dir, reads_back array_dir array_dir-IsPlain, refl),
  (
    (member, reads_back member member-IsPlain, refl),
    ((root, reads_back root root-IsPlain, refl), tt),
  ),
)

member-IsSingle : IsSingle member
unfolding Path.is_root Path.is_empty Component.is_wildcard
member-IsSingle = record {
  plain = member-IsPlain;
  no_wildcard = refl;
  root_key = λ h. cc;
  no_empty = refl;
}

one_field : HasContainer array_dir object 1 (lookup kept)
unfolding decimal Component.is_directory
one_field = record {
  single = array_dir-IsSingle;
  is_directory = refl;
  contains = refl;
  in_range = omega arith;
  stored = refl;
}

text_x_size : Value.get_size text_x ≡ ok 1
unfolding Value.get_size
text_x_size = refl

remove-member_example :
    (gone : Record) × Ends listed-IsMap
      (remove 1 true (opened 0 member))
      (world kept)
      (1, gone)
      (update (forget (lookup kept) member.key_str) array_dir.key_str (descriptor object 0))
unfolding Component.is_directory Component.is_wildcard bytes_eq
remove-member_example =
    remove-member listed-IsMap 0 true 0 member array_dir 1 (codes "sx") text_x (world kept)
      (lookup kept) (view-listed (world kept).db) member-IsSingle refl refl text_x_read refl
      text_x_size parent-member one_field (omega arith) (λ e. cc) kept-IsReadable

-- ===== src/Tests/Orphans.antt =====
-- `add` below a directory that is not there.
use janosh.Common.{◌∷◌, [], refl, codes}
use janosh.Result.{record_exception}
use janosh.Decimal.RoundTrip.{decimal}
use janosh.Component
use janosh.Component.{LexicalCast}
use janosh.Path
use janosh.Path.{KeyPath}
use janosh.Remote.{RemoteDb, update}
use janosh.Record.Fetch.{opened, IsSingle, IsReadable}
use janosh.Record.Outcome.{Throws}
use janosh.Database.{add}
use janosh.Database.Orphans.{add_orphan}
use janosh.Tests.Server.{Records, lookup, listed, listed-IsMap, view-listed}
use janosh.Tests.Samples.{array_dir, member, member-IsPlain, parent-member}
use janosh.Tests.Array.{
  lookup-IsReadable, root, root-IsPlain, reads_back, world, array_dir-IsSingle, text_y,
  text_y_stored,
}

instance abbrev cast : LexicalCast
cast = decimal

instance abbrev remote : RemoteDb
remote = listed

abbrev bare : Records
bare = (root.key_str, codes "O0") ∷ []

bare-IsReadable : IsReadable (lookup bare)
bare-IsReadable = lookup-IsReadable bare ((root, reads_back root root-IsPlain, refl), tt)

member-IsReadable : IsReadable (update (lookup bare) member.key_str (codes "sy"))
member-IsReadable = lookup-IsReadable ((member.key_str, codes "sy") ∷ bare) (
  (member, reads_back member member-IsPlain, refl),
  ((root, reads_back root root-IsPlain, refl), tt),
)

member-IsSingle : IsSingle member
unfolding Path.is_root Path.is_empty Component.is_wildcard
member-IsSingle = record {
  plain = member-IsPlain;
  no_wildcard = refl;
  root_key = λ h. cc;
  no_empty = refl;
}

add_orphan_example :
    Throws listed-IsMap
      (add (opened 0 member) text_y)
      (world bare)
      (record_exception "uninitialized record")
      (update (lookup bare) member.key_str (codes "sy"))
unfolding Component.is_directory Path.is_root
add_orphan_example =
    add_orphan listed-IsMap 0 member array_dir text_y (codes "sy") (world bare) (lookup bare)
      (view-listed (world bare).db) member-IsSingle array_dir-IsSingle refl refl refl parent-member
      (λ e. cc) member-IsReadable bare-IsReadable refl refl text_y_stored

-- ===== src/Database/Directories.antt =====
-- `makeArray`, `makeObject` and `truncate`: the records of new containers.
use janosh.Common.{ℕ, ◌+◌, ◌%◌, ◌^◌, true, false, ◌≡◌, ◌≢◌, ap, ◌∙◌, none, codes}
use janosh.Result.{ok}
use janosh.Component.{LexicalCast}
use janosh.Path
use janosh.Path.{KeyPath}
use janosh.Value.{ValueType, array, object}
use janosh.Value.Stored.{descriptor}
use janosh.Remote.{RemoteDb, IsMap, World, update}
use janosh.Record.Fetch.{opened, IsSingle, IsReadable}
use janosh.Record.Outcome.{
  View, Ends, called, announce-Ends, pool_get-Ends, parent-Ends, fetched-missing,
}
use janosh.Database.{free_directory, make_array, make_object, make_directory, truncate}
use janosh.Database.Containers.{
  HasContainer, HasRoom, absent, bounds_check-Ends, change_container_size-Ends,
}
use janosh.Database.Values.{update_other}

module _ ⦃cast : LexicalCast⦄ where
  -- A directory below the container `d` that can be made: it has no record, and neither has a value
  -- in its place.
  pub record IsFree (p b d : KeyPath) (t : ValueType) (n : ℕ) (f : View) : Type 0 where
    pub single : IsSingle p
    pub is_directory : p.directory ≡ true
    pub no_root : Path.is_root p ≡ false
    pub gone : f p.key_str ≡ none
    pub base : Path.base_path p ≡ ok b
    pub base_single : IsSingle b
    pub base_no_root : Path.is_root b ≡ false
    pub base_gone : f b.key_str ≡ none
    pub up : Path.parent p ≡ ok d
    pub has_container : HasContainer d t n f
    pub has_room : HasRoom p d t n
    pub apart : d.key_str ≢ p.key_str

module _ ⦃cast : LexicalCast⦄ ⦃remote : RemoteDb⦄ (laws : IsMap remote) where
  free_directory-Ends :
      (c : ℕ) (p b d : KeyPath) (t : ValueType) (n : ℕ) (w : World) (f : View)
      → laws.view w.db ≡ f
      → IsFree p b d t n f
      → IsReadable f
      → Ends laws (free_directory (opened c p)) w (opened c p) f
  unfolding free_directory
  free_directory-Ends c p b d t n w f hv free readable =
      let got = fetched-missing laws c p w f hv free.single free.no_root readable free.gone in
      let (e, made) = pool_get-Ends laws b got.after f got.view_after free.base_single.plain in
      let base =
        fetched-missing laws e b made.after f made.view_after free.base_single free.base_no_root
          readable free.base_gone in
      record {
        after = base.after;
        run = rw got.run (rw free.base (rw made.run (rw base.run (simp free.is_directory))));
        view_after = base.view_after;
      }

  -- From records that have neither the directory, which is not the root, nor a value in its place,
  -- and in which its parent is a container with room for it, all keys being key strings of paths,
  -- making an array returns 1, makes the parent's size one greater (modulo 2 ^ 64), stores the
  -- array with the given size, and changes no other record.
  pub make_array-new :
      (c : ℕ) (p b d : KeyPath) (t : ValueType) (n m : ℕ) (w : World) (f : View)
      → laws.view w.db ≡ f
      → IsFree p b d t n f
      → IsReadable f
      → Ends laws (make_directory (opened c p) array m) w 1 (
          update
            (update f d.key_str (descriptor t ((n + 1) % 2 ^ 64)))
            p.key_str
            (descriptor array m))
  unfolding make_directory make_array
  make_array-new c p b d t n m w f hv free readable =
      let start = free_directory-Ends c p b d t n w f hv free readable in
      let checked =
        bounds_check-Ends laws c p d t n start.after f start.view_after free.single
          (absent free.no_root readable free.gone) free.up free.has_container free.has_room in
      let (e, up) =
        parent-Ends laws (opened c p) d checked.after f checked.view_after free.up
          free.has_container.single.plain in
      let grown =
        change_container_size-Ends laws e d t n 1 up.after f up.view_after free.has_container in
      let f1 = update f d.key_str (descriptor t ((n + 1) % 2 ^ 64)) in
      let told =
        announce-Ends laws p.pretty_str (descriptor array m) grown.after f1 grown.view_after in
      let (new, wrote) = laws.add_new told.after.db p.key_str (descriptor array m) (
        ap (λ g. g p.key_str) told.view_after
        ∙ (update_other f d.key_str _ p.key_str free.apart ∙ free.gone)) in
      record {
        after = called laws (λ db. (remote.add p.key_str (descriptor array m) db).1) told.after;
        run = rw start.run (rw checked.run (rw up.run (rw grown.run (rw told.run (rw new)))));
        view_after = wrote ∙ ap (λ g. update g p.key_str (descriptor array m)) told.view_after;
      }

  -- From records that have neither the directory, which is not the root, nor a value in its place,
  -- and in which its parent is a container with room for it, all keys being key strings of paths,
  -- making an object returns 1, makes the parent's size one greater (modulo 2 ^ 64), stores the
  -- object with the given size, and changes no other record.
  pub make_object-new :
      (c : ℕ) (p b d : KeyPath) (t : ValueType) (n m : ℕ) (w : World) (f : View)
      → laws.view w.db ≡ f
      → IsFree p b d t n f
      → IsReadable f
      → Ends laws (make_directory (opened c p) object m) w 1 (
          update
            (update f d.key_str (descriptor t ((n + 1) % 2 ^ 64)))
            p.key_str
            (descriptor object m))
  unfolding make_directory make_object
  make_object-new c p b d t n m w f hv free readable =
      let start = free_directory-Ends c p b d t n w f hv free readable in
      let checked =
        bounds_check-Ends laws c p d t n start.after f start.view_after free.single
          (absent free.no_root readable free.gone) free.up free.has_container free.has_room in
      let (e, up) =
        parent-Ends laws (opened c p) d checked.after f checked.view_after free.up
          free.has_container.single.plain in
      let grown =
        change_container_size-Ends laws e d t n 1 up.after f up.view_after free.has_container in
      let f1 = update f d.key_str (descriptor t ((n + 1) % 2 ^ 64)) in
      let told =
        announce-Ends laws p.pretty_str (descriptor object m) grown.after f1 grown.view_after in
      let (new, wrote) = laws.add_new told.after.db p.key_str (descriptor object m) (
        ap (λ g. g p.key_str) told.view_after
        ∙ (update_other f d.key_str _ p.key_str free.apart ∙ free.gone)) in
      record {
        after = called laws (λ db. (remote.add p.key_str (descriptor object m) db).1) told.after;
        run =
            rw start.run
              (rw checked.run (rw free.no_root (rw up.run (rw grown.run (rw told.run (rw new))))));
        view_after = wrote ∙ ap (λ g. update g p.key_str (descriptor object m)) told.view_after;
      }

  -- `truncate` returns 1 and leaves exactly one record, that of an empty object at the root.
  pub truncate-Ends :
      (w : World) → Ends laws truncate w 1 (update (λ k. none) (codes "/!") (descriptor object 0))
  unfolding truncate
  truncate-Ends w =
      let (cleared, empty) = laws.clear_all w.db in
      let db = (remote.clear w.db).1 in
      let (new, wrote) =
        laws.add_new db (codes "/!") (descriptor object 0) (ap (λ g. g (codes "/!")) empty) in
      record {
        after = record w { db = (remote.add (codes "/!") (descriptor object 0) db).1 };
        run = rw cleared (rw new);
        view_after = wrote ∙ ap (λ g. update g (codes "/!") (descriptor object 0)) empty;
      }

-- ===== src/Database/Sets.antt =====
-- `set` of a value, which adds it or replaces the one that is there.
use janosh.Common.{ℕ, ◌+◌, ◌%◌, ◌^◌, true, ◌≡◌, none, some, Bytes}
use janosh.Result.{ok}
use janosh.Component.{LexicalCast}
use janosh.Path.{KeyPath}
use janosh.Value
use janosh.Value.{Value, ValueType, array, object}
use janosh.Value.Stored.{of_stored, descriptor}
use janosh.Remote.{RemoteDb, IsMap, World, update}
use janosh.Record.Fetch.{opened, found, IsReadable}
use janosh.Record.Outcome.{View, Ends, fetched-Found, fetched-missing}
use janosh.Database.{set}
use janosh.Database.Containers.{absent, present, bounds_check-Ends}
use janosh.Database.Values.{IsPlace, is_value_plain, add_new}
use janosh.Database.Replaces.{fetched_again, replace_fetched}

module _ ⦃cast : LexicalCast⦄ ⦃remote : RemoteDb⦄ (laws : IsMap remote) where
  -- From records in which a value's path has no record and its parent is a container with room for
  -- it, all keys being key strings of paths, `set` of a freshly opened record returns 1, stores the
  -- value's text under the path, makes the container's size one greater (modulo 2 ^ 64), and
  -- changes no other record.
  pub set_new :
      (c : ℕ) (p d : KeyPath) (t : ValueType) (n : ℕ) (x : Value) (s : Bytes) (w : World) (f : View)
      → laws.view w.db ≡ f
      → IsPlace p d t n f
      → IsReadable f
      → f p.key_str ≡ none
      → Value.make_db_string x ≡ ok s
      → Ends laws
          (set (opened c p) x)
          w
          1
          (update (update f p.key_str s) d.key_str (descriptor t ((n + 1) % 2 ^ 64)))
  unfolding set
  set_new c p d t n x s w f hv place readable gone text =
      let checked =
        bounds_check-Ends laws c p d t n w f hv place.single (absent place.no_root readable gone)
          place.up place.has_container place.has_room in
      let got =
        fetched-missing laws c p checked.after f checked.view_after place.single place.no_root
          readable gone in
      let done = add_new laws c p d t n x s got.after f got.view_after place readable gone text in
      record {
        after = done.after;
        run =
            rw (is_value_plain (opened c p) place.no_directory)
              (rw checked.run (rw got.run (rw done.run)));
        view_after = done.view_after;
      }

  -- If a value's path has a record that is read as an initialized value, and its parent is a
  -- container with room for it, `set` of a freshly opened record returns 1, replaces the text under
  -- the path, and changes no other record.
  pub set_old :
      (c : ℕ) (p d : KeyPath) (t : ValueType) (n : ℕ) (x y : Value) (s v : Bytes) (w : World)
      (f : View)
      → laws.view w.db ≡ f
      → IsPlace p d t n f
      → f p.key_str ≡ some v
      → of_stored p.directory p.wildcard Value.uninitialized v ≡ ok y
      → y.initialized ≡ true
      → Value.make_db_string x ≡ ok s
      → Ends laws (set (opened c p) x) w 1 (update f p.key_str s)
  unfolding set
  set_old c p d t n x y s v w f hv place here reads is_set text =
      let checked =
        bounds_check-Ends laws c p d t n w f hv place.single (present v y here reads) place.up
          place.has_container place.has_room in
      let got =
        (fetched-Found laws c p checked.after f v y checked.view_after place.single here
          reads).ends in
      let done =
        replace_fetched laws (found c p y) c p d t n x y s v got.after f got.view_after
          (fetched_again laws c p y got.after f got.view_after is_set) place here is_set text in
      record {
        after = done.after;
        run =
            rw (is_value_plain (opened c p) place.no_directory)
              (rw checked.run (rw got.run done.run));
        view_after = done.view_after;
      }

-- ===== src/Database/Replaces.antt =====
-- `replace` of a value, which needs a record that is there.
use janosh.Common.{ℕ, true, false, ◌≡◌, refl, ap, ◌∙◌, none, some, Bytes}
use janosh.Result.{ok, janosh_exception}
use janosh.Component.{LexicalCast}
use janosh.Path
use janosh.Path.{KeyPath}
use janosh.Value
use janosh.Value.{Value, ValueType, array, object}
use janosh.Value.Stored.{of_stored}
use janosh.Remote.{RemoteDb, IsMap, World, update}
use janosh.Record
use janosh.Record.{Record}
use janosh.Record.Methods.{fetched}
use janosh.Record.Fetch.{opened, found, IsSingle, IsReadable}
use janosh.Record.Outcome.{
  View, Ends, Throws, fetched-Found, fetched-missing, called, announce-Ends,
}
use janosh.Database.{replace}
use janosh.Database.Containers.{bounds_check-fetched}
use janosh.Database.Values.{IsPlace, is_value_plain}

module _ ⦃cast : LexicalCast⦄ ⦃remote : RemoteDb⦄ (laws : IsMap remote) where
  found-is_value :
      (c : ℕ) (p : KeyPath) (y : Value)
      → p.directory ≡ false
      → Record.is_value (found c p y) ≡ ok true
  unfolding Record.is_value
  found-is_value c p y h = simp h

  pub fetched_again :
      (c : ℕ) (p : KeyPath) (y : Value) (w : World) (f : View)
      → laws.view w.db ≡ f
      → y.initialized ≡ true
      → Ends laws (fetched (found c p y)) w (found c p y) f
  unfolding Record.Methods.fetch Record.has_data
  fetched_again c p y w f hv h = record { after = w; run = simp h; view_after = hv }

  -- `replace` of a record `r` that is fetched as the record of an existing value.
  pub replace_fetched :
      (r : Record) (c : ℕ) (p d : KeyPath) (t : ValueType) (n : ℕ) (x y : Value) (s v : Bytes)
      → (w : World) (f : View) → laws.view w.db ≡ f
      → Ends laws (fetched r) w (found c p y) f
      → IsPlace p d t n f
      → f p.key_str ≡ some v
      → y.initialized ≡ true
      → Value.make_db_string x ≡ ok s
      → Ends laws (replace r x) w 1 (update f p.key_str s)
  unfolding replace
  replace_fetched r c p d t n x y s v w f hv got place here is_set text =
      let checked =
        bounds_check-fetched laws (found c p y) (found c p y) p d t n got.after f got.view_after
          refl refl (λ w hv. fetched_again c p y w f hv is_set) place.up place.has_container
          place.has_room in
      let told = announce-Ends laws p.pretty_str s checked.after f checked.view_after in
      let (old, wrote) =
        laws.replace_old told.after.db p.key_str s v
          (ap (λ g. g p.key_str) told.view_after ∙ here) in
      record {
        after = called laws (λ db. (remote.replace p.key_str s db).1) told.after;
        run = rw got.run (
            rw (found-is_value c p y place.no_directory)
              (rw checked.run (rw text (rw told.run (rw old)))));
        view_after = wrote ∙ ap (λ g. update g p.key_str s) told.view_after;
      }

  -- If a value's path has a record that is read as an initialized value, and its parent is a
  -- container with room for it, `replace` of a freshly opened record returns 1, replaces the text
  -- under the path, and changes no other record.
  pub replace_old :
      (c : ℕ) (p d : KeyPath) (t : ValueType) (n : ℕ) (x y : Value) (s v : Bytes) (w : World)
      (f : View)
      → laws.view w.db ≡ f
      → IsPlace p d t n f
      → f p.key_str ≡ some v
      → of_stored p.directory p.wildcard Value.uninitialized v ≡ ok y
      → y.initialized ≡ true
      → Value.make_db_string x ≡ ok s
      → Ends laws (replace (opened c p) x) w 1 (update f p.key_str s)
  replace_old c p d t n x y s v w f hv place here reads is_set text =
      replace_fetched (opened c p) c p d t n x y s v w f hv
        (fetched-Found laws c p w f v y hv place.single here reads).ends place here is_set text

  -- If a path that is no directory and not the root has no record, and all keys are key strings of
  -- paths, `replace` of a freshly opened record throws janosh_exception and changes no record.
  pub replace_new :
      (c : ℕ) (p d : KeyPath) (t : ValueType) (n : ℕ) (x : Value) (w : World) (f : View)
      → laws.view w.db ≡ f
      → IsSingle p
      → p.directory ≡ false
      → Path.is_root p ≡ false
      → IsReadable f
      → f p.key_str ≡ none
      → Throws laws (replace (opened c p) x) w (janosh_exception "Invalid target") f
  unfolding replace
  replace_new c p d t n x w f hv single plain other readable gone =
      let got = fetched-missing laws c p w f hv single other readable gone in
      record {
        after = got.after;
        run = rw got.run (rw (is_value_plain (opened c p) plain));
        view_after = got.view_after;
      }

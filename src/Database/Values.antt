-- ===== src/Database/Values.antt =====
-- `add` of a value below its container.
use janosh.Common.{
  ℕ, ◌+◌, ◌%◌, ◌^◌, true, false, ◌≡◌, ◌≢◌, inl, inr, ap, ◌∙◌, none, some, Bytes, Bool-cases,
  bytes_eq, bytes_eq_iff,
}
use janosh.Result.{ok}
use janosh.Component.{LexicalCast}
use janosh.Path
use janosh.Path.{KeyPath}
use janosh.Value
use janosh.Value.{Value, ValueType, array, object}
use janosh.Value.Stored.{of_stored, descriptor}
use janosh.Remote.{RemoteDb, IsMap, World, update}
use janosh.Record
use janosh.Record.{Record}
use janosh.Record.Fetch.{opened, IsSingle, IsReadable}
use janosh.Record.Outcome.{View, Ends, parent-Ends, called, announce-Ends}
use janosh.Database.{add}
use janosh.Database.Containers.{
  HasContainer, HasRoom, absent, present, bounds_check-Ends, change_container_size-Ends,
}

module _ ⦃cast : LexicalCast⦄ where
  -- A path that can hold a value: it is no directory, and its parent is a container with room.
  pub record IsPlace (p d : KeyPath) (t : ValueType) (n : ℕ) (f : View) : Type 0 where
    pub single : IsSingle p
    pub no_directory : p.directory ≡ false
    pub no_root : Path.is_root p ≡ false
    pub up : Path.parent p ≡ ok d
    pub has_container : HasContainer d t n f
    pub has_room : HasRoom p d t n
    pub apart : p.key_str ≢ d.key_str

pub update_other : (f : View) (k v j : Bytes) → k ≢ j → update f k v j ≡ f j
update_other f k v j ne = elim (Bool-cases (bytes_eq k j)) [
  | inl e ↦ absurd (ne ((bytes_eq_iff k j).0 e))
  | inr e ↦ rw e
]

module _ ⦃cast : LexicalCast⦄ where
  pub HasContainer-update :
      (d : KeyPath) (t : ValueType) (n : ℕ) (f : View) (k v : Bytes)
      → k ≢ d.key_str
      → HasContainer d t n f
      → HasContainer d t n (update f k v)
  HasContainer-update d t n f k v ne h = record {
    single = h.single;
    is_directory = h.is_directory;
    contains = h.contains;
    in_range = h.in_range;
    stored = update_other f k v d.key_str ne ∙ h.stored;
  }

  pub is_value_plain : (r : Record) → r.path.directory ≡ false → Record.is_value r ≡ ok true
  unfolding Record.is_value
  is_value_plain r h = simp h

module _ ⦃cast : LexicalCast⦄ ⦃remote : RemoteDb⦄ (laws : IsMap remote) where
  -- From records in which a value's path has no record and its parent is a container with room for
  -- it, all keys being key strings of paths, `add` of a freshly opened record returns 1, stores the
  -- value's text, makes the container's size one greater (modulo 2 ^ 64), and changes no other
  -- record.
  pub add_new :
      (c : ℕ) (p d : KeyPath) (t : ValueType) (n : ℕ) (x : Value) (s : Bytes) (w : World) (f : View)
      → laws.view w.db ≡ f
      → IsPlace p d t n f
      → IsReadable f
      → f p.key_str ≡ none
      → Value.make_db_string x ≡ ok s
      → Ends laws
          (add (opened c p) x)
          w
          1
          (update (update f p.key_str s) d.key_str (descriptor t ((n + 1) % 2 ^ 64)))
  unfolding add
  add_new c p d t n x s w f hv place readable gone text =
      let checked =
        bounds_check-Ends laws c p d t n w f hv place.single (absent place.no_root readable gone)
          place.up place.has_container place.has_room in
      let told = announce-Ends laws p.pretty_str s checked.after f checked.view_after in
      let w2 = called laws (λ db. (remote.add p.key_str s db).1) told.after in
      let f2 = update f p.key_str s in
      let (new, wrote) =
        laws.add_new told.after.db p.key_str s (ap (λ g. g p.key_str) told.view_after ∙ gone) in
      let (e, up) =
        parent-Ends laws (opened c p) d w2 f2
          (wrote ∙ ap (λ g. update g p.key_str s) told.view_after) place.up
          place.has_container.single.plain in
      let grown =
        change_container_size-Ends laws e d t n 1 up.after f2 up.view_after
          (HasContainer-update d t n f p.key_str s place.apart place.has_container) in
      record {
        after = grown.after;
        run =
            rw (is_value_plain (opened c p) place.no_directory)
              (rw checked.run (rw text (rw told.run (rw new (rw up.run (rw grown.run))))));
        view_after = grown.view_after;
      }

  -- If a value's path has a record that is read as a value, and its parent is a container with room
  -- for it, `add` of a record that was opened but not fetched returns 0 and changes no record.
  pub add_old :
      (c : ℕ) (p d : KeyPath) (t : ValueType) (n : ℕ) (x y : Value) (s v : Bytes) (w : World)
      (f : View)
      → laws.view w.db ≡ f
      → IsPlace p d t n f
      → f p.key_str ≡ some v
      → of_stored p.directory p.wildcard Value.uninitialized v ≡ ok y
      → Value.make_db_string x ≡ ok s
      → Ends laws (add (opened c p) x) w 0 f
  unfolding add
  add_old c p d t n x y s v w f hv place here reads text =
      let checked =
        bounds_check-Ends laws c p d t n w f hv place.single (present v y here reads) place.up
          place.has_container place.has_room in
      let told = announce-Ends laws p.pretty_str s checked.after f checked.view_after in
      let (old, kept) =
        laws.add_old told.after.db p.key_str s v (ap (λ g. g p.key_str) told.view_after ∙ here) in
      record {
        after = called laws (λ db. (remote.add p.key_str s db).1) told.after;
        run =
            rw (is_value_plain (opened c p) place.no_directory)
              (rw checked.run (rw text (rw told.run (rw old))));
        view_after = kept ∙ told.view_after;
      }

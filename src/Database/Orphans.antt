-- ===== src/Database/Orphans.antt =====
-- `add` of a value below a directory that has no record.
use janosh.Common.{ℕ, true, false, ◌≡◌, ◌≢◌, inl, inr, ap, ◌∙◌, none, Bytes, arith, Bool-cases}
use janosh.Result.{ok, record_exception}
use janosh.Component.{LexicalCast}
use janosh.Path
use janosh.Path.{KeyPath}
use janosh.Value
use janosh.Value.{Value, ValueType, array, object}
use janosh.Remote.{RemoteDb, IsMap, World, update}
use janosh.Record
use janosh.Record.{Record}
use janosh.Record.Fetch.{opened, IsSingle, IsReadable}
use janosh.Record.Outcome.{View, Ends, Throws, fetched-missing, parent-Ends, called, announce-Ends}
use janosh.Database.{in_bounds, bounds_check, add}
use janosh.Database.Containers.{change_container_size-Throws}
use janosh.Database.Values.{update_other, is_value_plain}

module _ ⦃cast : LexicalCast⦄ ⦃remote : RemoteDb⦄ (laws : IsMap remote) where
  in_bounds_gone :
      (r : Record) (e : ℕ) (d : KeyPath) (w : World) → in_bounds r (opened e d) w ≡ (ok true, w)
  unfolding Record.is_array Record.get_type Record.value_of
  in_bounds_gone r e d w = elim (Bool-cases d.directory) [
    | inl dir ↦ simp dir (ground arith)
    | inr plain ↦ simp plain (ground arith)
  ]

  -- Under a directory that has no record `boundsCheck` passes.
  bounds_check-orphan :
      (c : ℕ) (p d : KeyPath) (w : World) (f : View)
      → laws.view w.db ≡ f
      → IsSingle p
      → Path.is_root p ≡ false
      → IsSingle d
      → Path.is_root d ≡ false
      → Path.parent p ≡ ok d
      → IsReadable f
      → f p.key_str ≡ none
      → f d.key_str ≡ none
      → Ends laws (bounds_check (opened c p)) w true f
  unfolding bounds_check
  bounds_check-orphan c p d w f hv single other up_single up_other up readable gone up_gone =
      let (e, made) = parent-Ends laws (opened c p) d w f hv up up_single.plain in
      let got = fetched-missing laws c p made.after f made.view_after single other readable gone in
      let dir =
        fetched-missing laws e d got.after f got.view_after up_single up_other readable up_gone in
      record {
        after = dir.after;
        run = rw made.run (rw got.run (rw dir.run (in_bounds_gone (opened c p) e d dir.after)));
        view_after = dir.view_after;
      }

  -- If neither a value's path nor its parent, which is not the root, has a record, and the keys are
  -- key strings of paths before and after, `add` of a freshly opened record throws
  -- record_exception, and the value stands in the database all the same.
  pub add_orphan :
      (c : ℕ) (p d : KeyPath) (x : Value) (s : Bytes) (w : World) (f : View)
      → laws.view w.db ≡ f
      → IsSingle p
      → IsSingle d
      → p.directory ≡ false
      → Path.is_root p ≡ false
      → Path.is_root d ≡ false
      → Path.parent p ≡ ok d
      → p.key_str ≢ d.key_str
      → IsReadable (update f p.key_str s)
      → IsReadable f
      → f p.key_str ≡ none
      → f d.key_str ≡ none
      → Value.make_db_string x ≡ ok s
      → Throws laws
          (add (opened c p) x)
          w
          (record_exception "uninitialized record")
          (update f p.key_str s)
  unfolding add
  add_orphan c p d x s w f hv single up_single plain no_root up_other up apart readable' readable
        gone up_gone text =
      let checked =
        bounds_check-orphan c p d w f hv single no_root up_single up_other up readable gone
          up_gone in
      let told = announce-Ends laws p.pretty_str s checked.after f checked.view_after in
      let w2 = called laws (λ db. (remote.add p.key_str s db).1) told.after in
      let f2 = update f p.key_str s in
      let (new, wrote) =
        laws.add_new told.after.db p.key_str s (ap (λ g. g p.key_str) told.view_after ∙ gone) in
      let (e, made) =
        parent-Ends laws (opened c p) d w2 f2
          (wrote ∙ ap (λ g. update g p.key_str s) told.view_after) up up_single.plain in
      let failed =
        change_container_size-Throws laws e d 1 made.after f2 made.view_after up_single up_other
          readable' (update_other f p.key_str s d.key_str apart ∙ up_gone) in
      record {
        after = failed.after;
        run =
            rw (is_value_plain (opened c p) plain)
              (rw checked.run (rw text (rw told.run (rw new (rw made.run (rw failed.run))))));
        view_after = failed.view_after;
      }

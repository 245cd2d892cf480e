-- ===== src/Database/Removes.antt =====
-- `remove` of a value that is a member of an object.
use janosh.Common.{
  ◌&&◌, ℕ, suc, ◌+◌, ◌-◌, ◌%◌, ◌^◌, ◌<◌, ◌≤◌, [], Bool, true, false, ◌≡◌, ◌≢◌, refl, sym, ap, ◌∙◌,
  some, Bytes, arith,
}
use janosh.Result.{ok}
use janosh.Component.{LexicalCast}
use janosh.Path
use janosh.Path.{KeyPath}
use janosh.Value
use janosh.Value.{Value, object}
use janosh.Value.Stored.{of_stored, descriptor, container}
use janosh.Tracker.{delete}
use janosh.Remote.{RemoteDb, IsMap, World, M, update, forget, announce}
use janosh.Record
use janosh.Record.{Record}
use janosh.Record.Methods
use janosh.Record.Methods.{on, fetched}
use janosh.Record.Fetch.{opened, found, IsSingle, IsReadable}
use janosh.Record.Outcome.{View, Ends}
use janosh.Record.Cursors.{parent-Stays, pool_get-Stays, fetched-Stays, remove-Ends}
use janosh.Database.{change_container_size}
use janosh.Database.Containers.{
  HasContainer, get_size-container, set_container_size-Ends, reads_container,
}
use janosh.Database.Removal.{remove_loop, remove_container, remove}

module _ ⦃cast : LexicalCast⦄ ⦃remote : RemoteDb⦄ (laws : IsMap remote) where
  -- What the record stands for after it was removed: a path that the cursor has moved to.
  abbrev gone_record : ℕ → KeyPath → Value → KeyPath → Record
  gone_record c p y q = record (found c p (Value.reset y)) { path = q }

  told_db : (key : Bytes) (w : World) → (announce key [] delete w).1.db ≡ w.db
  told_db key w = unfold announce in refl

  told_run :
      (key : Bytes) (w : World) → announce key [] delete w ≡ (ok tt, (announce key [] delete w).1)
  told_run key w = unfold announce in refl

  -- One value is removed by the loop, and counts.
  remove_one :
      (below : Record → M (ℕ × Record)) (pack : Bool) (c : ℕ) (p : KeyPath) (y : Value) (w : World)
      → (f : View) → laws.view w.db ≡ f
      → laws.at w.db c ≡ some p.key_str
      → p.directory ≡ false
      → IsReadable f
      → (q : KeyPath) × (done : Ends laws
          (remove_loop below pack 1 0 (found c p y))
          w
          (1, gone_record c p y q)
          (forget f p.key_str))
        × ((e : ℕ) (j : Bytes)
            → laws.at w.db e ≡ some j
            → j ≢ p.key_str
            → laws.at done.after.db e ≡ some j)
  unfolding remove_loop
  remove_one below true c p y w f hv at plain readable =
      let w1 = (announce p.pretty_str [] delete w).1 in
      let same = told_db p.pretty_str w in
      let (q, gone, apart) =
        remove-Ends laws c p y w1 f (ap laws.view same ∙ hv) (ap (λ db. laws.at db c) same ∙ at)
          readable in
      (
        q,
        record {
          after = gone.after;
          run = simp plain (rw (told_run p.pretty_str w) (rw gone.run));
          view_after = gone.view_after;
        },
        λ e j he ne. apart e j (ap (λ db. laws.at db e) same ∙ he) ne,
      )
  remove_one below false c p y w f hv at plain readable =
      let (q, gone, apart) = remove-Ends laws c p y w f hv at readable in
      (
        q,
        record { after = gone.after; run = simp plain (rw gone.run); view_after = gone.view_after },
        apart,
      )

  found-is_range :
      (c : ℕ) (p : KeyPath) (y : Value)
      → p.directory ≡ false
      → p.wildcard ≡ false
      → Record.is_range (found c p y) ≡ ok false
  unfolding Record.is_range
  found-is_range c p y plain tame = simp (plain, tame)

  found-get_size :
      (c : ℕ) (p : KeyPath) (y : Value) (n : ℕ)
      → y.initialized ≡ true
      → Value.get_size y ≡ ok n
      → Record.get_size (found c p y) ≡ ok n
  unfolding Record.get_size
  found-get_size c p y n is_set size = simp (is_set, size)

  object-is_array :
      (c : ℕ) (d : KeyPath) (n : ℕ)
      → d.directory ≡ true
      → Record.is_array (found c d (container object n)) ≡ ok false
  unfolding Record.is_array
  object-is_array c d n h = simp h

  fetched_same :
      (c : ℕ) (p : KeyPath) (y : Value) (w : World)
      → y.initialized ≡ true
      → fetched (found c p y) w ≡ (ok (found c p y), w)
  unfolding Methods.fetch Record.has_data
  fetched_same c p y w h = simp h

  one_less : (n : ℕ) → 1 ≤ n → n < 2 ^ 64 → (n + (2 ^ 64 - 1)) % 2 ^ 64 ≡ n - 1
  one_less n pos small = omega arith

  -- The size of the object, whose cursor stands at it, is one smaller afterwards.
  shrink :
      (e : ℕ) (d : KeyPath) (n : ℕ) (w : World) (f : View)
      → laws.view w.db ≡ f
      → laws.at w.db e ≡ some d.key_str
      → d.directory ≡ true
      → 1 ≤ n
      → n < 2 ^ 64
      → Ends laws
          (change_container_size (found e d (container object n)) (2 ^ 64 - 1))
          w
          tt
          (update f d.key_str (descriptor object (n - 1)))
  unfolding change_container_size
  shrink e d n w f hv at dir pos small =
      let done = set_container_size-Ends laws e d object n (n - 1) w f hv at dir refl in
      record {
        after = done.after;
        run =
            rw (fetched_same e d (container object n) w refl)
              (rw (get_size-container laws e d object n refl) (rw (one_less n pos small) done.run));
        view_after = done.view_after;
      }

  container_plain :
      (pack : Bool) (g : ℕ) (p : KeyPath) (y : Value) (parent : Record) (w w' : World)
      → p.directory ≡ false
      → change_container_size parent (2 ^ 64 - 1) w ≡ (ok tt, w')
      → remove_container pack 1 (found g p y) parent w ≡ (ok (found g p y), w')
  unfolding remove_container
  container_plain pack g p y parent w w' plain run = simp plain (rw run)

  never : (pack : Bool) → (pack && false) ≡ false
  never true = refl
  never false = refl

  -- If a path that is no directory has a record that is read as an initialized value of size 1, its
  -- parent is an object of at least one member, and all keys are key strings of paths, `remove` of
  -- a freshly opened record, with or without packing and down to at least one level, returns 1,
  -- deletes the record, makes the object's size one smaller, and changes no other record.
  pub remove-member :
      (levels : ℕ) (pack : Bool) (c : ℕ) (p d : KeyPath) (n : ℕ) (v : Bytes) (y : Value) (w : World)
      → (f : View) → laws.view w.db ≡ f
      → IsSingle p
      → p.directory ≡ false
      → f p.key_str ≡ some v
      → of_stored p.directory p.wildcard Value.uninitialized v ≡ ok y
      → y.initialized ≡ true
      → Value.get_size y ≡ ok 1
      → Path.parent p ≡ ok d
      → HasContainer d object n f
      → 1 ≤ n
      → d.key_str ≢ p.key_str
      → IsReadable f
      → (gone : Record) × Ends laws
          (remove (suc levels) pack (opened c p))
          w
          (1, gone)
          (update (forget f p.key_str) d.key_str (descriptor object (n - 1)))
  unfolding remove Record.is_initialized
  remove-member levels pack c p d n v y w f hv single plain here reads is_set size up con pos apart
        readable =
      let (got, _) = fetched-Stays laws c p w f v y hv single here reads in
      let w1 = got.ends.after in
      let (e, made, new_e, stays_e, is_e, db_e) =
        parent-Stays laws (found c p y) d w1 f got.ends.view_after up con.single.plain in
      let (g, target, new_g, stays_g, is_g, _) =
        pool_get-Stays laws p made.after f made.view_after single.plain in
      let (dir, stays_dir) =
        fetched-Stays laws e d target.after f (descriptor object n) (container object n)
          target.view_after con.single con.stored (reads_container d object n f con) in
      let (tg, stays_tg) =
        fetched-Stays laws g p dir.ends.after f v y dir.ends.view_after single here reads in
      let c-e : c ≢ e = new_e c p.key_str got.stands in
      let at1 = stays_e c p.key_str c-e got.stands in
      let c-g : c ≢ g = new_g c p.key_str at1 in
      let at2 =
        stays_tg c p.key_str c-g (stays_dir c p.key_str c-e (stays_g c p.key_str c-g at1)) in
      let e-g : e ≢ g = λ same.
        laws.cursor-twice w1.db
          (sym is_e ∙ (same ∙ (is_g ∙ ap (λ db. (remote.cursor db).0) db_e))) in
      let (q, done, kept) =
        remove_one (remove levels false) pack c p y tg.ends.after f tg.ends.view_after at2 plain
          readable in
      let at3 = kept e d.key_str (stays_tg e d.key_str e-g dir.stands) apart in
      let less =
        shrink e d n done.after (forget f p.key_str) done.view_after at3 con.is_directory pos
          con.in_range in
      let contained : remove_container pack 1 (found g p y) (found e d (container object n))
            done.after
          ≡ (ok (found g p y), less.after) =
        container_plain pack g p y (found e d (container object n)) done.after less.after plain
          less.run in
      (
        found g p y,
        record {
          after = less.after;
          run = rw got.ends.run (
              rw (found-get_size c p y 1 is_set size) (
                rw made.run (
                  rw target.run (
                    rw dir.ends.run (
                      rw tg.ends.run (
                        rw (found-is_range c p y plain single.no_wildcard) (
                          simp plain (
                            rw done.run (
                              rw contained (
                                rw (object-is_array e d n con.is_directory)
                                  (rw (never pack))))))))))));
          view_after = less.view_after;
        },
      )

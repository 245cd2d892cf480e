-- ===== src/Record/Cursors.antt =====
-- What the record methods do to the cursors of other records: they stay where they are.
use janosh.Common.{ℕ, ◌≡◌, ◌≢◌, inl, inr, refl, sym, ap, ◌∙◌, some, Bytes}
use janosh.Result.{ok}
use janosh.Component.{LexicalCast}
use janosh.Path
use janosh.Path.{KeyPath}
use janosh.Path.Algebra.{IsPlain}
use janosh.Value
use janosh.Value.{Value}
use janosh.Value.Stored.{of_stored}
use janosh.Remote.{RemoteDb, IsMap, World, forget}
use janosh.Record
use janosh.Record.{Record}
use janosh.Record.Methods
use janosh.Record.Methods.{pool_get, fetched, on, read_path}
use janosh.Record.Fetch.{
  opened, found, IsSingle, IsReadable, update_plain, jump_world, read_world, view-read_world,
  fetch_run,
}
use janosh.Record.Outcome.{View, Ends, Found}

module _ ⦃cast : LexicalCast⦄ ⦃remote : RemoteDb⦄ (laws : IsMap remote) where
  -- From the world `w` to `w'` every cursor but `e` that stands at a record stays there.
  abbrev pub Stays : ℕ → World → World → Type 0
  Stays e w w' = (c : ℕ) (k : Bytes) → c ≢ e → laws.at w.db c ≡ some k → laws.at w'.db c ≡ some k

  -- No cursor that stands at a record has the number `e`.
  abbrev pub IsNew : ℕ → World → Type 0
  IsNew e w = (c : ℕ) (k : Bytes) → laws.at w.db c ≡ some k → c ≢ e

  pub pool_get-Stays :
      (p : KeyPath) (w : World) (f : View)
      → laws.view w.db ≡ f
      → IsPlain p
      → (e : ℕ) × (made : Ends laws (pool_get p.key_str) w (opened e p) f) × IsNew e w
        × Stays e w made.after
        × (e ≡ (remote.cursor w.db).0)
        × (made.after.db ≡ (remote.cursor w.db).1)
  unfolding pool_get
  pool_get-Stays p w f hv h = (
    (remote.cursor w.db).0,
    record {
      after = record w { db = (remote.cursor w.db).1 };
      run = rw (update_plain laws p h);
      view_after = laws.view-cursor w.db ∙ hv;
    },
    λ c k e. (laws.cursor-apart w.db c k e).0,
    λ c k ne e. (laws.cursor-apart w.db c k e).1,
    refl,
    refl,
  )

  pub parent-Stays :
      (r : Record) (d : KeyPath) (w : World) (f : View)
      → laws.view w.db ≡ f
      → Path.parent r.path ≡ ok d
      → IsPlain d
      → (e : ℕ) × (made : Ends laws (Methods.parent r) w (opened e d) f) × IsNew e w
        × Stays e w made.after
        × (e ≡ (remote.cursor w.db).0)
        × (made.after.db ≡ (remote.cursor w.db).1)
  unfolding Methods.parent
  parent-Stays r d w f hv up h =
      let (e, made, new, stays, is_e, is_db) = pool_get-Stays d w f hv h in
      (
        e,
        record { after = made.after; run = rw up made.run; view_after = made.view_after },
        new,
        stays,
        is_e,
        is_db,
      )

  -- `fetch` of an existing record moves its own cursor only.
  pub fetched-Stays :
      (c : ℕ) (p : KeyPath) (w : World) (f : View) (v : Bytes) (x : Value)
      → laws.view w.db ≡ f
      → IsSingle p
      → f p.key_str ≡ some v
      → of_stored p.directory p.wildcard Value.uninitialized v ≡ ok x
      → (got : Found laws c p x w f) × Stays c w got.ends.after
  fetched-Stays c p w f v x hv h here reads =
      let here' : laws.view w.db p.key_str ≡ some v = ap (λ g. g p.key_str) hv ∙ here in
      let w' = jump_world laws c p w in
      let same : (read_world laws p v w').db ≡ w'.db = view-read_world laws p v w' in
      (
        record {
          ends = record {
            after = read_world laws p v w';
            run = rw (fetch_run laws c p w v x h here' reads);
            view_after = ap laws.view same ∙ (laws.view-jump w.db c p.key_str ∙ hv);
          };
          stands = ap (λ db. laws.at db c) same ∙ (laws.jump_hit w.db c p.key_str v here').1;
        },
        λ e k ne at. ap (λ db. laws.at db e) same ∙ (laws.jump-apart w.db e c p.key_str ne ∙ at),
      )

  -- `remove` of the record at the cursor: what the record stands for afterwards is read from where
  -- the cursor has moved, and the cursors at other records stay.
  pub remove-Ends :
      (c : ℕ) (p : KeyPath) (x : Value) (w : World) (f : View)
      → laws.view w.db ≡ f
      → laws.at w.db c ≡ some p.key_str
      → IsReadable f
      → (q : KeyPath) × (gone : Ends laws
          (on (found c p x) Methods.remove)
          w
          (tt, record (found c p (Value.reset x)) { path = q })
          (forget f p.key_str))
        × ((e : ℕ) (j : Bytes)
            → laws.at w.db e ≡ some j
            → j ≢ p.key_str
            → laws.at gone.after.db e ≡ some j)
  unfolding Methods.remove read_path Record.clear
  remove-Ends c p x w f hv at readable =
      let (did, wrote) = laws.remove-at w.db c p.key_str at in
      let db = (remote.remove c w.db).1 in
      let view : laws.view db ≡ forget f p.key_str = wrote ∙ ap (λ g. forget g p.key_str) hv in
      let apart : (e : ℕ) (j : Bytes)
          → laws.at w.db e ≡ some j
          → j ≢ p.key_str
          → laws.at db e ≡ some j =
        λ e j he ne. laws.remove-apart w.db c e p.key_str j at he ne in
      elim (laws.remove-moves w.db c p.key_str at) [
        | inl nowhere ↦ (
          Path.empty,
          record {
            after = record w { db = db };
            run = rw did (rw (laws.get_key-at db c, nowhere) (unfold Path.update in refl));
            view_after = view;
          },
          apart,
        )
        | inr (j, v, there, known) ↦
            let (q, parsed, _) = readable j v (ap (λ g. g j) (sym hv) ∙ known) in
            (
              q,
              record {
                after = record w { db = db };
                run = rw did (rw (laws.get_key-at db c, there) (rw parsed));
                view_after = view;
              },
              apart,
            )
      ]

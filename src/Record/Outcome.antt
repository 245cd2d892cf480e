-- ===== src/Record/Outcome.antt =====
-- The outcomes of the record methods, told by the records that the server holds before and after.
use janosh.Common.{ℕ, false, ◌≡◌, refl, sym, ap, subst, ◌∙◌, Option, none, some, Bytes}
use janosh.Result.{Error, ok, err}
use janosh.Component.{LexicalCast}
use janosh.Path
use janosh.Path.{KeyPath}
use janosh.Path.Algebra.{IsPlain}
use janosh.Value
use janosh.Value.{Value}
use janosh.Value.Stored.{of_stored}
use janosh.Remote.{RemoteDb, IsMap, World, M, announce}
use janosh.Tracker.{write}
use janosh.Record.{Record}
use janosh.Record.Methods
use janosh.Record.Methods.{pool_get, fetched, set_value, on}
use janosh.Record.Fetch.{
  opened, found, IsSingle, IsReadable, update_plain, jump_world, read_world, view-read_world,
  fetch_run, fetch_miss,
}

-- The records of the server, as a map.
abbrev pub View : Type 0
View = Bytes → Option Bytes

module _ ⦃cast : LexicalCast⦄ ⦃remote : RemoteDb⦄ (laws : IsMap remote) where
  -- `m` returns `a` from the world `w`, and leaves the records `f`.
  pub record Ends {A : Type 0} (m : M A) (w : World) (a : A) (f : View) : Type 0 where
    pub after : World
    pub run : m w ≡ (ok a, after)
    pub view_after : laws.view after.db ≡ f

  -- `m` throws `e` from the world `w`, and leaves the records `f`.
  pub record Throws {A : Type 0} (m : M A) (w : World) (e : Error) (f : View) : Type 0 where
    pub after : World
    pub run : m w ≡ (err e, after)
    pub view_after : laws.view after.db ≡ f

  -- The world after a call of the server.
  abbrev pub called : (remote.Db → remote.Db) → World → World
  called f w = record w { db = f w.db }

  -- An announced write leaves the server alone.
  pub announced :
      (key s : Bytes) (w : World) (f : View)
      → laws.view w.db ≡ f
      → (e : Ends (announce key s write) w tt f) × (e.after.db ≡ w.db)
  unfolding announce
  announced key s w f hv =
      (record { after = (announce key s write w).1; run = refl; view_after = hv }, refl)

  pub announce-Ends :
      (key s : Bytes) (w : World) (f : View)
      → laws.view w.db ≡ f
      → Ends (announce key s write) w tt f
  announce-Ends key s w f hv = (announced key s w f hv).0

  -- `RecordPool::get` with the key string of a path opens a cursor for that path.
  pub pool_get-Ends :
      (p : KeyPath) (w : World) (f : View)
      → laws.view w.db ≡ f
      → IsPlain p
      → (c : ℕ) × Ends (pool_get p.key_str) w (opened c p) f
  unfolding pool_get
  pool_get-Ends p w f hv h = (
    (remote.cursor w.db).0,
    record {
      after = record w { db = (remote.cursor w.db).1 };
      run = rw (update_plain laws p h);
      view_after = laws.view-cursor w.db ∙ hv;
    },
  )

  -- The parent of a record, made from the path that `Path::parent` returns.
  pub parent-Ends :
      (r : Record) (d : KeyPath) (w : World) (f : View)
      → laws.view w.db ≡ f
      → Path.parent r.path ≡ ok d
      → IsPlain d
      → (c : ℕ) × Ends (Methods.parent r) w (opened c d) f
  unfolding Methods.parent
  parent-Ends r d w f hv e h =
      let (c, made) = pool_get-Ends d w f hv h in
      (c, record { after = made.after; run = rw e made.run; view_after = made.view_after })

  -- A record that was found, and the cursor that stands at it.
  pub record Found (c : ℕ) (p : KeyPath) (x : Value) (w : World) (f : View) : Type 0 where
    pub ends : Ends (fetched (opened c p)) w (found c p x) f
    pub stands : laws.at ends.after.db c ≡ some p.key_str

  -- If the text under a path is read as a value, `fetch` of a freshly opened record for the path
  -- returns the record that exists with this value, leaves its cursor at the path's key, and
  -- changes no record.
  pub fetched-Found :
      (c : ℕ) (p : KeyPath) (w : World) (f : View) (v : Bytes) (x : Value)
      → laws.view w.db ≡ f
      → IsSingle p
      → f p.key_str ≡ some v
      → of_stored p.directory p.wildcard Value.uninitialized v ≡ ok x
      → Found c p x w f
  fetched-Found c p w f v x hv h here reads =
      let here' : laws.view w.db p.key_str ≡ some v = ap (λ g. g p.key_str) hv ∙ here in
      let w' = jump_world laws c p w in
      record {
        ends = record {
          after = read_world laws p v w';
          run = rw (fetch_run laws c p w v x h here' reads);
          view_after =
              ap laws.view (view-read_world laws p v w') ∙ (laws.view-jump w.db c p.key_str ∙ hv);
        };
        stands =
            ap (λ db. laws.at db c) (view-read_world laws p v w')
            ∙ (laws.jump_hit w.db c p.key_str v here').1;
      }

  -- If a path that is not the root has no record, and all keys are key strings of paths, `fetch` of
  -- a freshly opened record for the path leaves the record as it was, without a value and not
  -- existing, wherever the cursor landed, and changes no record.
  pub fetched-missing :
      (c : ℕ) (p : KeyPath) (w : World) (f : View)
      → laws.view w.db ≡ f
      → IsSingle p
      → Path.is_root p ≡ false
      → IsReadable f
      → f p.key_str ≡ none
      → Ends (fetched (opened c p)) w (opened c p) f
  fetched-missing c p w f hv h other readable gone = record {
    after = jump_world laws c p w;
    run = rw (
        fetch_miss laws c p w h other (subst IsReadable (sym hv) readable)
          (ap (λ g. g p.key_str) hv ∙ gone));
    view_after = laws.view-jump w.db c p.key_str ∙ hv;
  }

-- ===== src/Record/Fetch.antt =====
-- What a record is after it was made and fetched, for a server whose records are a map.
use janosh.Common.{
  ℕ, Bool, true, false, ◌≡◌, ◌≢◌, refl, sym, ap, subst, ◌∙◌, Option, none, some, Bytes, codes,
  bytes_eq_refl, bytes_eq_iff, Bool-cases, inl, inr,
}
use janosh.Result.{ok}
use janosh.Exec.{◌>>=◌, ◌>>◌}
use janosh.Component.{LexicalCast}
use janosh.Path
use janosh.Path.{KeyPath}
use janosh.Path.Algebra.{IsPlain}
use janosh.Path.Update.{update-canonical}
use janosh.Value
use janosh.Value.{Value}
use janosh.Value.Stored.{of_stored}
use janosh.Tracker.{Operation}
use janosh.Remote.{RemoteDb, IsMap, World, announce}
use janosh.Record.{Record, has_data}
use janosh.Record.Methods.{
  fetch, initialize, jump, read_path, read_value, init_path, init_root, set_own, set_exists,
  value_or_throw,
}

-- A record as `RecordPool::get` makes it, and after `fetch` with and without success.
abbrev pub opened : ℕ → KeyPath → Record
opened c p = record { cursor = some c; path = p; value = Value.uninitialized; does_exist = false }

abbrev pub found : ℕ → KeyPath → Value → Record
found c p x = record { cursor = some c; path = p; value = x; does_exist = true }

-- The keys of the records are key strings of paths.
abbrev pub IsReadable : ⦃cast : LexicalCast⦄ → (Bytes → Option Bytes) → Type 0
IsReadable f =
    (k v : Bytes) → f k ≡ some v → (p : KeyPath) × (Path.update k ≡ ok p) × (p.key_str ≡ k)

module _ ⦃cast : LexicalCast⦄ where
  -- A path that is read back from its key string and is no wildcard and not empty; the root has the
  -- key string that `init` jumps to.
  pub record IsSingle (p : KeyPath) : Type 0 where
    pub plain : IsPlain p
    pub no_wildcard : p.wildcard ≡ false
    pub root_key : Path.is_root p ≡ true → p.key_str ≡ codes "/!"
    pub no_empty : Path.is_empty p ≡ false

module _ ⦃cast : LexicalCast⦄ ⦃remote : RemoteDb⦄ (laws : IsMap remote) where
  pub update_plain : (p : KeyPath) → IsPlain p → Path.update p.key_str ≡ ok p
  update_plain p h = update-canonical p h.well_formed h.canonical

  equals_self : (p : KeyPath) → Path.equals p p ≡ true
  equals_self p = unfold Path.equals in bytes_eq_refl p.key_str

  -- The world after the cursor was told to jump to the path.
  abbrev pub jump_world : ℕ → KeyPath → World → World
  jump_world c p w = record w { db = (remote.jump c p.key_str w.db).1 }

  -- The world after the text `v` was read under the path.
  abbrev pub read_world : KeyPath → Bytes → World → World
  read_world p v w = (announce p.pretty_str v Operation.read w).1

  pub view-read_world : (p : KeyPath) (v : Bytes) (w : World) → (read_world p v w).db ≡ w.db
  view-read_world p v w = unfold announce in refl

  read_path_run :
      (c : ℕ) (p : KeyPath) (w : World)
      → IsPlain p
      → laws.at w.db c ≡ some p.key_str
      → read_path (opened c p, w) ≡ (ok true, (opened c p, w))
  unfolding read_path
  read_path_run c p w h here = rw (laws.get_key-at w.db c, here) (rw (update_plain p h))

  jump_run :
      (c : ℕ) (p : KeyPath) (w : World) (v : Bytes)
      → IsPlain p
      → laws.view w.db p.key_str ≡ some v
      → jump p (opened c p, w) ≡ (ok true, (opened c p, jump_world c p w))
  unfolding jump
  jump_run c p w v h here =
      let (hit, at) = laws.jump_hit w.db c p.key_str v here in
      rw hit (rw (read_path_run c p (jump_world c p w) h at) (rw (equals_self p)))

  read_value_run :
      (c : ℕ) (p : KeyPath) (w : World) (v : Bytes) (x : Value) (b : Bool)
      → Path.is_empty p ≡ false
      → laws.at w.db c ≡ some p.key_str
      → laws.view w.db p.key_str ≡ some v
      → of_stored p.directory p.wildcard Value.uninitialized v ≡ ok x
      → read_value (record (opened c p) { does_exist = b }, w)
        ≡ (ok true, (record (found c p x) { does_exist = b }, read_world p v w))
  unfolding read_value announce
  read_value_run c p w v x b full at here reads =
      rw full (rw (laws.get_value-at w.db c p.key_str at, here) (rw reads))

  initialize_root :
      (p : KeyPath) → p.wildcard ≡ false → Path.is_root p ≡ true → initialize p ≡ init_root p
  unfolding initialize
  initialize_root p no_wildcard root = simp (no_wildcard, root)

  initialize_other :
      (p : KeyPath)
      → p.wildcard ≡ false
      → Path.is_root p ≡ false
      → initialize p ≡ (do found ← jump p; init_path found; set_own p)
  unfolding initialize
  initialize_other p no_wildcard other = simp (no_wildcard, other)

  value_then_exists :
      (c : ℕ) (p : KeyPath) (w : World) (v : Bytes) (x : Value)
      → Path.is_empty p ≡ false
      → laws.at w.db c ≡ some p.key_str
      → laws.view w.db p.key_str ≡ some v
      → of_stored p.directory p.wildcard Value.uninitialized v ≡ ok x
      → (value_or_throw >> set_exists true) (opened c p, w)
        ≡ (ok tt, (found c p x, read_world p v w))
  value_then_exists c p w v x full at kept reads =
      rw (read_value_run c p w v x false full at kept reads)

  -- `init` at the root, whose key string the cursor jumps to whatever the path.
  root_run :
      (c : ℕ) (p : KeyPath) (w : World) (v : Bytes) (x : Value)
      → p.key_str ≡ codes "/!"
      → Path.is_empty p ≡ false
      → laws.at (jump_world c p w).db c ≡ some p.key_str
      → laws.view (jump_world c p w).db p.key_str ≡ some v
      → of_stored p.directory p.wildcard Value.uninitialized v ≡ ok x
      → init_root p (opened c p, w) ≡ (ok tt, (found c p x, read_world p v (jump_world c p w)))
  root_run c p w v x key full at kept reads =
      subst
        (λ k.
          (value_or_throw >> set_exists true)
            (opened c p, record w { db = (remote.jump c k w.db).1 })
          ≡ (ok tt, (found c p x, read_world p v (jump_world c p w))))
        key (value_then_exists c p (jump_world c p w) v x full at kept reads)

  -- A record whose text is in the database is found, with the value that the text stands for.
  pub fetch_run :
      (c : ℕ) (p : KeyPath) (w : World) (v : Bytes) (x : Value)
      → IsSingle p
      → laws.view w.db p.key_str ≡ some v
      → of_stored p.directory p.wildcard Value.uninitialized v ≡ ok x
      → fetch (opened c p, w) ≡ (ok tt, (found c p x, read_world p v (jump_world c p w)))
  unfolding fetch has_data
  fetch_run c p w v x h here reads =
      let w' = jump_world c p w in
      let (_, at) = laws.jump_hit w.db c p.key_str v here in
      let kept : laws.view w'.db p.key_str ≡ some v =
        ap (λ f. f p.key_str) (laws.view-jump w.db c p.key_str) ∙ here in
      elim (Bool-cases (Path.is_root p)) [
        | inl root ↦
            rw (initialize_root p h.no_wildcard root)
              (root_run c p w v x (h.root_key root) h.no_empty at kept reads)
        | inr other ↦ rw (initialize_other p h.no_wildcard other) (
            rw (jump_run c p w v h.plain here)
              (rw (read_value_run c p w' v x true h.no_empty at kept reads)))
      ]

  jump_lands :
      (c : ℕ) (p : KeyPath) (w : World)
      → IsReadable (laws.view w.db)
      → laws.view w.db p.key_str ≡ none
      → (remote.jump c p.key_str w.db).0 ≡ true
      → (q : KeyPath) × (jump p (opened c p, w) ≡ (ok false, (opened c q, jump_world c p w)))
  unfolding jump read_path
  jump_lands c p w readable gone moved =
      let (j, v, at, other, there) = laws.jump_miss w.db c p.key_str gone moved in
      let (q, parsed, key) = readable j v there in
      let apart : Path.equals q p ≡ false = not_equal q (λ e. other (sym key ∙ e)) in
      (q, rw moved (rw (laws.get_key-at _ c, at) (rw parsed (rw apart))))
    where
      not_equal : (q : KeyPath) → q.key_str ≢ p.key_str → Path.equals q p ≡ false
      not_equal q ne = elim (Bool-cases (Path.equals q p)) [
        | inl e ↦ absurd (ne ((bytes_eq_iff q.key_str p.key_str).0 (unfold Path.equals in e)))
        | inr e ↦ e
      ]

  jump_fails :
      (c : ℕ) (p : KeyPath) (w : World)
      → (remote.jump c p.key_str w.db).0 ≡ false
      → jump p (opened c p, w) ≡ (ok false, (opened c p, jump_world c p w))
  unfolding jump
  jump_fails c p w stays = rw stays

  -- A record without a text in the database is not found, and stays as it was made.
  pub fetch_miss :
      (c : ℕ) (p : KeyPath) (w : World)
      → IsSingle p
      → Path.is_root p ≡ false
      → IsReadable (laws.view w.db)
      → laws.view w.db p.key_str ≡ none
      → fetch (opened c p, w) ≡ (ok tt, (opened c p, jump_world c p w))
  unfolding fetch has_data
  fetch_miss c p w h other readable gone =
      rw (initialize_other p h.no_wildcard other)
        (elim (Bool-cases (remote.jump c p.key_str w.db).0) [
          | inl moved ↦ let (q, lands) = jump_lands c p w readable gone moved in rw lands
          | inr stays ↦ rw (jump_fails c p w stays)
        ])

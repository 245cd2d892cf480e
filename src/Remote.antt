-- ===== src/Remote.antt =====
-- The Kyoto Tycoon server that keeps the records, which is not part of the program: what the
-- program calls of `RemoteDB` and `RemoteDB::Cursor`, and what Kyoto Tycoon documents of it.
-- The cursors live on the server and are named by numbers, so records that are copies of one
-- another share a cursor.
use janosh.Common.{
  ℕ, List, ◌++◌, Bool, true, false, ◌≡◌, ◌≢◌, ◌⊎◌, Option, none, some, Bytes, bytes_eq,
  if◌then◌else◌,
}
use janosh.Result.{ok}
use janosh.Exec.{Exec}
use janosh.Tracker
use janosh.Tracker.{Tracker, Operation}

pub record RemoteDb : Type 1 where
  pub Db : Type 0
  -- `cursor()`
  pub cursor : Db → ℕ × Db
  -- `jump(key)`, `step()`, `step_back()`
  pub jump : ℕ → Bytes → Db → Bool × Db
  pub step : ℕ → Db → Bool × Db
  pub step_back : ℕ → Db → Bool × Db
  -- `jump_back(key)`, and `jump()` to the first record
  pub jump_back : ℕ → Bytes → Db → Bool × Db
  pub jump_first : ℕ → Db → Bool × Db
  -- `get_key(&k)` and `get_value(&v)`; `none` is a false result
  pub get_key : ℕ → Db → Option Bytes
  pub get_value : ℕ → Db → Option Bytes
  -- `get(&k, &v)`
  pub get : ℕ → Db → Option (Bytes × Bytes)
  -- `get(&k, &v, NULL, true)`, which steps behind the record that it reads
  pub get_step : ℕ → Db → Option (Bytes × Bytes) × Db
  -- `set_value_str(v)` and `remove()`
  pub set_value : ℕ → Bytes → Db → Bool × Db
  pub remove : ℕ → Db → Bool × Db
  -- `add(key, value)`, `replace(key, value)`, `set(key, value)`, `clear()`
  pub add : Bytes → Bytes → Db → Bool × Db
  pub replace : Bytes → Bytes → Db → Bool × Db
  pub set : Bytes → Bytes → Db → Bool × Db
  pub clear : Db → Bool × Db

-- `f` with `v` for `k`.
abbrev pub update : (Bytes → Option Bytes) → Bytes → Bytes → Bytes → Option Bytes
update f k v j = if bytes_eq k j then some v else f j

-- `f` without `k`.
abbrev pub forget : (Bytes → Option Bytes) → Bytes → Bytes → Option Bytes
forget f k j = if bytes_eq k j then none else f j

-- What the program relies on while the server answers: the records are a map, `view`, and each
-- cursor stands `at` a record or nowhere.
pub record IsMap (r : RemoteDb) : Type 0 where
  pub view : r.Db → Bytes → Option Bytes
  pub at : r.Db → ℕ → Option Bytes
  pub view-cursor : (db : r.Db) → view (r.cursor db).1 ≡ view db
  pub view-jump : (db : r.Db) (c : ℕ) (k : Bytes) → view (r.jump c k db).1 ≡ view db
  -- A cursor jumps to the record of the key, if there is one.
  pub jump_hit :
      (db : r.Db) (c : ℕ) (k v : Bytes)
      → view db k ≡ some v
      → ((r.jump c k db).0 ≡ true) × (at (r.jump c k db).1 c ≡ some k)
  -- Otherwise to another record, or it fails.
  pub jump_miss :
      (db : r.Db) (c : ℕ) (k : Bytes)
      → view db k ≡ none
      → (r.jump c k db).0 ≡ true
      → (j v : Bytes) × (at (r.jump c k db).1 c ≡ some j) × (j ≢ k) × (view db j ≡ some v)
  pub get_key-at : (db : r.Db) (c : ℕ) → r.get_key c db ≡ at db c
  pub get_value-at :
      (db : r.Db) (c : ℕ) (k : Bytes) → at db c ≡ some k → r.get_value c db ≡ view db k
  pub get-at :
      (db : r.Db) (c : ℕ) (k v : Bytes)
      → at db c ≡ some k
      → view db k ≡ some v
      → r.get c db ≡ some (k, v)
  pub set_value-at :
      (db : r.Db) (c : ℕ) (k v : Bytes)
      → at db c ≡ some k
      → ((r.set_value c v db).0 ≡ true) × (view (r.set_value c v db).1 ≡ update (view db) k v)
  pub add_new :
      (db : r.Db) (k v : Bytes)
      → view db k ≡ none
      → ((r.add k v db).0 ≡ true) × (view (r.add k v db).1 ≡ update (view db) k v)
  pub add_old :
      (db : r.Db) (k v w : Bytes)
      → view db k ≡ some w
      → ((r.add k v db).0 ≡ false) × (view (r.add k v db).1 ≡ view db)
  -- A new cursor has a number of its own, and the others stay where they are.
  pub cursor-apart :
      (db : r.Db) (c : ℕ) (k : Bytes)
      → at db c ≡ some k
      → (c ≢ (r.cursor db).0) × (at (r.cursor db).1 c ≡ some k)
  pub cursor-twice : (db : r.Db) → (r.cursor db).0 ≢ (r.cursor (r.cursor db).1).0
  -- The other cursors stay where they are while one jumps.
  pub jump-apart : (db : r.Db) (c e : ℕ) (k : Bytes) → c ≢ e → at (r.jump e k db).1 c ≡ at db c
  -- The record at a cursor is removed, the cursor moves to another record or nowhere, and the cursors
  -- at other records stay where they are.
  pub remove-at :
      (db : r.Db) (c : ℕ) (k : Bytes)
      → at db c ≡ some k
      → ((r.remove c db).0 ≡ true) × (view (r.remove c db).1 ≡ forget (view db) k)
  pub remove-moves :
      (db : r.Db) (c : ℕ) (k : Bytes)
      → at db c ≡ some k
      → (at (r.remove c db).1 c ≡ none)
        ⊎ ((j v : Bytes) × (at (r.remove c db).1 c ≡ some j) × (view db j ≡ some v))
  pub remove-apart :
      (db : r.Db) (c e : ℕ) (k j : Bytes)
      → at db c ≡ some k
      → at db e ≡ some j
      → j ≢ k
      → at (r.remove c db).1 e ≡ some j
  -- A cursor stays where it is while a record is added.
  pub at-add : (db : r.Db) (c : ℕ) (k v : Bytes) → at (r.add k v db).1 c ≡ at db c
  pub replace_old :
      (db : r.Db) (k v w : Bytes)
      → view db k ≡ some w
      → ((r.replace k v db).0 ≡ true) × (view (r.replace k v db).1 ≡ update (view db) k v)
  pub replace_new :
      (db : r.Db) (k v : Bytes)
      → view db k ≡ none
      → ((r.replace k v db).0 ≡ false) × (view (r.replace k v db).1 ≡ view db)
  pub set_any :
      (db : r.Db) (k v : Bytes)
      → ((r.set k v db).0 ≡ true) × (view (r.set k v db).1 ≡ update (view db) k v)
  pub clear_all : (db : r.Db) → ((r.clear db).0 ≡ true) × (view (r.clear db).1 ≡ λ _. none)

module _ ⦃remote : RemoteDb⦄ where
  -- What a thread works on: the server, its tracker, and the messages that were published.
  pub record World : Type 0 where
    pub db : remote.Db
    pub tracker : Tracker
    pub sent : List Bytes

  abbrev pub M : Type 0 → Type 0
  M A = Exec World A

  -- A call of the server that changes it, or only reads it.
  abbrev pub call : {A : Type 0} → (remote.Db → A × remote.Db) → M A
  call f w = let (a, db) = f w.db in (ok a, record w { db = db })

  abbrev pub ask : {A : Type 0} → (remote.Db → A) → M A
  ask f w = (ok (f w.db), w)

  -- `announceOperation` of janosh.cpp, and the calls of `update` on the thread's tracker
  unfoldable pub announce : Bytes → Bytes → Operation → M (Unit {0})
  announce key value op w =
      let (t, messages) = Tracker.update w.tracker key value op in
      (ok tt, record w { tracker = t; sent = w.sent ++ messages })

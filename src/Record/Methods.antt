-- ===== src/Record/Methods.antt =====
-- The methods of record.cpp that use the cursor. A method works on the record and on the world; the
-- record is what `this` is, and `on` calls a method of a local record of a function.
use janosh.Common.{
  ℕ, zero, suc, [], Bool, true, false, not, Option, none, some, Bytes, codes, if◌then◌else◌,
}
use janosh.Result.{Result, ok, err, record_exception}
use janosh.Exec.{Exec, pure, lift, ◌>>=◌, ◌>>◌, guard}
use janosh.Component.{LexicalCast}
use janosh.Path
use janosh.Path.{KeyPath}
use janosh.Value
use janosh.Value.Stored.{of_stored}
use janosh.Tracker.{read}
use janosh.Remote.{RemoteDb, World, M, call, ask, announce}
use janosh.Record.{Record, has_data, get_size, clear}

abbrev pub with_record : {A : Type 0} → Record → Result A → Result (A × Record)
with_record r (ok a) = ok (a, r)
with_record r (err e) = err e

module _ ⦃cast : LexicalCast⦄ ⦃remote : RemoteDb⦄ where
  -- A method: the record and the world before and after.
  abbrev pub Method : Type 0 → Type 0
  Method A = Exec (Record × World) A

  -- The world's part of a method.
  abbrev pub in_world : {A : Type 0} → M A → Method A
  in_world m (r, w) = let (a, w') = m w in (a, (r, w'))

  abbrev pub self : Method Record
  self (r, w) = (ok r, (r, w))

  abbrev pub put : Record → Method (Unit {0})
  put r (_, w) = (ok tt, (r, w))

  -- The cursor, or the exception that every method begins with.
  abbrev pub cursor_ptr : Method ℕ
  cursor_ptr (r, w) = elim r.cursor [
    | none ↦ (err (record_exception "uninitialized record"), (r, w))
    | some c ↦ (ok c, (r, w))
  ]

  -- `RecordPool::get`: the path is read from its text, and a cursor is opened.
  unfoldable pub pool_get : Bytes → M Record
  pool_get text = do
    p ← lift (Path.update text)
    c ← call remote.cursor
    pure (record { cursor = some c; path = p; value = Value.uninitialized; does_exist = false })

  -- `Record::parent`
  unfoldable pub parent : Record → M Record
  unfolding pool_get
  parent r = do p ← lift (Path.parent r.path); pool_get p.key_str

  -- `Record::clone`
  unfoldable pub clone : Record → M Record
  unfolding pool_get
  clone r = pool_get r.path.key_str

  -- A call that fails leaves the text empty.
  abbrev pub or_empty : Option Bytes → Bytes
  or_empty none = []
  or_empty (some s) = s

  abbrev pub is_some : Option Bytes → Bool
  is_some none = false
  is_some (some s) = true

  unfoldable pub read_path : Method Bool
  read_path = do
    c ← cursor_ptr
    k ← in_world (ask (remote.get_key c))
    p ← lift (Path.update (or_empty k))
    r ← self
    put (record r { path = p })
    pure (is_some k)

  -- What `readValue` and `read` make of the text `v`.
  unfoldable pub take_value : Bytes → Method (Unit {0})
  take_value v = do
    r ← self
    in_world (announce r.path.pretty_str v read)
    x ← lift (of_stored r.path.directory r.path.wildcard r.value v)
    put (record r { value = x })

  unfoldable pub read_value : Method Bool
  unfolding take_value
  read_value = do
    c ← cursor_ptr
    r ← self
    guard (not (Path.is_empty r.path)) (record_exception "no value found")
    v ← in_world (ask (remote.get_value c))
    take_value (or_empty v)
    pure (is_some v)

  -- The two texts of `get(&k, &v)`, and its result.
  texts : Option (Bytes × Bytes) → Bytes × Bytes × Bool
  texts none = ([], [], false)
  texts (some (k, v)) = (k, v, true)

  -- `read`
  unfoldable pub read_record : Method Bool
  unfolding take_value texts
  read_record = do
    c ← cursor_ptr
    found ← in_world (ask (remote.get c))
    p ← lift (Path.update (texts found).0)
    r ← self
    put (record r { path = p })
    take_value (texts found).1
    pure (texts found).2

  unfoldable pub jump : KeyPath → Method Bool
  unfolding read_path
  jump p = do
    c ← cursor_ptr
    found ← in_world (call (remote.jump c p.key_str))
    if found then (do read_path; r ← self; pure (Path.equals r.path p)) else pure false

  abbrev pub set_own : KeyPath → Method (Unit {0})
  set_own p = do r ← self; put (record r { path = p })

  abbrev pub set_exists : Bool → Method (Unit {0})
  set_exists b = do r ← self; put (record r { does_exist = b })

  abbrev pub value_or_throw : Method (Unit {0})
  value_or_throw = do s ← read_value; guard s (record_exception "can't initialize")

  -- The branches of `init` behind its jumps.
  abbrev pub init_wildcard : KeyPath → Bool → Method (Unit {0})
  init_wildcard p true = do set_exists true; set_own p; value_or_throw
  init_wildcard p false = set_exists false

  abbrev pub init_path : Bool → Method (Unit {0})
  init_path true = do set_exists true; value_or_throw
  init_path false = set_exists false

  abbrev pub init_root : KeyPath → Method (Unit {0})
  init_root p = do
    c ← cursor_ptr
    in_world (call (remote.jump c (codes "/!")))
    set_own p
    value_or_throw
    set_exists true

  -- `init`
  unfoldable pub initialize : KeyPath → Method (Unit {0})
  unfolding jump read_value
  initialize p =
      if p.wildcard
      then (do d ← lift (Path.as_directory p); found ← jump d; init_wildcard p found)
      else if Path.is_root p
      then init_root p
      else (do found ← jump p; init_path found; set_own p)

  -- `fetch` reads a record that has no data yet.
  unfoldable pub fetch : Method (Unit {0})
  unfolding initialize
  fetch = do cursor_ptr; r ← self; if has_data r then pure tt else initialize r.path

  -- `setValue`
  unfoldable pub set_value : Bytes → Method Bool
  set_value v = do c ← cursor_ptr; in_world (call (remote.set_value c v))

  -- `get`
  unfoldable pub get : Method (Bytes × Bytes × Bool)
  unfolding texts
  get = do c ← cursor_ptr; found ← in_world (ask (remote.get c)); pure (texts found)

  -- `clear` as a method
  abbrev pub clear_own : Method (Unit {0})
  clear_own = do r ← self; put (clear r)

  abbrev pub after_step : Bool → Method (Unit {0})
  after_step true = do clear_own; read_record; pure tt
  after_step false = pure tt

  unfoldable pub step : Method Bool
  unfolding read_record
  step = do c ← cursor_ptr; moved ← in_world (call (remote.step c)); after_step moved; pure moved

  unfoldable pub step_back : Method Bool
  unfolding read_record
  step_back = do
    c ← cursor_ptr
    moved ← in_world (call (remote.step_back c))
    after_step moved
    pure moved

  -- `remove`: the record then stands for what the cursor has moved on to.
  unfoldable pub remove : Method (Unit {0})
  unfolding read_path
  remove = do
    c ← cursor_ptr
    removed ← in_world (call (remote.remove c))
    guard removed (record_exception "failed to remove record")
    clear_own
    read_path
    pure tt

  abbrev pub step_or_throw : Method (Unit {0})
  step_or_throw = do s ← step; guard s (record_exception "step failed")

  -- The loop of `next`.
  unfoldable pub steps : ℕ → Method (Unit {0})
  unfolding step
  steps zero = pure tt
  steps (suc n) = do step_or_throw; steps n

  -- `next` steps over a directory and as many records as it has members.
  unfoldable pub next : Method (Unit {0})
  unfolding steps
  next = do
    cursor_ptr
    r ← self
    if r.path.directory then (do n ← lift (get_size r); step_or_throw; steps n) else step_or_throw

-- A method of a local record of a function: the result, and the record after it.
module _ ⦃cast : LexicalCast⦄ ⦃remote : RemoteDb⦄ where
  abbrev pub on : {A : Type 0} → Record → Method A → M (A × Record)
  on r m w = let (a, (r', w')) = m (r, w) in (with_record r' a, w')

  -- `r.fetch()`
  abbrev pub fetched : Record → M Record
  fetched r = do (_, r') ← on r fetch; pure r'

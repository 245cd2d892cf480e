-- ===== src/Print/Walk.antt =====
-- `get`, `recurseValue` and `recurseDirectory` of janosh.cpp. The calls of the visitor are collected,
-- and printed at the end; `steps` bounds the walk over the records of a directory.
use janosh.Common.{
  ℕ, zero, suc, Bool, true, false, not, List, [], ◌∷◌, ◌++◌, Bytes, codes, ◌&&◌, ◌||◌,
  if◌then◌else◌, length, ltb,
}
use janosh.Result.{Result, ok, err, janosh_exception, out_of_fuel}
use janosh.Exec.{pure, throw, lift, ◌>>=◌, ◌>>◌, guard}
use janosh.Component
use janosh.Component.{Component, LexicalCast}
use janosh.Path
use janosh.Path.{KeyPath}
use janosh.Value.{Value, ValueType, array, object}
use janosh.Remote.{RemoteDb, M}
use janosh.Record
use janosh.Record.{Record}
use janosh.Record.Methods.{fetched, read_record, on}
use janosh.Record.Methods
use janosh.Record.Walks.{get_parents}
use janosh.Print.Visitors.{
  Format, json, Event, begin_array, begin_object, end_array, end_object, record_value, visit_all,
  opening, closing, newline,
}

abbrev pub is_json : Format → Bool
is_json json = true
is_json _ = false

-- What is open: the names of arrays and objects, the innermost first.
pub data Kind : Type 0 where
  is_array is_object : Kind

abbrev pub Hierarchy : Type 0
Hierarchy = List (Component × Kind)

abbrev pub end_of : Kind → Event
end_of is_array = end_array
end_of is_object = end_object

-- The loop that ends what is open, up to the name.
unfoldable pub end_up_to : Component → Hierarchy → List Event × Hierarchy
end_up_to name [] = ([], [])
end_up_to name ((c, k) ∷ rest) =
    let ended = end_up_to name rest in
    if Component.differs c name then (end_of k ∷ ended.0, ended.1) else ([], (c, k) ∷ rest)

-- The loop at the end of the walk.
unfoldable pub end_all : Hierarchy → List Event
end_all [] = []
end_all ((c, k) ∷ rest) = end_of k ∷ end_all rest

-- What a walk reads of a record, and of the path before.
pub record Visited : Type 0 where
  pub path : KeyPath
  pub value : Value
  pub type : ValueType
  pub parent : KeyPath

-- `last.isEmpty() || last == parent`
abbrev pub is_first : KeyPath → KeyPath → Bool
is_first last parent = Path.is_empty last || Path.equals last parent

abbrev pub in_array : Bool → Hierarchy → Bool
in_array root_in_array [] = root_in_array
in_array root_in_array ((c, is_array) ∷ rest) = true
in_array root_in_array ((c, is_object) ∷ rest) = false

abbrev pub is_nil : Bytes → Bool
is_nil [] = true
is_nil (c ∷ s) = false

-- The call for a record, and what is open after it; `nameless` says whether an object without a name
-- is begun.
unfoldable pub begin_visited : Bool → Bool → KeyPath → Visited → Hierarchy → List Event × Hierarchy
begin_visited nameless root_in_array last v h =
    let first = is_first last v.parent in
    let name = Path.name v.path in
    elim v.type [
      | array ↦ (begin_array v.path (in_array root_in_array h) first ∷ [], (name, is_array) ∷ h)
      | object ↦
          if nameless || not (is_nil name.pretty)
          then (begin_object v.path (in_array root_in_array h) first ∷ [], (name, is_object) ∷ h)
          else ([], h)
      | _ ↦ (record_value v.path v.value (in_array false h) first ∷ [], h)
    ]

module _ ⦃cast : LexicalCast⦄ where
  -- Whether the walk has left the innermost array or object.
  unfoldable pub leaves : KeyPath → KeyPath → Component → Result Bool
  leaves last path parent_name =
      if Path.above last path
      then ok false
      else if last.directory
      then ok (Component.differs parent_name (Path.name last))
      else (elim (Path.parent_name last) [
        | err e ↦ err e
        | ok n ↦ ok (Component.differs parent_name n)
      ])

  unfoldable pub end_left : KeyPath → Visited → Hierarchy → Result (List Event × Hierarchy)
  unfolding leaves
  end_left last v [] = ok ([], [])
  end_left last v (c ∷ rest) = elim (leaves last v.path (Path.name v.parent)) [
    | err e ↦ err e
    | ok left ↦ ok (if left then end_up_to (Path.name v.parent) (c ∷ rest) else ([], c ∷ rest))
  ]

  -- One round of the loops: what is left is ended, and the record begun.
  unfoldable pub visit_record :
      Bool → Bool → KeyPath → Visited → Hierarchy → Result (List Event × Hierarchy)
  unfolding begin_visited end_left
  visit_record nameless root_in_array last v h = elim (end_left last v h) [
    | err e ↦ err e
    | ok ended ↦
        (let begun = begin_visited nameless root_in_array last v ended.1 in
          ok (ended.0 ++ begun.0, begun.1))
  ]

  unfoldable pub visited : Record → Result Visited
  visited r = elim (Record.value_of r) [
    | err e ↦ err e
    | ok value ↦ (elim (Record.get_type r) [
      | err e ↦ err e
      | ok type ↦ (elim (Path.parent r.path) [
        | err e ↦ err e
        | ok parent ↦ ok (record { path = r.path; value = value; type = type; parent = parent })
      ])
    ])
  ]

module _ ⦃cast : LexicalCast⦄ ⦃remote : RemoteDb⦄ where
  -- The loop of `recurseValue`.
  unfoldable pub value_walk : Bool → KeyPath → List Record → Hierarchy → List Event → M (List Event)
  unfolding visited visit_record
  value_walk root_in_array last [] h es = pure (es ++ end_all h)
  value_walk root_in_array last (r ∷ rs) h es = do
    r' ← fetched r
    v ← lift (visited r')
    (new, h') ← lift (visit_record false root_in_array last v h)
    value_walk root_in_array v.path rs h' (es ++ new)

  unfoldable pub recurse_value : ℕ → Record → Bool → M (List Event)
  unfolding value_walk
  recurse_value steps r root_in_array = do
    parents ← get_parents steps r
    value_walk root_in_array Path.empty (parents ++ r ∷ []) [] []

  -- The loop of `recurseDirectory`, which stops behind the directory or where there is no next record.
  unfoldable pub directory_walk :
      ℕ → KeyPath → Bool → KeyPath → Record → Hierarchy → List Event → M (List Event)
  unfolding visited visit_record
  directory_walk zero root root_in_array last r h es = throw out_of_fuel
  directory_walk (suc steps) root root_in_array last r h es =
      let again = directory_walk steps root root_in_array in
      do
        v ← lift (visited r)
        if ltb 0 (length h) && not (Path.above root v.path) then pure (es ++ end_all h) else (do
          (new, h') ← lift (visit_record true root_in_array last v h)
          (moved, r') ← on r Methods.step
          if moved then again v.path r' h' (es ++ new) else pure ((es ++ new) ++ end_all h'))

  unfoldable pub recurse_directory : ℕ → Record → Bool → M (List Event)
  unfolding directory_walk
  recurse_directory steps dir root_in_array = do
    (_, r) ← on dir read_record
    directory_walk steps dir.path root_in_array Path.empty r [] []

  -- The walk that `get` calls for a record.
  unfoldable pub recurse : ℕ → Record → Bool → M (List Event)
  unfolding recurse_value recurse_directory
  recurse steps r root_in_array =
      if r.path.directory
      then recurse_directory steps r root_in_array
      else recurse_value steps r root_in_array

  -- The loop of `get`; with several records in JSON a comma stands between them.
  unfoldable pub get_each : ℕ → Format → Bool → Bool → List Record → M Bytes
  unfolding recurse
  get_each steps f many first [] = pure []
  get_each steps f many first (r ∷ rs) = do
    r' ← fetched r
    guard r'.does_exist (janosh_exception "Path not found")
    es ← recurse steps r' (not many)
    text ← lift (visit_all f es)
    rest ← get_each steps f many false rs
    pure ((if many && is_json f && not first then codes "," ++ newline else []) ++ text ++ rest)

  unfoldable pub get : ℕ → Format → List Record → M (ℕ × Bytes)
  unfolding get_each
  get steps f recs = do
    let many = ltb 1 (length recs)
    body ← get_each steps f many true recs
    let braces = many && is_json f
    pure (
      1,
      opening f
          ++ (if braces then codes "{" ++ newline else [])
          ++ body
          ++ (if braces then codes "}" ++ newline else [])
          ++ closing f,
    )

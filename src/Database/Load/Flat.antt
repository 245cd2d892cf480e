-- ===== src/Database/Load/Flat.antt =====
-- What `load` writes: the records of a JSON value below a path, in the order of the code.
use janosh.Common.{ℕ, ◌+◌, ◌^◌, ◌<◌, List, [], ◌∷◌, ◌++◌, ◌≡◌, Option, none, some, Bytes}
use janosh.Result.{ok}
use janosh.Component.{Component, LexicalCast, of_string}
use janosh.Component.Order.{index}
use janosh.Path.{KeyPath}
use janosh.Path.Compile.{compiled, NoSlash}
use janosh.Path.Algebra.{dot}
use janosh.Value.{ValueType, string, number, boolean, array, object, mark}
use janosh.Value.Stored.{descriptor}
use janosh.Json
use janosh.Json.{Json, Items, Fields, JsonSpirit}
use janosh.Remote.{RemoteDb, M, update}
use janosh.Record.Outcome.{View}
use janosh.Database.Load.{signed_text, bool_text, load, load_items, load_fields}

-- A value, or what is left of a loop over members.
pub data Part : Type 0 where
  value : Json → Part
  items : ℕ → Items → Part
  fields : Fields → Part

-- The records, written one after the other.
abbrev pub write_all : View → List (Bytes × Bytes) → View
write_all f [] = f
write_all f ((k, v) ∷ es) = write_all (update f k v) es

-- Every value counts, and every member of a container once more.
unfoldable mutual
  pub visits_of : Json → ℕ
  visits_of Json.null = 0
  visits_of (Json.array vs) = 1 + visits_of_items vs
  visits_of (Json.object fs) = 1 + visits_of_fields fs
  visits_of _ = 1

  pub visits_of_items : Items → ℕ
  visits_of_items Json.no_items = 0
  visits_of_items (Json.item v vs) = visits_of v + 1 + visits_of_items vs

  pub visits_of_fields : Fields → ℕ
  visits_of_fields Json.no_fields = 0
  visits_of_fields (Json.field n v fs) = visits_of v + 1 + visits_of_fields fs

abbrev pub visits : Part → ℕ
visits (value v) = visits_of v
visits (items i vs) = visits_of_items vs
visits (fields fs) = visits_of_fields fs

module _ ⦃cast : LexicalCast⦄ ⦃spirit : JsonSpirit⦄ where
  -- The type and the text of a scalar.
  abbrev pub scalar_of : Json → Option (ValueType × Bytes)
  scalar_of (Json.text s) = some (string, s)
  scalar_of (Json.integer i) = some (number, signed_text (2 ^ 32) (spirit.get_int i))
  scalar_of (Json.boolean b) = some (boolean, bool_text b)
  scalar_of (Json.real s) = some (number, s)
  scalar_of _ = none

  -- The records of a part below the components.
  pub data Flat : List Component → Part → List (Bytes × Bytes) → Type 0 where
    empty : {cs : List Component} → Flat cs (value Json.null) []
    scalar :
        {cs : List Component} (v : Json) (t : ValueType) (s : Bytes)
        → scalar_of v ≡ some (t, s)
        → Flat cs (value v) (((compiled cs).key_str, mark t s) ∷ [])
    whole_array :
        {cs : List Component} {vs : Items} {es : List (Bytes × Bytes)}
        → Json.count vs < 2 ^ 31
        → Flat cs (items 0 vs) es
        → Flat cs
            (value (Json.array vs))
            (((compiled (cs ++ dot ∷ [])).key_str, descriptor array (Json.count vs)) ∷ es)
    whole_object :
        {cs : List Component} {fs : Fields} {es : List (Bytes × Bytes)}
        → Json.count_fields fs < 2 ^ 64
        → Flat cs (fields fs) es
        → Flat cs
            (value (Json.object fs))
            (((compiled (cs ++ dot ∷ [])).key_str, descriptor object (Json.count_fields fs)) ∷ es)
    no_item : {cs : List Component} {i : ℕ} → Flat cs (items i Json.no_items) []
    an_item :
        {cs : List Component} {i : ℕ} {v : Json} {vs : Items} {es more : List (Bytes × Bytes)}
        → i + 1 < 2 ^ 31
        → Flat (cs ++ index i ∷ []) (value v) es
        → Flat cs (items (i + 1) vs) more
        → Flat cs (items i (Json.item v vs)) (es ++ more)
    no_field : {cs : List Component} → Flat cs (fields Json.no_fields) []
    a_field :
        {cs : List Component} {n : Bytes} {v : Json} {fs : Fields} {es more : List (Bytes × Bytes)}
        → (c : Component) → of_string n ≡ ok c
        → NoSlash c
        → Flat (cs ++ c ∷ []) (value v) es
        → Flat cs (fields fs) more
        → Flat cs (fields (Json.field n v fs)) (es ++ more)

module _ ⦃cast : LexicalCast⦄ ⦃remote : RemoteDb⦄ ⦃spirit : JsonSpirit⦄ where
  abbrev pub load_part : Part → KeyPath → M (ℕ × KeyPath)
  load_part (value v) path = load v path
  load_part (items i vs) path = load_items i vs path
  load_part (fields fs) path = load_fields fs path

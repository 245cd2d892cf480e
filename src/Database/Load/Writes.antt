-- ===== src/Database/Load/Writes.antt =====
-- `load` of a JSON value writes its records, one after the other.
use janosh.Common.{
  ℕ, ◌+◌, ◌%◌, ◌^◌, ◌<◌, List, [], ◌∷◌, ◌++◌, true, false, ◌≡◌, refl, ap, ◌∙◌, some, Bytes, codes,
  arith, All, All-append, init-concat, last?-concat,
}
use janosh.Result.{ok}
use janosh.Component
use janosh.Component.{Component, LexicalCast, to_text, of_string}
use janosh.Component.Order.{index, of_string-index_text}
use janosh.Path
use janosh.Path.{KeyPath, slash}
use janosh.Path.Compile.{compiled, NoSlash, rebuild-compiled}
use janosh.Path.Algebra.{dot, pop-compiled}
use janosh.Path.Family.{dot-HasKey, index-HasKey}
use janosh.Value
use janosh.Value.{Value, ValueType, string, number, boolean, array, object, is_scalar, mark}
use janosh.Value.Stored.{descriptor, is_container, container, of_stored-descriptor}
use janosh.Json
use janosh.Json.{Json, Items, Fields, JsonSpirit}
use janosh.Remote.{RemoteDb, IsMap, World, update}
use janosh.Record.Outcome.{View, Ends, called, announced}
use janosh.Database.Load.Flat.{
  Part, value, items, fields, write_all, visits_of, visits_of_items, visits_of_fields, visits,
  scalar_of, Flat, load_part, empty, scalar, whole_array, whole_object, no_item, an_item, no_field,
  a_field,
}
use janosh.Database.Load.{
  load_value, load_text, load_container, load, load_json, increment, to_size,
}

module _ ⦃cast : LexicalCast⦄ ⦃remote : RemoteDb⦄ ⦃spirit : JsonSpirit⦄ (laws : IsMap remote) where
  -- A value whose text in the database is `s` is written under the path.
  load_value-Ends :
      (p : KeyPath) (x : Value) (s : Bytes) (w : World) (f : View)
      → laws.view w.db ≡ f
      → Value.make_db_string x ≡ ok s
      → Ends laws (load_value p x) w 1 (update f p.key_str s)
  unfolding load_value
  load_value-Ends p x s w f hv text =
      let (told, _) = announced laws p.pretty_str s w f hv in
      let (set, wrote) = laws.set_any told.after.db p.key_str s in
      record {
        after = called laws (λ db. (remote.set p.key_str s db).1) told.after;
        run = rw text (rw told.run (rw set));
        view_after = wrote ∙ ap (λ g. update g p.key_str s) told.view_after;
      }

  scalar_text :
      (v : Json) (t : ValueType) (s : Bytes) (p : KeyPath)
      → scalar_of v ≡ some (t, s)
      → (load v p ≡ load_text p s t) × (is_scalar t ≡ true) × (visits_of v ≡ 1)
  unfolding load visits_of Path.push_index
  scalar_text (Json.text s') t s p e = (cc, cc, refl)
  scalar_text (Json.integer s') t s p e = (cc, cc, refl)
  scalar_text (Json.boolean s') t s p e = (cc, cc, refl)
  scalar_text (Json.real s') t s p e = (cc, cc, refl)
  scalar_text _ t s p e = cc

  of_type_scalar :
      (s : Bytes) (t : ValueType)
      → is_scalar t ≡ true
      → (x : Value) × (Value.of_type s t ≡ ok x) × (Value.make_db_string x ≡ ok (mark t s))
  unfolding Value.of_type Value.make_db_string
  of_type_scalar s string h = (_, refl, refl)
  of_type_scalar s number h = (_, refl, refl)
  of_type_scalar s boolean h = (_, refl, refl)
  of_type_scalar s _ h = cc

  load_text-Ends :
      (p : KeyPath) (s : Bytes) (t : ValueType) (w : World) (f : View)
      → laws.view w.db ≡ f
      → is_scalar t ≡ true
      → Ends laws (load_text p s t) w (1, p) (update f p.key_str (mark t s))
  unfolding load_text
  load_text-Ends p s t w f hv h =
      let (x, made, text) = of_type_scalar s t h in
      let done = load_value-Ends p x (mark t s) w f hv text in
      record { after = done.after; run = rw made (rw done.run); view_after = done.view_after }

  push-compiled :
      (cs : List Component) (n : Bytes) (c : Component)
      → of_string n ≡ ok c
      → NoSlash c
      → All NoSlash cs
      → Path.push_member (compiled cs) n ≡ ok (compiled (cs ++ c ∷ []))
  unfolding Path.push_member
  push-compiled cs n c e free h =
      rw e (rebuild-compiled (cs ++ c ∷ []) (All-append NoSlash cs (c ∷ []) h (free, tt)))

  pop_last :
      (cs : List Component) (c : Component)
      → NoSlash c
      → All NoSlash cs
      → Path.pop (compiled (cs ++ c ∷ [])) ≡ ok (compiled cs)
  pop_last cs c free h =
      pop-compiled (compiled (cs ++ c ∷ [])) (rw (last?-concat cs c, Path.back_is))
        (All-append NoSlash cs (c ∷ []) h (free, tt))
      ∙ ap (λ ds. ok (compiled ds)) (init-concat cs c)

  of_type-container :
      (t : ValueType) (n : ℕ)
      → is_container t ≡ true
      → n < 2 ^ 64
      → (Value.of_type (descriptor t n) t ≡ ok (container t n))
        × (Value.make_db_string (container t n) ≡ ok (descriptor t n))
  unfolding Value.of_type Value.Stored.of_stored Value.of_directory
  of_type-container array n h small =
      let (read, _, _, text) = of_stored-descriptor array n false Value.uninitialized h small in
      (read, text)
  of_type-container object n h small =
      let (read, _, _, text) = of_stored-descriptor object n false Value.uninitialized h small in
      (read, text)
  of_type-container _ n h small = cc

  dot_read : of_string (codes ".") ≡ ok dot
  unfolding of_string
  dot_read = refl

  load_container-Ends :
      (cs : List Component) (t : ValueType) (n : ℕ) (w : World) (f : View)
      → laws.view w.db ≡ f
      → is_container t ≡ true
      → n < 2 ^ 64
      → All NoSlash cs
      → Ends laws
          (load_container (compiled cs) (descriptor t n) t)
          w
          (1, compiled cs)
          (update f (compiled (cs ++ dot ∷ [])).key_str (descriptor t n))
  unfolding load_container
  load_container-Ends cs t n w f hv h small free =
      let (made, text) = of_type-container t n h small in
      let dir = compiled (cs ++ dot ∷ []) in
      let done = load_value-Ends dir (container t n) (descriptor t n) w f hv text in
      record {
        after = done.after;
        run =
            rw (push-compiled cs (codes ".") dot dot_read dot-HasKey.no_slash free)
              (rw made (rw done.run (rw (pop_last cs dot dot-HasKey.no_slash free))));
        view_after = done.view_after;
      }

  write_all-append :
      (f : View) (es more : List (Bytes × Bytes))
      → write_all (write_all f es) more ≡ write_all f (es ++ more)
  write_all-append f [] more = refl
  write_all-append f ((k, v) ∷ es) more = write_all-append (update f k v) es more

  index_read : (i : ℕ) → i < 2 ^ 64 → of_string (Component.index_mark ∷ to_text i) ≡ ok (index i)
  index_read i h = of_string-index_text i h

  increment_small : (i : ℕ) → i + 1 < 2 ^ 31 → increment i ≡ ok (i + 1)
  unfolding increment
  increment_small i h = ground arith

  to_size_small : (i : ℕ) → i + 1 < 2 ^ 31 → to_size i ≡ i
  unfolding to_size
  to_size_small i h = ground arith

  -- The counts of a loop's step, modulo 2 ^ 64.
  step_count : (a b : ℕ) → (a % 2 ^ 64 + 1 + b % 2 ^ 64) % 2 ^ 64 ≡ (a + 1 + b) % 2 ^ 64
  step_count a b = omega arith

  whole_count : (b : ℕ) → (1 + b % 2 ^ 64) % 2 ^ 64 ≡ (1 + b) % 2 ^ 64
  whole_count b = omega arith

  load_part-Ends :
      (cs : List Component) (part : Part) (es : List (Bytes × Bytes)) (w : World) (f : View)
      → laws.view w.db ≡ f
      → All NoSlash cs
      → Flat cs part es
      → Ends laws
          (load_part part (compiled cs))
          w
          (visits part % 2 ^ 64, compiled cs)
          (write_all f es)
  unfolding load visits_of Path.push_index
  load_part-Ends cs (value Json.null) [] w f hv free empty = record {
    after = w;
    run = refl;
    view_after = hv;
  }
  load_part-Ends cs (value x) es w f hv free (scalar v t s e) =
      let (runs, is, one) = scalar_text v t s (compiled cs) e in
      let done = load_text-Ends (compiled cs) s t w f hv is in
      record { after = done.after; run = rw runs (rw one done.run); view_after = done.view_after }
  load_part-Ends cs (value (Json.array vs)) es w f hv free (whole_array small rest) =
      let dir =
        load_container-Ends cs array (Json.count vs) w f hv refl (omega (arith, small)) free in
      let done = load_part-Ends cs (items 0 vs) _ dir.after _ dir.view_after free rest in
      record {
        after = done.after;
        run = rw dir.run (
            rw done.run
              (ap (λ m. (ok (m, compiled cs), done.after)) (whole_count (visits_of_items vs))));
        view_after = done.view_after;
      }
  load_part-Ends cs (value (Json.object fs)) es w f hv free (whole_object small rest) =
      let dir = load_container-Ends cs object (Json.count_fields fs) w f hv refl small free in
      let done = load_part-Ends cs (fields fs) _ dir.after _ dir.view_after free rest in
      record {
        after = done.after;
        run = rw dir.run (
            rw done.run
              (ap (λ m. (ok (m, compiled cs), done.after)) (whole_count (visits_of_fields fs))));
        view_after = done.view_after;
      }
  load_part-Ends cs (items i Json.no_items) es w f hv free no_item = record {
    after = w;
    run = refl;
    view_after = hv;
  }
  load_part-Ends cs (items i (Json.item v vs)) es w f hv free
        (an_item {es = es1} {more = more} few first rest) =
      let small : i < 2 ^ 64 = omega (arith, few) in
      let down = All-append NoSlash cs (index i ∷ []) free ((index-HasKey i small).no_slash, tt) in
      let one = load_part-Ends (cs ++ index i ∷ []) (value v) es1 w f hv down first in
      let done = load_part-Ends cs (items (i + 1) vs) more one.after _ one.view_after free rest in
      record {
        after = done.after;
        run =
            rw (increment_small i few, to_size_small i few)
              (rw
                (push-compiled cs _ (index i) (index_read i small) (index-HasKey i small).no_slash
                  free)
                (rw one.run (
                  rw (pop_last cs (index i) (index-HasKey i small).no_slash free) (
                    rw done.run (
                      ap (λ m. (ok (m, compiled cs), done.after))
                        (step_count (visits_of v) (visits_of_items vs)))))));
        view_after = done.view_after ∙ write_all-append f es1 more;
      }
  load_part-Ends cs (fields Json.no_fields) es w f hv free no_field = record {
    after = w;
    run = refl;
    view_after = hv;
  }
  load_part-Ends cs (fields (Json.field n v fs)) es w f hv free
        (a_field {es = es1} {more = more} c reads no_slash first rest) =
      let down = All-append NoSlash cs (c ∷ []) free (no_slash, tt) in
      let one = load_part-Ends (cs ++ c ∷ []) (value v) es1 w f hv down first in
      let done = load_part-Ends cs (fields fs) more one.after _ one.view_after free rest in
      record {
        after = done.after;
        run = rw (push-compiled cs n c reads no_slash free) (
            rw one.run (
              rw (pop_last cs c no_slash free) (
                rw done.run (
                  ap (λ m. (ok (m, compiled cs), done.after))
                    (step_count (visits_of v) (visits_of_fields fs))))));
        view_after = done.view_after ∙ write_all-append f es1 more;
      }

  -- From any records, loading a JSON value with fewer than 2 ^ 31 members in every array and fewer
  -- than 2 ^ 64 in every object, whose member names are read as components without a slash,
  -- succeeds, writes exactly the records of its containers and scalars in document order, each
  -- container's record with its number of members, and returns the number of values and members
  -- visited, modulo 2 ^ 64.
  pub load_json-Ends :
      (v : Json) (es : List (Bytes × Bytes)) (w : World) (f : View)
      → laws.view w.db ≡ f
      → Flat [] (value v) es
      → Ends laws (load_json v) w (visits_of v % 2 ^ 64) (write_all f es)
  unfolding load_json
  load_json-Ends v es w f hv flat =
      let done = load_part-Ends [] (value v) es w f hv tt flat in
      record { after = done.after; run = rw done.run; view_after = done.view_after }

-- ===== src/Print/Document.antt =====
-- While a document is built, the visitor's stack has what is open, and the root again at the end.
use janosh.Common.{
  ltb, length, ◌≡◌, refl, sym, ◌∙◌, Bool, true, false, not, List, [], ◌∷◌, Option, none, some,
  Bytes, arith, ℕ, subst, ap, inl, inr, Bool-cases, if◌then◌else◌,
}
use janosh.Result.{janosh_exception, Result, ok, ok_injective, >>=-eq-ok}
use janosh.Exec.{lift, guard, continue_returns, pure_returns}
use janosh.Component.{LexicalCast}
use janosh.Path
use janosh.Path.{KeyPath}
use janosh.Value
use janosh.Value.{Value}
use janosh.Remote.{RemoteDb, World}
use janosh.Record.{Record}
use janosh.Record.Methods.{fetched}
use janosh.Print.Visitors.{
  Format, Event, begin_array, begin_object, end_array, end_object, record_value,
}
use janosh.Print.Walk.{Kind, is_array, is_object, recurse}
use janosh.Print.Balance.{after_events}
use janosh.Print.Recurse.{recurse-Balanced}
use janosh.Print.JsonPath.{
  Jsoncons, Visitor, Item, new_visitor, begin, end_container, top, put_item, visit_path,
  visit_path_all, item_of,
}
use janosh.Print.Escape.{escape}
use janosh.Print.Filter.{build_each, build}

some_injective : {A : Type 0} {x y : A} → some x ≡ some y → x ≡ y
some_injective e = cc

module _ ⦃lib : Jsoncons⦄ where
  -- One pointer for each kind that is open, above those that were there.
  abbrev Above : List lib.Ref → List Kind → List lib.Ref → Type 0
  Above base [] refs = refs ≡ base
  Above base (k ∷ ks) refs =
      (r : lib.Ref) × (rest : List lib.Ref) × (refs ≡ r ∷ rest) × Above base ks rest

  begin-Above :
      (item : Item) (p : KeyPath) (v w : Visitor)
      → begin item p v ≡ ok w
      → (r : lib.Ref) × (w.hierarchy ≡ r ∷ v.hierarchy)
  unfolding begin
  begin-Above item p v w e =
      let (r, _, q) = >>=-eq-ok (top v) _ e in
      elim (Bool-cases (lib.is_array r v.doc)) [
        | inl b ↦
            let (doc, _, o) = >>=-eq-ok (lib.push_back r item v.doc) _ (rw b at q) in
            (lib.last r doc, ap (λ (u : Visitor). u.hierarchy) (sym (ok_injective o)))
        | inr b ↦
            let (doc, _, o) =
              >>=-eq-ok (lib.assign r (escape (Path.name p).pretty) item v.doc) _ (rw b at q) in
            let (inner, _, i) = >>=-eq-ok (lib.at r (escape (Path.name p).pretty) doc) _ o in
            (inner, ap (λ (u : Visitor). u.hierarchy) (sym (ok_injective i)))
      ]

  end_container-Above :
      (v w : Visitor) (r : lib.Ref) (rest : List lib.Ref)
      → end_container v ≡ ok w
      → v.hierarchy ≡ r ∷ rest
      → w.hierarchy ≡ rest
  unfolding end_container
  end_container-Above v w r rest e h = ground arith

  put_item-Above :
      (in_array : Bool) (name : Bytes) (item : Option Item) (v w : Visitor)
      → put_item in_array name item v ≡ ok w
      → w.hierarchy ≡ v.hierarchy
  unfolding put_item
  put_item-Above in_array name none v w e = ap (λ (u : Visitor). u.hierarchy) (sym (ok_injective e))
  put_item-Above in_array name (some item) v w e =
      let (r, _, q) = >>=-eq-ok (top v) _ e in
      let (doc, _, o) =
        >>=-eq-ok (if in_array then lib.push_back r item v.doc else lib.assign r name item v.doc) _
          q in
      ap (λ (u : Visitor). u.hierarchy) (sym (ok_injective o))

  visit_path_all-Above :
      (base : List lib.Ref) (es : List Event) (ks ks' : List Kind) (v w : Visitor)
      → visit_path_all es v ≡ ok w
      → after_events es ks ≡ some ks'
      → Above base ks v.hierarchy
      → Above base ks' w.hierarchy
  unfolding visit_path_all visit_path after_events
  visit_path_all-Above base [] ks ks' v w e o above =
      subst (λ (l : List Kind). Above base l w.hierarchy) (some_injective o)
        (subst (λ (u : Visitor). Above base ks u.hierarchy) (ok_injective e) above)
  visit_path_all-Above base (begin_array p a f ∷ es) ks ks' v w e o above =
      let (u, b, q) = >>=-eq-ok (begin Item.empty_array p v) _ e in
      let (r, h) = begin-Above Item.empty_array p v u b in
      visit_path_all-Above base es (is_array ∷ ks) ks' u w q o (r, v.hierarchy, h, above)
  visit_path_all-Above base (begin_object p a f ∷ es) ks ks' v w e o above =
      let (u, b, q) = >>=-eq-ok (begin Item.empty_object p v) _ e in
      let (r, h) = begin-Above Item.empty_object p v u b in
      visit_path_all-Above base es (is_object ∷ ks) ks' u w q o (r, v.hierarchy, h, above)
  visit_path_all-Above base (record_value p x a f ∷ es) ks ks' v w e o above =
      let (u, b, q) = >>=-eq-ok (visit_path (record_value p x a f) v) _ e in
      let (s, _, b1) = >>=-eq-ok (Value.str x) _ b in
      let (item, _, b2) = >>=-eq-ok (item_of x.type (escape s)) _ b1 in
      visit_path_all-Above base es ks ks' u w q o (
        subst (Above base ks) (sym (put_item-Above a (escape (Path.name p).pretty) item v u b2))
          above)
  visit_path_all-Above base (end_array ∷ es) (is_array ∷ ks) ks' v w e o (r, rest, h, above) =
      let (u, b, q) = >>=-eq-ok (end_container v) _ e in
      visit_path_all-Above base es ks ks' u w q o
        (subst (Above base ks) (sym (end_container-Above v u r rest b h)) above)
  visit_path_all-Above base (end_object ∷ es) (is_object ∷ ks) ks' v w e o (r, rest, h, above) =
      let (u, b, q) = >>=-eq-ok (end_container v) _ e in
      visit_path_all-Above base es ks ks' u w q o
        (subst (Above base ks) (sym (end_container-Above v u r rest b h)) above)
  visit_path_all-Above base (end_array ∷ es) (is_object ∷ ks) ks' v w e o above = cc
  visit_path_all-Above base (end_array ∷ es) [] ks' v w e o above = cc
  visit_path_all-Above base (end_object ∷ es) (is_array ∷ ks) ks' v w e o above = cc
  visit_path_all-Above base (end_object ∷ es) [] ks' v w e o above = cc

module _ ⦃cast : LexicalCast⦄ ⦃remote : RemoteDb⦄ ⦃lib : Jsoncons⦄ where
  build_each-root :
      (steps : ℕ) (f : Format) (many first : Bool) (recs : List Record) (v : Visitor) (w w' : World)
      (built : Visitor × Bytes)
      → build_each steps f many first recs v w ≡ (ok built, w')
      → built.0.hierarchy ≡ v.hierarchy
  unfolding build_each
  build_each-root steps f many first [] v w w' built e =
      ap (λ (b : Visitor × Bytes). b.0.hierarchy) (sym (pure_returns e))
  build_each-root steps f many first (r ∷ rs) v w w' built e =
      let (r', w1, p1, q1) = continue_returns (fetched r w) _ e in
      let (_, w2, p2, q2) =
        continue_returns (guard r'.does_exist (janosh_exception "Path not found") w1) _ q1 in
      let (es, w3, p3, q3) = continue_returns (recurse steps r' (not many) w2) _ q2 in
      let (u, w4, p4, q4) = continue_returns (lift (visit_path_all es v) w3) _ q3 in
      let (inner, w5, p5, q5) = continue_returns (build_each steps f many false rs u w4) _ q4 in
      let visited : visit_path_all es v ≡ ok u = ap (λ (x : Result Visitor × World). x.0) p4 in
      ap (λ (b : Visitor × Bytes). b.0.hierarchy) (sym (pure_returns q5))
      ∙ build_each-root steps f many false rs u w4 w5 inner p5
      ∙ visit_path_all-Above v.hierarchy es [] [] v u visited
          (recurse-Balanced steps r' (not many) w2 p3) refl

  -- Whatever the server and the JSON library answer: if `get` with the JSON path visitor returns,
  -- for any records and any number of steps, then the stack of the visitor holds the pointer to the
  -- root of the document, and nothing else.
  pub build-root :
      (steps : ℕ) (f : Format) (recs : List Record) (w : World) {built : Visitor × Bytes}
      {w' : World}
      → build steps f recs w ≡ (ok built, w')
      → built.0.hierarchy ≡ lib.root ∷ []
  unfolding build
  build-root steps f recs w {w' = w'} e =
      let (inner, w1, p1, q1) =
        continue_returns (build_each steps f (ltb 1 (length recs)) true recs new_visitor w) _ e in
      ap (λ (b : Visitor × Bytes). b.0.hierarchy) (sym (pure_returns q1))
      ∙ build_each-root steps f (ltb 1 (length recs)) true recs new_visitor w w1 inner p1

-- ===== src/Print/Balance.antt =====
-- What a walk begins it also ends, in the order that brackets need.
use janosh.Common.{
  ◌≡◌, refl, ◌∙◌, Bool, List, [], ◌∷◌, ◌++◌, Option, none, some, arith, Bool-cases, inl, inr,
}
use janosh.Result.{Result, ok, err}
use janosh.Component
use janosh.Component.{Component, LexicalCast}
use janosh.Path
use janosh.Path.{KeyPath}
use janosh.Print.Visitors.{Event, begin_array, begin_object, end_array, end_object, record_value}
use janosh.Print.Walk.{
  Kind, is_array, is_object, Hierarchy, end_of, end_up_to, end_all, Visited, begin_visited,
  end_left, leaves, visit_record,
}

-- The kinds that are open after some calls, from those that were open before; `none` where an end
-- does not fit what was begun last.
unfoldable pub after_events : List Event → List Kind → Option (List Kind)
after_events [] open_kinds = some open_kinds
after_events (begin_array p a f ∷ es) open_kinds = after_events es (is_array ∷ open_kinds)
after_events (begin_object p a f ∷ es) open_kinds = after_events es (is_object ∷ open_kinds)
after_events (record_value p v a f ∷ es) open_kinds = after_events es open_kinds
after_events (end_array ∷ es) (is_array ∷ open_kinds) = after_events es open_kinds
after_events (end_object ∷ es) (is_object ∷ open_kinds) = after_events es open_kinds
after_events (end_array ∷ es) _ = none
after_events (end_object ∷ es) _ = none

abbrev pub kinds : Hierarchy → List Kind
kinds [] = []
kinds ((c, k) ∷ h) = k ∷ kinds h

abbrev then_events : Option (List Kind) → List Event → Option (List Kind)
then_events none es = none
then_events (some open_kinds) es = after_events es open_kinds

after_events-append :
    (es fs : List Event) (open_kinds : List Kind)
    → after_events (es ++ fs) open_kinds ≡ then_events (after_events es open_kinds) fs
unfolding after_events
after_events-append [] fs open_kinds = refl
after_events-append (begin_array p a f ∷ es) fs open_kinds =
    after_events-append es fs (is_array ∷ open_kinds)
after_events-append (begin_object p a f ∷ es) fs open_kinds =
    after_events-append es fs (is_object ∷ open_kinds)
after_events-append (record_value p v a f ∷ es) fs open_kinds = after_events-append es fs open_kinds
after_events-append (end_array ∷ es) fs (is_array ∷ open_kinds) =
    after_events-append es fs open_kinds
after_events-append (end_array ∷ es) fs (is_object ∷ open_kinds) = refl
after_events-append (end_array ∷ es) fs [] = refl
after_events-append (end_object ∷ es) fs (is_object ∷ open_kinds) =
    after_events-append es fs open_kinds
after_events-append (end_object ∷ es) fs (is_array ∷ open_kinds) = refl
after_events-append (end_object ∷ es) fs [] = refl

after_end_of :
    (k : Kind) (es : List Event) (open_kinds : List Kind)
    → after_events (end_of k ∷ es) (k ∷ open_kinds) ≡ after_events es open_kinds
unfolding after_events
after_end_of is_array es open_kinds = refl
after_end_of is_object es open_kinds = refl

end_all-ends : (h : Hierarchy) → after_events (end_all h) (kinds h) ≡ some []
unfolding end_all
end_all-ends [] = unfold after_events in refl
end_all-ends ((c, k) ∷ h) = after_end_of k (end_all h) (kinds h) ∙ end_all-ends h

end_up_to-ends :
    (name : Component) (h : Hierarchy)
    → after_events (end_up_to name h).0 (kinds h) ≡ some (kinds (end_up_to name h).1)
unfolding end_up_to
end_up_to-ends name [] = unfold after_events in refl
end_up_to-ends name ((c, k) ∷ h) = elim (Bool-cases (Component.differs c name)) [
  | inl e ↦ rw e (after_end_of k (end_up_to name h).0 (kinds h) ∙ end_up_to-ends name h)
  | inr e ↦ rw e (unfold after_events in refl)
]

begin_visited-begins :
    (nameless root_in_array : Bool) (last : KeyPath) (v : Visited) (h : Hierarchy)
    → after_events (begin_visited nameless root_in_array last v h).0 (kinds h)
      ≡ some (kinds (begin_visited nameless root_in_array last v h).1)
unfolding begin_visited after_events
begin_visited-begins nameless root_in_array last v h = ground arith

module _ ⦃cast : LexicalCast⦄ where
  end_left-ends :
      (last : KeyPath) (v : Visited) (h : Hierarchy) (ended : List Event × Hierarchy)
      → end_left last v h ≡ ok ended
      → after_events ended.0 (kinds h) ≡ some (kinds ended.1)
  unfolding end_left after_events
  end_left-ends last v [] ended e = ground arith
  end_left-ends last v (c ∷ h) ended e = ground (arith, end_up_to-ends (Path.name v.parent) (c ∷ h))

  pub visit_record-Kinds :
      (nameless root_in_array : Bool) (last : KeyPath) (v : Visited) (h : Hierarchy)
      (done : List Event × Hierarchy)
      → visit_record nameless root_in_array last v h ≡ ok done
      → after_events done.0 (kinds h) ≡ some (kinds done.1)
  unfolding visit_record
  visit_record-Kinds nameless root_in_array last v h done e = ended (end_left last v h) refl
    where
      ended :
          (r : Result (List Event × Hierarchy))
          → end_left last v h ≡ r
          → after_events done.0 (kinds h) ≡ some (kinds done.1)
      ended (err x) p = ground arith
      ended (ok (es, h')) p = ground (
        arith,
        end_left-ends last v h (es, h') p,
        begin_visited-begins nameless root_in_array last v h',
        after_events-append es (begin_visited nameless root_in_array last v h').0 (kinds h),
      )

-- Calls so far that leave the hierarchy open.
abbrev pub Leaves : List Event → Hierarchy → Type 0
Leaves es h = after_events es [] ≡ some (kinds h)

pub Leaves-end_all :
    (es : List Event) (h : Hierarchy) → Leaves es h → after_events (es ++ end_all h) [] ≡ some []
Leaves-end_all es h leaves = rw (after_events-append es (end_all h) [], leaves) (end_all-ends h)

pub Leaves-append :
    (es new : List Event) (h h' : Hierarchy)
    → Leaves es h
    → after_events new (kinds h) ≡ some (kinds h')
    → Leaves (es ++ new) h'
Leaves-append es new h h' leaves e = rw (after_events-append es new [], leaves) e

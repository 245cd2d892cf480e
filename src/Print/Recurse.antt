-- ===== src/Print/Recurse.antt =====
-- The walks of `get` end what they have begun, whatever the server answers.
use janosh.Common.{
  ℕ, zero, suc, ◌&&◌, length, ltb, ◌≡◌, refl, ap, Bool, true, false, not, List, [], ◌∷◌, ◌++◌, some,
  arith, Bool-cases, inl, inr,
}
use janosh.Result.{Result, ok}
use janosh.Exec.{continue_returns, branch_returns, pure_returns, lift}
use janosh.Remote.{RemoteDb, World}
use janosh.Record.{Record}
use janosh.Record.Methods.{fetched, on, read_record}
use janosh.Record.Walks.{get_parents}
use janosh.Record.Methods
use janosh.Component.{LexicalCast}
use janosh.Path
use janosh.Path.{KeyPath}
use janosh.Print.Visitors.{Event}
use janosh.Print.Walk.{
  Hierarchy, leaves, visit_record, visited, value_walk, recurse_value, directory_walk,
  recurse_directory, recurse,
}
use janosh.Print.Balance.{after_events, Leaves, Leaves-end_all, Leaves-append, visit_record-Kinds}

module _ ⦃cast : LexicalCast⦄ ⦃remote : RemoteDb⦄ where
  value_walk-Balanced :
      (root_in_array : Bool) (last : KeyPath) (rs : List Record) (h : Hierarchy) (es : List Event)
      (w : World) {out : List Event} {w' : World}
      → value_walk root_in_array last rs h es w ≡ (ok out, w')
      → Leaves es h
      → after_events out [] ≡ some []
  unfolding value_walk
  value_walk-Balanced root_in_array last [] h es w e leaves =
      ground (arith, Leaves-end_all es h leaves)
  value_walk-Balanced root_in_array last (r ∷ rs) h es w e leaves =
      let (r', w1, p1, q1) = continue_returns (fetched r w) _ e in
      let (v, w2, p2, q2) = continue_returns (lift (visited r') w1) _ q1 in
      let (done, w3, p3, q3) =
        continue_returns (lift (visit_record false root_in_array last v h) w2) _ q2 in
      value_walk-Balanced root_in_array v.path rs done.1 (es ++ done.0) w3 q3 (
        Leaves-append es done.0 h done.1 leaves (
          visit_record-Kinds false root_in_array last v h done
            (ap (λ (r : Result (List Event × Hierarchy) × World). r.0) p3)))

  directory_walk-Balanced :
      (steps : ℕ) (root : KeyPath) (root_in_array : Bool) (last : KeyPath) (r : Record)
      (h : Hierarchy) (es : List Event) (w : World) {out : List Event} {w' : World}
      → directory_walk steps root root_in_array last r h es w ≡ (ok out, w')
      → Leaves es h
      → after_events out [] ≡ some []
  unfolding directory_walk
  directory_walk-Balanced zero root root_in_array last r h es w e leaves = cc
  directory_walk-Balanced (suc steps) root root_in_array last r h es w e leaves =
      let (v, w1, p1, q1) = continue_returns (lift (visited r) w) _ e in
      elim (Bool-cases (ltb 0 (length h) && not (Path.above root v.path))) [
        | inl c ↦ let ended = rw c at q1 in rw (← pure_returns ended) (Leaves-end_all es h leaves)
        | inr c ↦
            let goes_on = rw c at q1 in
            let (done, w2, p2, q2) =
              continue_returns (lift (visit_record true root_in_array last v h) w1) _ goes_on in
            let leaves' = Leaves-append es done.0 h done.1 leaves (
              visit_record-Kinds true root_in_array last v h done
                (ap (λ (r : Result (List Event × Hierarchy) × World). r.0) p2)) in
            let (moved, w3, p3, q3) = continue_returns (on r Methods.step w2) _ q2 in
            elim (Bool-cases moved.0) [
              | inl m ↦
                  let more = rw m at q3 in
                  directory_walk-Balanced steps root root_in_array v.path moved.1 done.1
                    (es ++ done.0) w3 more leaves'
              | inr m ↦
                  let last_one = rw m at q3 in
                  rw (← pure_returns last_one) (Leaves-end_all (es ++ done.0) done.1 leaves')
            ]
      ]

  -- Whatever the server answers: if a walk of `get` over a record returns, whichever number of
  -- steps bounds it, then each array and object that it has begun it has also ended, the innermost
  -- first, and nothing else.
  pub recurse-Balanced :
      (steps : ℕ) (r : Record) (root_in_array : Bool) (w : World) {es : List Event} {w' : World}
      → recurse steps r root_in_array w ≡ (ok es, w')
      → after_events es [] ≡ some []
  unfolding recurse recurse_value recurse_directory
  recurse-Balanced steps r root_in_array w e =
      elim (branch_returns r.path.directory (recurse_directory steps r root_in_array)
        (recurse_value steps r root_in_array) w e) [
          | inl dir ↦
              let (start, w1, p1, q1) =
                continue_returns (on r read_record w)
                  (λ (start : Bool × Record).
                    directory_walk steps r.path root_in_array Path.empty start.1 [] [])
                  dir in
              directory_walk-Balanced steps r.path root_in_array Path.empty start.1 [] [] w1 q1
                (unfold after_events in refl)
          | inr value ↦
              let (parents, w1, p1, q1) =
                continue_returns (get_parents steps r w)
                  (λ (parents : List Record).
                    value_walk root_in_array Path.empty (parents ++ r ∷ []) [] [])
                  value in
              value_walk-Balanced root_in_array Path.empty (parents ++ r ∷ []) [] [] w1 q1
                (unfold after_events in refl)
        ]

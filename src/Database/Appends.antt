-- ===== src/Database/Appends.antt =====
-- `append` of values to an array: the loop, and the size that is written behind it.
use janosh.Common.{
  ℕ, ◌+◌, ◌%◌, ◌^◌, ◌<◌, List, [], ◌∷◌, true, ◌≡◌, sym, ap, ◌∙◌, Option, none, some, Bytes, arith,
  length,
}
use native.Mathlib.Nat.{mod-eq_of_lt}
use janosh.Result.{ok}
use janosh.Component.{LexicalCast}
use janosh.Path
use janosh.Path.{KeyPath}
use janosh.Value
use janosh.Value.{Value, array}
use janosh.Value.Stored.{descriptor, container}
use janosh.Remote.{RemoteDb, IsMap, World, update}
use janosh.Record
use janosh.Record.{Record}
use janosh.Record.Fetch.{opened, found}
use janosh.Record.Outcome.{View, Ends, called, announced}
use janosh.Database.{append_from, append_values}
use janosh.Database.Containers.{
  HasContainer, fetched_container, get_size-container, set_container_size-Ends,
}

module _ ⦃cast : LexicalCast⦄ where
  -- The values become records at the index `i` of the directory and the indices after it, where
  -- there was no record.
  pub data Appends (d : KeyPath) : ℕ → List Value → View → View → Type 0 where
    done : {i : ℕ} {f : View} → Appends d i [] f f
    one :
        {i : ℕ} {v : Value} {vs : List Value} {f g : View} (q : KeyPath) (s : Bytes)
        → Path.with_index d i ≡ ok q
        → Value.make_db_string v ≡ ok s
        → f q.key_str ≡ none
        → Appends d (i + 1) vs (update f q.key_str s) g
        → Appends d i (v ∷ vs) f g

module _ ⦃cast : LexicalCast⦄ ⦃remote : RemoteDb⦄ (laws : IsMap remote) where
  -- The loop ends with the number of values, and the cursor `c` stays where it was.
  append_from-Ends :
      (c : ℕ) (d : KeyPath) (n cnt total : ℕ) (vs : List Value) (w : World) (f g : View)
      (k : Option Bytes)
      → laws.view w.db ≡ f
      → laws.at w.db c ≡ k
      → n + total < 2 ^ 64
      → total ≡ cnt + length vs
      → (i : ℕ) → i ≡ n + cnt
      → Appends d i vs f g
      → (e : Ends laws (append_from d n cnt vs) w total g) × (laws.at e.after.db c ≡ k)
  unfolding append_from
  append_from-Ends c d n cnt total [] w f g k hv at small sum i is_i done =
      let same : cnt ≡ total = omega arith in
      (record { after = w; run = ap (λ m. (ok m, w)) same; view_after = hv }, at)
  append_from-Ends c d n cnt total (v ∷ vs) w f g k hv at small sum i is_i
        (one q s index text free more) =
      let (told, same_db) = announced laws q.pretty_str s w f hv in
      let (new, wrote) =
        laws.add_new told.after.db q.key_str s (ap (λ h. h q.key_str) told.view_after ∙ free) in
      let w' = called laws (λ db. (remote.add q.key_str s db).1) told.after in
      let (rest, at') =
        append_from-Ends c d n (cnt + 1) total vs w' (update f q.key_str s) g k
          (wrote ∙ ap (λ h. update h q.key_str s) told.view_after)
          (laws.at-add told.after.db c q.key_str s ∙ (ap (λ db. laws.at db c) same_db ∙ at)) small
          (omega arith) (i + 1) (omega arith) more in
      let index_is : (n + cnt) % 2 ^ 64 ≡ i = mod-eq_of_lt (omega arith) ∙ sym is_i in
      (
        record {
          after = rest.after;
          run = rw index_is (rw index (rw text (rw told.run (rw new (rw rest.run)))));
          view_after = rest.view_after;
        },
        at',
      )

  found-is_array :
      (c : ℕ) (d : KeyPath) (n : ℕ)
      → d.directory ≡ true
      → Record.is_array (found c d (container array n)) ≡ ok true
  unfolding Record.is_array
  found-is_array c d n h = simp h

  -- `append` of values to an array of `n` members, where the indices from `n` on have no record and
  -- the sum of the sizes is below 2 ^ 64, returns the number of values, stores each value at the
  -- next index in order, and then writes the sum as the array's size.
  pub append_values-Ends :
      (c : ℕ) (d : KeyPath) (n : ℕ) (vs : List Value) (w : World) (f g : View)
      → laws.view w.db ≡ f
      → HasContainer d array n f
      → n + length vs < 2 ^ 64
      → Appends d n vs f g
      → Ends laws
          (append_values vs (opened c d))
          w
          (length vs)
          (update g d.key_str (descriptor array (n + length vs)))
  unfolding append_values
  append_values-Ends c d n vs w f g hv con small more =
      let got = fetched_container laws c d array n w f hv con in
      let (loop, at) =
        append_from-Ends c d n 0 (length vs) vs got.ends.after f g (some d.key_str)
          got.ends.view_after got.stands small (omega arith) n (omega arith) more in
      let done =
        set_container_size-Ends laws c d array n (n + length vs) loop.after g loop.view_after at
          con.is_directory con.contains in
      record {
        after = done.after;
        run = rw got.ends.run (
            rw (found-is_array c d n con.is_directory) (
              rw (get_size-container laws c d array n con.contains)
                (rw loop.run (rw (mod-eq_of_lt small) (rw done.run)))));
        view_after = done.view_after;
      }

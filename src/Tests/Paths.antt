-- ===== src/Tests/Paths.antt =====
-- The theorems on paths at "/a/." and at members of it.
use janosh.Common.{◌∷◌, [], true, ◌≡◌, ◌↔◌, ◌≤◌, length, refl, arith}
use janosh.Result.{ok, ◌>>=◌}
use janosh.Decimal.RoundTrip.{decimal}
use janosh.Component
use janosh.Component.{Component, of_string}
use janosh.Path.{update, parent, as_directory, parse_index, above}
use janosh.Path.Compile.{compiled, IsWellFormed}
use janosh.Path.Update.{update-key_str, update-IsWellFormed, update-canonical}
use janosh.Path.Algebra.{with_child-compiled}
use janosh.Path.Family.{parent-with_child, parse_index-with_index}
use janosh.Path.Above.{IsKeyPrefix, trunk, above_iff}
use janosh.Tests.Samples.{
  a, a-HasKey, a-IsCanonical, array_dir, array_dir-IsPlain, slot, slot-IsPlain, with_index-slot,
}

update-slot : update ⦃cast = decimal⦄ (slot 1).key_str ≡ ok (slot 1)
update-slot =
    update-canonical ⦃cast = decimal⦄ (slot 1) (slot-IsPlain 1 (omega arith)).well_formed
      (slot-IsPlain 1 (omega arith)).canonical

update-key_str_example :
    (update ⦃cast = decimal⦄ (slot 1).key_str >>= λ q. ok q.key_str) ≡ ok (slot 1).key_str
update-key_str_example = update-key_str ⦃cast = decimal⦄ (slot 1).key_str (slot 1) update-slot

update-IsWellFormed_example : IsWellFormed (slot 1)
update-IsWellFormed_example =
    update-IsWellFormed ⦃cast = decimal⦄ (slot 1).key_str (slot 1) update-slot

parent-with_child_example :
    (parent ⦃cast = decimal⦄ (compiled (a ∷ a ∷ [])) ≡ as_directory ⦃cast = decimal⦄ array_dir)
    × ((as_directory ⦃cast = decimal⦄ (compiled (a ∷ a ∷ [])) >>= parent ⦃cast = decimal⦄)
        ≡ as_directory ⦃cast = decimal⦄ array_dir)
unfolding Component.is_directory Component.is_wildcard
parent-with_child_example =
    parent-with_child ⦃cast = decimal⦄ array_dir a array_dir-IsPlain a-HasKey a-IsCanonical refl
      refl (compiled (a ∷ a ∷ []))
      (with_child-compiled ⦃cast = decimal⦄ array_dir a array_dir-IsPlain a-HasKey a-IsCanonical)

parse_index-with_index_example :
    (parse_index ⦃cast = decimal⦄ (slot 3) ≡ ok 3)
    × (parent ⦃cast = decimal⦄ (slot 3) ≡ as_directory ⦃cast = decimal⦄ array_dir)
parse_index-with_index_example =
    parse_index-with_index ⦃cast = decimal⦄ array_dir 3 array_dir-IsPlain (omega arith) (slot 3)
      (with_index-slot 3 (omega arith))

above_iff_example : (above array_dir (slot 3) ≡ true) ↔ (
    (length array_dir.components ≤ length (slot 3).components)
    × IsKeyPrefix (trunk array_dir) (slot 3).components)
above_iff_example = above_iff array_dir (slot 3)
